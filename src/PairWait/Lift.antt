-- ===== src/PairWait/Lift.antt =====
-- What a call does that needs only the members that build 2 has too.
use file_transfer_program.Run.{Ran, done, stuck, crashed, out_of_fuel, Returns}
use file_transfer_program.StopWait.State
use file_transfer_program.PairWait.State.{Host, lift}

pub Returns-lift :
    {A : Type 0} (P : A → Host → Type 0) (m : State.M A) (h : Host)
    → Returns (λ a b. P a (record h { base = b })) (m h.base)
    → Returns P (lift m h)
unfolding lift
Returns-lift {A} P m h r = go (m h.base) r
  where
    go :
        (o : Ran State.Host A)
        → Returns (λ a b. P a (record h { base = b })) o
        → Returns P (elim o as (λ _. Ran Host A) [
          | done a b ↦ done a (record h { base = b })
          | stuck b ↦ stuck (record h { base = b })
          | crashed ↦ crashed
          | out_of_fuel ↦ out_of_fuel
        ])
    go (done a b) r = r
    go (stuck b) r = r
    go crashed r = r
    go out_of_fuel r = r
