-- ===== src/Run.antt =====
-- Programs over a state that need not return: the monad of the programs of build 2 and build 1, and
-- the rule for what they do when they return.
pub mod Leaves
use file_transfer_program.Base.{◌≡◌, refl, Bool, true, false, Option, none, some, if◌then◌else◌}

-- A call returns, waits or spins for ever, or does what C++ leaves undefined. `out_of_fuel` is the bound
-- of a loop of the model.
pub data Ran (S A : Type 0) : Type 0 where
  done : A → S → Ran S A
  stuck : S → Ran S A
  crashed : Ran S A
  out_of_fuel : Ran S A

abbrev pub M : Type 0 → Type 0 → Type 0
M S A = S → Ran S A

module _ {S : Type 0} where
  unfoldable pub pure : {A : Type 0} → A → M S A
  pure a s = done a s

  unfoldable pub gets : {A : Type 0} → (S → A) → M S A
  gets f s = done (f s) s

  unfoldable pub modify : (S → S) → M S (Unit {0})
  modify f s = done tt (f s)

  unfoldable pub crash : {A : Type 0} → M S A
  crash s = crashed

  unfoldable pub stop : {A : Type 0} → M S A
  stop s = out_of_fuel

  unfoldable pub when : Bool → M S (Unit {0}) → M S (Unit {0})
  when b m s = elim b [ true ↦ m s | false ↦ done tt s ]

infixl 5 ◌>>=◌ ◌>>◌
-- To open this opens the actions above.
unfoldable pub ◌>>=◌ : {S A B : Type 0} → M S A → (A → M S B) → M S B
unfolding pure gets modify crash stop when
◌>>=◌ m f s = elim (m s) [
  | done a t ↦ f a t
  | stuck t ↦ stuck t
  | crashed ↦ crashed
  | out_of_fuel ↦ out_of_fuel
]

abbrev pub ◌>>◌ : {S B : Type 0} → M S (Unit {0}) → M S B → M S B
m >> k = m >>= λ _. k

-- The call returns, and `P` holds of its result and of the state it leaves.
abbrev pub Returns : {S A : Type 0} → (A → S → Type 0) → Ran S A → Type 0
Returns P (done a t) = P a t
Returns P (stuck t) = ⊥
Returns P crashed = ⊥
Returns P out_of_fuel = ⊥

pub Returns-mono :
    {S A : Type 0} (P P' : A → S → Type 0) (o : Ran S A)
    → Returns P o
    → ((a : A) (t : S) → P a t → P' a t)
    → Returns P' o
Returns-mono P P' (done a t) h f = f a t h
Returns-mono P P' (stuck t) h f = h
Returns-mono P P' crashed h f = h
Returns-mono P P' out_of_fuel h f = h

pub Returns-bind :
    {S A B : Type 0} (P : A → S → Type 0) (P' : B → S → Type 0) (m : M S A) (f : A → M S B) (s : S)
    → Returns P (m s)
    → ((a : A) (t : S) → P a t → Returns P' (f a t))
    → Returns P' ((m >>= f) s)
unfolding ◌>>=◌
Returns-bind {S} {A} {B} P P' m f s h k = go (m s) h
  where
    go :
        (o : Ran S A)
        → Returns P o
        → Returns P' (elim o [
          | done a t ↦ f a t
          | stuck t ↦ stuck t
          | crashed ↦ crashed
          | out_of_fuel ↦ out_of_fuel
        ])
    go (done a t) h = k a t h
    go (stuck t) h = h
    go crashed h = h
    go out_of_fuel h = h

pub Returns-if :
    {S A : Type 0} (P : A → S → Type 0) (b : Bool) (x y : Ran S A)
    → b ≡ true
    → Returns P x
    → Returns P (if b then x else y)
Returns-if P b x y e h = rw e h

pub crashed-bind :
    {S A B : Type 0} (P : A → S → Type 0) (m : M S A) (f : A → M S B) (s : S)
    → Returns P (m s)
    → ((a : A) (t : S) → P a t → f a t ≡ crashed)
    → (m >>= f) s ≡ crashed
unfolding ◌>>=◌
crashed-bind {S} {A} {B} P m f s h k = go (m s) h
  where
    go :
        (o : Ran S A)
        → Returns P o
        → (elim o as (λ _. Ran S B) [
          | done a t ↦ f a t
          | stuck t ↦ stuck t
          | crashed ↦ crashed
          | out_of_fuel ↦ out_of_fuel
        ])
          ≡ crashed
    go (done a t) h = k a t h
    go (stuck t) h = absurd h
    go crashed h = refl
    go out_of_fuel h = absurd h

pub crashed-first :
    {S A B : Type 0} (m : M S A) (f : A → M S B) (s : S) → m s ≡ crashed → (m >>= f) s ≡ crashed
unfolding ◌>>=◌
crashed-first m f s e = rw (◌>>=◌, e) refl
