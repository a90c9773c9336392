-- ===== src/Router/Flush.antt =====
-- A packet that is held back leaves the router when no other packet comes.
use file_transfer_program.Base.{
  suc, ◌≡◌, ◌≤◌, true, false, [], ◌∷◌, ◌++◌, arith, leb, refl, Bool-cases, inl, inr,
}
use file_transfer_program.Router.{Router, idle, on_idle, step, run}

abbrev pub Flushed : Router → Router → Type 0
Flushed r t = (t.delivered ≡ r.delivered ++ r.file_buf ∷ []) × (t.empty ≡ true) × (t.wait_count ≡ 0)

-- An idle round sends the parcel, or has counted.
idle-Flushed : (r : Router) → r.empty ≡ false → 2 ≤ r.wait_count → Flushed r (on_idle false r)
unfolding on_idle
idle-Flushed r e l =
    let third : leb 3 (suc r.wait_count) ≡ true = ground arith in rw (e, third) (refl, refl, refl)

idle_waits :
    (r : Router)
    → r.empty ≡ false
    → leb 3 (suc r.wait_count) ≡ false
    → on_idle false r ≡ record r { wait_count = suc r.wait_count }
unfolding on_idle
idle_waits r e l = rw (e, l) refl

idle_rests : (r : Router) → r.empty ≡ true → on_idle false r ≡ r
unfolding on_idle
idle_rests r e = rw e refl

rests-Flushed : (r t : Router) → Flushed r t → Flushed r (on_idle false t)
rests-Flushed r t h = rw (idle_rests t h.1) h

twice-Flushed :
    (r : Router) → r.empty ≡ false → 1 ≤ r.wait_count → Flushed r (on_idle false (on_idle false r))
twice-Flushed r e l = elim (Bool-cases (leb 3 (suc r.wait_count))) [
  | inl third ↦ rests-Flushed r (on_idle false r) (idle-Flushed r e (ground arith))
  | inr early ↦
      rw (idle_waits r e early)
        (idle-Flushed (record r { wait_count = suc r.wait_count }) e (omega arith))
]

-- Three idle rounds in a row, in which `sendto` works, send the parcel that is held back, once, and leave
-- the buffer empty and `wait_count` 0.
pub run-idle :
    (r : Router) → r.empty ≡ false → Flushed r (run (idle false ∷ idle false ∷ idle false ∷ []) r)
unfolding run step
run-idle r e = elim (Bool-cases (leb 3 (suc r.wait_count))) [
  | inl third ↦
      rests-Flushed r (on_idle false (on_idle false r))
        (rests-Flushed r (on_idle false r) (idle-Flushed r e (ground arith)))
  | inr early ↦
      rw (idle_waits r e early)
        (twice-Flushed (record r { wait_count = suc r.wait_count }) e (omega arith))
]
