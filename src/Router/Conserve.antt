-- ===== src/Router/Conserve.antt =====
-- Every packet that reaches the router is sent on once, held back, or lost for a reason that is named.
use file_transfer_program.Base.{
  ℕ, suc, ◌≡◌, Bool, true, false, not, ◌&&◌, ◌||◌, List, [], ◌∷◌, ◌++◌, append-nil, append_assoc,
  arith, ◌==◌, leb, if◌then◌else◌, Bool-cases, inl, inr,
}
use mathlib.Core.List.{Perm, perm_append_comm}
use mathlib.Core.List.Perm
use file_transfer_program.Router.{
  Parcel, Router, Round, select_fails, recv_fails, no_socket, arrives, idle, send_proc, number,
  count_wait, forward, route, on_idle, step, run,
}

-- The parcel that is held back, if there is one.
abbrev pub held : Router → List Parcel
held r = if r.empty then [] else r.file_buf ∷ []

-- The parcel that a round brings in.
abbrev pub arrived : Round → Router → List Parcel
arrived (arrives host bytes delayed damaged down proc_down) r =
    (number host bytes (count_wait r)).0 ∷ []
arrived _ r = []

-- Whether a round sends the held parcel after one for the same host.
abbrev follows : Parcel → Router → Bool
follows temp r = not r.empty && r.file_buf.destination == temp.destination

-- What becomes of a parcel that comes in: lost is a damaged parcel, one that `sendto` fails for, or the
-- held one, if `sendto` fails for it.
abbrev pub lost_on_arrival : Parcel → Bool → Bool → Bool → Bool → Router → List Parcel
lost_on_arrival temp delayed damaged down proc_down r =
    if r.empty && delayed
    then []
    else if damaged || down
    then temp ∷ []
    else if not r.empty && r.file_buf.destination == temp.destination && proc_down
    then r.file_buf ∷ []
    else []

abbrev pub lost : Round → Router → List Parcel
lost (arrives host bytes delayed damaged down proc_down) r =
    let (temp, r') = number host bytes (count_wait r) in
    lost_on_arrival temp delayed damaged down proc_down r'
lost (idle proc_down) r =
    if not r.empty && leb 3 (suc r.wait_count) && proc_down then r.file_buf ∷ [] else []
lost _ r = []

-- If `wait_count` is 0 whenever the buffer is empty before a round, then so it is after the round.
pub step-wait_count :
    (e : Round) (r : Router)
    → (r.empty ≡ true → r.wait_count ≡ 0)
    → (step e r).empty ≡ true
    → (step e r).wait_count ≡ 0
unfolding step number count_wait route forward send_proc on_idle
step-wait_count select_fails r h = h
step-wait_count recv_fails r h = ground arith
step-wait_count no_socket r h = ground arith
step-wait_count (arrives host bytes delayed damaged down proc_down) r h = ground arith
step-wait_count (idle proc_down) r h = ground arith

-- What the router has sent or holds, and what it has lost.
abbrev pub kept : Router → List Parcel
kept r = r.delivered ++ held r

module _ (f : Parcel) (c1 c2 w : ℕ) (d : List Parcel) where
  -- A router with its buffer empty or full.
  abbrev router : Bool → Router
  router empty = record {
    empty = empty;
    file_buf = f;
    count1 = c1;
    count2 = c2;
    wait_count = w;
    delivered = d;
  }

  swap_end : (x y : Parcel) → Perm (d ++ x ∷ y ∷ []) (d ++ y ∷ x ∷ [])
  swap_end x y = Perm.append (Perm.refl d) (Perm.swap y x [])

  route-perm :
      (temp : Parcel) (empty delayed damaged down proc_down : Bool)
      → Perm
          (kept (route temp delayed damaged down proc_down (router empty))
            ++ lost_on_arrival temp delayed damaged down proc_down (router empty))
          (kept (router empty) ++ temp ∷ [])
  unfolding route forward send_proc
  route-perm temp true true damaged down proc_down = simp (append_assoc, append-nil) (Perm.refl _)
  route-perm temp true false true down proc_down = simp (append_assoc, append-nil) (Perm.refl _)
  route-perm temp true false false true proc_down = simp (append_assoc, append-nil) (Perm.refl _)
  route-perm temp true false false false proc_down = simp (append_assoc, append-nil) (Perm.refl _)
  route-perm temp false delayed true down proc_down = simp (append_assoc, append-nil) (Perm.refl _)
  route-perm temp false delayed false true proc_down = simp (append_assoc, append-nil) (Perm.refl _)
  route-perm temp false delayed false false proc_down =
      elim (Bool-cases (f.destination == temp.destination)) [
        | inl e ↦ rw e (flushed proc_down)
        | inr e ↦ rw e (simp (append_assoc, append-nil) (swap_end temp f))
      ]
    where
      flushed :
          (proc_down : Bool)
          → Perm
              (((if proc_down then d ++ temp ∷ [] else (d ++ temp ∷ []) ++ f ∷ []) ++ [])
                ++ (if proc_down then f ∷ [] else []))
              ((d ++ f ∷ []) ++ temp ∷ [])
      flushed true = simp (append_assoc, append-nil) (swap_end temp f)
      flushed false = simp (append_assoc, append-nil) (swap_end temp f)

module _ (f : Parcel) (c1 c2 w : ℕ) (d : List Parcel) where
  idle-perm :
      (empty proc_down : Bool)
      → Perm
          (kept (on_idle proc_down (router f c1 c2 w d empty))
            ++ lost (idle proc_down) (router f c1 c2 w d empty))
          (kept (router f c1 c2 w d empty) ++ [])
  unfolding on_idle send_proc
  idle-perm true proc_down = Perm.refl _
  idle-perm false true = elim (Bool-cases (leb 3 (suc w))) [
    | inl e ↦ rw e (simp (append_assoc, append-nil) (Perm.refl _))
    | inr e ↦ rw e (Perm.refl _)
  ]
  idle-perm false false = elim (Bool-cases (leb 3 (suc w))) [
    | inl e ↦ rw e (simp append_assoc (Perm.refl _))
    | inr e ↦ rw e (Perm.refl _)
  ]

kept-number :
    (host : ℕ) (bytes : List ℕ) (r : Router) → kept (number host bytes (count_wait r)).1 ≡ kept r
unfolding number count_wait
kept-number host bytes r = ground arith

-- The parcels sent or held after a round, with those it lost, are those before it with the one that
-- came: the router neither makes up nor repeats a parcel.
pub step-perm :
    (e : Round) (r : Router) → Perm (kept (step e r) ++ lost e r) (kept r ++ arrived e r)
unfolding step
step-perm select_fails r = Perm.refl _
step-perm recv_fails r = unfold count_wait in Perm.refl _
step-perm no_socket r = unfold count_wait in Perm.refl _
step-perm (arrives host bytes delayed damaged down proc_down) r =
    let (temp, r') = number host bytes (count_wait r) in
    rw (← kept-number host bytes r) (
      route-perm r'.file_buf r'.count1 r'.count2 r'.wait_count r'.delivered temp r'.empty delayed
        damaged down proc_down)
step-perm (idle proc_down) r =
    idle-perm r.file_buf r.count1 r.count2 r.wait_count r.delivered r.empty proc_down

-- What arrives, and what is lost, in the rounds of a run.
abbrev pub all_arrived : List Round → Router → List Parcel
all_arrived [] r = []
all_arrived (e ∷ es) r = arrived e r ++ all_arrived es (step e r)

abbrev pub all_lost : List Round → Router → List Parcel
all_lost [] r = []
all_lost (e ∷ es) r = lost e r ++ all_lost es (step e r)

-- Over any run, the parcels that were sent, the one that is held and those that were lost are the ones
-- that arrived and those that were there before, each as often: nothing is made up or sent twice.
pub run-perm :
    (es : List Round) (r : Router)
    → Perm (kept (run es r) ++ all_lost es r) (kept r ++ all_arrived es r)
unfolding run
run-perm [] r = Perm.refl _
run-perm (e ∷ es) r =
    let l = lost e r in
    let a = arrived e r in
    let k = kept (run es (step e r)) in
    let ls = all_lost es (step e r) in
    let as' = all_arrived es (step e r) in
    let front : Perm (k ++ (l ++ ls)) (l ++ (k ++ ls)) =
      rw (← append_assoc l k ls, ← append_assoc k l ls)
        (Perm.append_right ls (perm_append_comm k l)) in
    let later : Perm (l ++ (k ++ ls)) (l ++ (kept (step e r) ++ as')) =
      Perm.append_left l (run-perm es (step e r)) in
    let back : Perm (l ++ (kept (step e r) ++ as')) ((kept (step e r) ++ l) ++ as') =
      rw (← append_assoc l (kept (step e r)) as')
        (Perm.append_right as' (perm_append_comm l (kept (step e r)))) in
    let now : Perm ((kept (step e r) ++ l) ++ as') (kept r ++ (a ++ as')) =
      rw (← append_assoc (kept r) a as') (Perm.append_right as' (step-perm e r)) in
    Perm.trans front (Perm.trans later (Perm.trans back now))
