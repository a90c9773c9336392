-- ===== src/Sock/Window/Remove.antt =====
-- `remove_packets_from_win`: the frames up to the acknowledged one leave, the others keep their order.
use file_transfer_program.Base.{
  ℕ, suc, ◌+◌, ◌-◌, ◌≤◌, ◌<◌, ◌≡◌, ◌≢◌, ◌&&◌, some, arith, ◌==◌, ltb, refl, Bool-cases,
  Option-cases, inl, inr,
}
use file_transfer_program.Protocol.{mask, sub_u32}
use file_transfer_program.Sock.State.{Sock}
use file_transfer_program.Sock.Window.{
  Acks, find_seq, remove_found, remove_missing, remove_packets_from_win,
}
use file_transfer_program.Sock.Window.Arrays.{move_left_lem, find_seq-some, find_seq_at}

-- The frames of the window have consecutive numbers that end before `seq`, and fewer than
-- SEQUENCE_NUM_MAX of them fit.
pub record IsWindow (s : Sock) : Type 0 where
  pub fits : s.win_buf_pos ≤ s.w_size
  pub small : s.w_size < 32
  pub masked : (i : ℕ) → i < s.win_buf_pos → (s.win_buf i).seq < 32
  pub numbered :
      (i : ℕ) → i < s.win_buf_pos → mask ((s.win_buf i).seq + (s.win_buf_pos - i)) ≡ mask s.seq

-- The window of `t` is that of `s` without its first `n` frames.
pub record Dropped (n : ℕ) (s t : Sock) : Type 0 where
  pub count : t.win_buf_pos + n ≡ s.win_buf_pos
  pub shifted : (j : ℕ) → j < t.win_buf_pos → t.win_buf j ≡ s.win_buf (n + j)
  pub size : t.w_size ≡ s.w_size
  pub counter : t.seq ≡ s.seq

-- Dropping frames keeps the numbering.
pub Dropped-IsWindow : (n : ℕ) (s t : Sock) → Dropped n s t → IsWindow s → IsWindow t
Dropped-IsWindow n s t d w = record {
  fits = omega (arith, d.count, d.size, w.fits);
  small = omega (arith, d.size, w.small);
  masked = λ i l.
      let m : (s.win_buf (n + i)).seq < 32 = w.masked (n + i) (omega (arith, d.count)) in
      ground (arith, d.shifted i);
  numbered = λ i l.
      let m = w.numbered (n + i) (omega (arith, d.count)) in
      let e : s.win_buf_pos - (n + i) ≡ t.win_buf_pos - i = omega (arith, d.count) in
      ground (arith, d.shifted i, d.counter);
}

-- Two slots of the window never have one number.
pub seq_injective :
    (s : Sock) (i j : ℕ)
    → IsWindow s
    → i < j
    → j < s.win_buf_pos
    → (s.win_buf i).seq ≢ (s.win_buf j).seq
seq_injective s i j w l u e =
    omega (arith, w.numbered i (omega arith), w.numbered j u, w.masked j u, w.fits, w.small)

pub find_seq-IsWindow :
    (s : Sock) (k : ℕ)
    → IsWindow s
    → k < s.win_buf_pos
    → find_seq s.win_buf (s.win_buf k).seq s.win_buf_pos 0 ≡ some k
find_seq-IsWindow s k w l =
    find_seq_at s.win_buf (s.win_buf k).seq s.win_buf_pos 0 k (omega arith) (omega arith) refl
      (λ m p q. seq_injective s m k w q l)

remove_found-Dropped :
    (s : Sock) (acks : Acks) (n : ℕ)
    → 0 < n
    → n ≤ s.win_buf_pos
    → s.win_buf_pos ≤ s.w_size
    → Dropped n s (remove_found s acks n).0
unfolding remove_found
remove_found-Dropped s acks n pos le fits =
    elim (Bool-cases (ltb 0 (s.win_buf_pos - n) && ltb (s.win_buf_pos - n) s.w_size)) [
      | inl e ↦ rw e (record {
        count = omega arith;
        shifted = λ j l. ground (arith, move_left_lem (s.win_buf_pos - n) 0 n s.win_buf j);
        size = refl;
        counter = refl;
      })
      | inr e ↦ rw e (record {
        count = omega arith;
        shifted = λ j l. absurd (ground arith);
        size = refl;
        counter = refl;
      })
    ]

-- The number of the frame in slot `k` of a numbered window takes out that frame and the `k` before
-- it: the others move to the front in their order, and the window's size and the next number stay.
pub remove_packets_from_win-Dropped :
    (s : Sock) (acks : Acks) (k : ℕ)
    → IsWindow s
    → k < s.win_buf_pos
    → Dropped (suc k) s (remove_packets_from_win (s.win_buf k).seq acks s).0
unfolding remove_packets_from_win
remove_packets_from_win-Dropped s acks k w l =
    rw (find_seq-IsWindow s k w l, remove_packets_from_win)
      (remove_found-Dropped s acks (suc k) (omega arith) (omega arith) w.fits)

remove_missing-IsWindow : (s : Sock) (r : ℕ) → IsWindow s → IsWindow (remove_missing s r)
unfolding remove_missing
remove_missing-IsWindow s r w = elim (Bool-cases ((s.win_buf s.win_buf_pos).seq == sub_u32 r 1)) [
  | inl e ↦ rw e (record {
    fits = omega arith;
    small = w.small;
    masked = λ i l. absurd (omega arith);
    numbered = λ i l. absurd (omega arith);
  })
  | inr e ↦ rw e w
]

-- A numbered window stays numbered, whatever the number that is removed, also one that no frame has.
pub remove_packets_from_win-IsWindow :
    (s : Sock) (acks : Acks) (r : ℕ) → IsWindow s → IsWindow (remove_packets_from_win r acks s).0
unfolding remove_packets_from_win
remove_packets_from_win-IsWindow s acks r w =
    elim (Option-cases (find_seq s.win_buf r s.win_buf_pos 0)) [
      | inl e ↦ rw (e, remove_packets_from_win) (remove_missing-IsWindow s r w)
      | inr (k, e) ↦
          let found = find_seq-some s.win_buf r s.win_buf_pos 0 k e in
          rw (e, remove_packets_from_win)
            (Dropped-IsWindow (suc k) s _
              (remove_found-Dropped s acks (suc k) (omega arith) (omega (arith, found.1)) w.fits) w)
    ]
