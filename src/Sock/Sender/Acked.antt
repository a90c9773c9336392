-- ===== src/Sock/Sender/Acked.antt =====
-- `udp_sendtoEx` with a peer that acknowledges the frames of the window in their order.
pub mod Loop
use file_transfer_program.Base.{
  ℕ, zero, suc, ◌+◌, ◌-◌, ◌≤◌, ◌<◌, ◌≡◌, ◌≢◌, Bool, true, false, not, some, List, [], ◌∷◌, length,
  arith, ◌==◌, ltb, ◌&&◌, refl, ap, ◌∙◌, eq→==, Bool-cases, inl, inr,
}
use file_transfer_program.Protocol.{acktype_ack}
use file_transfer_program.Sock.State.{
  Sock, Event, select_error, select_timeout, recv_closed, recv_error, datagram, M, when, pure,
}
use file_transfer_program.Sock.Wire.{
  Received, timed_out, got, packet_size, recv_loop, lib_recvfrom, lib_sendto,
}
use file_transfer_program.Sock.Window.{
  Acks, no_acks, update, clear_from, move_left, remove_found, remove_packets_from_win, get_max_seq,
}
use file_transfer_program.Sock.Window.Arrays.{move_left_lem}
use file_transfer_program.Sock.Window.Remove.{
  IsWindow, Dropped, Dropped-IsWindow, find_seq-IsWindow, remove_packets_from_win-Dropped,
}
use file_transfer_program.Sock.Window.Acked.{IsRun, get_max_seq-IsRun}
use file_transfer_program.Sock.Sender.{
  Reply, finish, go_on, send_slot, on_ack, on_frame, resume, next_round, send_window_loop,
  udp_sendto_ex,
}
use file_transfer_program.Sock.Sender.Invariant.{IsWindow-same, arrivals-remove}
use file_transfer_program.Sock.Receiver.Accept.{Sure, Sure-bind}

-- The next `n` events are whole ACK frames with the numbers `w 0`, `w 1`, ….
abbrev pub Acknowledged : ℕ → (ℕ → ℕ) → List Event → Type 0
Acknowledged zero w es = Unit
Acknowledged (suc n) w (datagram from size p ∷ es) =
    (size ≡ packet_size)
    × (p.ack_type ≡ acktype_ack)
    × (p.seq ≡ w 0)
    × Acknowledged n (λ j. w (suc j)) es
Acknowledged (suc n) w _ = ⊥

pub Acknowledged-ap :
    (n : ℕ) (w w' : ℕ → ℕ) (es : List Event)
    → ((j : ℕ) → j < n → w j ≡ w' j)
    → Acknowledged n w es
    → Acknowledged n w' es
Acknowledged-ap zero w w' es f h = tt
Acknowledged-ap (suc n) w w' [] f h = h
Acknowledged-ap (suc n) w w' (select_error ∷ es) f h = h
Acknowledged-ap (suc n) w w' (select_timeout ∷ es) f h = h
Acknowledged-ap (suc n) w w' (recv_closed ∷ es) f h = h
Acknowledged-ap (suc n) w w' (recv_error ∷ es) f h = h
Acknowledged-ap (suc n) w w' (datagram from size p ∷ es) f (a, b, c, rest) = (
  a,
  b,
  c ∙ f 0 (omega arith),
  Acknowledged-ap n (λ j. w (suc j)) (λ j. w' (suc j)) es (λ j l. f (suc j) (omega arith)) rest,
)

-- The window of `t` is that of `s`.
abbrev pub SameWindow : Sock → Sock → Type 0
SameWindow s t =
    (t.win_buf ≡ s.win_buf)
    × (t.win_buf_pos ≡ s.win_buf_pos)
    × (t.w_size ≡ s.w_size)
    × (t.seq ≡ s.seq)

abbrev pub Next : ℕ → (ℕ → ℕ) → List Event → Sock → Received → Sock → Type 0
Next n w es s timed_out t = ⊥
Next n w es s (got p) t =
    (p.ack_type ≡ acktype_ack)
    × (p.seq ≡ w 0)
    × Acknowledged n (λ j. w (suc j)) t.arrivals
    × (length t.arrivals < length es)
    × SameWindow s t

pub recv_loop-Next :
    (n : ℕ) (w : ℕ → ℕ) (es : List Event) (s : Sock)
    → Acknowledged (suc n) w es
    → Sure (Next n w es s) (recv_loop 7 es s)
unfolding recv_loop
recv_loop-Next n w [] s h = absurd h
recv_loop-Next n w (select_error ∷ es) s h = absurd h
recv_loop-Next n w (select_timeout ∷ es) s h = absurd h
recv_loop-Next n w (recv_closed ∷ es) s h = absurd h
recv_loop-Next n w (recv_error ∷ es) s h = absurd h
recv_loop-Next n w (datagram from size p ∷ es) s (a, b, c, rest) =
    rw (eq→== size packet_size a) (b, c, rest, omega arith, (refl, refl, refl, refl))

-- What the ACK of the first frame leads to: the window without it.
abbrev pub Step : Sock → Reply → Sock → Type 0
Step s (finish left) t = (left ≡ 0) × (t.win_buf_pos ≡ 0) × (s.win_buf_pos ≡ 1)
Step s (go_on wait acks) t =
    (wait ≡ true)
    × ((k : ℕ) → acks k ≡ 0)
    × Dropped 1 s t
    × (t.arrivals ≡ s.arrivals)
    × (1 < s.win_buf_pos)

first-IsRun : (n : ℕ) (acks : Acks) → 0 < n → ((k : ℕ) → acks k ≡ 0) → IsRun n (update acks 0 1) 1
first-IsRun n acks l z = record {
  within = omega arith;
  set = λ m q. let e : m ≡ 0 = omega arith in rw e λ x. omega (arith, x);
  ends = λ q. z 1;
}

reported :
    (s : Sock) (acks : Acks)
    → IsWindow s
    → 0 < s.win_buf_pos
    → ((k : ℕ) → acks k ≡ 0)
    → get_max_seq s (s.win_buf 0).seq acks ≡ some (update acks 0 1, some (s.win_buf 0).seq)
reported s acks w l z = get_max_seq-IsRun s acks 0 1 w l (first-IsRun s.win_buf_pos acks l z)

moved_zero :
    (n k : ℕ) (acks : Acks)
    → n < 32
    → ((k : ℕ) → acks k ≡ 0)
    → clear_from n (move_left n 0 1 (update acks 0 1)) k ≡ 0
moved_zero n k acks l z = ground (arith, move_left_lem n 0 1 (update acks 0 1) k, z (1 + k), z k)

-- After the first frame has gone, no tag is set.
cleared :
    (s : Sock) (acks : Acks) (k : ℕ)
    → IsWindow s
    → 1 < s.win_buf_pos
    → ((k : ℕ) → acks k ≡ 0)
    → (remove_packets_from_win (s.win_buf 0).seq (update acks 0 1) s).1 k ≡ 0
unfolding remove_packets_from_win remove_found
cleared s acks k w l z =
    let g : ltb 0 (s.win_buf_pos - 1) && ltb (s.win_buf_pos - 1) s.w_size ≡ true =
      ground (arith, w.fits) in
    rw (find_seq-IsWindow s 0 w (omega arith), remove_packets_from_win)
      (rw (g, remove_found)
        (moved_zero (s.win_buf_pos - 1) k acks (omega (arith, w.fits, w.small)) z))

pub on_ack-Step :
    (s : Sock) (acks : Acks)
    → IsWindow s
    → 0 < s.win_buf_pos
    → ((k : ℕ) → acks k ≡ 0)
    → Sure (Step s) (on_ack (s.win_buf 0).seq acks s)
unfolding on_ack
on_ack-Step s acks w l z =
    let d = remove_packets_from_win-Dropped s (update acks 0 1) 0 w l in
    let t = (remove_packets_from_win (s.win_buf 0).seq (update acks 0 1) s).0 in
    elim (Bool-cases (t.win_buf_pos == 0)) [
      | inl e ↦
          let q : t.win_buf_pos ≡ 0 = ground arith in
          rw (reported s acks w l z, on_ack) (rw e (refl, q, omega (arith, d.count, q)))
      | inr e ↦
          let q : t.win_buf_pos ≢ 0 = ground arith in
          rw (reported s acks w l z, on_ack)
            (rw e (
              refl,
              (λ k. cleared s acks k w (omega (arith, d.count, q)) z),
              d,
              arrivals-remove s (update acks 0 1) (s.win_buf 0).seq,
              omega (arith, d.count, q),
            ))
    ]

abbrev pub Emptied : ℕ → Sock → Type 0
Emptied left t = (left ≡ 0) × (t.win_buf_pos ≡ 0)
