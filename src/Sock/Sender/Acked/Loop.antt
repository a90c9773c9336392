-- ===== src/Sock/Sender/Acked/Loop.antt =====
-- The loop of `udp_sendtoEx` while the frames of the window are acknowledged in their order.
use file_transfer_program.Base.{
  ℕ, zero, suc, ◌+◌, ◌≤◌, ◌<◌, ◌≡◌, Bool, true, false, not, List, length, arith, refl, ap, ◌∙◌,
}
use file_transfer_program.Sock.State.{Sock, Event, M, when, pure}
use file_transfer_program.Sock.Wire.{Received, timed_out, got, lib_recvfrom, lib_sendto}
use file_transfer_program.Sock.Window.{Acks, no_acks}
use file_transfer_program.Sock.Window.Remove.{IsWindow, Dropped-IsWindow}
use file_transfer_program.Sock.Sender.{
  Reply, finish, go_on, send_slot, on_frame, resume, next_round, send_window_loop, udp_sendto_ex,
}
use file_transfer_program.Sock.Sender.Invariant.{IsWindow-same}
use file_transfer_program.Sock.Receiver.Accept.{Sure, Sure-bind}
use file_transfer_program.Sock.Sender.Acked.{
  Acknowledged, Acknowledged-ap, SameWindow, Next, recv_loop-Next, Step, on_ack-Step, Emptied,
}

abbrev Loops : ℕ → (ℕ → Bool → Acks → M ℕ) → Type 0
Loops fuel loop =
    (n retry : ℕ) (acks : Acks) (s : Sock)
    → IsWindow s
    → s.win_buf_pos ≡ suc n
    → Acknowledged (suc n) (λ j. (s.win_buf j).seq) s.arrivals
    → ((k : ℕ) → acks k ≡ 0)
    → length s.arrivals < fuel
    → Sure Emptied (loop (suc retry) true acks s)

resume-Emptied :
    (n fuel retry : ℕ) (loop : ℕ → Bool → Acks → M ℕ) (s t : Sock) (next : Reply)
    → Loops fuel loop
    → IsWindow s
    → s.win_buf_pos ≡ suc n
    → Acknowledged n (λ j. (s.win_buf (suc j)).seq) s.arrivals
    → length s.arrivals < fuel
    → Step s next t
    → Sure Emptied (resume loop (suc retry) next t)
unfolding resume pure
resume-Emptied n fuel retry loop s t (finish left) k w e h l q = (q.0, q.1)
resume-Emptied zero fuel retry loop s t (go_on wait acks) k w e h l (a, z, d, same, more) =
    absurd (omega arith)
resume-Emptied (suc n) fuel retry loop s t (go_on wait acks) k w e h l (a, z, d, same, more) =
    rw a (
      k n retry acks t (Dropped-IsWindow 1 s t d w) (omega (arith, d.count))
        (rw same (
          Acknowledged-ap (suc n) (λ j. (s.win_buf (suc j)).seq) (λ j. (t.win_buf j).seq) s.arrivals
            (λ j q.
              let one : 1 + j ≡ suc j = omega arith in
              rw (d.shifted j (omega (arith, d.count)), one) refl)
            h))
        z (rw same l))

next_round-Emptied :
    (n fuel retry : ℕ) (loop : ℕ → Bool → Acks → M ℕ) (wait : Bool) (acks : Acks) (s : Sock)
    (r : Received) (es : List Event) (u : Sock)
    → Loops fuel loop
    → IsWindow s
    → s.win_buf_pos ≡ suc n
    → ((k : ℕ) → acks k ≡ 0)
    → length es ≤ fuel
    → Next n (λ j. (s.win_buf j).seq) es s r u
    → Sure Emptied (next_round loop retry wait acks r u)
unfolding next_round on_frame
next_round-Emptied n fuel retry loop wait acks s timed_out es u k w e z l h = absurd h
next_round-Emptied n fuel retry loop wait acks s (got p) es u k w e z l (a, q, rest, less, b) =
    let first : p.seq ≡ (u.win_buf 0).seq = rw b.0 q in
    let w' = IsWindow-same s u b.0 b.1 b.2 b.3 w in
    let acked : Sure (Step u) (on_frame p wait acks u) =
      rw (a, first, on_frame) (on_ack-Step u acks w' (rw b.1 (omega arith)) z) in
    Sure-bind (Step u) Emptied (on_frame p wait acks) _ u acked λ next t st.
      resume-Emptied n fuel retry loop u t next k w' (b.1 ∙ e) (rw b.0 rest) (omega arith) st

send_window_loop-Emptied :
    (fuel slot : ℕ) → Loops fuel (λ retry wait acks. send_window_loop fuel retry wait acks slot)
unfolding send_window_loop lib_recvfrom when
send_window_loop-Emptied zero slot n retry acks s w e h z l = absurd (omega arith)
send_window_loop-Emptied (suc fuel) slot n retry acks s w e h z l =
    Sure-bind (λ _ u. u ≡ s) Emptied (when (not true) (send_slot slot)) _ s refl
      λ _ u same.
        Sure-bind (Next n (λ j. (s.win_buf j).seq) s.arrivals s) Emptied lib_recvfrom _ u
          (rw same (recv_loop-Next n (λ j. (s.win_buf j).seq) s.arrivals s h))
          λ r v hv.
            next_round-Emptied n fuel retry _ true acks s r s.arrivals v
              (send_window_loop-Emptied fuel slot) w e z (omega arith) hv

send_slot-Same :
    (slot : ℕ) (s : Sock)
    → s.send_down s.send_calls ≡ false
    → Sure (λ _ u. SameWindow s u × (u.arrivals ≡ s.arrivals)) (send_slot slot s)
unfolding send_slot lib_sendto
send_slot-Same slot s up = rw up ((refl, refl, refl, refl), refl)

-- When the frames of a window are acknowledged in their order, each by the next packet to come, and the
-- frame in `slot` can be sent, `udp_sendtoEx` returns 0 and the window is empty.
pub udp_sendto_ex-Emptied :
    (n slot : ℕ) (s : Sock)
    → IsWindow s
    → s.win_buf_pos ≡ suc n
    → s.send_down s.send_calls ≡ false
    → Acknowledged (suc n) (λ j. (s.win_buf j).seq) s.arrivals
    → Sure Emptied (udp_sendto_ex slot s)
unfolding udp_sendto_ex send_window_loop lib_recvfrom when
udp_sendto_ex-Emptied n slot s w e up h =
    let m = length s.arrivals in
    Sure-bind (λ _ u. SameWindow s u × (u.arrivals ≡ s.arrivals)) Emptied
      (when (not false) (send_slot slot)) _ s (send_slot-Same slot s up)
      λ _ u (b, same).
        let w' = IsWindow-same s u b.0 b.1 b.2 b.3 w in
        Sure-bind (Next n (λ j. (u.win_buf j).seq) u.arrivals u) Emptied lib_recvfrom _ u
          (recv_loop-Next n (λ j. (u.win_buf j).seq) u.arrivals u (rw (b.0, same) h))
          λ r v hv.
            next_round-Emptied n m 999 _ false no_acks u r u.arrivals v
              (send_window_loop-Emptied m slot) w' (b.1 ∙ e) (λ k. refl)
              (omega (arith, ap length same)) hv
