-- ===== src/Sock/Sender/Delivered.antt =====
-- Whole sends to a peer that acknowledges the frames of the window in their order.
use file_transfer_program.Base.{
  ℕ, zero, suc, ◌-◌, ◌<◌, ◌≡◌, true, false, arith, ◌==◌, ltb, refl, ◌∙◌, first,
}
use file_transfer_program.Protocol.{Packet, mask, acktype_request, buffer_length}
use file_transfer_program.Protocol.Codec.{Memory}
use file_transfer_program.Sock.State.{Sock, pure, gets, modify, ◌>>=◌}
use file_transfer_program.Sock.Wire.{lib_sendto, add_udpheader}
use file_transfer_program.Sock.Window.Remove.{IsWindow}
use file_transfer_program.Sock.Sender.{
  send_slot, send_slots, send_all_win_packets, flush_next, flush_loop, flush, push_frame,
  copy_2_winbuf, sock_sendto_ex,
}
use file_transfer_program.Sock.Sender.Invariant.{IsWindow-same}
use file_transfer_program.Sock.Sender.Acked.{Acknowledged, Acknowledged-ap, SameWindow, Emptied}
use file_transfer_program.Sock.Sender.Acked.Loop.{udp_sendto_ex-Emptied}
use file_transfer_program.Sock.Sender.Transfer.{pushed, pushed-IsWindow}
use file_transfer_program.Sock.Receiver.Accept.{Sure, Sure-mono, Sure-bind}

-- Nothing has changed but what was sent.
abbrev Sent : Sock → Sock → Type 0
Sent s u = SameWindow s u × (u.arrivals ≡ s.arrivals) × (u.send_down ≡ s.send_down)

send_slot-Sent :
    (slot : ℕ) (s : Sock)
    → ((k : ℕ) → s.send_down k ≡ false)
    → Sure (λ _. Sent s) (send_slot slot s)
unfolding send_slot lib_sendto
send_slot-Sent slot s up = rw (up s.send_calls) ((refl, refl, refl, refl), refl, refl)

send_slots-Sent :
    (n i : ℕ) (s : Sock) → ((k : ℕ) → s.send_down k ≡ false) → Sure (λ _. Sent s) (send_slots n i s)
unfolding send_slots pure
send_slots-Sent zero i s up = ((refl, refl, refl, refl), refl, refl)
send_slots-Sent (suc n) i s up =
    Sure-bind (λ _. Sent s) (λ _. Sent s) (send_slot i) _ s (send_slot-Sent i s up)
      λ _ t (a, b, c).
        Sure-mono (λ _. Sent t) (λ _. Sent s) (send_slots n (suc i) t)
          (send_slots-Sent n (suc i) t (rw c up))
          λ _ u (a', b', c'). ((a'.0 ∙ a.0, a'.1 ∙ a.1, a'.2 ∙ a.2, a'.3 ∙ a.3), b' ∙ b, c' ∙ c)

module _ (n : ℕ) (s : Sock) (w : IsWindow s) (e : s.win_buf_pos ≡ suc n)
    (up : (k : ℕ) → s.send_down k ≡ false)
    (h : Acknowledged (suc n) (λ j. (s.win_buf j).seq) s.arrivals) where
  send_all_win_packets-Emptied : Sure Emptied (send_all_win_packets s)
  unfolding send_all_win_packets gets
  send_all_win_packets-Emptied =
      Sure-bind (λ k u. (k ≡ suc n) × (u ≡ s)) Emptied (gets (λ t. t.win_buf_pos)) _ s (e, refl)
        λ k u (ek, eu).
          Sure-bind (λ _. Sent s) Emptied (send_slots (k - 1) 0) _ u
            (rw eu (send_slots-Sent (k - 1) 0 s up))
            λ _ t (a, b, c).
              udp_sendto_ex-Emptied n (k - 1) t (IsWindow-same s t a.0 a.1 a.2 a.3 w) (a.1 ∙ e)
                (rw c (up t.send_calls)) (rw (a.0, b) h)

  -- When `sendto` works and the frames of a numbered window, at least one, are acknowledged in their
  -- order, each by the next packet to come, the loop over the window returns 0 and the window is
  -- empty.
  pub flush-Emptied : Sure Emptied (flush s)
  unfolding flush flush_loop gets flush_next pure
  flush-Emptied =
      Sure-bind Emptied Emptied send_all_win_packets _ s send_all_win_packets-Emptied λ ret t q.
        Sure-bind (λ left u. (left ≡ 0) × (u ≡ t)) Emptied (gets (λ u. u.win_buf_pos)) _ t
          (q.1, refl) λ left u (el, eu). rw (q.0, eu) (refl, q.1)

-- The frame that `buf` goes out in.
abbrev framed : Memory → Sock → Packet
framed buf s = record {
  seq = mask s.seq;
  ack_type = acktype_request;
  payload = first buffer_length buf;
}

push_frame-pushed :
    (buf : Memory) (s : Sock)
    → s.win_buf_pos < s.w_size
    → Sure (λ _ u. u ≡ pushed (framed buf s) s) (push_frame buf s)
unfolding push_frame add_udpheader gets modify pure ◌>>=◌
push_frame-pushed buf s l = let e : ltb s.win_buf_pos s.w_size ≡ true = ground arith in rw e refl

copy_2_winbuf-pushed :
    (buf : Memory) (s : Sock)
    → suc s.win_buf_pos < s.w_size
    → Sure (λ _ u. u ≡ pushed (framed buf s) s) (copy_2_winbuf buf s)
unfolding copy_2_winbuf gets pure
copy_2_winbuf-pushed buf s l =
    let room : suc s.win_buf_pos == s.w_size ≡ false = ground arith in
    Sure-bind (λ _ u. u ≡ pushed (framed buf s) s) _ (push_frame buf) _ s
      (push_frame-pushed buf s (omega arith))
      λ _ u q.
        Sure-bind (λ f t. (f ≡ false) × (t ≡ u)) (λ _ t. t ≡ pushed (framed buf s) s)
          (gets (λ t. t.win_buf_pos == t.w_size)) _ u (rw (q, room) refl, refl)
          λ f t (a, b). rw a (b ∙ q)

-- A message that is sent through an empty window that has room for at least two frames returns 0 and
-- leaves the window empty, when `sendto` works and the next packet to come is the ACK of its frame.
pub sock_sendto_ex-acked :
    (buf : Memory) (s : Sock)
    → IsWindow s
    → s.win_buf_pos ≡ 0
    → 1 < s.w_size
    → ((k : ℕ) → s.send_down k ≡ false)
    → Acknowledged 1 (λ _. mask s.seq) s.arrivals
    → Sure (λ _ t. t.win_buf_pos ≡ 0) (sock_sendto_ex buf false s)
unfolding sock_sendto_ex pure
sock_sendto_ex-acked buf s w e large up h =
    let p = framed buf s in
    let w' = pushed-IsWindow p s refl (omega arith) w in
    let last : (pushed p s).win_buf 0 ≡ p = rw e refl in
    Sure-bind (λ _ u. u ≡ pushed p s) (λ _ t. t.win_buf_pos ≡ 0) (copy_2_winbuf buf) _ s
      (copy_2_winbuf-pushed buf s (omega arith))
      λ _ u q.
        Sure-bind Emptied (λ _ t. t.win_buf_pos ≡ 0) flush _ u
          (rw q (
            flush-Emptied 0 (pushed p s) w' (omega arith) up (
              Acknowledged-ap 1 (λ _. mask s.seq) (λ j. ((pushed p s).win_buf j).seq) s.arrivals
                (λ j l. let z : j ≡ 0 = omega arith in rw (z, last) refl) h)))
          λ ret t k. k.1
