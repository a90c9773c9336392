-- ===== src/StopWait/Exchange/Out.antt =====
-- `udpsend` sends its packet until something comes.
use file_transfer_program.Base.{
  ℕ, zero, suc, ◌+◌, ◌≡◌, ◌∙◌, refl, sym, ap, true, List, [], ◌∷◌, ◌++◌, arith, replicate,
  append-nil, append_assoc,
}
use file_transfer_program.Protocol.Codec.{Memory}
use file_transfer_program.Run.{
  done, stuck, Returns, Returns-mono, Returns-bind, Returns-if, modify, gets, ◌>>=◌, ◌>>◌,
}
use file_transfer_program.StopWait.State.{
  Udppacket, Event, quiet, select_error, recv_error, datagram, Host,
}
use file_transfer_program.StopWait.Exchange.{
  flip, fill, transmit, take_answer, wait_ack, wait_open, exchange_out,
}

-- `k` timeouts come before anything else does, and `rest` after it.
abbrev pub Answered : ℕ → List Event → List Event → Type 0
Answered k [] rest = ⊥
Answered zero (quiet ∷ es) rest = ⊥
Answered (suc k) (quiet ∷ es) rest = Answered k es rest
Answered k (select_error ∷ es) rest = Answered k es rest
Answered k (recv_error ∷ es) rest = (k ≡ 0) × (rest ≡ es)
Answered k (datagram n p ∷ es) rest = (k ≡ 0) × (rest ≡ es)

-- `k` packets have gone out again with `size` bytes, and the rest of the events are to come.
abbrev pub Waited : ℕ → ℕ → List Event → Host → Host → Type 0
Waited size k rest h t =
    (t.sent ≡ h.sent ++ replicate k (record { size = size; packet = h.sendmsg }))
    × (t.arrivals ≡ rest)
    × (t.total_send_packet ≡ h.total_send_packet + k)
    × (t.sendmsg ≡ h.sendmsg)
    × (t.send_seq ≡ h.send_seq)
    × (t.is_open ≡ h.is_open)
    × (t.disk ≡ h.disk)
    × (t.prev_recv_seq ≡ h.prev_recv_seq)

came :
    (size k : ℕ) (es rest : List Event) (p : Udppacket) (h : Host)
    → (k ≡ 0) × (rest ≡ es)
    → Waited size k rest h (take_answer p es h)
unfolding take_answer
came size k es rest p h (z, e) =
    rw z (sym (append-nil h.sent), sym e, omega arith, refl, refl, refl, refl, refl)

wait_ack-Waited :
    (size k : ℕ) (es rest : List Event) (h : Host)
    → Answered k es rest
    → Returns (λ _. Waited size k rest h) (wait_ack size es h)
unfolding wait_ack transmit
wait_ack-Waited size k [] rest h a = absurd a
wait_ack-Waited size zero (quiet ∷ es) rest h a = absurd a
wait_ack-Waited size (suc k) (quiet ∷ es) rest h a =
    Returns-mono _ (λ _. Waited size (suc k) rest h)
      (wait_ack size es (transmit size (record h { arrivals = es })))
      (wait_ack-Waited size k es rest (transmit size (record h { arrivals = es })) a)
      λ _ t w. (w.0 ∙ append_assoc h.sent _ _, w.1, omega (arith, w.2), w.3, w.4, w.5, w.6, w.7)
wait_ack-Waited size zero (select_error ∷ es) rest h a = wait_ack-Waited size zero es rest _ a
wait_ack-Waited size (suc k) (select_error ∷ es) rest h a = wait_ack-Waited size (suc k) es rest _ a
wait_ack-Waited size zero (recv_error ∷ es) rest h a = came size zero es rest _ h a
wait_ack-Waited size (suc k) (recv_error ∷ es) rest h a = came size (suc k) es rest _ h a
wait_ack-Waited size zero (datagram n p ∷ es) rest h a = came size zero es rest _ h a
wait_ack-Waited size (suc k) (datagram n p ∷ es) rest h a = came size (suc k) es rest _ h a

wait_open-Waited :
    (size k : ℕ) (rest : List Event) (h : Host)
    → h.is_open ≡ true
    → Answered k h.arrivals rest
    → Returns (λ _. Waited size k rest h) (wait_open size h)
unfolding wait_open
wait_open-Waited size k rest h o a =
    Returns-if (λ _. Waited size k rest h) h.is_open (wait_ack size h.arrivals h) (stuck h) o
      (wait_ack-Waited size k h.arrivals rest h a)

-- `udpsend` has sent `p`, first with `size` bytes and `k` times more with `again` bytes.
abbrev pub Sent : ℕ → ℕ → ℕ → Udppacket → List Event → Host → Udppacket → Host → Type 0
Sent size again k p rest h q t =
    (q ≡ p)
    × (t.sent
        ≡ h.sent
          ++ record { size = size; packet = p } ∷ replicate k (record { size = again; packet = p }))
    × (t.arrivals ≡ rest)
    × (t.total_send_packet ≡ h.total_send_packet + 1 + k)
    × (t.send_seq ≡ flip h.send_seq)
    × (t.is_open ≡ true)
    × (t.disk ≡ h.disk)
    × (t.prev_recv_seq ≡ h.prev_recv_seq)

counted :
    (size again k : ℕ) (p : Udppacket) (rest : List Event) (h t : Host)
    → h.is_open ≡ true
    → Waited again k rest (transmit size (record h { sendmsg = p })) t
    → Returns
        (Sent size again k p rest h)
        ((modify (λ h. record h { send_seq = flip h.send_seq }) >> gets (λ h. h.sendmsg)) t)
unfolding ◌>>=◌ transmit
counted size again k p rest h t o w =
    (w.3, w.0 ∙ append_assoc h.sent _ _, w.1, w.2, ap flip w.4, w.5 ∙ o, w.6, w.7)

-- On an open socket, when `k` timeouts come before anything else, `udpsend` sends the packet `p` that it has
-- filled, `k` times more, returns it and takes the other one of its two numbers, whatever it is that came:
-- it looks at no ACK. The files stay.
pub exchange_out-Sent :
    (size again flag k : ℕ) (sbuffer : Memory) (rest : List Event) (p : Udppacket) (h : Host)
    → h.is_open ≡ true
    → Answered k h.arrivals rest
    → fill sbuffer flag h ≡ done tt (record h { sendmsg = p })
    → Returns (Sent size again k p rest h) (exchange_out size again sbuffer flag h)
unfolding exchange_out modify transmit
exchange_out-Sent size again flag k sbuffer rest p h o a f =
    Returns-bind (λ _ t. t ≡ record h { sendmsg = p }) (Sent size again k p rest h)
      (fill sbuffer flag) _ h (rw f refl)
      λ _ t e.
        Returns-bind (λ _ u. u ≡ transmit size (record h { sendmsg = p }))
          (Sent size again k p rest h) (modify (transmit size)) _ t (ap (transmit size) e)
          λ _ u e'.
            Returns-bind (λ _. Waited again k rest (transmit size (record h { sendmsg = p })))
              (Sent size again k p rest h) (wait_open again) _ u
              (rw e' (wait_open-Waited again k rest (transmit size (record h { sendmsg = p })) o a))
              λ _ t w. counted size again k p rest h t o w
