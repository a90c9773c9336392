-- ===== src/PairWait/Exchange/Unacked.antt =====
-- `udpsend` when no ACK comes: it never gives up.
use file_transfer_program.Base.{
  Bool, ℕ, zero, suc, ◌-◌, ◌≡◌, ◌≢◌, refl, true, false, none, some, ◌&&◌, ◌||◌, List, [], ◌∷◌, ◌++◌,
  take, drop, get_or, ◌==◌, min, arith, leb, ne→==,
}
use file_transfer_program.Protocol.Codec.{Memory}
use file_transfer_program.Run.{modify, ◌>>=◌}
use file_transfer_program.Run.Leaves.{Waits, Waits-first}
use file_transfer_program.StopWait.State.{
  Udppacket, Event, quiet, select_error, recv_error, datagram, cleared,
}
use file_transfer_program.PairWait.State.{Host, overlay}
use file_transfer_program.PairWait.Exchange.{
  fill_pair, put_out, transmit_pair, is_ack, at, count_answer, first_answer, second_answer, Mode,
  outer, inner, forced, wait_acks, send_pair,
}

-- The data is there, and does not start as an ACK does.
abbrev pub IsOther : List ℕ → Type 0
IsOther [] = ⊥
IsOther (c ∷ s) = c ≢ b'A'

-- No ACK comes.
abbrev pub NoAcks : List Event → Type 0
NoAcks [] = Unit
NoAcks (quiet ∷ es) = NoAcks es
NoAcks (select_error ∷ es) = NoAcks es
NoAcks (recv_error ∷ es) = NoAcks es
NoAcks (datagram n p ∷ es) = IsOther p.payload × NoAcks es

head-IsOther : (m : ℕ) (s old : List ℕ) → IsOther s → IsOther old → IsOther (take m s ++ drop m old)
head-IsOther zero s old i j = j
head-IsOther (suc m) [] old i j = absurd i
head-IsOther (suc m) (c ∷ s) old i j = i

IsOther-is_ack : (p : Udppacket) (seq : ℕ) → IsOther p.payload → is_ack p seq ≡ false
unfolding is_ack
IsOther-is_ack p seq i = go p.payload i
  where
    go : (s : List ℕ) → IsOther s → (get_or s 0 0 == b'A' && p.seq_no == seq) ≡ false
    go [] i = absurd i
    go (c ∷ s) i = rw (ne→== c b'A' i) refl

cleared-IsOther : (p : Udppacket) → IsOther (cleared p).payload
unfolding cleared
cleared-IsOther p = omega arith

overlay-IsOther :
    (n : ℕ) (p old : Udppacket)
    → IsOther p.payload
    → IsOther old.payload
    → IsOther (overlay n p old).payload
unfolding overlay
overlay-IsOther n p old i j = head-IsOther (n - 4) p.payload old.payload i j

or-true : (b : Bool) → (b || true) ≡ true
or-true true = refl
or-true false = refl

module _ (room : ℕ) where
  wait_acks-Waits :
      (mode : Mode) (resends : ℕ) (es : List Event) (h : Host)
      → NoAcks es
      → IsOther h.recvmsg2.payload
      → Waits (λ t. t.base.disk ≡ h.base.disk) (wait_acks false room mode resends false false es h)
  unfolding wait_acks transmit_pair put_out first_answer second_answer
  wait_acks-Waits mode resends [] h n i = refl
  wait_acks-Waits outer resends (quiet ∷ es) h n i =
      rw (or-true (leb (suc resends) 3))
        (wait_acks-Waits outer (suc resends) es (transmit_pair (at es h)) n i)
  wait_acks-Waits outer resends (select_error ∷ es) h n i =
      rw (or-true (leb resends 3)) (wait_acks-Waits outer resends es (at es h) n i)
  wait_acks-Waits outer resends (recv_error ∷ es) h n i =
      rw
        (IsOther-is_ack (cleared h.base.recvmsg) h.base.sendmsg.seq_no
          (cleared-IsOther h.base.recvmsg))
        (wait_acks-Waits inner resends es (first_answer none room es h) n i)
  wait_acks-Waits outer resends (datagram m p ∷ es) h (j, n) i =
      rw
        (IsOther-is_ack (overlay (min m room) p (cleared h.base.recvmsg)) h.base.sendmsg.seq_no (
          overlay-IsOther (min m room) p (cleared h.base.recvmsg) j
            (cleared-IsOther h.base.recvmsg)))
        (wait_acks-Waits inner resends es (first_answer (some (m, p)) room es h) n i)
  wait_acks-Waits inner resends (quiet ∷ es) h n i =
      wait_acks-Waits outer resends es (count_answer (at es h)) n i
  wait_acks-Waits inner resends (select_error ∷ es) h n i =
      wait_acks-Waits forced resends es (at es h) n i
  wait_acks-Waits inner resends (recv_error ∷ es) h n i =
      rw (IsOther-is_ack h.recvmsg2 h.sendmsg2.seq_no i)
        (wait_acks-Waits outer resends es (count_answer (second_answer none es h)) n i)
  wait_acks-Waits inner resends (datagram m p ∷ es) h (j, n) i =
      let k = overlay-IsOther m p h.recvmsg2 j i in
      rw (IsOther-is_ack (overlay m p h.recvmsg2) h.sendmsg2.seq_no k)
        (wait_acks-Waits outer resends es (count_answer (second_answer (some (m, p)) es h)) n k)
  wait_acks-Waits forced resends (quiet ∷ es) h n i =
      wait_acks-Waits forced resends es (at es h) n i
  wait_acks-Waits forced resends (select_error ∷ es) h n i =
      wait_acks-Waits forced resends es (at es h) n i
  wait_acks-Waits forced resends (recv_error ∷ es) h n i =
      rw (IsOther-is_ack h.recvmsg2 h.sendmsg2.seq_no i)
        (wait_acks-Waits inner resends es (second_answer none es h) n i)
  wait_acks-Waits forced resends (datagram m p ∷ es) h (j, n) i =
      let k = overlay-IsOther m p h.recvmsg2 j i in
      rw (IsOther-is_ack (overlay m p h.recvmsg2) h.sendmsg2.seq_no k)
        (wait_acks-Waits inner resends es (second_answer (some (m, p)) es h) n k)

-- When nothing that comes starts as an ACK does, and nor does what lies in the second buffer, `udpsend` never
-- returns, whatever comes and however often it has sent the pair again. The files stay.
pub send_pair-Waits :
    (room room' : ℕ) (sbuffer : Memory) (h : Host)
    → NoAcks h.base.arrivals
    → IsOther h.recvmsg2.payload
    → Waits (λ t. t.base.disk ≡ h.base.disk) (send_pair room room' sbuffer h)
unfolding send_pair fill_pair transmit_pair put_out modify ◌>>=◌
send_pair-Waits room room' sbuffer h n i =
    let h1 = transmit_pair (fill_pair sbuffer h) in
    Waits-first (λ t. t.base.disk ≡ h.base.disk)
      (λ h. wait_acks false room outer 0 false false h.base.arrivals h) _ h1
      (wait_acks-Waits room outer 0 h.base.arrivals h1 n i)
