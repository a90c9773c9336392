-- ===== src/PairWait/Exchange/Acked.antt =====
-- `udpsend` when both ACKs come.
use file_transfer_program.Base.{
  Bool, ℕ, zero, suc, ◌-◌, ◌<◌, ◌≡◌, ◌∙◌, refl, sym, ap, subst, true, false, ◌||◌, List, [], ◌∷◌,
  ◌++◌, take, drop, get_or, min, replicate, arith, leb, eq→==, append_assoc, append-nil,
}
use file_transfer_program.Protocol.{add_u32}
use file_transfer_program.Protocol.Codec.{Memory}
use file_transfer_program.Run.{Returns, Returns-mono, Returns-bind, modify, ◌>>=◌}
use file_transfer_program.StopWait.State.{
  packet_length, Udppacket, Event, Datagram, quiet, datagram, cleared,
}
use file_transfer_program.PairWait.State.{Host, overlay}
use file_transfer_program.PairWait.Exchange.{
  fill_pair, put_out, transmit_pair, is_ack, at, first_answer, second_answer, outer, wait_acks,
  send_pair,
}

-- An answer that `udpsend` takes for the ACK to number `seq`.
abbrev pub IsAck : ℕ → Udppacket → Type 0
IsAck seq a = (get_or a.payload 0 0 ≡ b'A') × (a.seq_no ≡ seq)

head-take :
    (m : ℕ) (xs ys : List ℕ) → 0 < m → get_or xs 0 0 ≡ b'A' → get_or (take m xs ++ ys) 0 0 ≡ b'A'
head-take zero xs ys l e = absurd (omega arith)
head-take (suc m) [] ys l e = absurd (omega arith)
head-take (suc m) (x ∷ xs) ys l e = e

overlay-is_ack :
    (n seq : ℕ) (a old : Udppacket) → 4 < n → IsAck seq a → is_ack (overlay n a old) seq ≡ true
unfolding overlay is_ack
overlay-is_ack n seq a old l (e, f) =
    let whole : leb 4 n ≡ true = ground (arith, l) in
    rw
      (
        whole,
        eq→== _ _ (head-take (n - 4) a.payload (drop (n - 4) old.payload) (omega (arith, l)) e),
        eq→== a.seq_no seq f,
      )
      refl

-- Both packets have gone out `n` times.
abbrev pub sendings : ℕ → Udppacket → Udppacket → List Datagram
sendings zero p q = []
sendings (suc n) p q =
    record { size = packet_length; packet = p }
    ∷ record { size = packet_length; packet = q }
    ∷ sendings n p q

-- Leftover `k` timeouts the two ACKs come, and then a timeout.
abbrev pub answered : ℕ → Udppacket → Udppacket → List Event → List Event
answered k a b rest =
    replicate k quiet ++ datagram packet_length a ∷ datagram packet_length b ∷ quiet ∷ rest

-- What both loops keep.
abbrev pub Keeps : Host → Host → Type 0
Keeps h t =
    (t.base.sendmsg ≡ h.base.sendmsg)
    × (t.sendmsg2 ≡ h.sendmsg2)
    × (t.send_temp_seq ≡ h.send_temp_seq)
    × (t.base.send_seq ≡ h.base.send_seq)
    × (t.base.disk ≡ h.base.disk)
    × (t.base.prev_recv_seq ≡ h.base.prev_recv_seq)
    × (t.base.next_rec_seq ≡ h.base.next_rec_seq)

-- The pair has gone out `k` times again.
Waited : ℕ → List Event → Host → Host → Type 0
Waited k rest h t =
    (t.base.sent ≡ h.base.sent ++ sendings k h.base.sendmsg h.sendmsg2)
    × (t.base.arrivals ≡ rest)
    × Keeps h t

sent-twice :
    (xs ys : List Datagram) (d e : Datagram) → ((xs ++ d ∷ []) ++ e ∷ []) ++ ys ≡ xs ++ d ∷ e ∷ ys
sent-twice xs ys d e = append_assoc (xs ++ d ∷ []) (e ∷ []) ys ∙ append_assoc xs (d ∷ []) (e ∷ ys)

or-true : (b : Bool) → (b || true) ≡ true
or-true true = refl
or-true false = refl

wait_acks-Waited :
    (room resends k : ℕ) (a b : Udppacket) (rest : List Event) (h : Host)
    → 4 < room
    → IsAck h.base.sendmsg.seq_no a
    → IsAck h.sendmsg2.seq_no b
    → Returns
        (λ s t. (s ≡ (true, true)) × Waited k (quiet ∷ rest) h t)
        (wait_acks false room outer resends false false (answered k a b rest) h)
unfolding wait_acks Waited first_answer second_answer transmit_pair put_out
wait_acks-Waited room resends zero a b rest h l c d =
    rw
      (
        overlay-is_ack (min packet_length room) h.base.sendmsg.seq_no a (cleared h.base.recvmsg)
            (omega (arith, l)) c,
        overlay-is_ack packet_length h.sendmsg2.seq_no b h.recvmsg2 (omega arith) d,
      )
      (refl, (sym (append-nil h.base.sent), refl, (refl, refl, refl, refl, refl, refl, refl)))
wait_acks-Waited room resends (suc k) a b rest h l c d = rw (or-true (leb (suc resends) 3)) (
    Returns-mono
      (λ s t.
        (s ≡ (true, true)) × Waited k (quiet ∷ rest) (transmit_pair (at (answered k a b rest) h)) t)
      _ _
      (wait_acks-Waited room (suc resends) k a b rest (transmit_pair (at (answered k a b rest) h)) l
        c d)
      λ s t (e, (w, v, u)). (e, (w ∙ sent-twice h.base.sent _ _ _, v, u)))

-- `udpsend` has sent the pair `n` times, and the numbers of the next one are two higher.
abbrev pub PairSent : ℕ → Udppacket → Udppacket → List Event → Host → Host → Type 0
PairSent n p q rest h t =
    (t.base.sent ≡ h.base.sent ++ sendings n p q)
    × (t.base.arrivals ≡ rest)
    × (t.send_temp_seq ≡ add_u32 h.send_temp_seq 2)
    × (t.base.send_seq ≡ h.base.send_seq)
    × (t.base.disk ≡ h.base.disk)
    × (t.base.prev_recv_seq ≡ h.base.prev_recv_seq)
    × (t.base.next_rec_seq ≡ h.base.next_rec_seq)

-- The second loop is over, and the numbers have moved on.
Lingered : ℕ → List Event → Host → Host → Type 0
Lingered n rest h u =
    (u.base.sent ≡ h.base.sent ++ sendings n h.base.sendmsg h.sendmsg2)
    × (u.base.arrivals ≡ rest)
    × (u.send_temp_seq ≡ add_u32 h.send_temp_seq 2)
    × (u.base.send_seq ≡ h.base.send_seq)
    × (u.base.disk ≡ h.base.disk)
    × (u.base.prev_recv_seq ≡ h.base.prev_recv_seq)
    × (u.base.next_rec_seq ≡ h.base.next_rec_seq)

lingering :
    (room n : ℕ) (rest : List Event) (h t : Host)
    → Waited n (quiet ∷ rest) h t
    → Returns
        (λ _. Lingered n rest h)
        ((do
          _ ← (λ h. wait_acks true room outer 0 true true h.base.arrivals h)
          modify (λ h. record h { send_temp_seq = add_u32 h.send_temp_seq 2 }))
          t)
unfolding ◌>>=◌ modify wait_acks Waited Lingered
lingering room n rest h t (w, v, (k0, k1, k2, k3, k4, k5, k6)) =
    rw v (w, refl, ap (λ m. add_u32 m 2) k2, k3, k4, k5, k6)

-- When the ACKs to its two packets come after `k` timeouts, one after the other, and then a timeout, `udpsend`
-- returns. It has sent its two halves, numbered in turn, once and `k` times more, and the numbers of the
-- next pair are two higher. The files and the numbers of single packets stay. It may be given any length of
-- the buffers that reaches beyond the packet's number.
pub send_pair-PairSent :
    (room room' k : ℕ) (sbuffer : Memory) (a b : Udppacket) (rest : List Event) (h : Host)
    → 4 < room
    → IsAck h.send_temp_seq a
    → IsAck (add_u32 h.send_temp_seq 1) b
    → h.base.arrivals ≡ answered k a b rest
    → Returns
        (λ _.
          PairSent (suc k) (fill_pair sbuffer h).base.sendmsg (fill_pair sbuffer h).sendmsg2 rest h)
        (send_pair room room' sbuffer h)
unfolding send_pair fill_pair modify ◌>>=◌ transmit_pair put_out Lingered
send_pair-PairSent room room' k sbuffer a b rest h l c d e =
    let h1 = transmit_pair (fill_pair sbuffer h) in
    Returns-bind (λ s t. (s ≡ (true, true)) × Waited k (quiet ∷ rest) h1 t) _
      (λ h. wait_acks false room outer 0 false false h.base.arrivals h) _ h1
      (subst
        (λ es.
          Returns (λ s t. (s ≡ (true, true)) × Waited k (quiet ∷ rest) h1 t)
            (wait_acks false room outer 0 false false es h1))
        (sym e) (wait_acks-Waited room 0 k a b rest h1 l c d))
      λ s t (es, w). rw es (
        Returns-mono (λ _. Lingered k rest h1) _ _ (lingering room' k rest h1 t w)
          λ _ u (z0, z1, z2, z3, z4, z5, z6).
            (z0 ∙ sent-twice h.base.sent _ _ _, z1, z2, z3, z4, z5, z6))
