-- ===== src/PairWait/Last/Out.antt =====
-- What one call of `udplastsend` does.
use file_transfer_program.Base.{
  ℕ, suc, ◌<◌, ◌≤◌, ◌⊎◌, inl, inr, true, false, ◌≡◌, ◌∙◌, refl, sym, ap, List, [], ◌∷◌, ◌++◌,
  length, arith, replicate, append-nil, append_assoc, leb, subst, take, length-append,
  length-replicate, length-take, ◌-◌,
}
use file_transfer_program.Protocol.Codec.{Memory}
use file_transfer_program.Run.{done, Returns, Returns-mono, Returns-bind, modify, gets, ◌>>=◌, ◌>>◌}
use file_transfer_program.StopWait.State.{
  data_length, packet_length, Udppacket, Event, quiet, select_error, recv_error, datagram, Host,
  receive, cleared,
}
use file_transfer_program.StopWait.Exchange.{fill}
use file_transfer_program.PairWait.Last.{
  turn, transmit_last, take_any, wait_last, linger, send_last,
}

-- The first loop ends after `k` timeouts, and leaves `rest`: something comes, or it is the fourth timeout.
abbrev pub Ends : ℕ → ℕ → List Event → List Event → Type 0
Ends resends k [] rest = ⊥
Ends resends k (quiet ∷ es) rest =
    (m : ℕ) × (k ≡ suc m)
    × (((resends < 3) × Ends (suc resends) m es rest) ⊎ ((3 ≤ resends) × (m ≡ 0) × (rest ≡ es)))
Ends resends k (select_error ∷ es) rest = (resends ≤ 3) × Ends resends k es rest
Ends resends k (recv_error ∷ es) rest = (k ≡ 0) × (rest ≡ es)
Ends resends k (datagram n p ∷ es) rest = (k ≡ 0) × (n ≤ packet_length) × (rest ≡ es)

-- The second loop ends with a timeout or with anything that comes.
abbrev pub Lingers : List Event → List Event → Type 0
Lingers [] rest = ⊥
Lingers (quiet ∷ es) rest = rest ≡ es
Lingers (select_error ∷ es) rest = Lingers es rest
Lingers (recv_error ∷ es) rest = rest ≡ es
Lingers (datagram n p ∷ es) rest = (n ≤ packet_length) × (rest ≡ es)

-- What an exchange keeps.
abbrev pub Same : Host → Host → Type 0
Same h t =
    (t.sendmsg ≡ h.sendmsg)
    × (t.send_seq ≡ h.send_seq)
    × (t.next_rec_seq ≡ h.next_rec_seq)
    × (t.prev_recv_seq ≡ h.prev_recv_seq)
    × (t.disk ≡ h.disk)
    × (t.can_create ≡ h.can_create)

-- `k` packets have gone out again with `size` bytes, and `rest` is to come.
Waited : ℕ → ℕ → List Event → Host → Host → Type 0
Waited size k rest h t =
    (t.sent ≡ h.sent ++ replicate k (record { size = size; packet = h.sendmsg }))
    × (t.arrivals ≡ rest)
    × (length t.recvmsg.payload ≤ data_length)
    × Same h t

receive-short :
    (n : ℕ) (p old : Udppacket) → n ≤ packet_length → length (receive n p old).payload ≤ data_length
unfolding receive
receive-short n p old l = omega (
  arith,
  length-append (take (n - 4) p.payload) (replicate (data_length - (n - 4)) 0),
  length-take (n - 4) p.payload,
  length-replicate {A = ℕ} (data_length - (n - 4)) 0,
  l,
)

wait_last-Waited :
    (size resends k : ℕ) (es rest : List Event) (h : Host)
    → length h.recvmsg.payload ≤ data_length
    → Ends resends k es rest
    → Returns (λ _. Waited size k rest h) (wait_last size resends es h)
unfolding wait_last transmit_last take_any Waited cleared
wait_last-Waited size resends k [] rest h b e = absurd e
wait_last-Waited size resends k (quiet ∷ es) rest h b (m, e, inl (l, f)) =
    let more : leb (suc resends) 3 ≡ true = ground (arith, l) in
    rw (more, e)
      (Returns-mono _ (λ _. Waited size (suc m) rest h) _
        (wait_last-Waited size (suc resends) m es rest
          (transmit_last size (record h { arrivals = es })) b f)
        λ _ t w. (w.0 ∙ append_assoc h.sent _ _, w.1, w.2, w.3))
wait_last-Waited size resends k (quiet ∷ es) rest h b (m, e, inr (l, z, r)) =
    let over : leb (suc resends) 3 ≡ false = ground (arith, l) in
    rw (over, e, z, r) (refl, refl, b, (refl, refl, refl, refl, refl, refl))
wait_last-Waited size resends k (select_error ∷ es) rest h b (l, e) =
    let more : leb resends 3 ≡ true = ground (arith, l) in
    rw more (wait_last-Waited size resends k es rest (record h { arrivals = es }) b e)
wait_last-Waited size resends k (recv_error ∷ es) rest h b (z, r) =
    rw (z, r)
      (
        sym (append-nil h.sent),
        refl,
        omega (arith, length-replicate {A = ℕ} data_length 0),
        (refl, refl, refl, refl, refl, refl),
      )
wait_last-Waited size resends k (datagram n p ∷ es) rest h b (z, l, r) =
    rw (z, r)
      (
        sym (append-nil h.sent),
        refl,
        receive-short n p h.recvmsg l,
        (refl, refl, refl, refl, refl, refl),
      )

linger-Waited :
    (size : ℕ) (es rest : List Event) (h : Host)
    → length h.recvmsg.payload ≤ data_length
    → Lingers es rest
    → Returns (λ _. Waited size 0 rest h) (linger es h)
unfolding linger take_any Waited cleared
linger-Waited size [] rest h b l = absurd l
linger-Waited size (quiet ∷ es) rest h b l =
    rw l (sym (append-nil h.sent), refl, b, (refl, refl, refl, refl, refl, refl))
linger-Waited size (select_error ∷ es) rest h b l =
    linger-Waited size es rest (record h { arrivals = es }) b l
linger-Waited size (recv_error ∷ es) rest h b l = rw l (
  sym (append-nil h.sent),
  refl,
  omega (arith, length-replicate {A = ℕ} data_length 0),
  (refl, refl, refl, refl, refl, refl),
)
linger-Waited size (datagram n p ∷ es) rest h b (l, r) = rw r (
  sym (append-nil h.sent),
  refl,
  receive-short n p h.recvmsg l,
  (refl, refl, refl, refl, refl, refl),
)

-- The packet `p` has gone out, and `k` times again, and the number has moved on.
abbrev pub Sent : ℕ → ℕ → ℕ → Udppacket → List Event → Host → Udppacket → Host → Type 0
Sent size again k p rest h q t =
    (q ≡ p)
    × (t.sent
        ≡ h.sent
          ++ record { size = size; packet = p } ∷ replicate k (record { size = again; packet = p }))
    × (t.arrivals ≡ rest)
    × (t.send_seq ≡ turn h.send_seq)
    × (length t.recvmsg.payload ≤ data_length)
    × (t.next_rec_seq ≡ h.next_rec_seq)
    × (t.prev_recv_seq ≡ h.prev_recv_seq)
    × (t.disk ≡ h.disk)
    × (t.can_create ≡ h.can_create)

-- `udplastsend` sends the packet `p` that it has filled, `k` times more after `k` timeouts, of which the fourth
-- one is the last, waits once more, and returns: whether an answer has come or not, it takes the other one of
-- its two numbers. The files stay.
pub send_last-Sent :
    (size again flag k : ℕ) (sbuffer : Memory) (mid rest : List Event) (p : Udppacket) (h : Host)
    → length h.recvmsg.payload ≤ data_length
    → Ends 0 k h.arrivals mid
    → Lingers mid rest
    → fill sbuffer flag h ≡ done tt (record h { sendmsg = p })
    → Returns (Sent size again k p rest h) (send_last size again sbuffer flag h)
unfolding send_last modify gets ◌>>=◌ transmit_last Waited
send_last-Sent size again flag k sbuffer mid rest p h b e l f =
    let h1 = transmit_last size (record h { sendmsg = p }) in
    Returns-bind (λ _ t. t ≡ record h { sendmsg = p }) (Sent size again k p rest h)
      (fill sbuffer flag) _ h (rw f refl)
      λ _ t0 g.
        Returns-bind (λ _ t. t ≡ h1) (Sent size again k p rest h) (modify (transmit_last size)) _ t0
          (ap (transmit_last size) g)
          λ _ t1 g1.
            Returns-bind (λ _. Waited again k mid h1) (Sent size again k p rest h)
              (λ h. wait_last again 0 h.arrivals h) _ t1
              (rw g1 (wait_last-Waited again 0 k h.arrivals mid h1 b e))
              λ _ t (out, came, short, (s0, s1, s2, s3, s4, s5)).
                Returns-bind (λ _. Waited again 0 rest t) (Sent size again k p rest h)
                  (λ h. linger h.arrivals h)
                  (λ _.
                    modify (λ h. record h { send_seq = turn h.send_seq }) >> gets (λ h. h.sendmsg))
                  t
                  (subst (λ es. Returns (λ _. Waited again 0 rest t) (linger es t)) (sym came)
                    (linger-Waited again mid rest t short l))
                  λ _ u (out', came', short', (s0', s1', s2', s3', s4', s5')). (
                    s0' ∙ s0,
                    out' ∙ append-nil t.sent ∙ out ∙ append_assoc h.sent _ _,
                    came',
                    ap turn (s1' ∙ s1),
                    short',
                    s2' ∙ s2,
                    s3' ∙ s3,
                    s4' ∙ s4,
                    s5' ∙ s5,
                  )
