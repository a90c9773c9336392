-- ===== src/PairWait/Starved.antt =====
-- What the loss of one packet of a pair leads to.
use file_transfer_program.Base.{
  ℕ, zero, suc, ◌<◌, ◌≡◌, ◌∙◌, refl, sym, ap, none, List, [], ◌∷◌, length, arith, inl, inr,
}
use file_transfer_program.Protocol.{add_u32}
use file_transfer_program.Protocol.Codec.{Memory}
use file_transfer_program.Run.{Returns, Returns-mono}
use file_transfer_program.Run.Leaves.{Waits, Waits-after, Waits-first}
use file_transfer_program.StopWait.State.{packet_length, Udppacket, Event, datagram}
use file_transfer_program.PairWait.State.{Host, M}
use file_transfer_program.PairWait.Reply.{first_half, recv_pair, recv_pair_loop}
use file_transfer_program.PairWait.Reply.Judged.{IsWhole, IsBuffer, PairComes, recv_pair-Answered}
use file_transfer_program.PairWait.Receiving.{recv_pairs-more}
use file_transfer_program.PairWait.Transfer.{recv_pairs}

abbrev whole_packet : Udppacket → Event
whole_packet p = datagram packet_length p

-- Both packets come, `k` times.
abbrev pub resent : ℕ → Udppacket → Udppacket → List Event
resent zero p q = []
resent (suc k) p q = whole_packet p ∷ whole_packet q ∷ resent k p q

-- The second packet comes, and then both, `k` times: the first one was lost.
abbrev pub shifted : ℕ → Udppacket → Udppacket → List Event
shifted k p q = whole_packet q ∷ resent k p q

module _ (beyond : Memory) (p q : Udppacket) (w : IsWhole p) (w' : IsWhole q) where
  -- The pair is awaited.
  abbrev pub Awaited : Host → Type 0
  Awaited h =
      (p.seq_no ≡ h.rec_temp_seq)
      × (q.seq_no ≡ add_u32 h.rec_temp_seq 1)
      × (h.rec_temp_seq < 0x8000_0000)
      × IsBuffer h.base.recvmsg
      × IsBuffer h.recvmsg2

  refused :
      (rest : List Event) (h : Host)
      → Awaited h
      → PairComes q p h.base.arrivals rest
      → Returns
          (λ o t. (o ≡ none) × (t.base.arrivals ≡ rest) × (t.base.disk ≡ h.base.disk) × Awaited t)
          (recv_pair beyond h)
  refused rest h (s, s', l, b, b') c =
      Returns-mono _ _ (recv_pair beyond h) (recv_pair-Answered beyond q p rest h w' w b b' c)
        λ o t (ans, (arr, rm, rm2, disk, cr, pr)). elim ans [
          | inl ((n, n'), eo, er, out) ↦ absurd (omega (arith, n, s', l))
          | inr (inl ((n, n'), eo, er, out)) ↦ absurd (omega (arith, n, s', l))
          | inr (inr (n, n', eo, er, out)) ↦
              let e : length t.base.recvmsg.payload ≡ length q.payload =
                ap (λ q. length q.payload) rm in
              let e' : length t.recvmsg2.payload ≡ length p.payload =
                ap (λ q. length q.payload) rm2 in
              (
                eo,
                arr,
                disk,
                (
                  s ∙ sym er,
                  s' ∙ ap (λ n. add_u32 n 1) (sym er),
                  omega (arith, er, l),
                  omega (arith, e, w'),
                  omega (arith, e', w),
                ),
              )
        ]

  alone :
      (h : Host)
      → h.base.arrivals ≡ shifted 0 p q
      → Waits (λ t. (t.base.disk ≡ h.base.disk) × (t.base.arrivals ≡ [])) (recv_pair beyond h)
  unfolding recv_pair recv_pair_loop first_half
  alone h e = rw e (refl, refl)

  -- The first packet of the pair awaited is lost, and the sender sends both again, `k` times. However often that
  -- is, the loop that receives a file never returns and writes nothing: it takes the second packet of
  -- one sending with the first one of the next, and refuses them.
  pub recv_pairs-Waits :
      (stale : List ℕ → List ℕ) (last : M Udppacket) (k left fuel : ℕ) (name : List ℕ) (h : Host)
      → 260 < left
      → length h.base.arrivals < fuel
      → Awaited h
      → h.base.arrivals ≡ shifted k p q
      → Waits
          (λ t. (t.base.disk ≡ h.base.disk) × (t.base.arrivals ≡ []))
          (recv_pairs stale (recv_pair beyond) last fuel left name h)
  recv_pairs-Waits stale last k zero fuel name h l f a e = absurd (omega arith)
  recv_pairs-Waits stale last k (suc left) zero name h l f a e = absurd (omega arith)
  recv_pairs-Waits stale last zero (suc left) (suc fuel) name h l f a e =
      rw (recv_pairs-more stale (recv_pair beyond) last fuel left name l)
        (Waits-first _ (recv_pair beyond) _ h (alone h e))
  recv_pairs-Waits stale last (suc k) (suc left) (suc fuel) name h l f a e =
      let fewer : (t : Host) → t.base.arrivals ≡ shifted k p q → length t.base.arrivals < fuel =
        λ t ea.
          let x : length t.base.arrivals ≡ length (shifted k p q) = ap (λ es. length es) ea in
          let y : length h.base.arrivals ≡ length (shifted (suc k) p q) = ap (λ es. length es) e in
          omega (arith, x, y, f) in
      rw (recv_pairs-more stale (recv_pair beyond) last fuel left name l) (
        Waits-after _ _ (recv_pair beyond) _ h
          (refused (shifted k p q) h a
            (rw e (resent (suc k) p q, (refl, refl, refl), (refl, refl, refl))))
          λ o t (eo, ea, ed, a').
            rw (eo, sym ed)
              (recv_pairs-Waits stale last k (suc left) fuel name t l (fewer t ea) a' ea))
