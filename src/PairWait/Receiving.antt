-- ===== src/PairWait/Receiving.antt =====
-- The loop of `GetFileFromClient` and `GetFileFromServer` on the packets of a file.
use file_transfer_program.Base.{
  Bool, ℕ, zero, suc, ◌+◌, ◌-◌, ◌*◌, ◌/◌, ◌≤◌, ◌<◌, ◌≡◌, ◌≢◌, refl, sym, ap, ◌∙◌, subst, true,
  false, none, some, List, [], ◌∷◌, ◌++◌, length, take, drop, append_assoc, arith, ltb, length-drop,
  append-take, Option,
}
use file_transfer_program.Files.{write_file_self}
use file_transfer_program.Protocol.Codec.{Memory}
use file_transfer_program.Run.{Ran, Returns, Returns-bind, modify, ◌>>=◌, ◌>>◌}
use file_transfer_program.StopWait.State.{data_length, Udppacket, Event}
use file_transfer_program.StopWait.Transfer.{append_file}
use file_transfer_program.PairWait.State.{Host, M, lift, on_base}
use file_transfer_program.PairWait.Reply.{recv_pair}
use file_transfer_program.PairWait.Reply.Judged.{PairComes, IsWhole, halves}
use file_transfer_program.PairWait.Last.{recv_last}
use file_transfer_program.PairWait.Last.Turn.{InTurn, Took, recv_last-Took}
use file_transfer_program.PairWait.Lift.{Returns-lift}
use file_transfer_program.PairWait.Transfer.{recv_pairs}
use file_transfer_program.PairWait.Stream
use file_transfer_program.PairWait.Stream.{Again, length-PairComes, recv_pair-turn, recv_pair-again}

module _ (stale : List ℕ → List ℕ) (pair : M (Option (List ℕ))) (last : M Udppacket) where
  pub recv_pairs-more :
      (fuel left : ℕ) (name : List ℕ)
      → 260 < suc left
      → recv_pairs stale pair last (suc fuel) (suc left) name ≡ (do
        buffer ← pair
        elim buffer [
          | none ↦ recv_pairs stale pair last fuel (suc left) name
          | some bytes ↦ do
            modify (on_base (append_file name (stale bytes)))
            recv_pairs stale pair last fuel (suc left - data_length) name
        ])
  unfolding recv_pairs
  recv_pairs-more fuel left name l =
      let e : ltb data_length (suc left) ≡ true = ground (arith, l) in rw (recv_pairs, e) refl

  recv_pairs-last :
      (fuel left : ℕ) (name : List ℕ)
      → suc left ≤ 260
      → recv_pairs stale pair last (suc fuel) (suc left) name
        ≡ (do p ← last; modify (on_base (append_file name (take (suc left) p.payload))))
  unfolding recv_pairs
  recv_pairs-last fuel left name l =
      let e : ltb data_length (suc left) ≡ false = ground (arith, l) in rw (recv_pairs, e) refl

module _ (packet : ℕ → Udppacket) (final : Udppacket) (goal : ℕ)
    (is_stream : Stream.IsStream packet final goal) (short : goal ≤ 0x8000_0000)
    (beyond : Memory) where
  module _ (stale : List ℕ → List ℕ) (kept : (b : List ℕ) → stale b ≡ b) (counts : Bool → Bool)
      (ack : List ℕ) where
    abbrev loop : ℕ → ℕ → List ℕ → Host → Ran Host (Unit {0})
    loop = recv_pairs stale (recv_pair beyond) (lift (recv_last counts ack beyond))

    abbrev Done : List ℕ → List ℕ → List Event → Unit {0} → Host → Type 0
    Done name bytes rest _ t = (t.base.disk name ≡ some bytes) × (t.base.arrivals ≡ rest)

    -- The pair before the one awaited comes `k` times more.
    repeats :
        (name content : List ℕ) (prev m left fuel k : ℕ) (mid : List Event) (h : Host)
        (P : Unit {0} → Host → Type 0)
        → suc (m + m) < goal
        → 260 < left
        → length h.base.arrivals < fuel
        → Stream.Ready packet final name prev (suc m) content h
        → Again k (Stream.one packet final m) (Stream.two packet final m) h.base.arrivals mid
        → ((fuel : ℕ) (t : Host)
            → length t.base.arrivals < fuel
            → t.base.arrivals ≡ mid
            → Stream.Ready packet final name prev (suc m) content t
            → Returns P (loop fuel left name t))
        → Returns P (loop fuel left name h)
    unfolding recv_pairs
    repeats name content prev m left fuel zero mid h P l big f r a k = k fuel h f a r
    repeats name content prev m left zero (suc n) mid h P l big f r a k = absurd (omega arith)
    repeats name content prev m zero (suc fuel) (suc n) mid h P l big f r a k = absurd (omega arith)
    repeats name content prev m (suc left) (suc fuel) (suc n) mid h P l big f r (mid', c, a) k =
        rw
          (recv_pairs-more stale (recv_pair beyond) (lift (recv_last counts ack beyond)) fuel left
            name big)
          (Returns-bind _ P (recv_pair beyond) _ h
            (recv_pair-again packet final goal is_stream short beyond name content prev m mid' h l r
              c)
            λ o t (eo, et, r').
              let shorter : length t.base.arrivals ≡ length mid' = ap (λ es. length es) et in
              rw eo (
                repeats name content prev m (suc left) fuel n mid t P l big
                  (omega (
                    arith,
                    shorter,
                    length-PairComes (Stream.one packet final m) (Stream.two packet final m)
                        h.base.arrivals mid' c,
                  ))
                  r'
                  (subst
                    (λ es. Again n (Stream.one packet final m) (Stream.two packet final m) es mid)
                    (sym et) a)
                  k))

    appended :
        (name content bytes : List ℕ) (prev next : ℕ) (h : Host)
        → Stream.Ready packet final name prev next content h
        → Stream.Ready packet final name prev next
            (content ++ bytes)
            (on_base (append_file name bytes) h)
    unfolding append_file
    appended name content bytes prev next h (r, d, e, b, b') =
        (r, rw (d, write_file_self name (content ++ bytes) h.base.disk) refl, e, b, b')

    -- The last packet, of at most 260 bytes.
    last_packet :
        (name content bytes : List ℕ) (prev next fuel : ℕ) (rest : List Event) (h : Host)
        → IsWhole final
        → final.seq_no ≢ prev
        → 0 < length bytes
        → length bytes ≤ 260
        → take (length bytes) final.payload ≡ bytes
        → Stream.Ready packet final name prev next content h
        → InTurn prev final h.base.arrivals rest
        → Returns (Done name (content ++ bytes) rest) (loop (suc fuel) (length bytes) name h)
    unfolding modify append_file
    last_packet name content [] prev next fuel rest h w n pos l t r i = absurd (omega arith)
    last_packet name content (x ∷ bytes) prev next fuel rest h w n pos l t (rs, d, e, b, b') i =
        rw
          (recv_pairs-last stale (recv_pair beyond) (lift (recv_last counts ack beyond)) fuel
            (length bytes) name l)
          (Returns-bind (λ p t. (p ≡ final) × Took final rest h.base t.base)
            (Done name (content ++ x ∷ bytes) rest) (lift (recv_last counts ack beyond)) _ h
            (Returns-lift _ (recv_last counts ack beyond) h (
              recv_last-Took counts ack beyond final rest h.base w (λ z. n (z ∙ e))
                (subst (λ q. InTurn q final h.base.arrivals rest) (sym e) i)))
            λ p u (ep, (em, ea, ev, en, es, ed, ec)).
              (write_file_self name _ u.base.disk ∙ rw (ap (λ f. f name) ed ∙ d, ep, t) refl, ea))

    -- The pair awaited comes.
    next_pair :
        (name content : List ℕ) (prev next left fuel : ℕ) (mid : List Event) (h : Host)
        (P : Unit {0} → Host → Type 0)
        → suc (next + next) < goal
        → 260 < left
        → length h.base.arrivals < fuel
        → Stream.Ready packet final name prev next content h
        → PairComes
            (Stream.one packet final next)
            (Stream.two packet final next)
            h.base.arrivals
            mid
        → ((fuel : ℕ) (t : Host)
            → length t.base.arrivals < fuel
            → t.base.arrivals ≡ mid
            → Stream.Ready packet final name prev
                (suc next)
                (content ++ halves (Stream.one packet final next) (Stream.two packet final next))
                t
            → Returns P (loop fuel (left - 260) name t))
        → Returns P (loop fuel left name h)
    unfolding modify ◌>>=◌ append_file
    next_pair name content prev next zero fuel mid h P l big f r c k = absurd (omega arith)
    next_pair name content prev next (suc left) zero mid h P l big f r c k = absurd (omega arith)
    next_pair name content prev next (suc left) (suc fuel) mid h P l big f r c k =
        rw
          (recv_pairs-more stale (recv_pair beyond) (lift (recv_last counts ack beyond)) fuel left
            name big)
          (Returns-bind _ P (recv_pair beyond) _ h
            (recv_pair-turn packet final goal is_stream short beyond name content prev next mid h l
              r c)
            λ o t (eo, et, r').
              let shorter : length t.base.arrivals ≡ length mid = ap (λ es. length es) et in
              let fewer : length t.base.arrivals < fuel = omega (
                arith,
                shorter,
                length-PairComes (Stream.one packet final next) (Stream.two packet final next)
                    h.base.arrivals mid c,
              ) in
              rw (eo, kept (halves (Stream.one packet final next) (Stream.two packet final next)))
                (k fuel
                  (on_base
                    (append_file name
                      (halves (Stream.one packet final next) (Stream.two packet final next)))
                    t)
                  fewer et
                  (appended name content
                    (halves (Stream.one packet final next) (Stream.two packet final next)) prev
                    (suc next) t r')))

    after_repeats :
        (name content : List ℕ) (prev next left fuel : ℕ) (mid : List Event) (h : Host)
        (P : Unit {0} → Host → Type 0)
        → next + next < goal
        → 260 < left
        → length h.base.arrivals < fuel
        → Stream.Ready packet final name prev next content h
        → Stream.Repeats packet final next h.base.arrivals mid
        → ((fuel : ℕ) (t : Host)
            → length t.base.arrivals < fuel
            → t.base.arrivals ≡ mid
            → Stream.Ready packet final name prev next content t
            → Returns P (loop fuel left name t))
        → Returns P (loop fuel left name h)
    after_repeats name content prev zero left fuel mid h P l big f r a k = k fuel h f a r
    after_repeats name content prev (suc m) left fuel mid h P l big f r (n, a) k =
        repeats name content prev m left fuel n mid h P (omega arith) big f r a k

    -- When the pairs that hold the bytes of a file come in turn, each perhaps again before the next one, and
    -- then the packet with the rest, the loop that receives a file returns, and has put exactly these bytes
    -- behind what the file holds. The caller must find the bytes in the buffer that udprecv had on its
    -- stack, and the last packet must not have the number of the one before.
    pub recv_pairs-Done :
        (name content bytes : List ℕ) (prev count next fuel : ℕ) (rest : List Event) (h : Host)
        → count ≡ (length bytes - 1) / 260
        → 0 < length bytes
        → (next + count) * 2 ≤ goal
        → length h.base.arrivals < fuel
        → IsWhole final
        → final.seq_no ≢ prev
        → Stream.Holds packet final count next bytes
        → Stream.Ready packet final name prev next content h
        → Stream.Feed packet final prev count next h.base.arrivals rest
        → Returns (Done name (content ++ bytes) rest) (loop fuel (length bytes) name h)
    recv_pairs-Done name content bytes prev zero next zero rest h e pos g f w n t r i =
        absurd (omega arith)
    recv_pairs-Done name content bytes prev zero next (suc fuel) rest h e pos g f w n t r i =
        last_packet name content bytes prev next fuel rest h w n pos (omega (arith, e, pos)) t r i
    recv_pairs-Done name content bytes prev (suc count) next fuel rest h e pos g f w n (t, t') r
          (mid, mid', a, c, i) =
        let bigger : 260 < length bytes = omega (arith, e) in
        let pair_bytes = halves (Stream.one packet final next) (Stream.two packet final next) in
        let left : length (drop data_length bytes) ≡ length bytes - 260 = length-drop 260 bytes in
        let step : (fuel : ℕ) (u : Host)
            → length u.base.arrivals < fuel
            → u.base.arrivals ≡ mid
            → Stream.Ready packet final name prev next content u
            → Returns (Done name (content ++ bytes) rest) (loop fuel (length bytes) name u) =
          λ fuel u f' eu r'.
            next_pair name content prev next (length bytes) fuel mid' u
              (Done name (content ++ bytes) rest) (omega (arith, g)) bigger f' r'
              (subst
                (λ es.
                  PairComes (Stream.one packet final next) (Stream.two packet final next) es mid')
                (sym eu) c)
              λ fuel v f'' ev r''.
                subst (λ l. Returns (Done name (content ++ bytes) rest) (loop fuel l name v)) left
                  (subst
                    (λ b.
                      Returns (Done name b rest)
                        (loop fuel (length (drop data_length bytes)) name v))
                    (append_assoc content pair_bytes _
                      ∙ ap (λ b. content ++ b)
                          (ap (λ b. b ++ drop data_length bytes) t ∙ append-take data_length bytes))
                    (recv_pairs-Done name (content ++ pair_bytes) (drop data_length bytes) prev
                      count (suc next) fuel rest v (omega (arith, left, e))
                      (omega (arith, left, bigger)) (omega (arith, g)) f'' w n t' r''
                      (subst (λ es. Stream.Feed packet final prev count (suc next) es rest) (sym ev)
                        i))) in
        after_repeats name content prev next (length bytes) fuel mid h
          (Done name (content ++ bytes) rest) (omega (arith, g)) bigger f r a step
