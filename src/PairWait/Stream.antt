-- ===== src/PairWait/Stream.antt =====
-- The packets of a file: pairs, each perhaps repeated, and one more; and `udprecv` on a pair of them.
use file_transfer_program.Base.{
  ℕ, zero, suc, ◌+◌, ◌≤◌, ◌<◌, ◌≡◌, sym, ap, ◌∙◌, none, some, List, [], ◌∷◌, length, take, drop,
  arith, inl, inr,
}
use file_transfer_program.Protocol.Codec.{Memory}
use file_transfer_program.Run.{Returns, Returns-mono}
use file_transfer_program.StopWait.State.{
  data_length, Udppacket, Event, quiet, select_error, recv_error, datagram,
}
use file_transfer_program.PairWait.State.{Host}
use file_transfer_program.PairWait.Reply.{recv_pair}
use file_transfer_program.PairWait.Reply.Judged.{
  Comes, PairComes, IsWhole, IsBuffer, halves, Leftover, recv_pair-Answered,
}
use file_transfer_program.PairWait.Last.Turn.{InTurn}

-- The pair comes `k` times more.
abbrev pub Again : ℕ → Udppacket → Udppacket → List Event → List Event → Type 0
Again zero p q es rest = es ≡ rest
Again (suc k) p q es rest = (mid : List Event) × PairComes p q es mid × Again k p q mid rest

length-Comes : (p : Udppacket) (es rest : List Event) → Comes p es rest → length rest < length es
length-Comes p [] rest c = absurd c
length-Comes p (quiet ∷ es) rest c = omega (arith, length-Comes p es rest c)
length-Comes p (select_error ∷ es) rest c = omega (arith, length-Comes p es rest c)
length-Comes p (recv_error ∷ es) rest c = absurd c
length-Comes p (datagram n q ∷ es) rest (e, f, g) = rw g (omega arith)

pub length-PairComes :
    (p q : Udppacket) (es rest : List Event) → PairComes p q es rest → length rest < length es
length-PairComes p q es rest (mid, c, c') =
    omega (arith, length-Comes p es mid c, length-Comes q mid rest c')

-- `packet` gives the halves of the pairs in turn, and `final` is the packet after them.
module _ (packet : ℕ → Udppacket) (final : Udppacket) where
  abbrev pub one : ℕ → Udppacket
  one i = packet (i + i)

  abbrev pub two : ℕ → Udppacket
  two i = packet (suc (i + i))

  -- The pair before number `next` comes perhaps again; before the first one nothing does.
  abbrev pub Repeats : ℕ → List Event → List Event → Type 0
  Repeats zero es rest = es ≡ rest
  Repeats (suc m) es rest = (k : ℕ) × Again k (one m) (two m) es rest

  -- `count` pairs come in turn, each perhaps again before the next one; then the last packet.
  abbrev pub Feed : ℕ → ℕ → ℕ → List Event → List Event → Type 0
  Feed prev zero next es rest = InTurn prev final es rest
  Feed prev (suc count) next es rest =
      (mid : List Event) × (mid' : List Event) × Repeats next es mid
      × PairComes (one next) (two next) mid mid'
      × Feed prev count (suc next) mid' rest

  -- The packets hold the bytes.
  abbrev pub Holds : ℕ → ℕ → List ℕ → Type 0
  Holds zero next bytes = take (length bytes) final.payload ≡ bytes
  Holds (suc count) next bytes =
      (halves (one next) (two next) ≡ take data_length bytes)
      × Holds count (suc next) (drop data_length bytes)

  -- The packets before `goal` are whole, and their numbers count from 0.
  abbrev pub IsStream : ℕ → Type 0
  IsStream goal = (i : ℕ) → i < goal → IsWhole (packet i) × ((packet i).seq_no ≡ i)

  -- Pair `next` is awaited, and the file holds these bytes.
  abbrev pub Ready : List ℕ → ℕ → ℕ → List ℕ → Host → Type 0
  Ready name prev next content h =
      (h.rec_temp_seq ≡ next + next)
      × (h.base.disk name ≡ some content)
      × (h.base.prev_recv_seq ≡ prev)
      × IsBuffer h.base.recvmsg
      × IsBuffer h.recvmsg2

  module _ (goal : ℕ) (is_stream : IsStream goal) (short : goal ≤ 0x8000_0000)
      (beyond : Memory) where
    kept-Ready :
        (name content : List ℕ) (prev next : ℕ) (p q : Udppacket) (rest : List Event) (h t : Host)
        → IsWhole p
        → IsWhole q
        → t.rec_temp_seq ≡ next + next
        → h.base.disk name ≡ some content
        → h.base.prev_recv_seq ≡ prev
        → Leftover p q rest h t
        → Ready name prev next content t
    kept-Ready name content prev next p q rest h t w w' r d e (arr, rm, rm2, disk, cc, pr) =
        let one_e : length t.base.recvmsg.payload ≡ length p.payload =
          ap (λ q. length q.payload) rm in
        let two_e : length t.recvmsg2.payload ≡ length q.payload = ap (λ q. length q.payload) rm2 in
        (r, ap (λ f. f name) disk ∙ d, pr ∙ e, omega (arith, one_e, w), omega (arith, two_e, w'))

    pub recv_pair-turn :
        (name content : List ℕ) (prev next : ℕ) (rest : List Event) (h : Host)
        → suc (next + next) < goal
        → Ready name prev next content h
        → PairComes (one next) (two next) h.base.arrivals rest
        → Returns
            (λ o t.
              (o ≡ some (halves (one next) (two next)))
              × (t.base.arrivals ≡ rest)
              × Ready name prev (suc next) content t)
            (recv_pair beyond h)
    recv_pair-turn name content prev next rest h l (r, d, e, b, b') c =
        let (w, s) = is_stream (next + next) (omega arith) in
        let (w', s') = is_stream (suc (next + next)) l in
        Returns-mono _ _ (recv_pair beyond h)
          (recv_pair-Answered beyond (one next) (two next) rest h w w' b b' c)
          λ o t (ans, after). elim ans [
            | inl (n, eo, er, out) ↦ (
              eo,
              after.0,
              kept-Ready name content prev (suc next) (one next) (two next) rest h t w w'
                  (omega (arith, er, r, l, short)) d e after,
            )
            | inr (inl ((n, n'), eo, er, out)) ↦ absurd (omega (arith, n, s, r, l, short))
            | inr (inr (n, m, eo, er, out)) ↦ absurd (n (s ∙ sym r, omega (arith, s', r, l, short)))
          ]

    pub recv_pair-again :
        (name content : List ℕ) (prev m : ℕ) (rest : List Event) (h : Host)
        → suc (m + m) < goal
        → Ready name prev (suc m) content h
        → PairComes (one m) (two m) h.base.arrivals rest
        → Returns
            (λ o t. (o ≡ none) × (t.base.arrivals ≡ rest) × Ready name prev (suc m) content t)
            (recv_pair beyond h)
    recv_pair-again name content prev m rest h l (r, d, e, b, b') c =
        let (w, s) = is_stream (m + m) (omega arith) in
        let (w', s') = is_stream (suc (m + m)) l in
        Returns-mono _ _ (recv_pair beyond h)
          (recv_pair-Answered beyond (one m) (two m) rest h w w' b b' c)
          λ o t (ans, after). elim ans [
            | inl ((n, n'), eo, er, out) ↦ absurd (omega (arith, n, s, r, l, short))
            | inr (inl (n, eo, er, out)) ↦ (
              eo,
              after.0,
              kept-Ready name content prev (suc m) (one m) (two m) rest h t w w' (er ∙ r) d e after,
            )
            | inr (inr (n, n', eo, er, out)) ↦
                absurd (n' (omega (arith, s, r, l, short), omega (arith, s', r, l, short)))
          ]
