-- ===== src/PairWait/Reply/Judged.antt =====
-- What `udprecv` makes of two packets that come.
use file_transfer_program.Base.{
  ℕ, ◌+◌, ◌≤◌, ◌≡◌, ◌⊎◌, inl, inr, refl, true, false, Option, none, some, List, [], ◌∷◌, ◌++◌,
  length, take, drop, replicate, append-nil, take_all, drop_all, length-append, length-drop,
  length-replicate, subst, arith, ◌&&◌, append_assoc, ◌==◌, codes, first,
}
use file_transfer_program.Protocol.{add_u32, sub_u32}
use file_transfer_program.Protocol.Codec.{Memory, memory_of}
use file_transfer_program.Run.{Returns}
use file_transfer_program.StopWait.State.{
  packet_length, data_length, Udppacket, Event, quiet, select_error, recv_error, datagram,
}
use file_transfer_program.PairWait.State.{half_length, Host, on_base, overlay, clear, put_half}
use file_transfer_program.PairWait.Exchange.{at, put_out}
use file_transfer_program.PairWait.Reply.{
  first_half, second_half, reply, acknowledge_pair, refuse_pair, in_turn, repeated, out_of_turn,
  judge, conclude, count_round, judge_pair, recv_pair_loop, recv_pair,
}

-- The packet comes whole, after what `recvfrom` waits through, and `rest` after it.
abbrev pub Comes : Udppacket → List Event → List Event → Type 0
Comes p [] rest = ⊥
Comes p (quiet ∷ es) rest = Comes p es rest
Comes p (select_error ∷ es) rest = Comes p es rest
Comes p (recv_error ∷ es) rest = ⊥
Comes p (datagram n q ∷ es) rest = (n ≡ packet_length) × (q ≡ p) × (rest ≡ es)

-- Two packets come.
abbrev pub PairComes : Udppacket → Udppacket → List Event → List Event → Type 0
PairComes p q es rest = (mid : List Event) × Comes p es mid × Comes q mid rest

-- A packet fills its data, and a buffer has no more.
abbrev pub IsWhole : Udppacket → Type 0
IsWhole p = length p.payload ≡ data_length

abbrev pub IsBuffer : Udppacket → Type 0
IsBuffer p = length p.payload ≤ data_length

overlay-whole :
    (p old : Udppacket)
    → IsWhole p
    → IsBuffer old
    → overlay packet_length p (clear half_length old) ≡ p
unfolding overlay clear
overlay-whole p old w b =
    let one : take data_length p.payload ≡ p.payload =
      take_all data_length p.payload (omega (arith, w)) in
    let two : drop data_length (replicate half_length 0 ++ drop half_length old.payload) ≡ [] =
      drop_all data_length (replicate half_length 0 ++ drop half_length old.payload) (
        omega (
          arith,
          length-append (replicate half_length 0) (drop half_length old.payload),
          length-replicate {A = ℕ} half_length 0,
          length-drop half_length old.payload,
          b,
        )) in
    rw (one, two, append-nil p.payload) refl

-- The state after two packets have come.
unfoldable pub heard : Udppacket → Udppacket → List Event → Host → Host
heard p q rest h =
    record (on_base
      (λ b. record b {
        recvmsg = p;
        arrivals = rest;
        total_recv_number_packets = b.total_recv_number_packets + 1;
      })
      h) { recvmsg2 = q }

second :
    (beyond : Memory) (q : Udppacket) (es rest : List Event) (h : Host)
    → IsWhole q
    → IsBuffer h.recvmsg2
    → Comes q es rest
    → recv_pair_loop beyond (some true) es h ≡ judge_pair beyond (heard h.base.recvmsg q rest h)
unfolding recv_pair_loop heard second_half count_round
second beyond q [] rest h w b c = absurd c
second beyond q (quiet ∷ es) rest h w b c = second beyond q es rest (at es h) w b c
second beyond q (select_error ∷ es) rest h w b c = second beyond q es rest (at es h) w b c
second beyond q (recv_error ∷ es) rest h w b c = absurd c
second beyond q (datagram n p ∷ es) rest h w b (e, f, r) =
    rw (e, f, r, overlay-whole q h.recvmsg2 w b) refl

from_first :
    (beyond : Memory) (p q : Udppacket) (es mid rest : List Event) (h : Host)
    → IsWhole p
    → IsWhole q
    → IsBuffer h.base.recvmsg
    → IsBuffer h.recvmsg2
    → Comes p es mid
    → Comes q mid rest
    → recv_pair_loop beyond none es h ≡ judge_pair beyond (heard p q rest h)
unfolding recv_pair_loop heard first_half
from_first beyond p q [] mid rest h w w' b b' c c' = absurd c
from_first beyond p q (quiet ∷ es) mid rest h w w' b b' c c' =
    from_first beyond p q es mid rest (at es h) w w' b b' c c'
from_first beyond p q (select_error ∷ es) mid rest h w w' b b' c c' =
    from_first beyond p q es mid rest (at es h) w w' b b' c c'
from_first beyond p q (recv_error ∷ es) mid rest h w w' b b' c c' = absurd c
from_first beyond p q (datagram n r ∷ es) mid rest h w w' b b' (e, f, g) c' =
    rw (e, f, overlay-whole p h.base.recvmsg w b)
      (second beyond q es rest (on_base (λ b. record b { recvmsg = p; arrivals = es }) h) w' b'
        (subst (λ es. Comes q es rest) g c'))

pub recv_pair-heard :
    (beyond : Memory) (p q : Udppacket) (rest : List Event) (h : Host)
    → IsWhole p
    → IsWhole q
    → IsBuffer h.base.recvmsg
    → IsBuffer h.recvmsg2
    → PairComes p q h.base.arrivals rest
    → recv_pair beyond h ≡ judge_pair beyond (heard p q rest h)
unfolding recv_pair
recv_pair-heard beyond p q rest h w w' b b' (mid, c, c') =
    from_first beyond p q h.base.arrivals mid rest h w w' b b' c c'

-- The two packets are answered with `name` and their numbers.
abbrev pub Replies : List ℕ → Udppacket → Udppacket → Host → Host → Type 0
Replies name p q h t =
    (a : Udppacket) × (b : Udppacket) × (t.base.sent
      ≡ h.base.sent
        ++ record { size = packet_length; packet = a }
          ∷ record { size = packet_length; packet = b }
          ∷ [])
    × (a.seq_no ≡ p.seq_no)
    × (b.seq_no ≡ q.seq_no)
    × (take 3 a.payload ≡ name)
    × (take 3 b.payload ≡ name)

-- What a call leaves besides its answers.
abbrev pub Leftover : Udppacket → Udppacket → List Event → Host → Host → Type 0
Leftover p q rest h t =
    (t.base.arrivals ≡ rest)
    × (t.base.recvmsg ≡ p)
    × (t.recvmsg2 ≡ q)
    × (t.base.disk ≡ h.base.disk)
    × (t.base.can_create ≡ h.base.can_create)
    × (t.base.prev_recv_seq ≡ h.base.prev_recv_seq)

-- The pair has these two numbers.
abbrev pub IsPair : ℕ → ℕ → Udppacket → Udppacket → Type 0
IsPair a b p q = (p.seq_no ≡ a) × (q.seq_no ≡ b)

abbrev pub halves : Udppacket → Udppacket → List ℕ
halves p q = take half_length p.payload ++ take half_length q.payload

-- The three ways a call ends.
abbrev pub Answered : Udppacket → Udppacket → Host → Option (List ℕ) → Host → Type 0
Answered p q h o t =
    (IsPair h.rec_temp_seq (add_u32 h.rec_temp_seq 1) p q
      × (o ≡ some (halves p q))
      × (t.rec_temp_seq ≡ add_u32 h.rec_temp_seq 2)
      × Replies (codes "ACK") p q h t)
    ⊎ ((IsPair (sub_u32 h.rec_temp_seq 2) (sub_u32 h.rec_temp_seq 1) p q
          × (o ≡ none)
          × (t.rec_temp_seq ≡ h.rec_temp_seq)
          × Replies (codes "ACK") p q h t)
        ⊎ (¬ IsPair h.rec_temp_seq (add_u32 h.rec_temp_seq 1) p q
            × ¬ IsPair (sub_u32 h.rec_temp_seq 2) (sub_u32 h.rec_temp_seq 1) p q
            × (o ≡ none)
            × (t.rec_temp_seq ≡ h.rec_temp_seq)
            × Replies (codes "NAK") p q h t))

both-cases :
    (x y z w : ℕ)
    → ((x ≡ y) × (z ≡ w) × ((x == y && z == w) ≡ true))
      ⊎ (¬ ((x ≡ y) × (z ≡ w)) × ((x == y && z == w) ≡ false))
both-cases x y z w = ground arith

-- Which verdict it is, by the numbers.
judge-cases :
    (r a b : ℕ)
    → ((a ≡ r) × (b ≡ add_u32 r 1) × (judge r a b ≡ in_turn))
      ⊎ (((a ≡ sub_u32 r 2) × (b ≡ sub_u32 r 1) × (judge r a b ≡ repeated))
          ⊎ (¬ ((a ≡ r) × (b ≡ add_u32 r 1))
              × ¬ ((a ≡ sub_u32 r 2) × (b ≡ sub_u32 r 1))
              × (judge r a b ≡ out_of_turn)))
unfolding judge
judge-cases r a b = elim (both-cases a r b (add_u32 r 1)) [
  | inl (e, f, g) ↦ inl (e, f, rw g refl)
  | inr (n, g) ↦ elim (both-cases a (sub_u32 r 2) b (sub_u32 r 1)) [
    | inl (e, f, g') ↦ inr (inl (e, f, rw (g, g') refl))
    | inr (n', g') ↦ inr (inr (n, n', rw (g, g') refl))
  ]
]

conclude-Answered :
    (beyond : Memory) (p q : Udppacket) (rest : List Event) (h : Host)
    → Returns
        (λ o t. Answered p q h o t × Leftover p q rest h t)
        (judge_pair beyond (heard p q rest h))
unfolding judge_pair heard conclude acknowledge_pair refuse_pair put_out reply put_half first
    memory_of
conclude-Answered beyond p q rest h = elim (judge-cases h.rec_temp_seq p.seq_no q.seq_no) [
  | inl (e, f, g) ↦ rw g (
    inl ((e, f), refl, refl, (_, _, append_assoc h.base.sent _ _, refl, refl, refl, refl)),
    (refl, refl, refl, refl, refl, refl),
  )
  | inr (inl (e, f, g)) ↦ rw g (
    inr (inl ((e, f), refl, refl, (_, _, append_assoc h.base.sent _ _, refl, refl, refl, refl))),
    (refl, refl, refl, refl, refl, refl),
  )
  | inr (inr (n, n', g)) ↦ rw g (
    inr (inr (n, n', refl, refl, (_, _, append_assoc h.base.sent _ _, refl, refl, refl, refl))),
    (refl, refl, refl, refl, refl, refl),
  )
]

-- When two whole packets come, `udprecv` returns. If they have the two numbers awaited, it gives their halves,
-- awaits the next two numbers and sends two ACKs. If they have the two numbers before, it gives no buffer and
-- sends two ACKs. Otherwise it gives no buffer and sends two NAKs. The answers have the numbers of the
-- packets, and the files stay.
pub recv_pair-Answered :
    (beyond : Memory) (p q : Udppacket) (rest : List Event) (h : Host)
    → IsWhole p
    → IsWhole q
    → IsBuffer h.base.recvmsg
    → IsBuffer h.recvmsg2
    → PairComes p q h.base.arrivals rest
    → Returns (λ o t. Answered p q h o t × Leftover p q rest h t) (recv_pair beyond h)
recv_pair-Answered beyond p q rest h w w' b b' c =
    rw (recv_pair-heard beyond p q rest h w w' b b' c) (conclude-Answered beyond p q rest h)
