-- ===== src/PairWait/Last/Turn.antt =====
-- What one call of `udplastrecv` does.
use file_transfer_program.Base.{
  Bool, ℕ, ◌≡◌, ◌≢◌, ◌⊎◌, inl, inr, refl, List, [], ◌∷◌, length, take, append-nil, take_all, arith,
  eq→==, ne→==,
}
use file_transfer_program.Protocol.Codec.{Memory}
use file_transfer_program.Run.{Returns, Returns-bind, gets}
use file_transfer_program.StopWait.State.{
  data_length, packet_length, Udppacket, Event, quiet, select_error, recv_error, datagram, Host,
  receive,
}
use file_transfer_program.StopWait.Exchange.{acknowledge, take_packet, taken, recv_loop}
use file_transfer_program.PairWait.Last.{turn, recv_last}

-- The packet comes whole, and before it perhaps others with the number of the last one; `rest` is to come
-- after it.
abbrev pub InTurn : ℕ → Udppacket → List Event → List Event → Type 0
InTurn prev p [] rest = ⊥
InTurn prev p (quiet ∷ es) rest = InTurn prev p es rest
InTurn prev p (select_error ∷ es) rest = InTurn prev p es rest
InTurn prev p (recv_error ∷ es) rest = ⊥
InTurn prev p (datagram n q ∷ es) rest =
    (n ≡ packet_length) × (((q ≡ p) × (rest ≡ es)) ⊎ ((q.seq_no ≡ prev) × InTurn prev p es rest))

-- The packet is in `recvmsg`, and its number is the last one; what the other members and the files keep.
abbrev pub Took : Udppacket → List Event → Host → Host → Type 0
Took p rest h t =
    (t.recvmsg ≡ p)
    × (t.arrivals ≡ rest)
    × (t.prev_recv_seq ≡ p.seq_no)
    × (t.next_rec_seq ≡ turn h.next_rec_seq)
    × (t.send_seq ≡ h.send_seq)
    × (t.disk ≡ h.disk)
    × (t.can_create ≡ h.can_create)

receive-whole :
    (p old : Udppacket) → length p.payload ≡ data_length → receive packet_length p old ≡ p
unfolding receive
receive-whole p old w =
    let e : take data_length p.payload ≡ p.payload =
      take_all data_length p.payload (omega (arith, w)) in
    rw (e, append-nil p.payload) refl

recv_loop-Took :
    (counts : Bool → Bool) (name : List ℕ) (beyond : Memory) (p : Udppacket) (es rest : List Event)
    (h : Host)
    → length p.payload ≡ data_length
    → p.seq_no ≢ h.prev_recv_seq
    → InTurn h.prev_recv_seq p es rest
    → Returns (λ _. Took p rest h) (recv_loop counts turn name beyond es h)
unfolding recv_loop taken take_packet acknowledge receive
recv_loop-Took counts name beyond p [] rest h w n i = absurd i
recv_loop-Took counts name beyond p (quiet ∷ es) rest h w n i =
    recv_loop-Took counts name beyond p es rest _ w n i
recv_loop-Took counts name beyond p (select_error ∷ es) rest h w n i =
    recv_loop-Took counts name beyond p es rest _ w n i
recv_loop-Took counts name beyond p (recv_error ∷ es) rest h w n i = absurd i
recv_loop-Took counts name beyond p (datagram m q ∷ es) rest h w n (e, inl (f, r)) =
    rw (e, f, r, receive-whole p h.recvmsg w, ne→== p.seq_no h.prev_recv_seq n)
      (refl, refl, refl, refl, refl, refl, refl)
recv_loop-Took counts name beyond p (datagram m q ∷ es) rest h w n (e, inr (f, r)) =
    rw (e, eq→== q.seq_no h.prev_recv_seq f)
      (recv_loop-Took counts name beyond p es rest
        (take_packet counts name beyond packet_length (receive packet_length q h.recvmsg)
          (record h { arrivals = es }))
        w n r)

-- When a whole packet comes that has not the number of the last one, and before it only packets that have,
-- `udplastrecv` returns it, and its number is the last one from then on. The files stay.
pub recv_last-Took :
    (counts : Bool → Bool) (name : List ℕ) (beyond : Memory) (p : Udppacket) (rest : List Event)
    (h : Host)
    → length p.payload ≡ data_length
    → p.seq_no ≢ h.prev_recv_seq
    → InTurn h.prev_recv_seq p h.arrivals rest
    → Returns (λ q t. (q ≡ p) × Took p rest h t) (recv_last counts name beyond h)
unfolding recv_last gets
recv_last-Took counts name beyond p rest h w n i =
    Returns-bind (λ _. Took p rest h) _ (λ h. recv_loop counts turn name beyond h.arrivals h) _ h
      (recv_loop-Took counts name beyond p h.arrivals rest h w n i) λ _ t k. (k.0, k)
