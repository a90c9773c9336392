-- ===== src/StopWait/Exchange/In.antt =====
-- `udprecv` on the packets of a sender that waits for its answers: each may come again, and nothing else
-- comes between them.
use file_transfer_program.Base.{
  Bool, ℕ, zero, suc, ◌+◌, ◌%◌, ◌≤◌, ◌<◌, ◌≡◌, ◌≢◌, ◌⊎◌, inl, inr, refl, sym, ap, ◌∙◌, true, false,
  List, [], ◌∷◌, length, take, append-nil, take_all, arith, ◌==◌, eq→==, ne→==, if◌then◌else◌,
}
use file_transfer_program.Protocol.Codec.{Memory}
use file_transfer_program.Run.{Returns, Returns-bind, Returns-if, ◌>>=◌, modify, gets}
use file_transfer_program.StopWait.State.{
  data_length, packet_length, Udppacket, Event, quiet, select_error, recv_error, datagram, Host,
  receive,
}
use file_transfer_program.StopWait.Exchange.{
  flip, acknowledge, take_packet, taken, recv_loop, recv_closed, exchange_in,
}

-- A number of one bit.
abbrev pub number : ℕ → ℕ → ℕ
number base i = (base + i) % 2

module _ (goal base : ℕ) (packet : ℕ → Udppacket) where
  -- The packet before number `next`.
  abbrev pub Repeats : ℕ → Udppacket → Type 0
  Repeats zero p = ⊥
  Repeats (suc m) p = p ≡ packet m

  -- The packets from `next` to `goal` - 1 come in turn, whole; the one before may come again in between. What comes
  -- after them is not looked at.
  abbrev pub Trace : ℕ → List Event → Type 0
  Trace next [] = goal ≤ next
  Trace next (quiet ∷ es) = Trace next es
  Trace next (select_error ∷ es) = Trace next es
  Trace next (recv_error ∷ es) = goal ≤ next
  Trace next (datagram n p ∷ es) =
      (goal ≤ next)
      ⊎ ((n ≡ packet_length)
          × (((p ≡ packet next) × Trace (suc next) es) ⊎ (Repeats next p × Trace next es)))

  -- `prev_Recv_Seq` before packet `next` is taken.
  abbrev pub Before : ℕ → ℕ → Type 0
  Before zero prev = prev ≢ base % 2
  Before (suc m) prev = prev ≡ number base m

  abbrev pub Ready : ℕ → Host → Type 0
  Ready next h = (h.is_open ≡ true) × Before next h.prev_recv_seq × Trace next h.arrivals

  -- The bytes of the packet that was in turn are there, and the next one is awaited; the files stay.
  abbrev pub Received : ℕ → Host → List ℕ → Host → Type 0
  Received next h bytes t =
      (bytes ≡ (packet next).payload)
      × Ready (suc next) t
      × (t.disk ≡ h.disk)
      × (t.can_create ≡ h.can_create)

  -- The packets are whole, and take the two numbers in turn.
  abbrev pub IsStream : Type 0
  IsStream =
      (i : ℕ)
      → i < goal
      → (length (packet i).payload ≡ data_length) × ((packet i).seq_no ≡ number base i)

  module _ (is_stream : IsStream) where
    receive-whole :
        (i : ℕ) (old : Udppacket) → i < goal → receive packet_length (packet i) old ≡ packet i
    unfolding receive
    receive-whole i old l =
        let e : take data_length (packet i).payload ≡ (packet i).payload =
          take_all data_length (packet i).payload (omega (arith, (is_stream i l).0)) in
        rw (e, append-nil (packet i).payload) refl

    fresh : (next prev : ℕ) → Before next prev → (number base next == prev) ≡ false
    fresh zero prev b = ne→== _ _ λ e. b (sym e ∙ omega arith)
    fresh (suc m) prev b = ne→== _ _ (omega (arith, b))

    repeated :
        (next prev : ℕ) (p old : Udppacket)
        → next < goal
        → Repeats next p
        → Before next prev
        → (receive packet_length p old ≡ p) × ((p.seq_no == prev) ≡ true)
    repeated zero prev p old l r b = absurd r
    repeated (suc m) prev p old l r b =
        let l' : m < goal = omega (arith, l) in
        (
          rw r (receive-whole m old l'),
          eq→== _ _ (ap (λ p. p.seq_no) r ∙ (is_stream m l').1 ∙ sym b),
        )

    pub recv_loop-Received :
        (counts : Bool → Bool) (turn : ℕ → ℕ) (name : List ℕ) (beyond : Memory) (next : ℕ)
        (es : List Event) (h : Host)
        → h.is_open ≡ true
        → Before next h.prev_recv_seq
        → Trace next es
        → next < goal
        → Returns
            (λ _ t. Received next h t.recvmsg.payload t)
            (recv_loop counts turn name beyond es h)
    unfolding recv_loop taken take_packet acknowledge
    recv_loop-Received counts turn name beyond next [] h o b t l = absurd (omega arith)
    recv_loop-Received counts turn name beyond next (quiet ∷ es) h o b t l =
        recv_loop-Received counts turn name beyond next es _ o b t l
    recv_loop-Received counts turn name beyond next (select_error ∷ es) h o b t l =
        recv_loop-Received counts turn name beyond next es _ o b t l
    recv_loop-Received counts turn name beyond next (recv_error ∷ es) h o b t l =
        absurd (omega arith)
    recv_loop-Received counts turn name beyond next (datagram n p ∷ es) h o b (inl g) l =
        absurd (omega arith)
    recv_loop-Received counts turn name beyond next (datagram n p ∷ es) h o b (inr (e, inl (f, t)))
          l =
        rw
          (e, f, receive-whole next h.recvmsg l, (is_stream next l).1, fresh next h.prev_recv_seq b)
          (refl, (o, refl, t), refl, refl)
    recv_loop-Received counts turn name beyond next (datagram n p ∷ es) h o b (inr (e, inr (r, t)))
          l =
        let (whole_p, old) = repeated next h.prev_recv_seq p h.recvmsg l r b in
        rw (e, whole_p, old) (recv_loop-Received counts turn name beyond next es _ o b t l)

    -- `udprecv` returns with the packet that is in turn, whatever repetitions and timeouts come before
    -- it, and waits for the next one. It needs the packets to be whole and the socket to be open.
    pub exchange_in-Received :
        (name : List ℕ) (beyond : Memory) (next : ℕ) (h : Host)
        → next < goal
        → Ready next h
        → Returns (λ p. Received next h p.payload) (exchange_in name beyond h)
    unfolding exchange_in modify gets ◌>>=◌
    exchange_in-Received name beyond next h l (o, b, t) =
        let h' = record h { total_recv_packet = 0; total_recv_number_packets = 0 } in
        Returns-bind (λ _ t. Received next h t.recvmsg.payload t) (λ p. Received next h p.payload)
          (λ h.
            if h.is_open
            then recv_loop (λ awaited. awaited) flip name beyond h.arrivals h
            else recv_closed h)
          _ h'
          (Returns-if (λ _ t. Received next h t.recvmsg.payload t) h.is_open _ _ o
            (recv_loop-Received (λ awaited. awaited) flip name beyond next h.arrivals h' o b t l))
          λ _ t r. r
