-- ===== src/Sock/Receiver/Stream.antt =====
-- A sender's stream as it reaches the receiver through a network that loses, repeats and reorders.
use file_transfer_program.Base.{
  ℕ, suc, ◌+◌, ◌-◌, ◌≤◌, ◌<◌, ◌≡◌, ◌≢◌, ◌⊎◌, inl, inr, Bool, true, false, List, [], ◌∷◌, length,
  arith, ◌==◌, leb, if◌then◌else◌, refl, ◌∙◌, ap, ==_iff, eq→==, Bool-cases,
}
use file_transfer_program.Protocol.{Packet, mask, add_u32, acktype_request}
use file_transfer_program.Sock.State.{
  Sock, Event, select_error, select_timeout, recv_closed, recv_error, datagram,
}
use file_transfer_program.Sock.Wire.{Received, timed_out, got, packet_size, recv_loop, lib_recvfrom}
use file_transfer_program.Sock.Receiver.{on_data}
use file_transfer_program.Sock.Receiver.Accept.{
  Sure, Sure-mono, in_turn, Answered, on_data-Answered,
}

-- The stream's frame `i` carries `payload i` and the number `base + i`, in five bits.
module _ (goal base : ℕ) (payload : ℕ → List ℕ) where
  abbrev pub frame : ℕ → Packet
  frame i = record { seq = mask (base + i); ack_type = acktype_request; payload = payload i }

  -- The events to come while the receiver waits for frame `next`: no error, and only whole frames. A
  -- data frame is of the stream, lost, late, repeated or early in any way, but fewer than
  -- SEQUENCE_NUM_MAX frames away from the one that is waited for. Frames of other types may come too.
  -- In the end every frame before `goal` has come in its turn.
  abbrev pub Trace : ℕ → List Event → Type 0
  Trace next [] = goal ≤ next
  Trace next (select_error ∷ es) = ⊥
  Trace next (select_timeout ∷ es) = Trace next es
  Trace next (recv_closed ∷ es) = ⊥
  Trace next (recv_error ∷ es) = ⊥
  Trace next (datagram from size p ∷ es) =
      (size ≡ packet_size)
      × (((i : ℕ) × (p ≡ frame i)
            × (i ≤ next + 31)
            × (next ≤ i + 31)
            × Trace (if i == next then suc next else next) es)
          ⊎ ((p.ack_type ≢ acktype_request) × Trace next es))

  -- A frame that has been received, and what comes after it.
  abbrev pub Arrival : ℕ → Packet → List Event → Type 0
  Arrival next p es =
      ((i : ℕ) × (p ≡ frame i)
        × (i ≤ next + 31)
        × (next ≤ i + 31)
        × Trace (if i == next then suc next else next) es)
      ⊎ ((p.ack_type ≢ acktype_request) × Trace next es)

  abbrev pub Classified : ℕ → Received → List Event → Type 0
  Classified next timed_out es = Trace next es
  Classified next (got p) es = Arrival next p es

  -- Nothing but the events and the address has changed.
  abbrev pub Same : Sock → Sock → Type 0
  Same s t = (t.last_seq ≡ s.last_seq) × (t.disk ≡ s.disk) × (t.can_create ≡ s.can_create)

  recv_loop-Trace :
      (w next : ℕ) (es : List Event) (s : Sock)
      → next < goal
      → Trace next es
      → Sure
          (λ r t. Classified next r t.arrivals × (length t.arrivals < length es) × Same s t)
          (recv_loop w es s)
  unfolding recv_loop
  recv_loop-Trace w next [] s g h = absurd (omega arith)
  recv_loop-Trace w next (select_error ∷ es) s g h = absurd h
  recv_loop-Trace w next (select_timeout ∷ es) s g h = elim (Bool-cases (leb w 1)) [
    | inl e ↦ rw e (h, omega arith, (refl, refl, refl))
    | inr e ↦ rw e (
        Sure-mono _ _ (recv_loop (w - 1) es s) (recv_loop-Trace (w - 1) next es s g h)
          (λ a t k. (k.0, omega (arith, k.1), k.2)))
  ]
  recv_loop-Trace w next (recv_closed ∷ es) s g h = absurd h
  recv_loop-Trace w next (recv_error ∷ es) s g h = absurd h
  recv_loop-Trace w next (datagram from size p ∷ es) s g h =
      rw (eq→== size packet_size h.0) (h.1, omega arith, (refl, refl, refl))

  -- The receiver waits for frame `next`, and the events to come are of the stream.
  abbrev pub Ready : ℕ → Sock → Type 0
  Ready next s = (s.last_seq ≡ mask (base + next + 31)) × Trace next s.arrivals

  abbrev pub Taken : ℕ → Packet → Bool → Sock → Type 0
  Taken next p true t = (p.payload ≡ payload next) × Ready (suc next) t
  Taken next p false t = Ready next t

  pub lib_recvfrom-Trace :
      (next : ℕ) (s : Sock)
      → next < goal
      → Trace next s.arrivals
      → Sure
          (λ r t. Classified next r t.arrivals × (length t.arrivals < length s.arrivals) × Same s t)
          (lib_recvfrom s)
  unfolding lib_recvfrom
  lib_recvfrom-Trace next s g h = recv_loop-Trace 7 next s.arrivals s g h

  -- A data frame of the stream is in turn exactly if it is the one that is waited for.
  in_turn-next :
      (next i : ℕ) (s : Sock)
      → s.last_seq ≡ mask (base + next + 31)
      → i ≡ next
      → in_turn s.last_seq (frame i) ≡ true
  in_turn-next next i s e same = rw e (eq→== _ _ (omega arith))

  in_turn-other :
      (next i : ℕ) (s : Sock)
      → s.last_seq ≡ mask (base + next + 31)
      → i ≢ next
      → i ≤ next + 31
      → next ≤ i + 31
      → in_turn s.last_seq (frame i) ≡ false
  in_turn-other next i s e d u l = ground arith

  -- After a frame: what was taken, the rest of the trace, and what stays.
  abbrev pub After : ℕ → Packet → Sock → Bool → Sock → Type 0
  After next p s taken t =
      Taken next p taken t
      × (length t.arrivals ≡ length s.arrivals)
      × (t.disk ≡ s.disk)
      × (t.can_create ≡ s.can_create)

  taken-After :
      (next : ℕ) (p : Packet) (s t : Sock) (taken : Bool)
      → s.last_seq ≡ mask (base + next + 31)
      → p.payload ≡ payload next
      → Trace (suc next) s.arrivals
      → taken ≡ true
      → Answered (mask (add_u32 s.last_seq 1)) s t
      → After next p s taken t
  taken-After next p s t taken e same rest yes' (l, a, d, c) =
      rw yes' ((same, (rw (l, e) (omega arith), rw a rest)), rw a refl, d, c)

  passed-After :
      (next : ℕ) (p : Packet) (s t : Sock) (taken : Bool)
      → s.last_seq ≡ mask (base + next + 31)
      → Trace next s.arrivals
      → taken ≡ false
      → Answered s.last_seq s t
      → After next p s taken t
  passed-After next p s t taken e rest no' (l, a, d, c) =
      rw no' ((l ∙ e, rw a rest), rw a refl, d, c)

  -- A receiver that waits for frame `next` of a stream takes that frame and no other: not one of the
  -- stream that is less than 32 frames away, and no frame of another type. It returns, waits for the
  -- frame after the one it took, and leaves the files and the events to come as they are.
  pub on_data-After :
      (next : ℕ) (p : Packet) (s : Sock)
      → s.last_seq ≡ mask (base + next + 31)
      → Arrival next p s.arrivals
      → Sure (After next p s) (on_data p s)
  on_data-After next p s e (inl (i, same, u, l, rest)) = elim (Bool-cases (i == next)) [
    | inl q ↦
        let here : in_turn s.last_seq p ≡ true =
          rw same (in_turn-next next i s e ((==_iff i next).0 q)) in
        let data' : p.payload ≡ payload next = rw same (ap payload ((==_iff i next).0 q)) in
        Sure-mono _ (After next p s) (on_data p s)
          (rw here at (on_data-Answered p s (rw e (omega arith))))
          (λ taken t k. taken-After next p s t taken e data' (rw q at rest) k.0 k.1)
    | inr q ↦
        let away : in_turn s.last_seq p ≡ false =
          rw same (in_turn-other next i s e (ground arith) u l) in
        Sure-mono _ (After next p s) (on_data p s)
          (rw away at (on_data-Answered p s (rw e (omega arith))))
          (λ taken t k. passed-After next p s t taken e (rw q at rest) k.0 k.1)
  ]
  on_data-After next p s e (inr (other, rest)) =
      let away : in_turn s.last_seq p ≡ false = ground arith in
      Sure-mono _ (After next p s) (on_data p s)
        (rw away at (on_data-Answered p s (rw e (omega arith))))
        (λ taken t k. passed-After next p s t taken e rest k.0 k.1)
