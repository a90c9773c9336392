-- ===== src/Sock/Receiver/Accept.antt =====
-- Which frames the receiver takes, and how it answers: `chk_seqEx` and its caller.
use file_transfer_program.Base.{
  ℕ, ◌<◌, ◌≡◌, Bool, true, false, ◌&&◌, List, [], ◌∷◌, ◌++◌, map, append-nil, arith, ◌==◌,
  if◌then◌else◌, refl, sym, Bool-cases, inl, inr,
}
use file_transfer_program.Protocol.{
  Packet, mask, add_u32, acktype_request, acktype_ack, acktype_nack, acktype_sack,
  acktype_handshake,
}
use file_transfer_program.Sock.State.{
  Sock, Datagram, Outcome, done, failed, blocked, out_of_fuel, M, pure, ◌>>=◌,
}
use file_transfer_program.Sock.Wire.{control, lib_sendto, send_ack}
use file_transfer_program.Sock.Receiver.{
  start_seq, accept, refuse, chk_seq_ex, send_handshake, on_data,
}

-- A call returns: it neither returns -1, nor waits for ever, nor runs out of fuel.
abbrev pub Sure : {A : Type 0} → (A → Sock → Type 0) → Outcome A → Type 0
Sure P (done a t) = P a t
Sure P (failed t) = ⊥
Sure P (blocked t) = ⊥
Sure P out_of_fuel = ⊥

-- The frame is data, and its number comes after `last`.
abbrev pub in_turn : ℕ → Packet → Bool
in_turn last p = p.ack_type == acktype_request && mask (add_u32 last 1) == p.seq

-- `t` is `s` after the answer to a frame: only what `lib_sendto` changes, and `lastSeq`.
abbrev pub Answered : ℕ → Sock → Sock → Type 0
Answered last s t =
    (t.last_seq ≡ last)
    × (t.arrivals ≡ s.arrivals)
    × (t.disk ≡ s.disk)
    × (t.can_create ≡ s.can_create)

-- The answers that go out while `sendto` works.
abbrev pub answers : ℕ → Packet → List Packet
answers last p =
    if p.ack_type == acktype_request
    then (if mask (add_u32 last 1) == p.seq
        then control (add_u32 last 1) acktype_ack ∷ []
        else control (add_u32 last 1) acktype_nack ∷ [])
    else if p.ack_type == acktype_sack
    then control (add_u32 last 1) acktype_sack ∷ []
    else []

pub send_ack-Answered :
    (seq type last : ℕ) (s : Sock)
    → s.last_seq ≡ last
    → Sure (λ _ t. Answered last s t) (send_ack seq type s)
unfolding send_ack lib_sendto ◌>>=◌
send_ack-Answered seq type last s e = ground arith

accept-Answered :
    (last : ℕ) (s : Sock)
    → Sure (λ taken t. (taken ≡ true) × Answered (mask (add_u32 last 1)) s t) (accept last s)
unfolding accept send_ack lib_sendto ◌>>=◌
accept-Answered last s = ground arith

refuse-Answered :
    (last type : ℕ) (s : Sock)
    → Sure (λ taken t. (taken ≡ false) × Answered s.last_seq s t) (refuse last type s)
unfolding refuse send_ack lib_sendto ◌>>=◌
refuse-Answered last type s = ground arith

-- The receiver takes a frame exactly when it is data and carries the number after `lastSeq`, and only
-- then moves `lastSeq` on; before the first frame `lastSeq` is the number before that frame's. It never
-- fails, whether or not its answer can be sent.
pub chk_seq_ex-Answered :
    (p : Packet) (s : Sock)
    → let last = start_seq s.last_seq p.seq in
      Sure
        (λ taken t.
          (taken ≡ in_turn last p)
          × Answered (if in_turn last p then mask (add_u32 last 1) else last) s t)
        (chk_seq_ex p s)
unfolding chk_seq_ex ◌>>=◌
chk_seq_ex-Answered p s =
    let last = start_seq s.last_seq p.seq in
    let s' : Sock = record s { last_seq = last } in
    elim (Bool-cases (p.ack_type == acktype_request)) [
      | inl r ↦ elim (Bool-cases (mask (add_u32 last 1) == p.seq)) [
        | inl e ↦ rw (r, e) (accept-Answered last s')
        | inr e ↦ rw (r, e) (refuse-Answered last acktype_nack s')
      ]
      | inr r ↦ elim (Bool-cases (p.ack_type == acktype_sack)) [
        | inl e ↦ rw (r, e) (refuse-Answered last acktype_sack s')
        | inr e ↦ rw (r, e) (refl, (refl, refl, refl, refl))
      ]
    ]

-- The datagrams that carry frames to the peer of `s`.
abbrev pub to_peer : Sock → List Packet → List Datagram
to_peer s = map (λ p. record { to = s.dst_addr; frame = p })

accept-sent :
    (last : ℕ) (s : Sock)
    → s.send_down s.send_calls ≡ false
    → Sure
        (λ _ t. t.sent ≡ s.sent ++ to_peer s (control (add_u32 last 1) acktype_ack ∷ []))
        (accept last s)
unfolding accept send_ack lib_sendto ◌>>=◌
accept-sent last s up = ground arith

refuse-sent :
    (last type : ℕ) (s : Sock)
    → s.send_down s.send_calls ≡ false
    → Sure
        (λ _ t. t.sent ≡ s.sent ++ to_peer s (control (add_u32 last 1) type ∷ []))
        (refuse last type s)
unfolding refuse send_ack lib_sendto ◌>>=◌
refuse-sent last type s up = ground arith

-- While `sendto` works every data frame is answered, by an ACK with its own number or a NACK with the
-- number that is waited for, and so is a SACK frame; any other frame gets no answer.
pub chk_seq_ex-sent :
    (p : Packet) (s : Sock)
    → s.send_down s.send_calls ≡ false
    → Sure
        (λ _ t. t.sent ≡ s.sent ++ to_peer s (answers (start_seq s.last_seq p.seq) p))
        (chk_seq_ex p s)
unfolding chk_seq_ex ◌>>=◌
chk_seq_ex-sent p s up =
    let last = start_seq s.last_seq p.seq in
    let s' : Sock = record s { last_seq = last } in
    elim (Bool-cases (p.ack_type == acktype_request)) [
      | inl r ↦ elim (Bool-cases (mask (add_u32 last 1) == p.seq)) [
        | inl e ↦ rw (r, e) (accept-sent last s' up)
        | inr e ↦ rw (r, e) (refuse-sent last acktype_nack s' up)
      ]
      | inr r ↦ elim (Bool-cases (p.ack_type == acktype_sack)) [
        | inl e ↦ rw (r, e) (refuse-sent last acktype_sack s' up)
        | inr e ↦ rw (r, e) (sym (append-nil s.sent))
      ]
    ]

pub Sure-mono :
    {A : Type 0} (P P' : A → Sock → Type 0) (o : Outcome A)
    → Sure P o
    → ((a : A) (t : Sock) → P a t → P' a t)
    → Sure P' o
Sure-mono P P' (done a t) h f = f a t h
Sure-mono P P' (failed t) h f = h
Sure-mono P P' (blocked t) h f = h
Sure-mono P P' out_of_fuel h f = h

pub Sure-bind :
    {A B : Type 0} (P : A → Sock → Type 0) (P' : B → Sock → Type 0) (m : M A) (f : A → M B)
    (s : Sock)
    → Sure P (m s)
    → ((a : A) (t : Sock) → P a t → Sure P' (f a t))
    → Sure P' ((m >>= f) s)
unfolding ◌>>=◌
Sure-bind {A} {B} P P' m f s h k = go (m s) h
  where
    go :
        (o : Outcome A)
        → Sure P o
        → Sure P' (elim o [
          | done a t ↦ f a t
          | failed t ↦ failed t
          | blocked t ↦ blocked t
          | out_of_fuel ↦ out_of_fuel
        ])
    go (done a t) h = k a t h
    go (failed t) h = h
    go (blocked t) h = h
    go out_of_fuel h = h

-- The answer to a late handshake frame changes no state of the receiver.
send_handshake-Answered :
    (seq : ℕ) (s : Sock) → Sure (λ _ t. Answered s.last_seq s t) (send_handshake seq s)
unfolding send_handshake lib_sendto ◌>>=◌
send_handshake-Answered seq s = ground arith

-- A frame of a running transfer: `lastSeq` is set.
pub on_data-Answered :
    (p : Packet) (s : Sock)
    → s.last_seq < 32
    → Sure
        (λ taken t.
          (taken ≡ in_turn s.last_seq p)
          × Answered (if in_turn s.last_seq p then mask (add_u32 s.last_seq 1) else s.last_seq) s t)
        (on_data p s)
unfolding on_data pure
on_data-Answered p s l = elim (Bool-cases (p.ack_type == acktype_handshake)) [
  | inl h ↦
      let other : in_turn s.last_seq p ≡ false = ground arith in
      rw (h, other)
        (Sure-bind (λ _ t. Answered s.last_seq s t) _ (send_handshake 0) _ s
          (send_handshake-Answered 0 s) (λ a t k. (refl, k)))
  | inr h ↦
      let e : start_seq s.last_seq p.seq ≡ s.last_seq = ground arith in
      let r = chk_seq_ex-Answered p s in rw h (rw e at r)
]
