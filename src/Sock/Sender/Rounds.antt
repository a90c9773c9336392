-- ===== src/Sock/Sender/Rounds.antt =====
-- The loops of `udp_sendtoEx`, `send_all_win_packets` and `sock_sendtoEx`: they keep the invariant, end
-- with the fuel that they are given, and report the number of frames left.
use file_transfer_program.Base.{
  ℕ, zero, suc, ◌-◌, ◌≤◌, ◌<◌, ◌≡◌, Bool, false, not, length, arith, ltb, refl, Bool-cases, inl,
  inr,
}
use file_transfer_program.Sock.State.{Sock, Outcome, M, pure, fail, gets, when}
use file_transfer_program.Sock.Wire.{Received, timed_out, got, lib_recvfrom}
use file_transfer_program.Sock.Window.{Acks, no_acks}
use file_transfer_program.Sock.Logic.{
  Post, Triple, Post-mono, Post-bind, Keeps-when, lib_recvfrom-Post,
}
use file_transfer_program.Sock.Sender.{
  send_slot, send_slots, Reply, finish, go_on, on_frame, on_timeout, resume, next_round,
  send_window_loop, udp_sendto_ex, send_all_win_packets, flush_next, flush_loop, flush,
}
use file_transfer_program.Sock.Sender.Invariant.{
  Inv, Inv-KeepsRecv, Inv-mono, send_slot-Keeps, send_slots-Keeps, on_timeout-Keeps, Answers,
  on_frame-Answers,
}

-- What a loop that returns `left` has done, at a state with at most `n` events to come.
pub record Sent (n left : ℕ) (t : Sock) : Type 0 where
  pub inv : Inv n t
  pub answer : left ≡ t.win_buf_pos
  pub taken : length t.arrivals < n

Sent-mono : (m n left : ℕ) (t : Sock) → m ≤ n → Sent m left t → Sent n left t
Sent-mono m n left t l d = record {
  inv = Inv-mono m n t l d.inv;
  answer = d.answer;
  taken = omega (arith, d.taken);
}

Sent-weaken : (m n : ℕ) (o : Outcome ℕ) → m ≤ n → Post (Sent m) (Inv m) o → Post (Sent n) (Inv n) o
Sent-weaken m n o l h =
    Post-mono (Sent m) (Sent n) (Inv m) (Inv n) o h (λ left t. Sent-mono m n left t l)
      (λ t. Inv-mono m n t l)

-- The rest of a loop, when there are fewer events than fuel.
abbrev Loops : ℕ → (ℕ → Bool → Acks → M ℕ) → Type 0
Loops fuel loop =
    (m retry : ℕ) (wait : Bool) (acks : Acks) (s : Sock)
    → m < fuel
    → Inv m s
    → Post (Sent m) (Inv m) (loop retry wait acks s)

-- A frame or a timeout was taken, so one event less is to come.
next_round-Sent :
    (fuel n retry : ℕ) (loop : ℕ → Bool → Acks → M ℕ) (wait : Bool) (acks : Acks) (r : Received)
    (s : Sock)
    → Loops fuel loop
    → n < fuel
    → Inv n s
    → Post (Sent (suc n)) (Inv n) (next_round loop retry wait acks r s)
unfolding next_round resume pure
next_round-Sent fuel n retry loop wait acks timed_out s k l h =
    Post-bind (λ _. Inv n) (Sent (suc n)) (Inv n) (on_timeout retry) _ s
      ((on_timeout-Keeps n retry).at s h)
      λ _ t ht.
        Post-mono (Sent n) (Sent (suc n)) (Inv n) (Inv n) (loop retry wait no_acks t)
          (k n retry wait no_acks t l ht) (λ left u. Sent-mono n (suc n) left u (omega arith))
          (λ u q. q)
next_round-Sent fuel n retry loop wait acks (got p) s k l h =
    Post-bind (Answers n) (Sent (suc n)) (Inv n) (on_frame p wait acks) _ s
      ((on_frame-Answers n p wait acks).at s h) resumed
  where
    resumed :
        (next : Reply) (t : Sock)
        → Answers n next t
        → Post (Sent (suc n)) (Inv n) (resume loop (suc retry) next t)
    resumed (finish left) t (ht, e) = record {
      inv = Inv-mono n (suc n) t (omega arith) ht;
      answer = e;
      taken = omega (arith, ht.rest);
    }
    resumed (go_on wait' acks') t ht =
        Post-mono (Sent n) (Sent (suc n)) (Inv n) (Inv n) (loop (suc retry) wait' acks' t)
          (k n (suc retry) wait' acks' t l ht) (λ left u. Sent-mono n (suc n) left u (omega arith))
          (λ u q. q)

-- With more fuel than events the loop of `udp_sendtoEx` ends, and reports what is left.
send_window_loop-Sent :
    (fuel slot : ℕ) → Loops fuel (λ retry wait acks. send_window_loop fuel retry wait acks slot)
unfolding send_window_loop
send_window_loop-Sent zero slot n retry wait acks s l h = absurd (omega arith)
send_window_loop-Sent (suc fuel) slot n zero wait acks s l h = unfold fail in h
send_window_loop-Sent (suc fuel) slot n (suc retry) wait acks s l h =
    Post-bind (λ _. Inv n) (Sent n) (Inv n) (when (not wait) (send_slot slot)) _ s
      ((Keeps-when (not wait) (send_slot slot) (send_slot-Keeps n slot)).at s h)
      λ _ t ht.
        Post-bind (λ _ u. Inv n u × (length u.arrivals < length t.arrivals)) (Sent n) (Inv n)
          lib_recvfrom _ t (lib_recvfrom-Post (Inv n) (Inv-KeepsRecv n) t ht)
          (λ r u hu.
            let m = length u.arrivals in
            let less : m < n = omega (arith, hu.1, ht.rest) in
            Post-mono (Sent (suc m)) (Sent n) (Inv m) (Inv n)
              (next_round (λ retry' wait' acks'. send_window_loop fuel retry' wait' acks' slot)
                retry wait acks r u)
              (next_round-Sent fuel m retry _ wait acks r u (send_window_loop-Sent fuel slot)
                (omega arith) (record { window = hu.0.window; rest = omega arith }))
              (λ left v. Sent-mono (suc m) n left v less) (λ v. Inv-mono m n v (omega arith)))

-- From a numbered window with at most `n` events to come, `udp_sendtoEx` returns, returns -1 or
-- waits. If it returns, it has taken an event and its result is the number of frames left in the
-- window; the window stays numbered.
pub udp_sendto_ex-Sent :
    (n slot : ℕ) (s : Sock) → Inv n s → Post (Sent n) (Inv n) (udp_sendto_ex slot s)
unfolding udp_sendto_ex
udp_sendto_ex-Sent n slot s h =
    let m = length s.arrivals in
    Sent-weaken m n (udp_sendto_ex slot s) h.rest (
      send_window_loop-Sent (suc m) slot m 1000 false no_acks s (omega arith)
        (record { window = h.window; rest = omega arith }))

pub send_all_win_packets-Sent : (n : ℕ) → Triple (Inv n) (Sent n) (Inv n) send_all_win_packets
unfolding send_all_win_packets gets
send_all_win_packets-Sent n = record {
  at = λ s h.
      Post-bind (λ _. Inv n) (Sent n) (Inv n) (gets (λ t. t.win_buf_pos)) _ s h
        λ k t ht.
          Post-bind (λ _. Inv n) (Sent n) (Inv n) (send_slots (k - 1) 0) _ t
            ((send_slots-Keeps n (k - 1) 0).at t ht) λ _ u hu. udp_sendto_ex-Sent n (k - 1) u hu;
}

-- The window is empty, and nothing is reported left.
pub record Flushed (n left : ℕ) (t : Sock) : Type 0 where
  pub inv : Inv n t
  pub answer : left ≡ 0
  pub empty : t.win_buf_pos ≡ 0

flush_next-Flushed :
    (n ret left : ℕ) (loop : M ℕ) (t : Sock)
    → Sent n ret t
    → left ≡ t.win_buf_pos
    → Post (Flushed n) (Inv n) (loop t)
    → Post (Flushed n) (Inv n) (flush_next loop ret left t)
unfolding flush_next pure
flush_next-Flushed n ret left loop t h e k = elim (Bool-cases (ltb 0 ret)) [
  | inl more ↦ elim (Bool-cases (ltb 0 left)) [
    | inl again ↦ rw (more, again, flush_next, Post) k
    | inr stop ↦ absurd (ground (arith, h.answer))
  ]
  | inr none_left ↦
      rw (none_left, flush_next, Post)
        (record { inv = h.inv; answer = ground arith; empty = ground (arith, h.answer) })
]

flush_loop-Flushed :
    (fuel n : ℕ) (s : Sock) → n < fuel → Inv n s → Post (Flushed n) (Inv n) (flush_loop fuel s)
unfolding flush_loop gets
flush_loop-Flushed zero n s l h = absurd (omega arith)
flush_loop-Flushed (suc fuel) n s l h =
    Post-bind (Sent n) (Flushed n) (Inv n) send_all_win_packets _ s
      ((send_all_win_packets-Sent n).at s h)
      λ ret t ht.
        Post-bind (λ left u. Sent n ret u × (left ≡ u.win_buf_pos)) (Flushed n) (Inv n)
          (gets (λ u. u.win_buf_pos)) _ t (ht, refl)
          λ left u hu.
            let m = length u.arrivals in
            flush_next-Flushed n ret left (flush_loop fuel) u hu.0 hu.1 (
              Post-mono (Flushed m) (Flushed n) (Inv m) (Inv n) (flush_loop fuel u)
                (flush_loop-Flushed fuel m u (omega (arith, hu.0.taken))
                  (record { window = hu.0.inv.window; rest = omega arith }))
                (λ k v q. record {
                  inv = Inv-mono m n v (omega (arith, hu.0.inv.rest)) q.inv;
                  answer = q.answer;
                  empty = q.empty;
                })
                (λ v. Inv-mono m n v (omega (arith, hu.0.inv.rest))))

-- The sending loop over the window returns only when the window is empty, and then it returns 0.
pub flush-Flushed : (n : ℕ) → Triple (Inv n) (Flushed n) (Inv n) flush
unfolding flush
flush-Flushed n = record {
  at = λ s h.
      let m = length s.arrivals in
      Post-mono (Flushed m) (Flushed n) (Inv m) (Inv n) (flush s)
        (flush_loop-Flushed (suc m) m s (omega arith)
          (record { window = h.window; rest = omega arith }))
        (λ k v q. record { inv = Inv-mono m n v h.rest q.inv; answer = q.answer; empty = q.empty })
        (λ v. Inv-mono m n v h.rest);
}
