-- ===== src/Sock/Logic.antt =====
-- Postconditions of the methods of SockLib: what holds where a method returns and, on the paths that
-- return -1 or wait for ever, of the state that they leave. A postcondition rules out that a loop of
-- the model runs out of fuel.
use file_transfer_program.Base.{
  ℕ, suc, ◌+◌, ◌-◌, ◌≤◌, ◌<◌, ◌≡◌, refl, Bool, true, false, Option, none, some, List, [], ◌∷◌,
  length, arith, ◌==◌, leb, if◌then◌else◌, Bool-cases, inl, inr,
}
use file_transfer_program.Protocol.{Packet}
use file_transfer_program.Sock.State.{
  Sock, Address, Datagram, Event, select_error, select_timeout, recv_closed, recv_error, datagram,
  Outcome, done, failed, blocked, out_of_fuel, M, pure, fail, gets, modify, when, ◌>>=◌, attempt,
}
use file_transfer_program.Sock.Wire.{packet_size, recv_loop, lib_recvfrom, lib_sendto, send_ack}

abbrev pub Post : {A : Type 0} → (A → Sock → Type 0) → (Sock → Type 0) → Outcome A → Type 0
Post P Q (done a t) = P a t
Post P Q (failed t) = Q t
Post P Q (blocked t) = Q t
Post P Q out_of_fuel = ⊥

-- What holds before and after a call, and where it returns -1 or waits.
pub record Triple {A : Type 0} (P : Sock → Type 0) (Q : A → Sock → Type 0) (R : Sock → Type 0)
    (m : M A) : Type 0 where
  pub at : (s : Sock) → P s → Post Q R (m s)

-- `m` keeps `P`, whether it returns or not.
abbrev pub Keeps : {A : Type 0} → (Sock → Type 0) → M A → Type 0
Keeps P m = Triple P (λ _. P) P m

module _ {A : Type 0} where
  -- The postcondition of a call may be weakened.
  pub Post-mono :
      (P P' : A → Sock → Type 0) (Q Q' : Sock → Type 0) (o : Outcome A)
      → Post P Q o
      → ((a : A) (t : Sock) → P a t → P' a t)
      → ((t : Sock) → Q t → Q' t)
      → Post P' Q' o
  Post-mono P P' Q Q' (done a t) h f g = f a t h
  Post-mono P P' Q Q' (failed t) h f g = g t h
  Post-mono P P' Q Q' (blocked t) h f g = g t h
  Post-mono P P' Q Q' out_of_fuel h f g = h

module _ {A B : Type 0} (P : A → Sock → Type 0) (P' : B → Sock → Type 0) (Q : Sock → Type 0) where
  pub Post-bind :
      (m : M A) (f : A → M B) (s : Sock)
      → Post P Q (m s)
      → ((a : A) (t : Sock) → P a t → Post P' Q (f a t))
      → Post P' Q ((m >>= f) s)
  unfolding ◌>>=◌
  Post-bind m f s h k = go (m s) h
    where
      go :
          (o : Outcome A)
          → Post P Q o
          → Post P' Q (elim o [
            | done a t ↦ f a t
            | failed t ↦ failed t
            | blocked t ↦ blocked t
            | out_of_fuel ↦ out_of_fuel
          ])
      go (done a t) h = k a t h
      go (failed t) h = h
      go (blocked t) h = h
      go out_of_fuel h = h

-- A step that is known to return is taken.
pub bind-done :
    {A B : Type 0} (m : M A) (f : A → M B) (s : Sock) (a : A) (t : Sock)
    → m s ≡ done a t
    → (m >>= f) s ≡ f a t
unfolding ◌>>=◌
bind-done m f s a t e = rw (e, ◌>>=◌) refl

module _ {A : Type 0} {P : Sock → Type 0} where
  pub Keeps-pure : (a : A) → Keeps P (pure a)
  unfolding pure
  Keeps-pure a = record { at = λ s h. h }

  pub Keeps-fail : Keeps {A = A} P fail
  unfolding fail
  Keeps-fail = record { at = λ s h. h }

  pub Keeps-gets : (f : Sock → A) → Keeps P (gets f)
  unfolding gets
  Keeps-gets f = record { at = λ s h. h }

  pub Keeps-attempt : (m : M A) → Keeps P m → Keeps P (attempt m)
  unfolding attempt
  Keeps-attempt m k = record { at = λ s h. go (m s) (k.at s h) }
    where
      go :
          (o : Outcome A)
          → Post (λ _. P) P o
          → Post
              (λ _. P)
              P
              (elim o [
                | done a t ↦ done (some a) t
                | failed t ↦ done none t
                | blocked t ↦ blocked t
                | out_of_fuel ↦ out_of_fuel
              ])
      go (done a t) h = h
      go (failed t) h = h
      go (blocked t) h = h
      go out_of_fuel h = h

  pub Keeps-if : (b : Bool) (m n : M A) → Keeps P m → Keeps P n → Keeps P (if b then m else n)
  Keeps-if true m n km kn = km
  Keeps-if false m n km kn = kn

module _ {A B : Type 0} {P : Sock → Type 0} where
  pub Keeps-bind :
      (m : M A) (f : A → M B) → Keeps P m → ((a : A) → Keeps P (f a)) → Keeps P (m >>= f)
  Keeps-bind m f km kf = record {
    at = λ s h. Post-bind (λ _. P) (λ _. P) P m f s (km.at s h) (λ a t k. (kf a).at t k);
  }

module _ {P : Sock → Type 0} where
  pub Keeps-modify : (f : Sock → Sock) → ((s : Sock) → P s → P (f s)) → Keeps P (modify f)
  unfolding modify
  Keeps-modify f k = record { at = k }

  pub Keeps-when : (b : Bool) (m : M (Unit {0})) → Keeps P m → Keeps P (when b m)
  unfolding when
  Keeps-when true m k = record { at = k.at }
  Keeps-when false m k = record { at = λ s h. h }

-- A match on what a call gave.
pub Keeps-option :
    {A B : Type 0} {P : Sock → Type 0} (o : Option A) (m : M B) (f : A → M B)
    → Keeps P m
    → ((a : A) → Keeps P (f a))
    → Keeps P (elim o [ none ↦ m | some a ↦ f a ])
Keeps-option none m f k kf = k
Keeps-option (some a) m f k kf = kf a

pub ruleset keeps_rules =
    (Keeps-pure, Keeps-fail, Keeps-gets, Keeps-attempt, Keeps-if, Keeps-bind, Keeps-when)

-- What `lib_recvfrom` changes, and what `lib_sendto` changes.
pub record KeepsRecv (P : Sock → Type 0) : Type 0 where
  pub at :
      (s : Sock) (es : List Event) (d : Address)
      → length es ≤ length s.arrivals
      → P s
      → P (record s { arrivals = es; dst_addr = d })

pub record KeepsSend (P : Sock → Type 0) : Type 0 where
  pub at :
      (s : Sock) (c n : ℕ) (ds : List Datagram)
      → P s
      → P (record s { send_calls = c; sent = ds; total_frames_sent = n })

module _ (P : Sock → Type 0) (keeps : KeepsRecv P) where
  recv_loop-Post :
      (w : ℕ) (es : List Event) (s : Sock)
      → length es ≤ length s.arrivals
      → P s
      → Post (λ _ t. P t × (length t.arrivals < length es)) P (recv_loop w es s)
  unfolding recv_loop
  recv_loop-Post w [] s l h = keeps.at s [] s.dst_addr l h
  recv_loop-Post w (select_error ∷ es) s l h = keeps.at s es s.dst_addr (omega arith) h
  recv_loop-Post w (select_timeout ∷ es) s l h = elim (Bool-cases (leb w 1)) [
    | inl e ↦ rw e (keeps.at s es s.dst_addr (omega arith) h, omega arith)
    | inr e ↦ rw e (
        Post-mono _ _ P P (recv_loop (w - 1) es s) (recv_loop-Post (w - 1) es s (omega arith) h)
          (λ a t k. (k.0, omega arith)) (λ t k. k))
  ]
  recv_loop-Post w (recv_closed ∷ es) s l h = keeps.at s es s.dst_addr (omega arith) h
  recv_loop-Post w (recv_error ∷ es) s l h = keeps.at s es s.dst_addr (omega arith) h
  recv_loop-Post w (datagram from size p ∷ es) s l h = elim (Bool-cases (size == packet_size)) [
    | inl e ↦ rw e (keeps.at s es _ (omega arith) h, omega arith)
    | inr e ↦ rw e (keeps.at s es _ (omega arith) h)
  ]

  -- A call of `lib_recvfrom` that returns has taken at least one event.
  pub lib_recvfrom-Post :
      (s : Sock)
      → P s
      → Post (λ _ t. P t × (length t.arrivals < length s.arrivals)) P (lib_recvfrom s)
  unfolding lib_recvfrom
  lib_recvfrom-Post s h = recv_loop-Post 7 s.arrivals s (omega arith) h

  pub lib_recvfrom-Keeps : Keeps P lib_recvfrom
  lib_recvfrom-Keeps = record {
    at =
        λ s h. Post-mono _ _ P P (lib_recvfrom s) (lib_recvfrom-Post s h) (λ a t k. k.0) (λ t k. k);
  }

module _ (P : Sock → Type 0) (keeps : KeepsSend P) where
  pub lib_sendto-Keeps : (p : Packet) → Keeps P (lib_sendto p)
  unfolding lib_sendto
  lib_sendto-Keeps p = record {
    at = λ s h. elim (Bool-cases (s.send_down s.send_calls)) [
      | inl e ↦ rw e (keeps.at s (suc s.send_calls) s.total_frames_sent s.sent h)
      | inr e ↦ rw e (keeps.at s (suc s.send_calls) (s.total_frames_sent + 1) _ h)
    ];
  }

  pub send_ack-Keeps : (seq type : ℕ) → Keeps P (send_ack seq type)
  unfolding send_ack
  send_ack-Keeps seq type = search (keeps_rules, lib_sendto-Keeps)
