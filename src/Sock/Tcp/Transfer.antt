-- ===== src/Sock/Tcp/Transfer.antt =====
-- Whole messages over a stream that moves them in pieces.
use file_transfer_program.Base.{
  ℕ, zero, suc, ◌+◌, ◌-◌, ◌≤◌, ◌<◌, ◌≡◌, List, [], ◌∷◌, ◌++◌, length, take, drop, leb, arith, refl,
  ◌⊎◌, inl, inr, Bool-cases, append_assoc, ap, ◌∙◌, sym, false, min, ◌==◌, ne→==, take_all,
  take-drop, append-take, length-take, length-drop,
}
use file_transfer_program.Sock.Tcp.{
  Recv, recv_fails, closed, ready, Stream, recv_size, Send, send_fails, accepts, Moved, moved,
  broken, waiting, tcp_recv_loop, sock_recv, tcp_send_loop, sock_send,
}

-- Bytes are there at each call of `recv`.
abbrev pub AllReady : List Recv → Type 0
AllReady [] = Unit
AllReady (recv_fails ∷ es) = ⊥
AllReady (closed ∷ es) = ⊥
AllReady (ready n ∷ es) = AllReady es

-- `send` accepts no more than it is given, until all has gone.
abbrev pub Accepts : ℕ → List Send → Type 0
Accepts left [] = ⊥
Accepts left (send_fails ∷ es) = ⊥
Accepts left (accepts n ∷ es) = (n ≤ left) × ((left ≡ n) ⊎ Accepts (left - n) es)

-- The first `len` bytes of the stream were moved behind those of `copied`, and the others still wait.
abbrev pub Whole : ℕ → List ℕ → List ℕ → Moved Stream → Type 0
Whole len incoming copied (moved out s) =
    (out ≡ copied ++ take len incoming) × (s.incoming ≡ drop len incoming)
Whole len incoming copied (broken s) = ⊥
Whole len incoming copied waiting = ⊥

drop-drop : (n m k : ℕ) (bs : List ℕ) → n + m ≡ k → drop m (drop n bs) ≡ drop k bs
drop-drop zero m k bs e = ap (λ k. drop k bs) (omega arith)
drop-drop (suc n) m zero bs e = absurd (omega arith)
drop-drop (suc n) zero (suc k) [] e = refl
drop-drop (suc n) (suc m) (suc k) [] e = refl
drop-drop (suc n) m (suc k) (b ∷ bs) e = drop-drop n m k bs (omega arith)

Whole-after :
    (ret left : ℕ) (incoming copied : List ℕ) (o : Moved Stream)
    → ret ≤ left
    → Whole (left - ret) (drop ret incoming) (copied ++ take ret incoming) o
    → Whole left incoming copied o
Whole-after ret left incoming copied (moved out s) l (e, e') = (
  e
      ∙ append_assoc copied (take ret incoming) (take (left - ret) (drop ret incoming))
      ∙ ap (λ b. copied ++ b) (take-drop ret (left - ret) left incoming (omega arith)),
  e' ∙ drop-drop ret (left - ret) left incoming (omega arith),
)
Whole-after ret left incoming copied (broken s) l x = absurd x
Whole-after ret left incoming copied waiting l x = absurd x

tcp_recv_loop-Whole :
    (es : List Recv) (left : ℕ) (incoming copied : List ℕ)
    → AllReady es
    → 0 < left
    → left ≤ length es
    → left ≤ length incoming
    → Whole left incoming copied (tcp_recv_loop es left incoming copied)
unfolding tcp_recv_loop
tcp_recv_loop-Whole [] left incoming copied a pos l i = absurd (omega arith)
tcp_recv_loop-Whole (recv_fails ∷ es) left incoming copied a pos l i = absurd a
tcp_recv_loop-Whole (closed ∷ es) left incoming copied a pos l i = absurd a
tcp_recv_loop-Whole (ready n ∷ es) left incoming copied a pos l i =
    let ret = recv_size left n incoming in
    let size : ret ≡ min left (suc n) =
      length-take (min left (suc n)) incoming ∙ omega (arith, i) in
    let some_came : (ret == 0) ≡ false = ne→== ret 0 (omega (arith, size, pos)) in
    elim (Bool-cases (leb left ret)) [
      | inl e ↦
          let all : left ≡ ret = ground (arith, size, e) in
          rw (some_came, e)
            (ap (λ k. copied ++ take k incoming) (sym all), ap (λ k. drop k incoming) (sym all))
      | inr e ↦
          let more : ret < left = ground (arith, size, e) in
          rw (some_came, e)
            (Whole-after ret left incoming copied _ (omega arith) (
              tcp_recv_loop-Whole es (left - ret) (drop ret incoming) (copied ++ take ret incoming)
                a (omega arith) (omega (arith, size, pos, l))
                (omega (arith, length-drop ret incoming, i))))
    ]

-- `sock_recv` is asked for at least one byte. However the stream cuts its bytes, when some are there at each call of
-- `recv` and the stream and the calls last for `len` bytes, `sock_recv` returns with exactly the first `len`
-- bytes of the stream, in their order, and leaves all others for the next call.
pub sock_recv-Whole :
    (len : ℕ) (s : Stream)
    → AllReady s.calls
    → 0 < len
    → len ≤ length s.calls
    → len ≤ length s.incoming
    → Whole len s.incoming [] (sock_recv len s)
unfolding sock_recv
sock_recv-Whole len s a pos l i = tcp_recv_loop-Whole s.calls len s.incoming [] a pos l i

abbrev pub Sent : List ℕ → Moved (List Send) → Type 0
Sent buf (moved out rest) = out ≡ buf
Sent buf (broken rest) = ⊥
Sent buf waiting = ⊥

tcp_send_loop-Sent :
    (es : List Send) (left sent : List ℕ)
    → Accepts (length left) es
    → Sent (sent ++ left) (tcp_send_loop es left sent)
unfolding tcp_send_loop
tcp_send_loop-Sent [] left sent h = absurd h
tcp_send_loop-Sent (send_fails ∷ es) left sent h = absurd h
tcp_send_loop-Sent (accepts n ∷ es) left sent (le, or) = elim (Bool-cases (leb (length left) n)) [
  | inl e ↦ rw e (ap (λ r. sent ++ r) (take_all n left (ground arith)))
  | inr e ↦ elim or [
    | inl q ↦ absurd (ground arith)
    | inr more ↦ rw e (
        again (tcp_send_loop es (drop n left) (sent ++ take n left)) (
          tcp_send_loop-Sent es (drop n left) (sent ++ take n left) (rw (length-drop n left) more)))
  ]
]
  where
    again :
        (o : Moved (List Send))
        → Sent ((sent ++ take n left) ++ drop n left) o
        → Sent (sent ++ left) o
    again (moved out rest) c =
        c ∙ append_assoc sent (take n left) (drop n left) ∙ ap (λ r. sent ++ r) (append-take n left)
    again (broken rest) x = absurd x
    again waiting x = absurd x

-- When no call of `send` fails and none accepts more than it is given, until everything is accepted,
-- `sock_send` returns, and what it has handed over is the whole buffer, in its order.
pub sock_send-Sent :
    (buf : List ℕ) (es : List Send) → Accepts (length buf) es → Sent buf (sock_send buf es)
unfolding sock_send
sock_send-Sent buf es h = tcp_send_loop-Sent es buf [] h
