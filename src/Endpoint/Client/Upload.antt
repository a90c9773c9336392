-- ===== src/Endpoint/Client/Upload.antt =====
-- "put" in client.cpp.
use file_transfer_program.Base.{
  ℕ, ◌≡◌, refl, Bool, true, false, List, length, ◌==◌, ◌++◌, codes, Option-cases, inl, inr,
}
use file_transfer_program.Protocol.{Header, req_put}
use file_transfer_program.Protocol.Codec.{Memory}
use file_transfer_program.Sock.State.{Sock, when, same_name}
use file_transfer_program.Sock.Window.Remove.{IsWindow}
use file_transfer_program.Sock.Logic.{Post, Post-mono, Post-bind}
use file_transfer_program.Sock.Sender.{sock_sendto_ex}
use file_transfer_program.Sock.Sender.Invariant.{Inv}
use file_transfer_program.Sock.Sender.Transfer.{now, send_file-Post, sock_sendto_ex-Keeps}
use file_transfer_program.Sock.Receiver.Invariant.{same}
use file_transfer_program.Endpoint.Client.Handshaking.{Idle, handshake-Keeps}
use file_transfer_program.Endpoint.Client.{root, handshake, make_header, send_request, start}

module _ (n : ℕ) (beyond : Memory) where
  make_header-put :
      (name : List ℕ) (s : Sock)
      → Inv n s
      → Post (λ h t. (h.type ≡ req_put) × Inv n t) (Inv n) (make_header beyond name (codes "put") s)
  unfolding make_header same_name
  make_header-put name s h = elim (Option-cases (s.disk (root ++ name))) [
    | inl e ↦ rw (e, make_header) h
    | inr (bytes, e) ↦ rw (e, make_header) (refl, same n s _ refl refl refl refl refl h)
  ]

  send_request-Post :
      (header : Header) (name host : List ℕ) (s : Sock)
      → Inv n s
      → Post (λ _. Inv n) (Inv n) (send_request beyond header name host s)
  unfolding send_request
  send_request-Post header name host s h =
      Post-bind (λ _. Inv n) (λ _. Inv n) (Inv n) (sock_sendto_ex _ false) _ s
        ((sock_sendto_ex-Keeps n _).at s h) λ _ t k. (sock_sendto_ex-Keeps n _).at t k

shaken :
    (n : ℕ) (beyond : Memory) (first : Bool) (drawn : ℕ) (s : Sock)
    → Inv n s
    → (first ≡ true → s.win_buf_pos ≡ 0)
    → Post (λ _. Inv n) (Inv n) (when first (handshake beyond drawn) s)
unfolding when
shaken n beyond false drawn s h empty = h
shaken n beyond true drawn s h empty =
    Post-mono (λ _. Idle n) (λ _. Inv n) (Idle n) (Inv n) (handshake beyond drawn s)
      ((handshake-Keeps n beyond drawn).at s (h, empty refl)) (λ _ t k. k.0) (λ t k. k.0)

-- `start` never returns 0 for "put", whether it makes the handshake first or not: from a numbered window, which
-- is empty if the handshake is still to be made, it returns -1 or waits, whatever the server answers, and its
-- window stays numbered.
pub start-put_never_succeeds :
    (beyond : Memory) (first : Bool) (drawn : ℕ) (name host : List ℕ) (s : Sock)
    → IsWindow s
    → (first ≡ true → s.win_buf_pos ≡ 0)
    → Post (λ _ _. ⊥) IsWindow (start beyond first drawn name (codes "put") host s)
unfolding start when
start-put_never_succeeds beyond first drawn name host s w empty =
    let n = length s.arrivals in
    Post-mono (λ _ _. ⊥) (λ _ _. ⊥) (Inv n) IsWindow
      (start beyond first drawn name (codes "put") host s)
      (Post-bind (λ _. Inv n) (λ _ _. ⊥) (Inv n) (when first (handshake beyond drawn)) _ s
        (shaken n beyond first drawn s (now s w) empty)
        λ _ t ht.
          Post-bind (λ h u. (h.type ≡ req_put) × Inv n u) (λ _ _. ⊥) (Inv n)
            (make_header beyond name (codes "put")) _ t (make_header-put n beyond name t ht)
            λ h u hu.
              Post-bind (λ _. Inv n) (λ _ _. ⊥) (Inv n) (send_request beyond h name host) _ u
                (send_request-Post n beyond h name host u hu.1)
                λ _ v hv.
                  Post-bind (λ _ _. ⊥) (λ _ _. ⊥) (Inv n) (when (h.type == req_put) _) _ v
                    (rw hu.0 ((send_file-Post n (root ++ name)).at v hv)) λ _ x hx. absurd hx)
      (λ _ t k. k) (λ t k. k.window)
