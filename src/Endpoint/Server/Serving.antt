-- ===== src/Endpoint/Server/Serving.antt =====
-- The request loop of server.cpp keeps the window of the socket numbered.
use file_transfer_program.Base.{
  ℕ, zero, suc, refl, Bool, true, false, Option, List, length, ◌==◌, ltb, Bool-cases, Option-cases,
  inl, inr,
}
use file_transfer_program.Protocol.{Header, Request, req_get}
use file_transfer_program.Protocol.Codec.{Memory}
use file_transfer_program.Sock.State.{Sock, modify}
use file_transfer_program.Sock.Window.Remove.{IsWindow}
use file_transfer_program.Sock.Logic.{
  Post, Keeps, Post-mono, Keeps-bind, Keeps-pure, Keeps-gets, Keeps-modify, Keeps-attempt,
  Keeps-option, Keeps-when, Keeps-if,
}
use file_transfer_program.Sock.Sender.{send_file}
use file_transfer_program.Sock.Sender.Invariant.{Inv}
use file_transfer_program.Sock.Sender.Transfer.{now, send_file-Post, sock_sendto_ex-Keeps}
use file_transfer_program.Sock.Receiver.Invariant.{
  sock_recvfrom-Keeps, recv_file-Keeps, srv_wait4cnn-Keeps, same,
}
use file_transfer_program.Sock.Setup.{show_statistics, reset_statistics}
use file_transfer_program.Endpoint.Server.{
  receive_upload, receive_info, checked_data, check_header, recv_data, note_size, answer,
  client_handler, serve,
}

module _ (n : ℕ) where
  receive_upload-Keeps : (h : Header) (r : Request) → Keeps (Inv n) (receive_upload h r)
  unfolding receive_upload
  receive_upload-Keeps h r = Keeps-bind _ _ (Keeps-attempt _ (recv_file-Keeps n _ _)) λ o.
      Keeps-option o _ _ (Keeps-pure _)
        λ _. Keeps-bind _ _ (Keeps-attempt _ (srv_wait4cnn-Keeps n 25)) λ _. Keeps-pure _

  receive_info-Keeps : (h : Header) → Keeps (Inv n) (receive_info h)
  unfolding receive_info
  receive_info-Keeps h = Keeps-bind _ _ (Keeps-attempt _ (sock_recvfrom-Keeps n _ false)) λ o.
      Keeps-option o _ _ (Keeps-pure _) λ bytes.
        Keeps-bind _ _ (Keeps-if _ _ _ (receive_upload-Keeps h _) (Keeps-pure _)) λ _. Keeps-pure _

  checked_data-Keeps : (h : Header) → Keeps (Inv n) (checked_data h)
  unfolding checked_data
  checked_data-Keeps h = elim (Option-cases (check_header h)) [
    | inl e ↦ elim (Bool-cases (ltb 0 h.len)) [
      | inl f ↦ rw (e, f, checked_data) (Keeps-bind _ _ (receive_info-Keeps h) λ _. Keeps-pure _)
      | inr f ↦
          rw (e, f, checked_data) (Keeps-bind _ _ (receive_upload-Keeps h _) λ _. Keeps-pure _)
    ]
    | inr (code, e) ↦ rw (e, checked_data) (Keeps-pure _)
  ]

  recv_data-Keeps : Keeps (Inv n) recv_data
  unfolding recv_data
  recv_data-Keeps =
      Keeps-bind _ _ (Keeps-attempt _ (sock_recvfrom-Keeps n _ false))
        λ o. Keeps-option o _ _ (Keeps-pure _) λ bytes. checked_data-Keeps _

  show_statistics-Keeps : (b : Bool) → Keeps (Inv n) (show_statistics b)
  unfolding show_statistics reset_statistics
  show_statistics-Keeps b = record { at = λ s h. same n s _ refl refl refl refl refl h }

  note_size-Keeps :
      (h : Header) (file : Option (List ℕ)) → Keeps (Inv n) (modify (note_size h file))
  unfolding note_size
  note_size-Keeps h file = Keeps-modify _ λ s k. elim (Bool-cases (h.type == req_get)) [
    | inl e ↦ elim (Option-cases file) [
      | inl f ↦ rw (e, f) k
      | inr (bytes, f) ↦ rw (e, f) (same n s _ refl refl refl refl refl k)
    ]
    | inr e ↦ rw e k
  ]

  file-Keeps : (name : List ℕ) → Keeps (Inv n) (send_file name)
  file-Keeps name = record {
    at = λ s h.
        Post-mono (λ _ _. ⊥) (λ _. Inv n) (Inv n) (Inv n) (send_file name s)
          ((send_file-Post n name).at s h) (λ _ t k. absurd k) (λ t k. k);
  }

  answer-Keeps :
      (beyond : Memory) (code : ℕ) (h : Header) (r : Request)
      → Keeps (Inv n) (answer beyond code h r)
  unfolding answer
  answer-Keeps beyond code h r = Keeps-bind _ _ (Keeps-gets _) λ file.
      Keeps-bind _ _ (note_size-Keeps h file) λ _. Keeps-bind _ _ (show_statistics-Keeps false) λ _.
        Keeps-bind _ _ (sock_sendto_ex-Keeps n _) λ _.
          Keeps-bind _ _ (Keeps-when _ _ (file-Keeps _))
            λ _. Keeps-bind _ _ (show_statistics-Keeps true) λ _. Keeps-pure _

  client_handler-Keeps : (beyond : Memory) → Keeps (Inv n) (client_handler beyond)
  unfolding client_handler
  client_handler-Keeps beyond =
      Keeps-bind _ _ recv_data-Keeps
        λ r. Keeps-bind _ _ (Keeps-attempt _ (answer-Keeps beyond r.0 r.1 r.2)) λ _. Keeps-pure _

  serve-Keeps : (beyond : Memory) (rounds : ℕ) → Keeps (Inv n) (serve beyond rounds)
  unfolding serve
  serve-Keeps beyond zero = Keeps-pure _
  serve-Keeps beyond (suc rounds) =
      Keeps-bind _ _ (client_handler-Keeps beyond) λ _. serve-Keeps beyond rounds

-- From a numbered window, however many requests the server handles, whatever comes in and whichever
-- sends fail, the window stays numbered, and no loop in the handling of a request goes on without
-- taking a packet or a timeout.
pub serve-IsWindow :
    (beyond : Memory) (rounds : ℕ) (s : Sock)
    → IsWindow s
    → Post (λ _. IsWindow) IsWindow (serve beyond rounds s)
serve-IsWindow beyond rounds s w =
    let n = length s.arrivals in
    Post-mono (λ _. Inv n) (λ _. IsWindow) (Inv n) IsWindow (serve beyond rounds s)
      ((serve-Keeps n beyond rounds).at s (now s w)) (λ _ t k. k.window) (λ t k. k.window)
