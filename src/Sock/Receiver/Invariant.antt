-- ===== src/Sock/Receiver/Invariant.antt =====
-- The receiving methods keep the window numbered, and none of their loops runs out of fuel.
use file_transfer_program.Base.{
  ℕ, zero, suc, ◌-◌, ◌≤◌, ◌<◌, ◌≡◌, Bool, true, false, ◌&&◌, List, [], length, arith, ◌==◌, ltb,
  refl, Bool-cases, inl, inr,
}
use file_transfer_program.Protocol.{Packet, Handshake, buffer_length}
use file_transfer_program.Sock.State.{Sock, M, pure, modify}
use file_transfer_program.Sock.Wire.{Received, timed_out, got, lib_recvfrom, send_ack}
use file_transfer_program.Sock.Logic.{
  Post, Keeps, Post-mono, Post-bind, keeps_rules, Keeps-bind, Keeps-pure, Keeps-modify,
  lib_recvfrom-Post, lib_recvfrom-Keeps,
}
use file_transfer_program.Sock.Sender.Invariant.{
  Inv, IsWindow-same, Inv-KeepsRecv, Inv-mono, send-Keeps, ack-Keeps,
}
use file_transfer_program.Sock.Receiver.{
  chk_seq, accept, refuse, chk_seq_ex, send_handshake, check_handshake, on_handshake, on_data,
  on_received, again, copy_frame, recv_next, recv_from_loop, sock_recvfrom, append_file,
  recv_file_loop, recv_file, wait_round, srv_wait4cnn,
}

module _ (n : ℕ) where
  -- A step that changes neither the window nor the events.
  aside : (f : Sock → Sock) → ((s : Sock) → Inv n s → Inv n (f s)) → Keeps (Inv n) (modify f)
  aside f k = Keeps-modify f k

  pub same :
      (s t : Sock)
      → t.win_buf ≡ s.win_buf
      → t.win_buf_pos ≡ s.win_buf_pos
      → t.w_size ≡ s.w_size
      → t.seq ≡ s.seq
      → t.arrivals ≡ s.arrivals
      → Inv n s
      → Inv n t
  same s t b p w q a h = record { window = IsWindow-same s t b p w q h.window; rest = rw a h.rest }

  chk_seq-Keeps : (q : ℕ) → Keeps (Inv n) (chk_seq q)
  unfolding chk_seq
  chk_seq-Keeps q = aside _ (λ s h. same s _ refl refl refl refl refl h)

  accept-Keeps : (q : ℕ) → Keeps (Inv n) (accept q)
  unfolding accept
  accept-Keeps q = Keeps-bind _ _ (ack-Keeps n _ _) λ _.
      Keeps-bind _ _ (aside _ (λ s h. same s _ refl refl refl refl refl h)) λ _. Keeps-pure true

  refuse-Keeps : (q type : ℕ) → Keeps (Inv n) (refuse q type)
  unfolding refuse
  refuse-Keeps q type = Keeps-bind _ _ (ack-Keeps n _ _) λ _. Keeps-pure false

  chk_seq_ex-Keeps : (p : Packet) → Keeps (Inv n) (chk_seq_ex p)
  unfolding chk_seq_ex
  chk_seq_ex-Keeps p =
      Keeps-bind _ _ (aside _ (λ s h. same s _ refl refl refl refl refl h))
        λ _. search (keeps_rules, accept-Keeps, refuse-Keeps)

  send_handshake-Keeps : (q : ℕ) → Keeps (Inv n) (send_handshake q)
  unfolding send_handshake
  send_handshake-Keeps q = search (keeps_rules, send-Keeps)

  check_handshake-Keeps : (h : Handshake) → Keeps (Inv n) (check_handshake h)
  unfolding check_handshake
  check_handshake-Keeps tmp = record { at = λ s h. go s h }
    where
      go : (s : Sock) → Inv n s → Post (λ _. Inv n) (Inv n) (check_handshake tmp s)
      go s h = elim (Bool-cases (tmp.server_seq == 0)) [
        | inl e ↦ rw (e, check_handshake) (same s _ refl refl refl refl refl h)
        | inr e ↦
            elim (Bool-cases
              (s.hs_data.client_seq == tmp.client_seq && s.hs_data.server_seq == tmp.server_seq)) [
                | inl f ↦ rw (e, f, check_handshake) h
                | inr f ↦ rw (e, f, check_handshake) h
              ]
      ]

  on_handshake-Keeps : (p : Packet) → Keeps (Inv n) (on_handshake p)
  unfolding on_handshake
  on_handshake-Keeps p =
      Keeps-bind _ _ (check_handshake-Keeps _)
        λ _. Keeps-bind _ _ (send_handshake-Keeps p.seq) λ _. chk_seq-Keeps p.seq

  on_data-Keeps : (p : Packet) → Keeps (Inv n) (on_data p)
  unfolding on_data
  on_data-Keeps p = search (keeps_rules, send_handshake-Keeps, chk_seq_ex-Keeps)

  on_received-Keeps : (handshake : Bool) (p : Packet) → Keeps (Inv n) (on_received handshake p)
  unfolding on_received
  on_received-Keeps true p = Keeps-bind _ _ (on_handshake-Keeps p) λ _. Keeps-pure true
  on_received-Keeps false p = on_data-Keeps p

abbrev Loops : ℕ → (ℕ → List ℕ → M (List ℕ)) → Type 0
Loops fuel loop =
    (m left : ℕ) (copied : List ℕ) (s : Sock)
    → m < fuel
    → Inv m s
    → Post (λ _. Inv m) (Inv m) (loop left copied s)

again-Inv :
    (fuel n left : ℕ) (loop : ℕ → List ℕ → M (List ℕ)) (copied : List ℕ) (s : Sock)
    → Loops fuel loop
    → n < fuel
    → Inv n s
    → Post (λ _. Inv n) (Inv n) (again loop left copied s)
unfolding again pure
again-Inv fuel n left loop copied s k l h = elim (Bool-cases (ltb 0 left)) [
  | inl e ↦ rw (e, again) (k n left copied s l h)
  | inr e ↦ rw (e, again) h
]

copy_frame-Inv :
    (fuel n left : ℕ) (loop : ℕ → List ℕ → M (List ℕ)) (copied : List ℕ) (p : Packet) (taken : Bool)
    (s : Sock)
    → Loops fuel loop
    → n < fuel
    → Inv n s
    → Post (λ _. Inv n) (Inv n) (copy_frame loop left copied p taken s)
unfolding copy_frame modify
copy_frame-Inv fuel n left loop copied p false s k l h = again-Inv fuel n left loop copied s k l h
copy_frame-Inv fuel n left loop copied p true s k l h =
    Post-bind (λ _. Inv n) (λ _. Inv n) (Inv n) (modify _) _ s
      (same n s _ refl refl refl refl refl h)
      λ _ t ht. again-Inv fuel n (left - buffer_length) loop _ t k l ht

recv_next-Inv :
    (fuel n left : ℕ) (loop : ℕ → List ℕ → M (List ℕ)) (copied : List ℕ) (handshake : Bool)
    (r : Received) (s : Sock)
    → Loops fuel loop
    → n < fuel
    → Inv n s
    → Post (λ _. Inv n) (Inv n) (recv_next loop left copied handshake r s)
unfolding recv_next
recv_next-Inv fuel n left loop copied handshake timed_out s k l h =
    again-Inv fuel n left loop copied s k l h
recv_next-Inv fuel n left loop copied handshake (got p) s k l h =
    Post-bind (λ _. Inv n) (λ _. Inv n) (Inv n) (on_received handshake p) _ s
      ((on_received-Keeps n handshake p).at s h)
      λ taken t ht. copy_frame-Inv fuel n left loop copied p taken t k l ht

recv_from_loop-Inv :
    (fuel : ℕ) (handshake : Bool)
    → Loops fuel (λ left copied. recv_from_loop fuel left copied handshake)
unfolding recv_from_loop
recv_from_loop-Inv zero handshake n left copied s l h = absurd (omega arith)
recv_from_loop-Inv (suc fuel) handshake n left copied s l h =
    Post-bind (λ _ t. Inv n t × (length t.arrivals < length s.arrivals)) (λ _. Inv n) (Inv n)
      lib_recvfrom _ s (lib_recvfrom-Post (Inv n) (Inv-KeepsRecv n) s h)
      λ r t ht.
        let m = length t.arrivals in
        Post-mono (λ _. Inv m) (λ _. Inv n) (Inv m) (Inv n)
          (recv_next (λ left' copied'. recv_from_loop fuel left' copied' handshake) left copied
            handshake r t)
          (recv_next-Inv fuel m left _ copied handshake r t (recv_from_loop-Inv fuel handshake)
            (omega (arith, ht.1, h.rest)) (record { window = ht.0.window; rest = omega arith }))
          (λ _ u. Inv-mono m n u (omega (arith, ht.0.rest)))
          (λ u. Inv-mono m n u (omega (arith, ht.0.rest)))

module _ (n : ℕ) where
  pub sock_recvfrom-Keeps :
      (len : ℕ) (handshake : Bool) → Keeps (Inv n) (sock_recvfrom len handshake)
  unfolding sock_recvfrom
  sock_recvfrom-Keeps len handshake = record {
    at = λ s h.
        let m = length s.arrivals in
        Post-mono (λ _. Inv m) (λ _. Inv n) (Inv m) (Inv n)
          (recv_from_loop (suc m) len [] handshake s)
          (recv_from_loop-Inv (suc m) handshake m len [] s (omega arith)
            (record { window = h.window; rest = omega arith }))
          (λ _ u. Inv-mono m n u h.rest) (λ u. Inv-mono m n u h.rest);
  }

  recv_file_loop-Keeps :
      (fuel left : ℕ) (name : List ℕ) → left ≤ fuel → Keeps (Inv n) (recv_file_loop fuel left name)
  unfolding recv_file_loop
  recv_file_loop-Keeps zero zero name l = Keeps-pure tt
  recv_file_loop-Keeps zero (suc left) name l = absurd (omega arith)
  recv_file_loop-Keeps (suc fuel) zero name l = Keeps-pure tt
  recv_file_loop-Keeps (suc fuel) (suc left) name l =
      Keeps-bind _ _ (sock_recvfrom-Keeps _ false) λ buf.
        Keeps-bind _ _
          (Keeps-modify (append_file name buf) (λ s h. same n s _ refl refl refl refl refl h))
          λ _. recv_file_loop-Keeps fuel (suc left - buffer_length) name (omega arith)

  pub recv_file-Keeps : (name : List ℕ) (len : ℕ) → Keeps (Inv n) (recv_file name len)
  unfolding recv_file
  recv_file-Keeps name len = record {
    at = λ s h. elim (Bool-cases (s.can_create name)) [
      | inl e ↦
          rw (e, recv_file)
            ((recv_file_loop-Keeps len len name (omega arith)).at _
              (same n s _ refl refl refl refl refl h))
      | inr e ↦ rw (e, recv_file) h
    ];
  }

  wait_round-Keeps : Keeps (Inv n) wait_round
  unfolding wait_round
  wait_round-Keeps = Keeps-bind _ _ (lib_recvfrom-Keeps (Inv n) (Inv-KeepsRecv n)) answered
    where
      answered :
          (r : Received)
          → Keeps
              (Inv n)
              (elim r as (λ _. M (Unit {0})) [ timed_out ↦ pure tt | got udp ↦ send_ack udp.seq 1 ])
      answered timed_out = Keeps-pure tt
      answered (got p) = ack-Keeps n p.seq 1

  pub srv_wait4cnn-Keeps : (sec : ℕ) → Keeps (Inv n) (srv_wait4cnn sec)
  unfolding srv_wait4cnn
  srv_wait4cnn-Keeps zero = wait_round-Keeps
  srv_wait4cnn-Keeps (suc sec) = Keeps-bind _ _ wait_round-Keeps λ _. srv_wait4cnn-Keeps sec
