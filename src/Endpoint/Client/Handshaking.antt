-- ===== src/Endpoint/Client/Handshaking.antt =====
-- `handshake` in client.cpp, before anything is in the window.
use file_transfer_program.Base.{
  ℕ, zero, suc, ◌+◌, ◌-◌, if◌then◌else◌, ◌≤◌, ◌≡◌, refl, true, false, Bool, arith, ◌==◌,
}
use file_transfer_program.Protocol.{Packet, buffer_length, mask, sub_u32}
use file_transfer_program.Protocol.Codec.{Memory, offset, decode_handshake}
use file_transfer_program.Sock.State.{Sock, pure, modify, gets, fail, ◌>>=◌, ◌>>◌}
use file_transfer_program.Sock.Wire.{Received, timed_out, got, add_udpheader}
use file_transfer_program.Sock.Logic.{
  Keeps, Keeps-bind, Keeps-pure, Keeps-gets, Keeps-modify, Keeps-fail, Keeps-if, KeepsRecv,
  KeepsSend, lib_recvfrom-Keeps, lib_sendto-Keeps,
}
use file_transfer_program.Sock.Sender.{udp_sendto_loop, udp_sendto, sock_sendto_loop, sock_sendto}
use file_transfer_program.Sock.Sender.Invariant.{Inv, Inv-KeepsRecv, Inv-KeepsSend}
use file_transfer_program.Sock.Setup.{reset_statistics}
use file_transfer_program.Endpoint.Client.{handshake}

module _ (n : ℕ) where
  -- Nothing is in the window.
  abbrev pub Idle : Sock → Type 0
  Idle s = Inv n s × (s.win_buf_pos ≡ 0)

  -- The number of the next frame may change too.
  idle :
      (s t : Sock)
      → t.win_buf_pos ≡ s.win_buf_pos
      → t.w_size ≡ s.w_size
      → t.arrivals ≡ s.arrivals
      → Idle s
      → Idle t
  idle s t p w a (h, e) = (
    record {
      window = record {
        fits = omega (arith, p, e);
        small = omega (arith, w, h.window.small);
        masked = λ i l. absurd (omega (arith, p, e));
        numbered = λ i l. absurd (omega (arith, p, e));
      };
      rest = rw a h.rest;
    },
    omega (arith, p, e),
  )

  Idle-KeepsRecv : KeepsRecv Idle
  Idle-KeepsRecv = record { at = λ s es d l h. ((Inv-KeepsRecv n).at s es d l h.0, h.1) }

  Idle-KeepsSend : KeepsSend Idle
  Idle-KeepsSend = record { at = λ s c k ds h. ((Inv-KeepsSend n).at s c k ds h.0, h.1) }

  udp_sendto_loop-Keeps :
      (retry : ℕ) (p : Packet) (shakes : Bool) → Keeps Idle (udp_sendto_loop retry p shakes)
  unfolding udp_sendto_loop
  udp_sendto_loop-Keeps zero p shakes = Keeps-pure false
  udp_sendto_loop-Keeps (suc retry) p shakes =
      Keeps-bind _ _ (lib_sendto-Keeps Idle Idle-KeepsSend p) λ _.
        Keeps-bind _ _ (lib_recvfrom-Keeps Idle Idle-KeepsRecv)
          (answered shakes (udp_sendto_loop-Keeps retry p shakes))
    where
      answered :
          (shakes : Bool)
          → Keeps Idle (udp_sendto_loop retry p shakes)
          → (r : Received)
          → Keeps Idle (elim r [
            | timed_out ↦ do
              modify (λ s. record s { re_send_cnt = s.re_send_cnt + 1 })
              udp_sendto_loop retry p shakes
            | got u ↦ elim shakes [
              | true ↦ do modify (λ s. record s { hs_data = decode_handshake u.payload }); pure true
              | false ↦ do
                seq ← gets (λ s. s.seq)
                if u.seq == mask (sub_u32 seq 1) then pure true else fail
            ]
          ])
      answered shakes k timed_out =
          Keeps-bind _ _ (Keeps-modify _ (λ s h. idle s _ refl refl refl h)) λ _. k
      answered true k (got u) =
          Keeps-bind _ _ (Keeps-modify _ (λ s h. idle s _ refl refl refl h)) λ _. Keeps-pure true
      answered false k (got u) =
          Keeps-bind _ _ (Keeps-gets _) λ seq. Keeps-if _ _ _ (Keeps-pure true) Keeps-fail

  add_udpheader-Keeps : (buf : Memory) → Keeps Idle (add_udpheader buf)
  unfolding add_udpheader
  add_udpheader-Keeps buf =
      Keeps-bind _ _ (Keeps-gets _)
        λ seq. Keeps-bind _ _ (Keeps-modify _ (λ s h. idle s _ refl refl refl h)) λ _. Keeps-pure _

  sock_sendto_loop-Keeps :
      (fuel : ℕ) (buf p : Memory) (left : ℕ) (shakes : Bool)
      → left ≤ fuel
      → Keeps Idle (sock_sendto_loop fuel buf p left shakes)
  unfolding sock_sendto_loop udp_sendto
  sock_sendto_loop-Keeps zero buf p zero shakes l = Keeps-pure tt
  sock_sendto_loop-Keeps zero buf p (suc left) shakes l = absurd (omega arith)
  sock_sendto_loop-Keeps (suc fuel) buf p zero shakes l = Keeps-pure tt
  sock_sendto_loop-Keeps (suc fuel) buf p (suc left) shakes l =
      Keeps-bind _ _ (add_udpheader-Keeps p) λ udp.
        Keeps-bind _ _ (udp_sendto_loop-Keeps 1000 _ shakes) (
          went (
            sock_sendto_loop-Keeps fuel buf (offset buf buffer_length) (suc left - buffer_length)
              shakes (omega arith)))
    where
      went :
          Keeps Idle
            (sock_sendto_loop fuel buf (offset buf buffer_length) (suc left - buffer_length) shakes)
          → (sent : Bool)
          → Keeps {A = Unit} Idle (elim sent [
            | false ↦ fail
            | true ↦ do
              modify (λ s. record s { send_cnt = s.send_cnt + 1 })
              sock_sendto_loop fuel buf (offset buf buffer_length) (suc left - buffer_length) shakes
          ])
      went k false = Keeps-fail
      went k true = Keeps-bind _ _ (Keeps-modify _ (λ s h. idle s _ refl refl refl h)) λ _. k

  -- The handshake of the client keeps its window empty.
  pub handshake-Keeps : (beyond : Memory) (drawn : ℕ) → Keeps Idle (handshake beyond drawn)
  unfolding handshake sock_sendto reset_statistics
  handshake-Keeps beyond drawn =
      Keeps-bind _ _ (Keeps-modify _ (λ s h. idle s _ refl refl refl h)) λ _.
        Keeps-bind _ _ (sock_sendto_loop-Keeps 8 _ _ 8 true (omega arith)) λ _.
          Keeps-bind _ _ (Keeps-gets _) λ answered.
            Keeps-if _ _ _ (Keeps-modify _ (λ s h. idle s _ refl refl refl h)) Keeps-fail
