-- ===== src/Sock/Receiver.antt =====
-- The receiving methods of socklib.cpp.
pub mod Accept
pub mod Stream
pub mod Deliver
pub mod File
pub mod Chunks
pub mod Invariant
use file_transfer_program.Base.{
  ℕ, zero, suc, ◌+◌, ◌-◌, Bool, true, false, ◌&&◌, List, [], ◌++◌, length, take, min, ◌==◌, ltb,
  if◌then◌else◌,
}
use mathlib.Core.Option
use file_transfer_program.Protocol.{
  Packet, Handshake, buffer_length, mask, add_u32, sub_u32, acktype_request, acktype_ack,
  acktype_nack, acktype_sack, acktype_handshake,
}
use file_transfer_program.Protocol.Codec.{decode_handshake, encode_handshake, padded}
use file_transfer_program.Sock.State.{
  Sock, done, failed, M, pure, stop, ◌>>=◌, ◌>>◌, attempt, gets, modify, write_file,
}
use file_transfer_program.Sock.Wire.{Received, timed_out, got, lib_recvfrom, lib_sendto, send_ack}

-- The value -1 of an unsigned int: no frame yet.
abbrev pub no_seq : ℕ
no_seq = 0xffff_ffff

-- Returns 0 on every branch.
unfoldable pub chk_seq : ℕ → M (Unit {0})
chk_seq frame_seq =
    modify (λ s. record s { last_seq = if s.last_seq == no_seq then s.seq else s.last_seq })

-- `lastSeq` once a frame with number `seq` has come.
abbrev pub start_seq : ℕ → ℕ → ℕ
start_seq last_seq seq = if last_seq == no_seq then mask (sub_u32 seq 1) else last_seq

-- The frame in turn is acknowledged and taken.
unfoldable pub accept : ℕ → M Bool
accept last_seq = do
  send_ack (add_u32 last_seq 1) acktype_ack
  modify (λ s. record s { last_seq = mask (add_u32 last_seq 1) })
  pure true

-- Any other frame is answered with the number that is waited for.
unfoldable pub refuse : ℕ → ℕ → M Bool
refuse last_seq type = do send_ack (add_u32 last_seq 1) type; pure false

-- true stands for the result 0, false for -1.
unfoldable pub chk_seq_ex : Packet → M Bool
chk_seq_ex p = do
  modify (λ s. record s { last_seq = start_seq s.last_seq p.seq })
  last_seq ← gets (λ s. s.last_seq)
  if p.ack_type == acktype_request
      then (if mask (add_u32 last_seq 1) == p.seq
          then accept last_seq
          else refuse last_seq acktype_nack)
      else if p.ack_type == acktype_sack
      then refuse last_seq acktype_sack
      else pure false

-- A frame with the numbers of both sides; the result of `lib_sendto` is ignored.
unfoldable pub send_handshake : ℕ → M (Unit {0})
send_handshake seq = do
  hs ← gets (λ s. s.hs_data)
  _ ←
      attempt
        (lib_sendto (record { seq = seq; ack_type = 0; payload = padded (encode_handshake hs) }))
  pure tt

-- A request brings the client's number; a response must show the numbers of both sides.
unfoldable pub check_handshake : Handshake → M (Unit {0})
check_handshake tmp s =
    if tmp.server_seq == 0
    then done tt (record s { hs_data = record (s.hs_data) { client_seq = tmp.client_seq } })
    else if s.hs_data.client_seq == tmp.client_seq && s.hs_data.server_seq == tmp.server_seq
    then done tt s
    else failed s

-- The branch of `sock_recvfrom` for a frame while a handshake is expected.
unfoldable pub on_handshake : Packet → M (Unit {0})
on_handshake udp = do
  check_handshake (decode_handshake udp.payload)
  send_handshake udp.seq
  chk_seq udp.seq

-- The branch for any other frame: whether its data is taken. The answer to a late handshake frame is
-- cleared after its number was set.
unfoldable pub on_data : Packet → M Bool
on_data udp =
    if udp.ack_type == acktype_handshake then (do send_handshake 0; pure false) else chk_seq_ex udp

unfoldable pub on_received : Bool → Packet → M Bool
on_received handshake udp = elim handshake [
  | true ↦ do on_handshake udp; pure true
  | false ↦ on_data udp
]

-- The loop runs its body before it tests `left`; `left` stops at 0, where the loop ends.
unfoldable pub again : (ℕ → List ℕ → M (List ℕ)) → ℕ → List ℕ → M (List ℕ)
again loop left copied = elim (ltb 0 left) [ true ↦ loop left copied | false ↦ pure copied ]

-- The data of a frame that is taken is copied to the buffer.
unfoldable pub copy_frame : (ℕ → List ℕ → M (List ℕ)) → ℕ → List ℕ → Packet → Bool → M (List ℕ)
copy_frame loop left copied udp false = again loop left copied
copy_frame loop left copied udp true = do
  modify (λ s. record s { recv_cnt = s.recv_cnt + 1 })
  again loop (left - buffer_length) (copied ++ take (min left buffer_length) udp.payload)

unfoldable pub recv_next : (ℕ → List ℕ → M (List ℕ)) → ℕ → List ℕ → Bool → Received → M (List ℕ)
recv_next loop left copied handshake timed_out = again loop left copied
recv_next loop left copied handshake (got udp) = do
  taken ← on_received handshake udp
  copy_frame loop left copied udp taken

-- The loop of `sock_recvfrom` over `left` and what has been copied.
unfoldable pub recv_from_loop : ℕ → ℕ → List ℕ → Bool → M (List ℕ)
recv_from_loop zero left copied handshake = stop
recv_from_loop (suc fuel) left copied handshake = do
  r ← lib_recvfrom
  recv_next (λ left' copied'. recv_from_loop fuel left' copied' handshake) left copied handshake r

-- Each round takes at least one event, so the fuel is enough.
unfoldable pub sock_recvfrom : ℕ → Bool → M (List ℕ)
sock_recvfrom len handshake s = recv_from_loop (suc (length s.arrivals)) len [] handshake s

-- `fwrite`
abbrev pub append_file : List ℕ → List ℕ → Sock → Sock
append_file name bytes s = record s {
  disk = write_file name (Option.get_or (s.disk name) [] ++ bytes) s.disk;
}

-- The chunks still to come, of `left` bytes in all.
unfoldable pub recv_file_loop : ℕ → ℕ → List ℕ → M (Unit {0})
recv_file_loop zero left name = if left == 0 then pure tt else stop
recv_file_loop (suc fuel) zero name = pure tt
recv_file_loop (suc fuel) (suc left) name = do
  buf ← sock_recvfrom (min (suc left) buffer_length) false
  modify (append_file name buf)
  recv_file_loop fuel (suc left - buffer_length) name

-- `fopen(filename, "wb")` leaves an empty file.
unfoldable pub recv_file : List ℕ → ℕ → M (Unit {0})
recv_file name len s = elim (s.can_create name) [
  | false ↦ failed s
  | true ↦ recv_file_loop len len name (record s { disk = write_file name [] s.disk })
]

unfoldable pub wait_round : M (Unit {0})
wait_round = do
  r ← lib_recvfrom
  elim r [ timed_out ↦ pure tt | got udp ↦ send_ack udp.seq acktype_ack ]

-- `sec + 1` rounds, in which frames that still come are acknowledged.
unfoldable pub srv_wait4cnn : ℕ → M (Unit {0})
srv_wait4cnn zero = wait_round
srv_wait4cnn (suc sec) = do wait_round; srv_wait4cnn sec
