-- ===== src/Sock/Wire.antt =====
-- The methods of socklib.cpp that call `select`, `recvfrom` and `sendto`, and the frames they build.
use file_transfer_program.Base.{
  ℕ, suc, ◌+◌, ◌-◌, List, [], ◌∷◌, ◌++◌, ◌==◌, leb, if◌then◌else◌, first,
}
use file_transfer_program.Protocol.{
  Packet, buffer_length, mask, add_u32, acktype_request, acktype_sack,
}
use file_transfer_program.Protocol.Codec.{Memory, padded}
use file_transfer_program.Sock.State.{
  Sock, Event, select_error, select_timeout, recv_closed, recv_error, datagram, Outcome, done,
  failed, blocked, M, pure, ◌>>=◌, ◌>>◌, attempt, gets, modify,
}

-- sizeof(UDPPACKET)
abbrev pub packet_size : ℕ
packet_size = 1032

-- The result of `lib_recvfrom` that is not -1: 0 for a timeout, or a frame.
pub data Received : Type 0 where
  timed_out : Received
  got : Packet → Received

-- The loop of `lib_recvfrom`, on the rounds of `select` to come. Every caller asks for
-- `sizeof(UDPPACKET)` bytes and leaves `handshake` at 0. The first sender becomes the destination.
unfoldable pub recv_loop : ℕ → List Event → Sock → Outcome Received
recv_loop wait_cnt [] s = blocked (record s { arrivals = [] })
recv_loop wait_cnt (select_error ∷ es) s = failed (record s { arrivals = es })
recv_loop wait_cnt (select_timeout ∷ es) s =
    let again = recv_loop (wait_cnt - 1) es s in
    if leb wait_cnt 1 then done timed_out (record s { arrivals = es }) else again
recv_loop wait_cnt (recv_closed ∷ es) s = failed (record s { arrivals = es })
recv_loop wait_cnt (recv_error ∷ es) s = failed (record s { arrivals = es })
recv_loop wait_cnt (datagram from size p ∷ es) s =
    if size == packet_size then done (got p) t else failed t
  where
    t : Sock
    t = record s { arrivals = es; dst_addr = if s.dst_addr.port == 0 then from else s.dst_addr }

unfoldable pub lib_recvfrom : M Received
lib_recvfrom s = recv_loop 7 s.arrivals s

unfoldable pub lib_sendto : Packet → M (Unit {0})
lib_sendto p s =
    if s.send_down s.send_calls
    then failed (record s { send_calls = suc s.send_calls })
    else done tt (record s {
      send_calls = suc s.send_calls;
      sent = s.sent ++ record { to = s.dst_addr; frame = p } ∷ [];
      total_frames_sent = s.total_frames_sent + 1;
    })

-- A frame with nothing in its data field.
abbrev pub control : ℕ → ℕ → Packet
control seq type = record { seq = mask seq; ack_type = type; payload = padded [] }

-- The result of `lib_sendto` is ignored.
unfoldable pub send_ack : ℕ → ℕ → M (Unit {0})
send_ack seq type = do _ ← attempt (lib_sendto (control seq type)); pure tt

unfoldable pub send_special_request : M (Unit {0})
send_special_request = do seq ← gets (λ s. s.seq); lib_sendto (control seq acktype_sack)

-- Numbers the frame and copies a whole data field from `buf`; the pointer is never null.
unfoldable pub add_udpheader : Memory → M Packet
add_udpheader buf = do
  seq ← gets (λ s. s.seq)
  modify (λ s. record s { seq = add_u32 s.seq 1 })
  pure (record { seq = mask seq; ack_type = acktype_request; payload = first buffer_length buf })
