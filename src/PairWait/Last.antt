-- ===== src/PairWait/Last.antt =====
-- One packet out (`udplastsend`) and one in (`udplastrecv`), as both programs do it. They need only the
-- members that build 2 has too.
pub mod Turn
pub mod Out
use file_transfer_program.Base.{
  ℕ, suc, ◌+◌, ◌%◌, Bool, true, false, List, [], ◌∷◌, ◌++◌, length, first, leb, if◌then◌else◌,
}
use file_transfer_program.Protocol.Codec.{Memory}
use file_transfer_program.Run.{done, stuck, ◌>>◌, modify, gets, pure, crash}
use file_transfer_program.Text.{c_string, skip_space}
use file_transfer_program.StopWait.Handshake.{parity}
use file_transfer_program.StopWait.State.{
  data_length, packet_length, Udppacket, Event, quiet, select_error, recv_error, datagram, Host, M,
  receive, cleared,
}
use file_transfer_program.StopWait.Exchange.{fill, recv_loop}

-- `abs(n + 1) % 2`, which of a 32-bit pattern is that of n + 1.
abbrev pub turn : ℕ → ℕ
turn n = (n + 1) % 2

-- The packet goes out with `size` bytes.
unfoldable pub transmit_last : ℕ → Host → Host
transmit_last size h = record h {
  sent = h.sent ++ record { size = size; packet = h.sendmsg } ∷ [];
  total_send_number_packets = h.total_send_number_packets + 1;
}

-- What `recvfrom` leaves, whatever it is that came.
unfoldable pub take_any : Udppacket → List Event → Host → Host
take_any p es h = record h {
  recvmsg = p;
  arrivals = es;
  total_send_packet = h.total_send_packet + 1;
}

-- The first loop: anything that comes ends it, and so does the fourth timeout.
unfoldable pub wait_last : ℕ → ℕ → List Event → M (Unit {0})
wait_last size resends [] h = stuck (record h { arrivals = [] })
wait_last size resends (quiet ∷ es) h =
    let t = transmit_last size (record h { arrivals = es }) in
    let rest = wait_last size (suc resends) es t in if leb (suc resends) 3 then rest else done tt t
wait_last size resends (select_error ∷ es) h =
    let t = record h { arrivals = es } in
    let rest = wait_last size resends es t in if leb resends 3 then rest else done tt t
wait_last size resends (recv_error ∷ es) h = done tt (take_any (cleared h.recvmsg) es h)
wait_last size resends (datagram n p ∷ es) h = done tt (take_any (receive n p h.recvmsg) es h)

-- The second loop: a timeout ends it, and so does anything that comes, which is lost.
unfoldable pub linger : List Event → M (Unit {0})
linger [] h = stuck (record h { arrivals = [] })
linger (quiet ∷ es) h = done tt (record h { arrivals = es })
linger (select_error ∷ es) h = linger es (record h { arrivals = es })
linger (recv_error ∷ es) h = done tt (take_any (cleared h.recvmsg) es h)
linger (datagram n p ∷ es) h = done tt (take_any (receive n p h.recvmsg) es h)

-- `udplastsend`, where the packet goes out with `size` bytes, and again with `again` bytes.
unfoldable pub send_last : ℕ → ℕ → Memory → ℕ → M Udppacket
send_last size again sbuffer flag = do
  fill sbuffer flag
  modify (transmit_last size)
  (λ h. wait_last again 0 h.arrivals h)
  (λ h. linger h.arrivals h)
  modify (λ h. record h { send_seq = turn h.send_seq })
  gets (λ h. h.sendmsg)

-- `udplastrecv`, where an ACK starts with `name`; `counts` says whether a packet is counted, by whether it
-- is the one awaited.
unfoldable pub recv_last : (Bool → Bool) → List ℕ → Memory → M Udppacket
recv_last counts name beyond = do
  (λ h. recv_loop counts turn name beyond h.arrivals h)
  gets (λ h. h.recvmsg)

-- `recvfrom`, which waits through what `select` would report, and whether it succeeds.
unfoldable pub hear : List Event → M Bool
hear [] h = stuck (record h { arrivals = [] })
hear (quiet ∷ es) h = hear es (record h { arrivals = es })
hear (select_error ∷ es) h = hear es (record h { arrivals = es })
hear (recv_error ∷ es) h = done false (record h { arrivals = es; recvmsg = cleared h.recvmsg })
hear (datagram n p ∷ es) h = done true (record h { arrivals = es; recvmsg = receive n p h.recvmsg })

-- A message of the handshake; its number stays that of `sendmsg`.
unfoldable pub tell : Memory → M (Unit {0})
tell text = modify λ h.
    let p = record (h.sendmsg) { payload = first data_length text } in
    record h { sendmsg = p; sent = h.sent ++ record { size = packet_length; packet = p } ∷ [] }

-- `abs(atoi(text)) % 2`
unfoldable pub start_of : List ℕ → ℕ
start_of text = parity (skip_space text) % 2

-- The text in a packet. One that fills the data is read and copied beyond its end.
unfoldable pub text_in : Udppacket → M (List ℕ)
text_in p =
    let text = c_string p.payload in if leb data_length (length text) then crash else pure text
