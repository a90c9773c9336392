-- ===== src/StopWait/Exchange.antt =====
-- One packet out and its answer in (`udpsend`), and one packet in and its answer out (`udprecv`), as
-- both programs do it.
pub mod In
pub mod Out
use file_transfer_program.Base.{
  ℕ, suc, ◌+◌, ◌-◌, Bool, true, false, List, [], ◌∷◌, ◌++◌, length, first, drop, ◌==◌, leb,
  if◌then◌else◌,
}
use file_transfer_program.Protocol.Codec.{Memory, memory_of}
use file_transfer_program.Text.{c_string, int_string}
use file_transfer_program.Run.{Ran, done, stuck, crashed, ◌>>=◌, ◌>>◌, modify, crash, pure, gets}
use file_transfer_program.StopWait.State.{
  data_length, packet_length, Udppacket, Event, quiet, select_error, recv_error, datagram, Host, M,
  receive, cleared,
}

-- `abs(n - 1)` of a number that is not negative
abbrev pub flip : ℕ → ℕ
flip n = if n == 0 then 1 else n - 1

-- `sendmsg` is filled. With a flag, `strcpy` puts the text of `sbuffer`, of at most `flag` bytes, and its
-- zero over the data; 260 bytes and the zero do not fit.
unfoldable pub fill : Memory → ℕ → M (Unit {0})
fill sbuffer flag h =
    let all = first data_length sbuffer in
    let text = c_string (first flag sbuffer) in
    let put = λ (bytes : List ℕ).
      done tt (record h { sendmsg = record { seq_no = h.send_seq; payload = bytes } }) in
    if flag == 0
    then put all
    else if leb data_length (length text)
    then crashed
    else put (text ++ 0 ∷ drop (suc (length text)) all)

-- `sendto` of the first `size` bytes of `sendmsg`, and the count.
unfoldable pub transmit : ℕ → Host → Host
transmit size h = record h {
  sent = h.sent ++ record { size = size; packet = h.sendmsg } ∷ [];
  total_send_packet = h.total_send_packet + 1;
}

-- What `recvfrom` leaves, whatever it is that came.
unfoldable pub take_answer : Udppacket → List Event → Host → Host
take_answer p es h = record h {
  recvmsg = p;
  arrivals = es;
  total_send_number_packets = h.total_send_number_packets + 1;
}

-- The loop that waits for the ACK; each timeout sends the packet again. Anything that comes ends it.
unfoldable pub wait_ack : ℕ → List Event → M (Unit {0})
wait_ack size [] h = stuck (record h { arrivals = [] })
wait_ack size (quiet ∷ es) h = wait_ack size es (transmit size (record h { arrivals = es }))
wait_ack size (select_error ∷ es) h = wait_ack size es (record h { arrivals = es })
wait_ack size (recv_error ∷ es) h = done tt (take_answer (cleared h.recvmsg) es h)
wait_ack size (datagram n p ∷ es) h = done tt (take_answer (receive n p h.recvmsg) es h)

-- `select` on a closed socket fails for ever.
unfoldable pub wait_open : ℕ → M (Unit {0})
wait_open size h = if h.is_open then wait_ack size h.arrivals h else stuck h

-- `udpsend`, where the packet goes out with `size` bytes, and again with `again` bytes.
unfoldable pub exchange_out : ℕ → ℕ → Memory → ℕ → M Udppacket
exchange_out size again sbuffer flag = do
  fill sbuffer flag
  modify (transmit size)
  wait_open again
  modify (λ h. record h { send_seq = flip h.send_seq })
  gets (λ h. h.sendmsg)

-- The ACK to a packet with number `seq`: `name` is the text before the number, and `beyond` lies behind
-- the string that is copied. Its own `seqNo` stays.
unfoldable pub acknowledge : List ℕ → Memory → ℕ → Host → Host
acknowledge name beyond seq h =
    let ack = record (h.sendmsg) {
      payload = first data_length (memory_of (name ++ int_string seq ++ 0 ∷ []) beyond);
    } in
    record h { sendmsg = ack; sent = h.sent ++ record { size = packet_length; packet = ack } ∷ [] }

-- A round of `udprecv` after `recvfrom` gave `n` bytes, 0 where it failed. `counts` says whether a packet
-- is counted, by whether it is the one awaited.
unfoldable pub take_packet : (Bool → Bool) → List ℕ → Memory → ℕ → Udppacket → Host → Host
unfolding acknowledge
take_packet counts name beyond n p h =
    let counted = record h {
      recvmsg = p;
      total_recv_number_packets = h.total_recv_number_packets + 1;
    } in
    if n == 0
    then counted
    else acknowledge name beyond p.seq_no (record counted {
      current_recv_seq = p.seq_no;
      total_recv_packet =
          if counts (p.seq_no == h.next_rec_seq)
          then h.total_recv_packet + 1
          else h.total_recv_packet;
    })

-- After the loop; `turn` gives the number awaited next.
unfoldable pub taken : (ℕ → ℕ) → Host → Host
taken turn h = record h { prev_recv_seq = h.current_recv_seq; next_rec_seq = turn h.next_rec_seq }

-- The loop of `udprecv`: a packet with the number of the one before is answered and dropped. `recvfrom`
-- waits through what `select` would report.
module _ (counts : Bool → Bool) (turn : ℕ → ℕ) where
  unfoldable pub recv_loop : List ℕ → Memory → List Event → M (Unit {0})
  recv_loop name beyond [] h = stuck (record h { arrivals = [] })
  recv_loop name beyond (quiet ∷ es) h = recv_loop name beyond es (record h { arrivals = es })
  recv_loop name beyond (select_error ∷ es) h =
      recv_loop name beyond es (record h { arrivals = es })
  recv_loop name beyond (recv_error ∷ es) h =
      let t = take_packet counts name beyond 0 (cleared h.recvmsg) (record h { arrivals = es }) in
      let rest = recv_loop name beyond es t in
      if t.current_recv_seq == t.prev_recv_seq then rest else done tt (taken turn t)
  recv_loop name beyond (datagram n p ∷ es) h =
      let t =
        take_packet counts name beyond n (receive n p h.recvmsg) (record h { arrivals = es }) in
      let rest = recv_loop name beyond es t in
      if t.current_recv_seq == t.prev_recv_seq then rest else done tt (taken turn t)

-- On a closed socket `recvfrom` fails at once, each time.
unfoldable pub recv_closed : M (Unit {0})
recv_closed h =
    if h.current_recv_seq == h.prev_recv_seq
    then stuck h
    else done tt (
        taken flip (record h {
          recvmsg = cleared h.recvmsg;
          total_recv_number_packets = h.total_recv_number_packets + 1;
        }))

unfoldable pub exchange_in : List ℕ → Memory → M Udppacket
exchange_in name beyond = do
  modify (λ h. record h { total_recv_number_packets = 0; total_recv_packet = 0 })
  (λ h.
      if h.is_open
      then recv_loop (λ awaited. awaited) flip name beyond h.arrivals h
      else recv_closed h)
  gets (λ h. h.recvmsg)
