-- ===== src/PairWait/Exchange.antt =====
-- A pair of packets out and their ACKs in (`udpsend`), as both programs do it.
pub mod Acked
pub mod Unacked
use file_transfer_program.Base.{
  ℕ, suc, ◌+◌, min, Bool, true, false, not, ◌&&◌, ◌||◌, Option, none, some, List, [], ◌∷◌, ◌++◌,
  first, get_or, ◌==◌, leb, if◌then◌else◌,
}
use file_transfer_program.Protocol.{add_u32}
use file_transfer_program.Protocol.Codec.{Memory, offset}
use file_transfer_program.Run.{done, stuck, ◌>>=◌, ◌>>◌, modify}
use file_transfer_program.StopWait.State
use file_transfer_program.StopWait.State.{
  packet_length, data_length, Udppacket, Event, quiet, select_error, recv_error, datagram, cleared,
}
use file_transfer_program.PairWait.State.{half_length, Host, M, on_base, overlay, put_half}

-- `sendmsg` and `sendmsg2` are filled from the two halves of `sbuffer`.
unfoldable pub fill_pair : Memory → Host → Host
fill_pair sbuffer h = record h {
  base = record (h.base) {
    sendmsg = record {
      seq_no = h.send_temp_seq;
      payload = put_half (first half_length sbuffer) h.base.sendmsg;
    };
  };
  sendmsg2 = record {
    seq_no = add_u32 h.send_temp_seq 1;
    payload = put_half (first half_length (offset sbuffer half_length)) h.sendmsg2;
  };
}

-- A call of `sendto` with a whole packet.
unfoldable pub put_out : Udppacket → State.Host → State.Host
put_out p b = record b { sent = b.sent ++ record { size = packet_length; packet = p } ∷ [] }

-- Both packets go out.
unfoldable pub transmit_pair : Host → Host
unfolding put_out
transmit_pair h =
    on_base
      (λ b. record (put_out h.sendmsg2 (put_out b.sendmsg b)) {
        total_send_number_packets = b.total_send_number_packets + 1;
      })
      h

-- Whether a packet is an ACK to the one with number `seq`.
unfoldable pub is_ack : Udppacket → ℕ → Bool
is_ack p seq = get_or p.payload 0 0 == b'A' && p.seq_no == seq

abbrev pub at : List Event → Host → Host
at es h = on_base (λ b. record b { arrivals = es }) h

abbrev count_answer : Host → Host
count_answer h = on_base (λ b. record b { total_send_packet = b.total_send_packet + 1 }) h

-- `recvmsg` after the first answer, of which at most `cap` bytes are taken.
unfoldable pub first_answer : Option (ℕ × Udppacket) → ℕ → List Event → Host → Host
first_answer none cap es h = at es (on_base (λ b. record b { recvmsg = cleared b.recvmsg }) h)
first_answer (some (n, p)) cap es h =
    at es (on_base (λ b. record b { recvmsg = overlay (min n cap) p (cleared b.recvmsg) }) h)

-- `recvmsg2` after the second one: the data of `recvmsg` is cleared, and not its own.
unfoldable pub second_answer : Option (ℕ × Udppacket) → List Event → Host → Host
second_answer none es h =
    count_answer (at es (on_base (λ b. record b { recvmsg = cleared b.recvmsg }) h))
second_answer (some (n, p)) es h =
    count_answer (record (at es (on_base (λ b. record b { recvmsg = cleared b.recvmsg }) h)) {
      recvmsg2 = overlay n p h.recvmsg2;
    })

-- Where a loop stands: at its own `select`, at the inner one, or at the inner `recvfrom` after that one
-- failed, which is called since `outfds` is tested in place of `outfds2`.
pub data Mode : Type 0 where
  outer inner forced : Mode

-- The first loop of `udpsend`, or its second one (`lingers`), which ends at a timeout. `slid1` and `slid2`
-- say which packet has its ACK. Only in the outer mode of the first loop packets go out again.
module _ (lingers : Bool) (cap : ℕ) where
  unfoldable pub wait_acks : Mode → ℕ → Bool → Bool → List Event → M (Bool × Bool)
  wait_acks mode resends slid1 slid2 [] h = stuck (at [] h)
  wait_acks outer resends slid1 slid2 (quiet ∷ es) h =
      let t = transmit_pair (at es h) in
      let rest = wait_acks outer (suc resends) slid1 slid2 es t in
      if lingers
      then done (slid1, slid2) (at es h)
      else if leb (suc resends) 3 || not (slid1 && slid2)
      then rest
      else done (slid1, slid2) t
  wait_acks outer resends slid1 slid2 (select_error ∷ es) h =
      let rest = wait_acks outer resends slid1 slid2 es (at es h) in
      if lingers || (leb resends 3 || not (slid1 && slid2))
      then rest
      else done (slid1, slid2) (at es h)
  wait_acks outer resends slid1 slid2 (recv_error ∷ es) h =
      let t = first_answer none cap es h in
      wait_acks inner resends (slid1 || is_ack t.base.recvmsg t.base.sendmsg.seq_no) slid2 es t
  wait_acks outer resends slid1 slid2 (datagram n p ∷ es) h =
      let t = first_answer (some (n, p)) cap es h in
      wait_acks inner resends (slid1 || is_ack t.base.recvmsg t.base.sendmsg.seq_no) slid2 es t
  wait_acks inner resends slid1 slid2 (quiet ∷ es) h =
      wait_acks outer resends slid1 false es (count_answer (at es h))
  wait_acks inner resends slid1 slid2 (select_error ∷ es) h =
      wait_acks forced resends slid1 slid2 es (at es h)
  wait_acks inner resends slid1 slid2 (recv_error ∷ es) h =
      let t = count_answer (second_answer none es h) in
      let slid2' = slid2 || is_ack t.recvmsg2 t.sendmsg2.seq_no in
      let rest = wait_acks outer resends slid1 slid2' es t in
      if slid1 && slid2' then done (slid1, slid2') t else rest
  wait_acks inner resends slid1 slid2 (datagram n p ∷ es) h =
      let t = count_answer (second_answer (some (n, p)) es h) in
      let slid2' = slid2 || is_ack t.recvmsg2 t.sendmsg2.seq_no in
      let rest = wait_acks outer resends slid1 slid2' es t in
      if slid1 && slid2' then done (slid1, slid2') t else rest
  wait_acks forced resends slid1 slid2 (quiet ∷ es) h =
      wait_acks forced resends slid1 slid2 es (at es h)
  wait_acks forced resends slid1 slid2 (select_error ∷ es) h =
      wait_acks forced resends slid1 slid2 es (at es h)
  wait_acks forced resends slid1 slid2 (recv_error ∷ es) h =
      let t = second_answer none es h in
      wait_acks inner resends slid1 (slid2 || is_ack t.recvmsg2 t.sendmsg2.seq_no) es t
  wait_acks forced resends slid1 slid2 (datagram n p ∷ es) h =
      let t = second_answer (some (n, p)) es h in
      wait_acks inner resends slid1 (slid2 || is_ack t.recvmsg2 t.sendmsg2.seq_no) es t

-- `udpsend`; `cap` and `cap'` are the lengths that `recvfrom` is given in its two loops. What it returns is
-- the address of a local buffer, which nobody reads.
unfoldable pub send_pair : ℕ → ℕ → Memory → M (Unit {0})
send_pair cap cap' sbuffer = do
  modify (fill_pair sbuffer)
  modify transmit_pair
  (slid1, slid2) ← (λ h. wait_acks false cap outer 0 false false h.base.arrivals h)
  _ ← (λ h. wait_acks true cap' outer 0 slid1 slid2 h.base.arrivals h)
  modify (λ h. record h { send_temp_seq = add_u32 h.send_temp_seq 2 })
