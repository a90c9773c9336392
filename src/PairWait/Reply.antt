-- ===== src/PairWait/Reply.antt =====
-- A pair of packets in and its answers out (`udprecv`), as both programs do it.
pub mod Judged
use file_transfer_program.Base.{
  ℕ, ◌+◌, Bool, false, ◌&&◌, Option, none, some, List, [], ◌∷◌, ◌++◌, first, take, ◌==◌, ltb,
  if◌then◌else◌, codes,
}
use file_transfer_program.Protocol.{add_u32, sub_u32}
use file_transfer_program.Protocol.Codec.{Memory, memory_of}
use file_transfer_program.Text.{int_string}
use file_transfer_program.Run.{done, stuck}
use file_transfer_program.StopWait.State.{
  Udppacket, Event, quiet, select_error, recv_error, datagram,
}
use file_transfer_program.PairWait.State.{half_length, Host, M, on_base, overlay, clear, put_half}
use file_transfer_program.PairWait.Exchange.{at, put_out}

-- What comes of the two `recvfrom`, none where one failed.
unfoldable pub first_half : Option (ℕ × Udppacket) → Host → Host
first_half none h = on_base (λ b. record b { recvmsg = clear half_length b.recvmsg }) h
first_half (some (n, p)) h =
    on_base (λ b. record b { recvmsg = overlay n p (clear half_length b.recvmsg) }) h

unfoldable pub second_half : Option (ℕ × Udppacket) → Host → Host
second_half none h = record h { recvmsg2 = clear half_length h.recvmsg2 }
second_half (some (n, p)) h = record h { recvmsg2 = overlay n p (clear half_length h.recvmsg2) }

-- An answer: `name` and the number, over the first half of the data.
unfoldable pub reply : List ℕ → Memory → ℕ → Udppacket → Udppacket
reply name beyond seq p = record {
  seq_no = seq;
  payload = put_half (first half_length (memory_of (name ++ int_string seq ++ 0 ∷ []) beyond)) p;
}

-- The two ACKs go out of two packets.
unfoldable pub acknowledge_pair : Memory → Host → Host
unfolding put_out
acknowledge_pair beyond h =
    let one = reply (codes "ACK") beyond h.base.recvmsg.seq_no h.base.sendmsg in
    let two = reply (codes "ACK") beyond h.recvmsg2.seq_no h.sendmsg2 in
    record (on_base (λ b. put_out two (put_out one (record b { sendmsg = one }))) h) {
      sendmsg2 = two;
    }

-- The two NAKs go out of one.
unfoldable pub refuse_pair : Memory → Host → Host
unfolding put_out
refuse_pair beyond h =
    let one = reply (codes "NAK") beyond h.base.recvmsg.seq_no h.base.sendmsg in
    let two = reply (codes "NAK") beyond h.recvmsg2.seq_no one in
    on_base (λ b. put_out two (put_out one (record b { sendmsg = two }))) h

pub data Verdict : Type 0 where
  in_turn repeated out_of_turn : Verdict

-- Two numbers, where the first one awaited is `awaited`.
unfoldable pub judge : ℕ → ℕ → ℕ → Verdict
judge awaited seq seq2 =
    if seq == awaited && seq2 == add_u32 awaited 1
    then in_turn
    else if seq == sub_u32 awaited 2 && seq2 == sub_u32 awaited 1
    then repeated
    else out_of_turn

-- The end of a call: the 260 bytes, or no buffer.
unfoldable pub conclude : Memory → Verdict → M (Option (List ℕ))
conclude beyond in_turn h =
    done (some (take half_length h.base.recvmsg.payload ++ take half_length h.recvmsg2.payload))
      (record (acknowledge_pair beyond h) { rec_temp_seq = add_u32 h.rec_temp_seq 2 })
conclude beyond repeated h = done none (acknowledge_pair beyond h)
conclude beyond out_of_turn h = done none (refuse_pair beyond h)

-- A round is counted.
unfoldable pub count_round : Host → Host
count_round h =
    on_base (λ b. record b { total_recv_number_packets = b.total_recv_number_packets + 1 }) h

unfoldable pub judge_pair : Memory → M (Option (List ℕ))
judge_pair beyond h =
    conclude beyond (judge h.rec_temp_seq h.base.recvmsg.seq_no h.recvmsg2.seq_no)
      (on_base (λ b. record b { current_recv_seq = b.recvmsg.seq_no }) h)

-- The loop of `udprecv`. `waiting` is none at the first `recvfrom`; at the second one it says whether the
-- first one gave any bytes. Both wait through what `select` would report.
unfoldable pub recv_pair_loop : Memory → Option Bool → List Event → M (Option (List ℕ))
recv_pair_loop beyond waiting [] h = stuck (at [] h)
recv_pair_loop beyond waiting (quiet ∷ es) h = recv_pair_loop beyond waiting es (at es h)
recv_pair_loop beyond waiting (select_error ∷ es) h = recv_pair_loop beyond waiting es (at es h)
recv_pair_loop beyond none (recv_error ∷ es) h =
    recv_pair_loop beyond (some false) es (first_half none (at es h))
recv_pair_loop beyond none (datagram n p ∷ es) h =
    recv_pair_loop beyond (some (ltb 0 n)) es (first_half (some (n, p)) (at es h))
recv_pair_loop beyond (some came) (recv_error ∷ es) h =
    recv_pair_loop beyond none es (count_round (second_half none (at es h)))
recv_pair_loop beyond (some came) (datagram n p ∷ es) h =
    let t = count_round (second_half (some (n, p)) (at es h)) in
    let rest = recv_pair_loop beyond none es t in
    if came && ltb 0 n then judge_pair beyond t else rest

-- `udprecv`. The 260 bytes lie in a local buffer, whose address is what it returns.
unfoldable pub recv_pair : Memory → M (Option (List ℕ))
recv_pair beyond h = recv_pair_loop beyond none h.base.arrivals h
