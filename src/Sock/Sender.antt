-- ===== src/Sock/Sender.antt =====
-- The sending methods of socklib.cpp: the window's go-back-N loop, and stop and wait for handshakes.
pub mod Invariant
pub mod Rounds
pub mod Transfer
pub mod Lost
pub mod Acked
pub mod Delivered
use file_transfer_program.Base.{
  ℕ, zero, suc, ◌+◌, ◌-◌, Bool, true, false, not, ◌||◌, none, some, List, length, take, drop,
  get_or, ◌==◌, ltb, if◌then◌else◌,
}
use file_transfer_program.Protocol.{
  Packet, buffer_length, mask, add_u32, sub_u32, acktype_ack, acktype_nack, acktype_sack,
  acktype_handshake,
}
use file_transfer_program.Protocol.Codec.{Memory, offset, decode_handshake}
use file_transfer_program.Sock.State.{
  done, failed, M, pure, fail, stop, ◌>>=◌, ◌>>◌, gets, modify, when,
}
use file_transfer_program.Sock.Wire.{
  Received, timed_out, got, lib_recvfrom, lib_sendto, send_ack, send_special_request, add_udpheader,
}
use file_transfer_program.Sock.Window.{Acks, no_acks, update, remove_packets_from_win, get_max_seq}

-- The memory of a slot of the window is read when it is sent.
unfoldable pub send_slot : ℕ → M (Unit {0})
send_slot i s = lib_sendto (s.win_buf i) s

-- `n` slots from `i` on.
unfoldable pub send_slots : ℕ → ℕ → M (Unit {0})
send_slots zero i = pure tt
send_slots (suc n) i = do send_slot i; send_slots n (suc i)

-- `send_all_win_packets(1)`: after the loop `buf` still points to the last slot that it sent.
unfoldable pub resend_all : M (Unit {0})
resend_all = do n ← gets (λ s. s.win_buf_pos); send_slots (n - 1) 0; send_slot (n - 2)

-- The retry with `waitForACK`, the tags and the timeouts left: what a frame of the peer leads to.
pub data Reply : Type 0 where
  finish : ℕ → Reply
  go_on : Bool → Acks → Reply

-- NACK and SACK name the frame that the receiver waits for.
unfoldable pub on_nack : ℕ → Acks → M Reply
on_nack seq acks s =
    let (t, acks') = remove_packets_from_win (mask (sub_u32 seq 1)) acks s in
    done (finish t.win_buf_pos) t

unfoldable pub on_ack : ℕ → Acks → M Reply
on_ack seq acks s = elim (get_max_seq s seq acks) [
  | none ↦ failed s
  | some (tagged, none) ↦ done (go_on true tagged) s
  | some (tagged, some biggest) ↦
      let (t, acks') = remove_packets_from_win biggest tagged s in
      if t.win_buf_pos == 0 then done (finish 0) t else done (go_on true acks') t
]

-- A frame of another type may be one that the peer sends again.
unfoldable pub on_other : ℕ → Bool → Acks → M Reply
on_other seq wait acks s =
    if seq == mask (add_u32 s.last_seq 1)
    then (send_ack seq acktype_ack >> pure (go_on true acks)) s
    else done (go_on wait acks) s

unfoldable pub on_frame : Packet → Bool → Acks → M Reply
on_frame p wait acks =
    if p.ack_type == acktype_nack || p.ack_type == acktype_sack
    then on_nack p.seq acks
    else if p.ack_type == acktype_ack
    then on_ack p.seq acks
    else on_other p.seq wait acks

unfoldable pub on_timeout : ℕ → M (Unit {0})
on_timeout retry_left = do resend_all; when (retry_left == 0) send_special_request

-- The end of a round of `udp_sendtoEx`; `loop` is its next rounds, over `retryCnt`, `waitForACK` and
-- `arrACK`.
unfoldable pub resume : (ℕ → Bool → Acks → M ℕ) → ℕ → Reply → M ℕ
resume loop retry (finish left) = pure left
resume loop retry (go_on wait acks) = loop retry wait acks

unfoldable pub next_round : (ℕ → Bool → Acks → M ℕ) → ℕ → Bool → Acks → Received → M ℕ
next_round loop retry wait acks timed_out = do on_timeout retry; loop retry wait no_acks
next_round loop retry wait acks (got p) = do
  next ← on_frame p wait acks
  resume loop (suc retry) next

-- The loop of `udp_sendtoEx`; `slot` is the slot that `buf` points to.
unfoldable pub send_window_loop : ℕ → ℕ → Bool → Acks → ℕ → M ℕ
send_window_loop zero retry wait acks slot = stop
send_window_loop (suc fuel) zero wait acks slot = fail
send_window_loop (suc fuel) (suc retry) wait acks slot = do
  when (not wait) (send_slot slot)
  r ← lib_recvfrom
  next_round (λ retry' wait' acks'. send_window_loop fuel retry' wait' acks' slot) retry wait acks r

-- Each round takes at least one event, so the fuel is enough.
unfoldable pub udp_sendto_ex : ℕ → M ℕ
udp_sendto_ex slot s = send_window_loop (suc (length s.arrivals)) 1000 false no_acks slot s

-- `send_all_win_packets(0)`
unfoldable pub send_all_win_packets : M ℕ
send_all_win_packets = do n ← gets (λ s. s.win_buf_pos); send_slots (n - 1) 0; udp_sendto_ex (n - 1)

-- The first half of `copy_2_winbuf`.
unfoldable pub push_frame : Memory → M (Unit {0})
push_frame buf s =
    if ltb s.win_buf_pos s.w_size
    then (do
      p ← add_udpheader buf
      modify (λ t. record t {
        win_buf = update t.win_buf t.win_buf_pos p;
        win_buf_pos = suc t.win_buf_pos;
      }))
        s
    else done tt s

unfoldable pub copy_2_winbuf : Memory → M ℕ
copy_2_winbuf buf = do
  push_frame buf
  is_full ← gets (λ s. s.win_buf_pos == s.w_size)
  if is_full then send_all_win_packets else pure 1

-- What follows a call that returned `ret`, with `left` frames in the window.
unfoldable pub flush_next : M ℕ → ℕ → ℕ → M ℕ
flush_next loop ret left = elim (ltb 0 ret) [
  | false ↦ pure ret
  | true ↦ elim (ltb 0 left) [ true ↦ loop | false ↦ pure ret ]
]

-- `do { ret = send_all_win_packets(0); if (ret <= 0) break; } while (winBufPos > 0);`
unfoldable pub flush_loop : ℕ → M ℕ
flush_loop zero = stop
flush_loop (suc fuel) = do
  ret ← send_all_win_packets
  left ← gets (λ s. s.win_buf_pos)
  flush_next (flush_loop fuel) ret left

unfoldable pub flush : M ℕ
flush s = flush_loop (suc (length s.arrivals)) s

-- The length is not looked at: one whole data field is copied from `buf`.
unfoldable pub sock_sendto_ex : Memory → Bool → M (Unit {0})
sock_sendto_ex buf flag = do
  _ ← copy_2_winbuf buf
  elim flag [ true ↦ pure tt | false ↦ do _ ← flush; pure tt ]

-- `while (!feof(pFile))`: a short `fread` sets the end-of-file mark.
unfoldable pub read_loop : ℕ → List ℕ → M (Unit {0})
read_loop zero bytes = stop
read_loop (suc fuel) bytes = do
  _ ← copy_2_winbuf (get_or' (take buffer_length bytes))
  elim (ltb (length bytes) buffer_length) [
    | true ↦ pure tt
    | false ↦ read_loop fuel (drop buffer_length bytes)
  ]
  where
    get_or' : List ℕ → Memory
    get_or' bs i = get_or bs i 0

-- `ret <= 0` counts as an error here.
unfoldable pub send_file_body : List ℕ → M (Unit {0})
send_file_body bytes = do
  read_loop (suc (length bytes)) bytes
  ret ← flush
  if ret == 0 then fail else pure tt

unfoldable pub send_file : List ℕ → M (Unit {0})
send_file name s = elim (s.disk name) [ none ↦ failed s | some bytes ↦ send_file_body bytes s ]

-- Stop and wait: `retryCnt` rounds of sending and waiting; false is the result 0.
unfoldable pub udp_sendto_loop : ℕ → Packet → Bool → M Bool
udp_sendto_loop zero p handshake = pure false
udp_sendto_loop (suc retry) p handshake = do
  lib_sendto p
  r ← lib_recvfrom
  elim r [
    | timed_out ↦ do
      modify (λ s. record s { re_send_cnt = s.re_send_cnt + 1 })
      udp_sendto_loop retry p handshake
    | got u ↦ elim handshake [
      | true ↦ do modify (λ s. record s { hs_data = decode_handshake u.payload }); pure true
      | false ↦ do
        seq ← gets (λ s. s.seq)
        if u.seq == mask (sub_u32 seq 1) then pure true else fail
    ]
  ]

unfoldable pub udp_sendto : Packet → Bool → M Bool
udp_sendto p handshake = udp_sendto_loop 1000 p handshake

-- `left` stops at 0, where the loop ends; the pointer after the first round is always `buf + 1024`.
unfoldable pub sock_sendto_loop : ℕ → Memory → Memory → ℕ → Bool → M (Unit {0})
sock_sendto_loop zero buf p left handshake = if left == 0 then pure tt else stop
sock_sendto_loop (suc fuel) buf p zero handshake = pure tt
sock_sendto_loop (suc fuel) buf p (suc left) handshake = do
  udp ← add_udpheader p
  sent ←
      udp_sendto (record udp { ack_type = if handshake then acktype_handshake else udp.ack_type })
        handshake
  elim sent [
    | false ↦ fail
    | true ↦ do
      modify (λ s. record s { send_cnt = s.send_cnt + 1 })
      sock_sendto_loop fuel buf (offset buf buffer_length) (suc left - buffer_length) handshake
  ]

unfoldable pub sock_sendto : Memory → ℕ → Bool → M (Unit {0})
sock_sendto buf len handshake = sock_sendto_loop len buf buf len handshake
