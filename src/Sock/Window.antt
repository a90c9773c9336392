-- ===== src/Sock/Window.antt =====
-- The sender's window in socklib.cpp: dropping acknowledged frames, and the longest acknowledged run.
pub mod Arrays
pub mod Remove
pub mod Acked
use file_transfer_program.Base.{
  ℕ, zero, suc, ◌+◌, ◌-◌, ◌&&◌, ◌||◌, Option, none, some, ◌==◌, ltb, if◌then◌else◌,
}
use file_transfer_program.Protocol.{Packet, sequence_num_max, sub_u32}
use file_transfer_program.Sock.State.{Sock}

-- `char arrAck[SEQUENCE_NUM_MAX]`
abbrev pub Acks : Type 0
Acks = ℕ → ℕ

abbrev pub no_acks : Acks
no_acks k = 0

-- One element of an array is written.
abbrev pub update {ℓ} : {A : Type ℓ} → (ℕ → A) → ℕ → A → ℕ → A
update f i v k = if k == i then v else f k

-- The loops that look for a sequence number, from slot `i` on, in `n` slots.
unfoldable pub find_seq : (ℕ → Packet) → ℕ → ℕ → ℕ → Option ℕ
find_seq win recv_seq zero i = none
find_seq win recv_seq (suc n) i =
    if (win i).seq == recv_seq then some i else find_seq win recv_seq n (suc i)

-- The two arrays while the frames behind the removed ones move to the left: `n` rounds from `j` on.
unfoldable pub move_left {ℓ} : {A : Type ℓ} → ℕ → ℕ → ℕ → (ℕ → A) → ℕ → A
move_left zero j i a = a
move_left (suc n) j i a = move_left n (suc j) i (update a j (a (i + j)))

-- `for (int k = j; k < SEQUENCE_NUM_MAX; k++) arrAck[k] = 0;`
abbrev pub clear_from : ℕ → Acks → Acks
clear_from j acks k = if ltb k j then acks k else if ltb k sequence_num_max then 0 else acks k

-- The branch that found the number at slot `i - 1`.
unfoldable pub remove_found : Sock → Acks → ℕ → Sock × Acks
unfolding move_left
remove_found s acks i =
    let left = s.win_buf_pos - i in
    if ltb 0 left && ltb left s.w_size
    then (
      record s { win_buf = move_left left 0 i s.win_buf; win_buf_pos = left },
      clear_from left (move_left left 0 i acks),
    )
    else (record s { win_buf_pos = left }, acks)

-- The other branch looks at the slot behind the window. `==` binds tighter than `&`, so the test is
-- whether the number is `recvSeq - 1`, as an unsigned int.
unfoldable pub remove_missing : Sock → ℕ → Sock
remove_missing s recv_seq =
    if (s.win_buf s.win_buf_pos).seq == sub_u32 recv_seq 1 then record s { win_buf_pos = 0 } else s

-- The result is the new `winBufPos`.
unfoldable pub remove_packets_from_win : ℕ → Acks → Sock → Sock × Acks
remove_packets_from_win recv_seq acks s = elim (find_seq s.win_buf recv_seq s.win_buf_pos 0) [
  | some i ↦ remove_found s acks (suc i)
  | none ↦ (remove_missing s recv_seq, acks)
]

-- The number of leading tags that are set, among `n` from `j` on.
unfoldable pub acked_run : ℕ → ℕ → Acks → ℕ
acked_run zero j acks = 0
acked_run (suc n) j acks = if acks j == 0 then 0 else suc (acked_run n (suc j) acks)

-- Sets the tag of the slot that holds `seq`.
unfoldable pub mark_ack : Sock → ℕ → Acks → Acks
unfolding find_seq
mark_ack s seq acks = elim (find_seq s.win_buf seq s.win_buf_pos 0) [
  | some i ↦ update acks i 1
  | none ↦ acks
]

-- -1 (`none`) for an empty window; else the tags, and the number of the last frame of the
-- acknowledged run if there is one (the results 1 and 0).
unfoldable pub get_max_seq : Sock → ℕ → Acks → Option (Acks × Option ℕ)
get_max_seq s seq acks =
    let tagged = mark_ack s seq acks in
    let j = acked_run s.win_buf_pos 0 tagged in
    if s.win_buf_pos == 0
    then none
    else some (tagged, if ltb 0 j then some (s.win_buf (j - 1)).seq else none)

-- The new `seqOfLastACK`, if the ACK `seq` changes or keeps it; `none` is the early `return 0`. The
-- window's first and last numbers are `min_seq` and `max_seq`.
unfoldable pub last_acked : ℕ → ℕ → ℕ → ℕ → Option ℕ
last_acked min_seq max_seq last seq =
    if last == 0xffff_ffff
    then (if seq == min_seq then some seq else none)
    else if ltb min_seq max_seq
    then some (if ltb last seq then seq else last)
    else if ltb min_seq seq || ltb last seq
    then some seq
    else if ltb seq min_seq || ltb last seq
    then some seq
    else some last

-- Nothing calls it any more. `none` is the result -1.
unfoldable pub set_last_seq : ℕ → Sock → Option ℕ × Sock
set_last_seq seq s =
    let min_seq = (s.win_buf 0).seq in
    let max_seq = (s.win_buf (s.win_buf_pos - 1)).seq in
    if s.win_buf_pos == 0
    then (none, s)
    else elim (last_acked min_seq max_seq s.seq_of_last_ack seq) [
      | none ↦ (some 0, s)
      | some last ↦ (
        some (if last == max_seq then 1 else if last == min_seq then 2 else 0),
        record s { seq_of_last_ack = last },
      )
    ]
