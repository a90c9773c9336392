-- ===== src/PairWait/Server.antt =====
-- The class TcpServer: build3/Assign3_zcl/Server/Server.cpp.
use file_transfer_program.Base.{
  ℕ, zero, suc, true, not, none, some, List, [], ◌∷◌, ◌++◌, length, replicate, ◌-◌, ◌+◌, ◌==◌,
  if◌then◌else◌, codes, take, drop, min, ltb, false,
}
use file_transfer_program.Files.{same_name, remove_file}
use file_transfer_program.Protocol.Codec.{Memory, memory_of, offset}
use file_transfer_program.Text.{c_string, to_string}
use file_transfer_program.Run.{◌>>=◌, ◌>>◌, pure, gets, modify, when, crash, stop}
use file_transfer_program.StopWait.State
use file_transfer_program.StopWait.State.{data_length, packet_length, Udppacket}
use file_transfer_program.StopWait.Transfer.{read_info, create_file, send_info}
use file_transfer_program.StopWait.Server.{line}
use file_transfer_program.PairWait.State.{Host, M, on_base, lift}
use file_transfer_program.PairWait.Exchange.{send_pair}
use file_transfer_program.PairWait.Reply.{recv_pair}
use file_transfer_program.PairWait.Last.{send_last, recv_last, hear, tell, start_of, text_in}
use file_transfer_program.PairWait.Transfer.{recv_pairs}

-- Each round of the loop takes an event, or is the last one.
unfoldable pub rounds_for : ℕ → Host → ℕ
rounds_for size h = size + suc (length h.base.arrivals)

module _ (pair : Memory → M (Unit {0})) (last : Memory → ℕ → M Udppacket) where
  -- The loop of `PutFileToClient`, `while (sizeleft >= 0)`: `bytes` are still to be read, and `buffer` holds what
  -- was read before. After a whole buffer at the end it goes round once more, and reads from the file that it
  -- has closed.
  unfoldable pub send_pairs : ℕ → List ℕ → Memory → M (Unit {0})
  send_pairs zero bytes buffer = stop
  send_pairs (suc fuel) bytes buffer =
      let read =
        memory_of (take data_length bytes) (offset buffer (min (length bytes) data_length)) in
      elim (ltb data_length (length bytes)) [
        | true ↦ do pair read; send_pairs fuel (drop data_length bytes) read
        | false ↦ do _ ← last read (length bytes); when (length bytes == data_length) crash
      ]

-- `beyond` is what lies behind a text in its buffer and behind a buffer; `stale` is what is read in a
-- buffer of a function that has returned.
module _ (beyond : Memory) (stale : List ℕ → List ℕ) where
  -- A flag is the length of the datagram too.
  unfoldable pub udplastsend : Memory → ℕ → State.M Udppacket
  udplastsend sbuffer flag =
      let size = if flag == 0 then packet_length else flag in send_last size size sbuffer flag

  -- A packet is counted when it is not the one awaited.
  unfoldable pub udplastrecv : State.M Udppacket
  udplastrecv = recv_last not (codes "serverACK") beyond

  -- Both loops take whole packets, the first one no more than 130 bytes.
  unfoldable pub udpsend : Memory → M (Unit {0})
  udpsend sbuffer = send_pair packet_length 130 sbuffer

  -- A text with zeros behind it.
  abbrev say : List ℕ → M Udppacket
  say s = lift (udplastsend (memory_of s (λ _. 0)) 0)

  -- A text with the rest of its buffer behind it.
  abbrev answer : List ℕ → M Udppacket
  answer s = lift (udplastsend (memory_of (s ++ 0 ∷ []) beyond) 0)

  unfoldable pub get_file_from_client : M (Unit {0})
  get_file_from_client = do
    modify (λ h. record h { rec_temp_seq = 0 })
    p ← lift udplastrecv
    text ← lift (text_in p)
    let (name, size) = read_info text
    file ← gets (λ h. h.base.disk name)
    _ ← say (elim file [ none ↦ codes "C" | some bytes ↦ codes "S" ])
    p' ← lift udplastrecv
    text' ← lift (text_in p')
    let (name', size') = read_info text'
    lift (create_file name')
    n ← gets (rounds_for size')
    recv_pairs stale (recv_pair beyond) (lift udplastrecv) n size' name'

  -- When there is no such file the name goes back as a pair.
  unfoldable pub put_file_to_client : M (Unit {0})
  put_file_to_client = do
    modify λ h.
        record (on_base (λ b. record b { total_send_number_packets = 0; total_send_packet = 0 })
          h) { send_temp_seq = 0 }
    p ← lift udplastrecv
    name ← lift (text_in p)
    file ← gets (λ h. h.base.disk name)
    elim file [
      | none ↦ udpsend (memory_of (name ++ replicate (data_length - length name) 0) beyond)
      | some bytes ↦ do
        lift (send_info udplastsend name (length bytes) beyond)
        send_pairs udpsend (λ m flag. lift (udplastsend m flag)) (suc (length bytes)) bytes beyond
    ]

  -- A file that cannot be deleted gets no answer.
  unfoldable pub del_files : M (Unit {0})
  del_files = do
    p ← lift udplastrecv
    name ← lift (text_in p)
    file ← gets (λ h. h.base.disk name)
    elim file [
      | none ↦ do _ ← answer (line (codes "#")); pure tt
      | some bytes ↦ do
        allowed ← gets (λ h. h.base.can_delete name)
        when allowed (do
          modify (on_base (λ b. record b { disk = remove_file name b.disk }))
          _ ← answer (line (codes "@"))
          pure tt)
    ]

  unfoldable pub send_names : List (List ℕ) → M (Unit {0})
  send_names [] = pure tt
  send_names (name ∷ names) = do _ ← answer name; send_names names

  unfoldable pub list_files : M (Unit {0})
  list_files = do
    names ← gets (λ h. h.base.listing)
    send_names names
    _ ← answer (line (codes "@"))
    pure tt

  -- The command is sent back before it is carried out.
  unfoldable pub echo : Udppacket → M (Unit {0}) → M (Unit {0})
  echo p action = do _ ← lift (udplastsend (memory_of p.payload beyond) 0); action

  -- One round of the loop of `run`.
  unfoldable pub handle : M (Unit {0})
  handle = do
    p ← lift udplastrecv
    let command = c_string p.payload
    when (same_name command (line (codes "LIST"))) (echo p list_files)
    when (same_name command (line (codes "GET"))) (echo p put_file_to_client)
    when (same_name command (line (codes "PUT"))) (echo p get_file_from_client)
    when (same_name command (line (codes "DEL"))) (echo p del_files)

  unfoldable pub serve : ℕ → M (Unit {0})
  serve zero = pure tt
  serve (suc rounds) = do handle; serve rounds

  -- `random` is `rand() % 256`. The second message is not looked at.
  unfoldable pub threewayhandshake : ℕ → State.M (Unit {0})
  threewayhandshake random = do
    heard ← (λ h. hear h.arrivals h)
    client ← gets (λ h. start_of h.recvmsg.payload)
    tell (memory_of (to_string random ++ 0 ∷ []) beyond)
    _ ← (λ h. hear h.arrivals h)
    when heard
        (modify (λ h. record h { send_seq = start_of (to_string random); next_rec_seq = client }))

  -- `run` after its setup, for `rounds` rounds.
  unfoldable pub run : ℕ → ℕ → M (Unit {0})
  run random rounds = do lift (threewayhandshake random); serve rounds
