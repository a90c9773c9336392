-- ===== src/PairWait/Client.antt =====
-- The class TcpClient: build3/Assign3_zcl/Client/Cllient.cpp.
use file_transfer_program.Base.{
  ℕ, zero, suc, true, false, ◌&&◌, none, some, List, [], ◌∷◌, ◌++◌, length, ◌==◌, get_or,
  if◌then◌else◌, codes, Bool, take, drop, min, ltb,
}
use file_transfer_program.Files.{same_name}
use file_transfer_program.Protocol.Codec.{Memory, memory_of, offset}
use file_transfer_program.Text.{c_string, to_string}
use file_transfer_program.Run.{done, stuck, ◌>>=◌, ◌>>◌, pure, gets, modify, when, crash, stop}
use file_transfer_program.StopWait.State
use file_transfer_program.StopWait.State.{
  data_length, packet_length, Udppacket, Event, quiet, select_error, recv_error, datagram, cleared,
  receive,
}
use file_transfer_program.StopWait.Transfer.{info_text, read_info, create_file, send_info}
use file_transfer_program.StopWait.Server.{line}
use file_transfer_program.PairWait.State.{M, on_base, lift}
use file_transfer_program.PairWait.Exchange.{send_pair}
use file_transfer_program.PairWait.Reply.{recv_pair}
use file_transfer_program.PairWait.Last.{send_last, recv_last, tell, start_of, text_in}
use file_transfer_program.PairWait.Transfer.{recv_pairs}
use file_transfer_program.PairWait.Server.{rounds_for}

-- Without an address it reads through a null pointer, and without a socket it throws, which nothing
-- catches; a failing `bind` is only reported.
unfoldable pub connectserver : Bool → Bool → M (Unit {0})
connectserver resolved has_socket = if resolved && has_socket then pure tt else crash

-- The address of the server, looked up anew for each command.
unfoldable pub setsain : Bool → M (Unit {0})
setsain resolved = if resolved then pure tt else crash

-- What the user types for a command, and whether the name of the server is resolved then.
pub record Choice : Type 0 where
  pub command : List ℕ
  pub filename : List ℕ
  pub new_name : List ℕ
  pub resolved : Bool

module _ (pair : Memory → M (Unit {0})) (last : Memory → ℕ → M Udppacket) where
  -- The loop of `PutFileToServer`, `while (sizeleft > 0)`: `bytes` are still to be read, and `buffer` holds what
  -- was read before.
  unfoldable pub send_pairs : ℕ → List ℕ → Memory → M (Unit {0})
  send_pairs zero bytes buffer = stop
  send_pairs (suc fuel) [] buffer = pure tt
  send_pairs (suc fuel) (b ∷ bs) buffer =
      let bytes = b ∷ bs in
      let read =
        memory_of (take data_length bytes) (offset buffer (min (length bytes) data_length)) in
      elim (ltb data_length (length bytes)) [
        | true ↦ do pair read; send_pairs fuel (drop data_length bytes) read
        | false ↦ do _ ← last read (length bytes); pure tt
      ]

-- `beyond` is what lies behind a text in its buffer and behind a buffer; `stale` is what is read in a
-- buffer of a function that has returned.
module _ (beyond : Memory) (stale : List ℕ → List ℕ) where
  -- A flag is the length of the datagram only when it is sent again.
  unfoldable pub udplastsend : Memory → ℕ → State.M Udppacket
  udplastsend sbuffer flag =
      send_last packet_length (if flag == 0 then packet_length else flag) sbuffer flag

  unfoldable pub udplastrecv : State.M Udppacket
  udplastrecv = recv_last (λ _. false) (codes "clientACK") beyond

  unfoldable pub udpsend : Memory → M (Unit {0})
  udpsend sbuffer = send_pair 130 packet_length sbuffer

  abbrev say : List ℕ → M Udppacket
  say s = lift (udplastsend (memory_of (s ++ 0 ∷ []) beyond) 0)

  -- Whether there is such a file; the server is left waiting for it where there is none. Its second text has
  -- the size twice, unless a new name is asked for.
  unfoldable pub put_file_to_server : List ℕ → List ℕ → M Bool
  put_file_to_server filename new_name = do
    modify λ h.
        record (on_base
          (λ b. record b {
            total_send_number_packets = 0;
            total_send_packet = 0;
            send_seq = 0;
            next_rec_seq = 0;
          })
          h) { send_temp_seq = 0 }
    _ ← say (line (codes "PUT"))
    _ ← lift udplastrecv
    file ← gets (λ h. h.base.disk filename)
    elim file [
      | none ↦ pure false
      | some bytes ↦ do
        let size = length bytes
        lift (send_info udplastsend filename size beyond)
        p ← lift udplastrecv
        lift (elim (get_or p.payload 0 0 == b'S' && get_or p.payload 1 0 == 0) [
          | true ↦ send_info udplastsend new_name size (λ _. 0)
          | false ↦ send_info udplastsend (info_text filename size) size beyond
        ])
        send_pairs udpsend (λ m flag. lift (udplastsend m flag)) (suc size) bytes beyond
        pure true
    ]

  -- Whether the server has the file: its answer starts with the name. Where the client has such a file
  -- too, it asks for another name.
  unfoldable pub get_file_from_server : List ℕ → List ℕ → M Bool
  get_file_from_server filename new_name = do
    modify (λ h. record h { rec_temp_seq = 0 })
    _ ← say (line (codes "GET"))
    _ ← lift udplastrecv
    _ ← say filename
    p ← lift udplastrecv
    text ← lift (text_in p)
    let (name, size) = read_info text
    elim (same_name filename name) [
      | false ↦ pure false
      | true ↦ do
        there ← gets (λ h. h.base.disk filename)
        let target = elim there as (λ _. List ℕ) [ none ↦ filename | some bytes ↦ new_name ]
        lift (create_file target)
        n ← gets (rounds_for size)
        recv_pairs stale (recv_pair beyond) (lift udplastrecv) n size target
        pure true
    ]

  -- Whether the server does not say that there is no such file.
  unfoldable pub delete_server_files : List ℕ → M Bool
  delete_server_files filename = do
    _ ← say (line (codes "DEL"))
    _ ← lift udplastrecv
    _ ← say filename
    p ← lift udplastrecv
    pure (if get_or p.payload 0 0 == b'#' then false else true)

  -- The names that are printed, up to the packet that starts with `@`.
  unfoldable pub list_loop : ℕ → List (List ℕ) → M (List (List ℕ))
  list_loop zero names = stop
  list_loop (suc fuel) names = do
    p ← lift udplastrecv
    let more = names ++ c_string p.payload ∷ []
    elim (get_or p.payload 0 0 == b'@') [
      | true ↦ pure names
      | false ↦ list_loop fuel (if get_or p.payload 0 0 == 0 then names else more)
    ]

  -- Each round takes at least one event, so the fuel is enough.
  unfoldable pub list_server_files : M (List (List ℕ))
  list_server_files = do
    modify (on_base (λ b. record b { total_recv_number_packets = 0; total_recv_packet = 0 }))
    _ ← say (line (codes "LIST"))
    _ ← lift udplastrecv
    n ← gets (λ h. suc (length h.base.arrivals))
    list_loop n []

  -- The loop of the handshake: whether it succeeds. Where `recvfrom` fails there is no `return`.
  unfoldable pub wait_number : ℕ → List Event → State.M Bool
  wait_number random [] h = stuck (record h { arrivals = [] })
  wait_number random (quiet ∷ es) h = done false (record h { arrivals = es })
  wait_number random (select_error ∷ es) h = wait_number random es (record h { arrivals = es })
  wait_number random (recv_error ∷ es) h = crash h
  wait_number random (datagram n p ∷ es) h =
      (do
        modify (λ h. record h { recvmsg = receive n p h.recvmsg; arrivals = es })
        number ← gets (λ h. h.recvmsg.payload)
        tell (memory_of number (λ _. 0))
        modify λ h. record h {
          send_seq = start_of (to_string random);
          next_rec_seq = start_of number;
          prev_recv_seq = 3000;
        }
        pure true)
        h

  -- `random` is `rand() % 256`.
  unfoldable pub threewayhandshake : ℕ → State.M Bool
  threewayhandshake random = do
    tell (memory_of (to_string random ++ 0 ∷ []) beyond)
    (λ h. wait_number random h.arrivals h)

  -- The choice in the loop of `main`; "1" only prints the names in the client's directory.
  unfoldable pub run_command : Choice → M (Unit {0})
  run_command c = do
    when (same_name c.command (codes "2")) (do setsain c.resolved; _ ← list_server_files; pure tt)
    when (same_name c.command (codes "3"))
        (do setsain c.resolved; _ ← get_file_from_server c.filename c.new_name; pure tt)
    when (same_name c.command (codes "4"))
        (do setsain c.resolved; _ ← put_file_to_server c.filename c.new_name; pure tt)
    when (same_name c.command (codes "5"))
        (do setsain c.resolved; _ ← delete_server_files c.filename; pure tt)

  -- The loop of `main` over what the user chooses.
  unfoldable pub menu : List Choice → M (Unit {0})
  menu [] = pure tt
  menu (choice ∷ choices) = do run_command choice; menu choices

  -- `main`; what the handshake returns is not looked at.
  unfoldable pub session : Bool → Bool → Bool → ℕ → List Choice → M (Unit {0})
  session resolved has_socket resolved_again random choices = do
    connectserver resolved has_socket
    setsain resolved_again
    _ ← lift (threewayhandshake random)
    menu choices
