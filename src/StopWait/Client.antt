-- ===== src/StopWait/Client.antt =====
-- The class TcpClient: build 2/assign2/FTP_UDP/client/client.cpp.
use file_transfer_program.Base.{
  ℕ, zero, suc, Bool, true, false, ◌&&◌, none, some, List, [], ◌∷◌, ◌++◌, length, ◌==◌, get_or,
  if◌then◌else◌, codes,
}
use file_transfer_program.Files.{same_name}
use file_transfer_program.Protocol.Codec.{Memory, memory_of}
use file_transfer_program.Text.{c_string}
use file_transfer_program.Run.{◌>>=◌, ◌>>◌, pure, gets, modify, when, crash, stop}
use file_transfer_program.StopWait.State.{packet_length, Udppacket, M}
use file_transfer_program.StopWait.Exchange.{exchange_out, exchange_in}
use file_transfer_program.StopWait.Transfer.{
  read_info, create_file, send_info, send_chunks, recv_chunks,
}
use file_transfer_program.StopWait.Server.{line}

-- The start of a connection. Without a socket it throws, which nothing catches, and without an address it
-- reads through a null pointer; a failing `bind` is only reported.
unfoldable pub connectserver : Bool → Bool → M (Unit {0})
connectserver resolved has_socket =
    if resolved && has_socket
    then modify (λ h. record h { send_seq = 0; next_rec_seq = 0; prev_recv_seq = 3000 })
    else crash

-- `beyond` is what lies behind a text in its buffer and behind a buffer.
module _ (beyond : Memory) where
  -- A flag is the length of the datagram only when it is sent again.
  unfoldable pub udpsend : Memory → ℕ → M Udppacket
  udpsend sbuffer flag =
      exchange_out packet_length (if flag == 0 then packet_length else flag) sbuffer flag

  unfoldable pub udprecv : M Udppacket
  udprecv = exchange_in (codes "clientACK") beyond

  abbrev say : List ℕ → M Udppacket
  say s = udpsend (memory_of (s ++ 0 ∷ []) beyond) 0

  -- Whether there is such a file; the server is left waiting for it where there is none.
  unfoldable pub put_file_to_server : List ℕ → M Bool
  put_file_to_server filename = do
    modify (λ h. record h { send_seq = 0; next_rec_seq = 0 })
    _ ← say (line (codes "PUT"))
    _ ← udprecv
    file ← gets (λ h. h.disk filename)
    elim file [
      | none ↦ pure false
      | some bytes ↦ do
        send_info udpsend filename (length bytes) beyond
        send_chunks udpsend (suc (length bytes)) bytes beyond
        pure true
    ]

  -- Whether the server has the file: its answer starts with the name.
  unfoldable pub get_file_from_server : List ℕ → M Bool
  get_file_from_server filename = do
    _ ← say (line (codes "GET"))
    _ ← udprecv
    _ ← say filename
    p ← udprecv
    let (name, size) = read_info (c_string p.payload)
    elim (same_name filename name) [
      | false ↦ pure false
      | true ↦ do create_file name; recv_chunks udprecv size size name; pure true
    ]

  -- Whether the server does not say that there is no such file.
  unfoldable pub delete_server_files : List ℕ → M Bool
  delete_server_files filename = do
    _ ← say (line (codes "DEL"))
    _ ← udprecv
    _ ← say filename
    p ← udprecv
    pure (if get_or p.payload 0 0 == b'#' then false else true)

  -- The names that are printed, up to the packet that starts with `@`.
  unfoldable pub list_loop : ℕ → List (List ℕ) → M (List (List ℕ))
  list_loop zero names = stop
  list_loop (suc fuel) names = do
    p ← udprecv
    let more = names ++ c_string p.payload ∷ []
    elim (get_or p.payload 0 0 == b'@') [
      | true ↦ pure names
      | false ↦ list_loop fuel (if get_or p.payload 0 0 == 0 then names else more)
    ]

  -- Each round takes at least one event, so the fuel is enough.
  unfoldable pub list_server_files : M (List (List ℕ))
  list_server_files = do
    _ ← say (line (codes "LIST"))
    n ← gets (λ h. suc (length h.arrivals))
    list_loop n []

  -- The choice in the loop of `main`; "1" only prints the names in the client's directory.
  unfoldable pub run_command : List ℕ → List ℕ → M (Unit {0})
  run_command command filename = do
    when (same_name command (codes "2")) (do _ ← list_server_files; pure tt)
    when (same_name command (codes "3")) (do _ ← get_file_from_server filename; pure tt)
    when (same_name command (codes "4")) (do _ ← put_file_to_server filename; pure tt)
    when (same_name command (codes "5")) (do _ ← delete_server_files filename; pure tt)

  -- The loop of `main` over what the user chooses.
  unfoldable pub menu : List (List ℕ × List ℕ) → M (Unit {0})
  menu [] = pure tt
  menu ((command, filename) ∷ choices) = do run_command command filename; menu choices

  unfoldable pub session : Bool → Bool → List (List ℕ × List ℕ) → M (Unit {0})
  session resolved has_socket choices = do connectserver resolved has_socket; menu choices
