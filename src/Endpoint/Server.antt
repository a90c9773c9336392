-- ===== src/Endpoint/Server.antt =====
-- The class SockServer: build3/sample-3/Server/server.h and server.cpp.
pub mod Serving
use file_transfer_program.Base.{
  ℕ, zero, suc, Bool, true, false, ◌&&◌, Option, none, some, List, [], ◌∷◌, ◌++◌, length, replicate,
  ◌==◌, ltb, if◌then◌else◌, codes,
}
use file_transfer_program.Protocol.{
  Header, Request, Packet, req_get, req_put, resp_ok, resp_failtogetheader, resp_wrongheader,
  resp_unknowntype, resp_failtogetinfo, resp_failtorecvfile, resp_nofile, name_length, sub_u32,
}
use file_transfer_program.Protocol.Codec.{
  Memory, memory_of, encode_header, decode_header, decode_request, decode_handshake, swap_bytes,
}
use file_transfer_program.Sock.State.{Sock, M, pure, gets, modify, when, attempt, ◌>>=◌, ◌>>◌}
use file_transfer_program.Text.{c_string}
use file_transfer_program.Sock.Sender.{sock_sendto_ex, send_file}
use file_transfer_program.Sock.Receiver.{sock_recvfrom, recv_file, srv_wait4cnn}
use file_transfer_program.Sock.Setup.{reset_statistics, show_statistics, set_windows_size, udp_init}
use file_transfer_program.Endpoint.Client.{header_size, request_size, handshake_size, int_length}

-- FILE_DIR_ROOT
abbrev pub root : List ℕ
root = codes "../server_files_root/"

-- What `rand` gives is `drawn`.
unfoldable pub handshake : ℕ → M (Unit {0})
handshake drawn = do
  modify (λ s. record s { hs_data = record { client_seq = 0; server_seq = drawn } })
  bytes ← sock_recvfrom handshake_size true
  modify (λ s. reset_statistics true (record s { seq = (decode_handshake bytes).client_seq }))

-- The checks on a header: the error code, if there is one.
unfoldable pub check_header : Header → Option ℕ
check_header h =
    if h.type == req_get
    then (if h.len == request_size then none else some resp_wrongheader)
    else if h.type == req_put
    then none
    else some resp_unknowntype

abbrev pub no_header : Header
no_header = record { type = 0; len = 0 }

abbrev pub no_request : Request
no_request = record { hostname = replicate name_length 0; filename = replicate name_length 0 }

-- The file that follows a "put" request.
unfoldable pub receive_upload : Header → Request → M ℕ
receive_upload header request = do
  got ←
      attempt (
        recv_file (root ++ c_string request.filename)
          (int_length (sub_u32 header.len request_size)))
  elim got [
    | none ↦ pure resp_failtorecvfile
    | some _ ↦ do _ ← attempt (srv_wait4cnn 25); pure resp_ok
  ]

-- The request behind a header that passed the checks.
unfoldable pub receive_info : Header → M (ℕ × Request)
receive_info header = do
  got ← attempt (sock_recvfrom request_size false)
  elim got [
    | none ↦ pure (resp_failtogetinfo, no_request)
    | some bytes ↦ do
      let request = decode_request bytes
      code ← (if header.type == req_put then receive_upload header request else pure resp_ok)
      pure (code, request)
  ]

-- The result code, and the two structs that the caller has cleared. With `len` 0, which only "put"
-- passes, no request is read.
unfoldable pub checked_data : Header → M (ℕ × Header × Request)
checked_data header = elim (check_header header) [
  | some code ↦ pure (code, header, no_request)
  | none ↦ elim (ltb 0 header.len) [
    | true ↦ do r ← receive_info header; pure (r.0, header, r.1)
    | false ↦ do code ← receive_upload header no_request; pure (code, header, no_request)
  ]
]

unfoldable pub recv_data : M (ℕ × Header × Request)
recv_data = do
  got ← attempt (sock_recvfrom header_size false)
  elim got [
    | none ↦ pure (resp_failtogetheader, no_header, no_request)
    | some bytes ↦ let h = decode_header bytes in checked_data (record h { len = swap_bytes h.len })
  ]

-- The response to a request that ended with `code`; `file` is what `fopen` finds.
unfoldable pub response : ℕ → Header → Option (List ℕ) → Header
response code header file =
    if header.type == req_get
    then elim file [
      | none ↦ record { type = resp_nofile; len = 0 }
      | some bytes ↦ record { type = code; len = length bytes }
    ]
    else record { type = code; len = 0 }

-- `fileSize` is set where the file of a "get" is found.
unfoldable pub note_size : Header → Option (List ℕ) → Sock → Sock
note_size header file s =
    if header.type == req_get
    then elim file [ none ↦ s | some bytes ↦ record s { file_size = length bytes } ]
    else s

-- DEFAULT_WINDOWSIZE
abbrev pub default_window_size : ℕ
default_window_size = 7

module _ (beyond : Memory) where
  -- The rest of `client_handler`; a failed send ends it, with no other effect.
  unfoldable pub answer : ℕ → Header → Request → M (Unit {0})
  answer code header request = do
    let filename = root ++ c_string request.filename
    file ← gets (λ s. s.disk filename)
    modify (note_size header file)
    let resp = response code header file
    _ ← show_statistics false
    sock_sendto_ex (memory_of (encode_header resp) beyond) false
    when (header.type == req_get && resp.type == resp_ok) (send_file filename)
    _ ← show_statistics true
    pure tt

  unfoldable pub client_handler : M (Unit {0})
  client_handler = do r ← recv_data; _ ← attempt (answer r.0 r.1 r.2); pure tt

  -- `start` after its handshake: `rounds` requests of the endless loop.
  unfoldable pub serve : ℕ → M (Unit {0})
  serve zero = pure tt
  serve (suc rounds) = do client_handler; serve rounds

  unfoldable pub start : ℕ → ℕ → M (Unit {0})
  start drawn rounds = do handshake drawn; serve rounds

  -- `main` after the logger is set: whether `init` and `bind` succeed, and the memory of the window.
  unfoldable pub main : Bool → Bool → (ℕ → Packet) → ℕ → ℕ → M (Unit {0})
  main ready bound memory drawn rounds = do
    modify (set_windows_size 8)
    udp_init ready bound memory default_window_size
    start drawn rounds
