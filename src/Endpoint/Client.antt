-- ===== src/Endpoint/Client.antt =====
-- The class SockClient: build3/sample-3/Client/client.h and client.cpp.
pub mod Handshaking
pub mod Upload
use file_transfer_program.Base.{
  ℕ, zero, suc, ◌-◌, Bool, Option, true, false, none, some, List, ◌++◌, length, replicate, ◌==◌,
  ltb, if◌then◌else◌, codes,
}
use file_transfer_program.Protocol.{Header, Packet, name_length, req_get, req_put, resp_ok, add_u32}
use file_transfer_program.Protocol.Codec.{
  Memory, memory_of, encode_header, encode_request, encode_handshake, decode_header, swap_bytes,
}
use file_transfer_program.Sock.State.{
  done, failed, M, pure, fail, gets, modify, when, attempt, ◌>>=◌, ◌>>◌, same_name,
}
use file_transfer_program.Sock.Sender.{sock_sendto, sock_sendto_ex, send_file}
use file_transfer_program.Sock.Receiver.{sock_recvfrom, recv_file, srv_wait4cnn}
use file_transfer_program.Sock.Setup.{reset_statistics, show_statistics, set_dst_addr, udp_init}

-- sizeof(MSGHEADER), sizeof(MSGREQUEST) and sizeof(HANDSHAKE)
abbrev pub header_size : ℕ
header_size = 8

abbrev pub request_size : ℕ
request_size = 64

abbrev pub handshake_size : ℕ
handshake_size = 8

-- An unsigned length that is handed over as an `int` and only compared with 0 and counted down.
abbrev pub int_length : ℕ → ℕ
int_length n = if ltb n 0x8000_0000 then n else 0

-- FILE_DIR_ROOT
abbrev root : List ℕ
root = codes "../client_files_root/"

-- A text of at most 32 bytes in an array that was cleared.
abbrev pub name_field : List ℕ → List ℕ
name_field bs = bs ++ replicate (name_length - length bs) 0

-- `beyond` is the memory behind a local object, which `sock_sendto` may read, and `drawn` is what
-- `rand` gives.
module _ (beyond : Memory) where
  unfoldable pub handshake : ℕ → M (Unit {0})
  handshake drawn = do
    modify (λ s. record s { hs_data = record { client_seq = 0; server_seq = 0 } })
    sock_sendto
        (memory_of (encode_handshake (record { client_seq = drawn; server_seq = 0 })) beyond)
        handshake_size true
    answered ← gets (λ s. s.hs_data.client_seq == drawn)
    if answered
        then modify (λ s. reset_statistics true (record s { seq = s.hs_data.server_seq }))
        else fail

  -- The type of a request and the length of its header, in which `len` is the data that follows.
  -- For "put" the size of the file is asked; other names are refused.
  unfoldable pub make_header : List ℕ → List ℕ → M Header
  make_header filename opname s =
      if same_name opname (codes "get")
      then done (record { type = req_get; len = request_size }) s
      else if same_name opname (codes "put")
      then elim (s.disk (root ++ filename)) [
        | none ↦ failed s
        | some bytes ↦
            done (record { type = req_put; len = add_u32 request_size (length bytes) })
              (record s { file_size = length bytes })
      ]
      else failed s

  -- The header's length goes out in network byte order; the response's comes in the host's.
  unfoldable pub send_request : Header → List ℕ → List ℕ → M (Unit {0})
  send_request header filename hostname = do
    sock_sendto_ex
        (memory_of (encode_header (record header { len = swap_bytes header.len })) beyond) false
    sock_sendto_ex
        (memory_of
          (encode_request
            (record { hostname = name_field hostname; filename = name_field filename }))
          beyond)
        false

  unfoldable pub receive_response : List ℕ → M (Unit {0})
  receive_response filename = do
    bytes ← sock_recvfrom header_size false
    let resp = decode_header bytes
    if resp.type == resp_ok then pure tt else fail
    when (ltb 0 resp.len) (recv_file (root ++ filename) (int_length resp.len))

  -- `start`; `first` says that no handshake was made before.
  unfoldable pub start : Bool → ℕ → List ℕ → List ℕ → List ℕ → M (Unit {0})
  start first drawn filename opname hostname = do
    when first (handshake drawn)
    header ← make_header filename opname
    send_request header filename hostname
    when (header.type == req_put) (send_file (root ++ filename))
    _ ← show_statistics true
    receive_response filename
    _ ← attempt (srv_wait4cnn 2)
    _ ← show_statistics false
    pure tt

  -- `while (true) if (tc->start(…)) break;`, for `rounds` rounds.
  unfoldable pub repeat_start : ℕ → Bool → ℕ → List ℕ → List ℕ → List ℕ → M (Unit {0})
  repeat_start zero first drawn filename opname hostname = pure tt
  repeat_start (suc rounds) first drawn filename opname hostname = do
    start first drawn filename opname hostname
    repeat_start rounds false drawn filename opname hostname

  -- One pass of the loop in `main`: `ready` and `bound` say whether `init` and `bind` succeed, `server`
  -- is what the router's name resolves to.
  unfoldable pub transfer :
      Bool → Bool → (ℕ → Packet) → Option ℕ → ℕ → Bool → ℕ → List ℕ → List ℕ → List ℕ → M (Unit {0})
  transfer ready bound memory server rounds first drawn filename opname hostname = do
    udp_init ready bound memory 7
    modify (set_dst_addr server 7000)
    repeat_start rounds first drawn filename opname hostname
