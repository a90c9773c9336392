-- ===== src/TcpClient.antt =====
-- The class TcpClient of build 1: build 1/Assign/Client/TcpClient.cpp. Each of its calls has a connection of its
-- own, as those of TcpThread have. Console output has no part in it.
pub mod Download
pub mod Upload
use file_transfer_program.Base.{
  ℕ, zero, suc, ◌-◌, Bool, true, false, Option, none, some, List, [], ◌∷◌, ◌++◌, length, drop,
  first, get_or, ltb, ◌==◌, if◌then◌else◌, codes,
}
use mathlib.Core.Option
use file_transfer_program.Files.{same_name, remove_file}
use file_transfer_program.Protocol.Codec.{Memory, memory_of, encode_u32}
use file_transfer_program.Run.{done, stuck, crashed, ◌>>=◌, ◌>>◌, pure, gets, modify, crash, when}
use file_transfer_program.Text.{c_string}
use file_transfer_program.TcpThread.{
  Call, fails, ended, ready, Conn, M, taken, skip, recv, send, file_loop, info_name, info_size,
  create_file, send_loop,
}

-- A failing `send` throws, which nothing catches.
unfoldable pub must_send : List ℕ → M (Unit {0})
must_send bytes = do broken ← gets (λ c. c.send_fails); when broken crash; send bytes

-- A message that is received over what is in a buffer.
abbrev pub received_over : List ℕ → List ℕ → List ℕ
received_over got buffer = got ++ drop (length got) buffer

-- `deleteClientFiles`: whether the file was there and could be removed.
unfoldable pub delete_client_files : List ℕ → M Bool
delete_client_files filename = do
  file ← gets (λ c. c.disk filename)
  allowed ← gets (λ c. c.can_delete filename)
  elim file [
    | none ↦ pure false
    | some bytes ↦ elim allowed [
      | true ↦ do modify (λ c. record c { disk = remove_file filename c.disk }); pure true
      | false ↦ pure false
    ]
  ]

-- The loop of `listServerFiles`: the names that are printed, each before the next message is received. A
-- failing `recv` throws; the end of the stream leaves the buffer, so that the loop goes on.
unfoldable pub list_loop : List ℕ → List (List ℕ) → List Call → M (List (List ℕ))
list_loop buffer names [] c = stuck (record c { calls = [] })
list_loop buffer names (fails ∷ es) c = crashed
list_loop buffer names (ended ∷ es) c =
    let shown = if get_or buffer 0 0 == 0 then names else names ++ c_string buffer ∷ [] in
    let rest = list_loop buffer shown es (record c { calls = es }) in
    if get_or buffer 0 0 == b'@' then done shown (record c { calls = es }) else rest
list_loop buffer names (ready n ∷ es) c =
    let shown = if get_or buffer 0 0 == 0 then names else names ++ c_string buffer ∷ [] in
    let buffer' = received_over (taken 260 n c) buffer in
    let rest = list_loop buffer' shown es (skip 260 n es c) in
    if get_or buffer' 0 0 == b'@' then done shown (skip 260 n es c) else rest

-- `beyond` is what lies behind a text in its buffer, and in a ClientFile that is not filled.
module _ (beyond : Memory) where
  -- A text in a buffer of `n` bytes.
  abbrev field : ℕ → List ℕ → List ℕ
  field n text = first n (memory_of (text ++ 0 ∷ []) beyond)

  -- Whether there is such a file. A failing `send` or `recv` of the command is only printed.
  unfoldable pub put_file_to_server : List ℕ → M Bool
  put_file_to_server filename = do
    send (field 20 (codes "PUT" ++ 13 ∷ []))
    _ ← recv 20
    file ← gets (λ c. c.disk filename)
    elim file [
      | none ↦ pure false
      | some bytes ↦ do
        send (field 260 filename ++ encode_u32 (length bytes))
        send_loop (suc (length bytes)) bytes
        pure true
    ]

  unfoldable pub list_server_files : M (List (List ℕ))
  list_server_files = do
    must_send (codes "LIST" ++ 13 ∷ [])
    let buffer = 0 ∷ drop 1 (field 260 (codes "LIST" ++ 13 ∷ []))
    (λ c. list_loop buffer [] c.calls c)

  -- Whether the server has the file: the name in its answer is the one that was asked for. A size of 2^31 or
  -- more is a negative `long`.
  unfoldable pub get_file_from_server : List ℕ → M Bool
  get_file_from_server filename = do
    send (field 128 (codes "GET" ++ 13 ∷ []))
    _ ← recv 128
    must_send (field 260 filename)
    got ← recv 264
    let info = Option.get_or got []
    let name = info_name info beyond
    let size = info_size info beyond
    elim (same_name filename name) [
      | false ↦ pure false
      | true ↦ do
        create_file name
        (λ c. file_loop (if ltb size 0x8000_0000 then size else 0) name c.calls c)
        pure true
    ]

  -- Whether the file is said to be deleted. The answer is received over the request.
  unfoldable pub delete_server_files : List ℕ → M Bool
  delete_server_files filename = do
    send (field 128 (codes "DELETE" ++ 13 ∷ []))
    _ ← recv 128
    let request = field 264 filename
    send request
    got ← recv 264
    elim (same_name filename (c_string (received_over (Option.get_or got []) request))) [
      | true ↦ pure true
      | false ↦ do _ ← recv 260; pure false
    ]
