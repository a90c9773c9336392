-- ===== src/TcpThread.antt =====
-- The class TcpThread, which serves one command over a TCP connection: build 1/Assign/Server/Server.cpp.
pub mod Upload
pub mod Download
use file_transfer_program.Base.{
  ℕ, zero, suc, ◌-◌, min, Bool, true, false, Option, none, some, List, [], ◌∷◌, ◌++◌, length, take,
  drop, replicate, first, ltb, leb, ◌==◌, if◌then◌else◌, codes,
}
use mathlib.Core.Option
use file_transfer_program.Files.{same_name, write_file, remove_file}
use file_transfer_program.Protocol.Codec.{Memory, memory_of, encode_u32, decode_u32}
use file_transfer_program.Run
use file_transfer_program.Run.{
  done, stuck, crashed, ◌>>=◌, ◌>>◌, pure, gets, modify, crash, stop, when,
}
use file_transfer_program.Text.{c_string}

-- BUFFER_LENGTH
abbrev pub chunk_length : ℕ
chunk_length = 128

-- What a call of `recv` finds: an error, the end of the stream, or one byte and `n` more that are there.
pub data Call : Type 0 where
  fails ended : Call
  ready : ℕ → Call

-- The connection: the bytes that are still to come, how the calls of `recv` find them, the messages that
-- `send` took, whether it fails, and whether the socket is open; and the files.
pub record Conn : Type 0 where
  pub incoming : List ℕ
  pub calls : List Call
  pub sent : List (List ℕ)
  pub send_fails : Bool
  pub is_open : Bool
  pub disk : List ℕ → Option (List ℕ)
  pub can_create : List ℕ → Bool
  pub can_delete : List ℕ → Bool
  pub listing : List (List ℕ)

abbrev pub M : Type 0 → Type 0
M A = Run.M Conn A

-- The bytes that a call takes where `n` more than one are there.
abbrev pub taken : ℕ → ℕ → Conn → List ℕ
taken len n c = take (min len (suc n)) c.incoming

unfoldable pub skip : ℕ → ℕ → List Call → Conn → Conn
skip len n es c = record c { incoming = drop (min len (suc n)) c.incoming; calls = es }

-- One call of `recv` for at most `len` bytes; none where it fails.
unfoldable pub recv : ℕ → M (Option (List ℕ))
recv len c = elim c.calls [
  | [] ↦ stuck c
  | call ∷ es ↦ elim call [
    | fails ↦ done none (record c { calls = es })
    | ended ↦ done (some []) (record c { calls = es })
    | ready n ↦ done (some (taken len n c)) (skip len n es c)
  ]
]

unfoldable pub send : List ℕ → M (Unit {0})
send bytes = modify (λ c. if c.send_fails then c else record c { sent = c.sent ++ bytes ∷ [] })

unfoldable pub close : M (Unit {0})
close = modify (λ c. record c { is_open = false })

unfoldable pub append_file : List ℕ → List ℕ → Conn → Conn
append_file name bytes c = record c {
  disk = write_file name (Option.get_or (c.disk name) [] ++ bytes) c.disk;
}

-- `while (fsize > 0)`. After a failing `recv` the buffer is written with a length of -1.
unfoldable pub file_loop : ℕ → List ℕ → List Call → M (Unit {0})
file_loop zero name es c = done tt c
file_loop (suc left) name [] c = stuck c
file_loop (suc left) name (fails ∷ es) c = crashed
file_loop (suc left) name (ended ∷ es) c = file_loop (suc left) name es (record c { calls = es })
file_loop (suc left) name (ready n ∷ es) c =
    let len = min (suc left) chunk_length in
    let got = taken len n c in
    file_loop (suc left - length got) name es (append_file name got (skip len n es c))

-- A Fileinfo of which the bytes `got` have come.
unfoldable pub info_name : List ℕ → Memory → List ℕ
info_name got beyond = c_string (first 260 (memory_of got beyond))

unfoldable pub info_size : List ℕ → Memory → ℕ
info_size got beyond = decode_u32 (drop 260 (first 264 (memory_of got beyond)))

unfoldable pub create_file : List ℕ → M (Unit {0})
create_file name c =
    if c.can_create name then done tt (record c { disk = write_file name [] c.disk }) else crashed

-- `while (sizeleft >= 0)`; when the last bytes are a whole buffer, the closed file is read again.
unfoldable pub send_loop : ℕ → List ℕ → M (Unit {0})
send_loop zero bytes = stop
send_loop (suc fuel) bytes = elim (ltb chunk_length (length bytes)) [
  | true ↦ do send (take chunk_length bytes); send_loop fuel (drop chunk_length bytes)
  | false ↦ do send bytes; when (length bytes == chunk_length) crash
]

-- `beyond` is what lies in a Fileinfo that is not filled, and behind a text in its buffer.
module _ (beyond : Memory) where
  -- A size of 2^31 or more is a negative `long`.
  unfoldable pub get_file_from_client : M (Unit {0})
  get_file_from_client = do
    got ← recv 264
    let info = Option.get_or got []
    let name = info_name info beyond
    let size = info_size info beyond
    create_file name
    (λ c. file_loop (if ltb size 0x8000_0000 then size else 0) name c.calls c)
    close

  -- A name of 260 bytes is read beyond its end.
  unfoldable pub put_file_to_client : M (Unit {0})
  put_file_to_client = do
    got ← recv 260
    let name = c_string (Option.get_or got [])
    when (leb 260 (length name)) crash
    file ← gets (λ c. c.disk name)
    elim file [
      | none ↦ do send (first 260 (memory_of (codes "No such a file" ++ 0 ∷ []) beyond)); close
      | some bytes ↦ do
        send (first 260 (memory_of (name ++ 0 ∷ []) beyond) ++ encode_u32 (length bytes))
        send_loop (suc (length bytes)) bytes
        close
    ]

  unfoldable pub list_names : List (List ℕ) → M (Unit {0})
  list_names [] = send (first 260 (memory_of (b'@' ∷ []) beyond))
  list_names (name ∷ names) = do
    send (first 260 (memory_of (name ++ 0 ∷ []) beyond))
    list_names names

  -- A file that cannot be deleted gets no answer.
  unfoldable pub delete_server_files : M (Unit {0})
  delete_server_files = do
    got ← recv 264
    let info = Option.get_or got []
    let name = info_name info beyond
    file ← gets (λ c. c.disk name)
    elim file [
      | none ↦ do send (replicate 260 0); close
      | some bytes ↦ do
        allowed ← gets (λ c. c.can_delete name)
        when allowed (do
          modify (λ c. record c { disk = remove_file name c.disk })
          send (first 4 (memory_of info beyond))
          close)
    ]

  -- The command is sent back before it is carried out; a failing `send` throws.
  unfoldable pub echo : List ℕ → M (Unit {0}) → M (Unit {0})
  echo szbuffer action = do
    broken ← gets (λ c. c.send_fails)
    when broken crash
    send szbuffer
    action

  -- `szbuffer` is cleared, and a failing `recv` throws.
  unfoldable pub run : M (Unit {0})
  run = do
    got ← recv 128
    elim got [
      | none ↦ crash
      | some bytes ↦
          let szbuffer = bytes ++ replicate (128 - length bytes) 0 in
          let command = c_string szbuffer in
          do
            when (same_name command (codes "LIST" ++ 13 ∷ []))
                (do names ← gets (λ c. c.listing); list_names names)
            when (same_name command (codes "GET" ++ 13 ∷ [])) (echo szbuffer put_file_to_client)
            when (same_name command (codes "PUT" ++ 13 ∷ [])) (echo szbuffer get_file_from_client)
            when (same_name command (codes "DELETE" ++ 13 ∷ [])) (echo szbuffer delete_server_files)
    ]
