-- ===== src/StopWait/Transfer.antt =====
-- A file in packets, as both programs send and receive it: first its name and size, then its bytes. The
-- actions that send and receive a packet are arguments, since each program has its own.
use file_transfer_program.Base.{
  ℕ, zero, suc, ◌-◌, min, true, false, none, some, List, [], ◌∷◌, ◌++◌, length, take, drop, ltb,
  leb, ◌==◌, if◌then◌else◌,
}
use mathlib.Core.Option
use file_transfer_program.Files.{write_file}
use file_transfer_program.Protocol.Codec.{Memory, memory_of, offset}
use file_transfer_program.Text.{to_string, atoi, before, after}
use file_transfer_program.Run.{done, crashed, ◌>>=◌, ◌>>◌, pure, crash, stop, when, modify}
use file_transfer_program.StopWait.State.{data_length, Udppacket, Host, M}

-- `strcat(filename, ","); strcat(filename, to_string(filelenth).c_str());`
unfoldable pub info_text : List ℕ → ℕ → List ℕ
info_text name size = name ++ b',' ∷ to_string size

-- Name and size behind such a text. With no comma in it, each is read from the whole text.
unfoldable pub read_info : List ℕ → List ℕ × ℕ
read_info text = elim (after b',' text) [
  | none ↦ (text, atoi text)
  | some rest ↦ (before b',' text, atoi rest)
]

unfoldable pub append_file : List ℕ → List ℕ → Host → Host
append_file name bytes h = record h {
  disk = write_file name (Option.get_or (h.disk name) [] ++ bytes) h.disk;
}

-- `fopen(name, "wb")`; a null stream is not looked for, so the calls on it are undefined.
unfoldable pub create_file : List ℕ → M (Unit {0})
create_file name h =
    if h.can_create name then done tt (record h { disk = write_file name [] h.disk }) else crashed

module _ (send : Memory → ℕ → M Udppacket) where
  -- The text does not fit behind 259 bytes.
  unfoldable pub send_info : List ℕ → ℕ → Memory → M (Unit {0})
  send_info name size beyond =
      let text = info_text name size in
      if leb data_length (length text)
      then crash
      else (do _ ← send (memory_of (text ++ 0 ∷ []) beyond) 0; pure tt)

  -- `while (sizeleft >= 0)`: `bytes` are still to be read, and `buffer` holds what was read before. The
  -- last bytes go out with their number as flag. When they are a whole buffer, the loop goes round once
  -- more, and reads from the file that it has closed.
  unfoldable pub send_chunks : ℕ → List ℕ → Memory → M (Unit {0})
  send_chunks zero bytes buffer = stop
  send_chunks (suc fuel) bytes buffer =
      let read =
        memory_of (take data_length bytes) (offset buffer (min (length bytes) data_length)) in
      elim (ltb data_length (length bytes)) [
        | true ↦ do _ ← send read 0; send_chunks fuel (drop data_length bytes) read
        | false ↦ do _ ← send read (length bytes); when (length bytes == data_length) crash
      ]

module _ (recv : M Udppacket) where
  -- `while (fsize > 0)`
  unfoldable pub recv_chunks : ℕ → ℕ → List ℕ → M (Unit {0})
  recv_chunks zero left name = if left == 0 then pure tt else stop
  recv_chunks (suc fuel) zero name = pure tt
  recv_chunks (suc fuel) (suc left) name = do
    p ← recv
    modify (append_file name (take (min (suc left) data_length) p.payload))
    recv_chunks fuel (suc left - data_length) name
