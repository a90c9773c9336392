-- ===== src/StopWait/Server.antt =====
-- The class TcpServer: build 2/assign2/FTP_UDP/Server/server.cpp.
use file_transfer_program.Base.{
  ℕ, zero, suc, false, none, some, List, [], ◌∷◌, ◌++◌, length, ◌==◌, if◌then◌else◌, codes,
}
use file_transfer_program.Files.{same_name, remove_file}
use file_transfer_program.Protocol.Codec.{Memory, memory_of}
use file_transfer_program.Text.{c_string}
use file_transfer_program.Run.{◌>>=◌, ◌>>◌, pure, gets, modify, when}
use file_transfer_program.StopWait.State.{packet_length, Udppacket, M}
use file_transfer_program.StopWait.Exchange.{exchange_out, exchange_in}
use file_transfer_program.StopWait.Transfer.{
  read_info, create_file, send_info, send_chunks, recv_chunks,
}

-- A text with the carriage return that ends a command or an answer.
abbrev pub line : List ℕ → List ℕ
line s = s ++ 13 ∷ []

unfoldable pub close : M (Unit {0})
close = modify (λ h. record h { is_open = false })

-- `beyond` is what lies behind a text in its buffer and behind a buffer.
module _ (beyond : Memory) where
  -- A flag is the length of the datagram too.
  unfoldable pub udpsend : Memory → ℕ → M Udppacket
  udpsend sbuffer flag =
      let size = if flag == 0 then packet_length else flag in exchange_out size size sbuffer flag

  unfoldable pub udprecv : M Udppacket
  udprecv = exchange_in (codes "serverACK") beyond

  abbrev say : List ℕ → M Udppacket
  say s = udpsend (memory_of (s ++ 0 ∷ []) beyond) 0

  unfoldable pub put_file_to_client : M (Unit {0})
  put_file_to_client = do
    p ← udprecv
    let name = c_string p.payload
    file ← gets (λ h. h.disk name)
    elim file [
      | none ↦ do _ ← say (line (codes "No such a file")); close
      | some bytes ↦ do
        send_info udpsend name (length bytes) beyond
        send_chunks udpsend (suc (length bytes)) bytes beyond
        close
    ]

  unfoldable pub get_file_from_client : M (Unit {0})
  get_file_from_client = do
    p ← udprecv
    let (name, size) = read_info (c_string p.payload)
    create_file name
    recv_chunks udprecv size size name
    close

  -- A file that cannot be deleted gets no answer.
  unfoldable pub del_files : M (Unit {0})
  del_files = do
    p ← udprecv
    let name = c_string p.payload
    file ← gets (λ h. h.disk name)
    elim file [
      | none ↦ do _ ← say (line (codes "#")); close
      | some bytes ↦ do
        allowed ← gets (λ h. h.can_delete name)
        when allowed (do
          modify (λ h. record h { disk = remove_file name h.disk })
          _ ← say (line (codes "@"))
          pure tt)
        close
    ]

  unfoldable pub send_names : List (List ℕ) → M (Unit {0})
  send_names [] = pure tt
  send_names (name ∷ names) = do _ ← say name; send_names names

  unfoldable pub list_files : M (Unit {0})
  list_files = do
    names ← gets (λ h. h.listing)
    send_names names
    _ ← say (line (codes "@"))
    pure tt

  -- The command is sent back before it is carried out.
  unfoldable pub echo : Udppacket → M (Unit {0}) → M (Unit {0})
  echo p action = do _ ← udpsend (memory_of p.payload beyond) 0; action

  -- One round of the loop of `run`.
  unfoldable pub handle : M (Unit {0})
  handle = do
    p ← udprecv
    let command = c_string p.payload
    when (same_name command (line (codes "LIST"))) list_files
    when (same_name command (line (codes "GET"))) (echo p put_file_to_client)
    when (same_name command (line (codes "PUT"))) (echo p get_file_from_client)
    when (same_name command (line (codes "DEL"))) (echo p del_files)

  -- `run` after its setup, for `rounds` rounds; the two numbers are set before the setup.
  unfoldable pub serve : ℕ → M (Unit {0})
  serve zero = pure tt
  serve (suc rounds) = do handle; serve rounds

  unfoldable pub run : ℕ → M (Unit {0})
  run rounds = do modify (λ h. record h { send_seq = 0; next_rec_seq = 0 }); serve rounds
