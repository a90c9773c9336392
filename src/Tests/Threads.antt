-- ===== src/Tests/Threads.antt =====
-- The theorems on build 1 at concrete inputs.
use file_transfer_program.Base.{
  ℕ, ◌++◌, ◌≡◌, refl, true, false, some, none, List, [], ◌∷◌, inr, codes, first, replicate, arith,
}
use file_transfer_program.Run.{Returns}
use file_transfer_program.Text.{c_string}
use file_transfer_program.TcpThread.{Call, Conn, fails, ready, get_file_from_client, send_loop}
use file_transfer_program.TcpClient
use file_transfer_program.TcpClient.Upload.{Stores, put_file_to_server-Stored}
use file_transfer_program.Protocol.Codec.{memory_of}
use file_transfer_program.Text.Strings.{Avoids}
use file_transfer_program.TcpClient.Download.{Arrives, send_loop-Arrives}
use file_transfer_program.TcpThread.Upload.{info_bytes, get_file_from_client-Stored}

abbrev name_field : List ℕ
name_field = codes "a.txt" ++ replicate 255 0

abbrev text : List ℕ
text = codes "hello"

-- The file comes in pieces of two bytes and one.
abbrev uploading : Conn
uploading = record {
  incoming = info_bytes name_field 5 ++ text;
  calls = ready 263 ∷ ready 1 ∷ ready 0 ∷ ready 1 ∷ ready 0 ∷ ready 0 ∷ [];
  sent = [];
  send_fails = false;
  is_open = true;
  disk = λ _. none;
  can_create = λ _. true;
  can_delete = λ _. true;
  listing = [];
}

get_file_from_client-Stored_example :
    Returns
      (λ _ t. (t.disk (c_string name_field) ≡ some text) × (t.is_open ≡ false))
      (get_file_from_client (λ _. 1) uploading)
get_file_from_client-Stored_example =
    get_file_from_client-Stored (λ _. 1) name_field text 0
      (ready 1 ∷ ready 0 ∷ ready 1 ∷ ready 0 ∷ ready 0 ∷ []) uploading refl (omega arith) refl refl
      tt (omega arith) refl

-- The client asks for the file, and gets its bytes in pieces of three and two.
abbrev echo : List ℕ
echo = codes "GET" ++ 13 ∷ replicate 124 0

abbrev pieces : List Call
pieces = ready 2 ∷ ready 1 ∷ ready 0 ∷ ready 0 ∷ ready 0 ∷ []

abbrev downloading : Conn
downloading = record uploading { calls = ready 127 ∷ ready 263 ∷ pieces }

send_loop-Arrives_example :
    Returns
      (λ _. Arrives (λ _. 1) name_field echo text uploading downloading)
      (send_loop 6 text uploading)
send_loop-Arrives_example =
    send_loop-Arrives (λ _. 1) 6 0 0 name_field echo text pieces uploading downloading (omega arith)
      (omega arith) (inr (omega arith)) refl refl refl refl refl tt (omega arith) refl

-- The client has the file; its `recv` behind the command fails, which is only printed.
abbrev offering : Conn
offering = record uploading { disk = λ _. some text; calls = fails ∷ [] }

file_name-Avoids : Avoids 0 (codes "a.txt")
file_name-Avoids = ground arith

put_file_to_server-Stored_example :
    Returns
      (λ ok t.
        (ok ≡ true)
        × Stores
            (codes "a.txt")
            text
            (λ _. 2)
            (first 20 (memory_of ((codes "PUT" ++ 13 ∷ []) ++ 0 ∷ []) (λ _. 1)))
            offering
            uploading
            t)
      (TcpClient.put_file_to_server (λ _. 1) (codes "a.txt") offering)
put_file_to_server-Stored_example =
    put_file_to_server-Stored (codes "a.txt") text (λ _. 1) (λ _. 2) 0 fails []
      (ready 1 ∷ ready 0 ∷ ready 1 ∷ ready 0 ∷ ready 0 ∷ []) offering uploading file_name-Avoids
      (omega arith) (omega arith) (inr (omega arith)) refl refl refl refl tt (omega arith) refl
