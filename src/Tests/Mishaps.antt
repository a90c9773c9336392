-- ===== src/Tests/Mishaps.antt =====
-- The theorems on what goes wrong in build 2, and on its handshake, at concrete inputs.
use file_transfer_program.Base.{ℕ, ◌++◌, ◌≡◌, refl, List, [], ◌∷◌, take, replicate, codes, arith}
use file_transfer_program.Protocol.Codec.{memory_of}
use file_transfer_program.Run.{crashed, Returns, ◌>>◌}
use file_transfer_program.StopWait.State.{select_error, datagram, receive}
use file_transfer_program.StopWait.Client
use file_transfer_program.StopWait.Server
use file_transfer_program.StopWait.Server.{
  put_file_to_client, get_file_from_client, del_files, handle,
}
use file_transfer_program.StopWait.Closed.{closed_never_serves}
use file_transfer_program.StopWait.Cut.{udpsend_cut}
use file_transfer_program.StopWait.Exchange.Out.{Sent}
use file_transfer_program.StopWait.Handshake.{
  Party, silence, heard, client_handshake, client_handshake-Agreed,
}
use file_transfer_program.StopWait.Overflow.{send_chunks_overflow}
use file_transfer_program.StopWait.Sending.{text_payload}
use file_transfer_program.StopWait.Transfer.{send_chunks}
use file_transfer_program.Text.{c_string, to_string, digits}
use file_transfer_program.Text.Strings.{Avoids}
use file_transfer_program.Tests.Uploads.{ones, no_packet, text, text-Avoids, answered, delivered}

closed_never_serves_example :
    (¬ Returns (λ _ _. Unit {0}) ((put_file_to_client ones >> handle ones) delivered))
    × (¬ Returns (λ _ _. Unit {0}) ((get_file_from_client ones >> handle ones) delivered))
    × (¬ Returns (λ _ _. Unit {0}) ((del_files ones >> handle ones) delivered))
closed_never_serves_example = closed_never_serves ones delivered refl

abbrev full : List ℕ
full = replicate 260 b'x'

full-Avoids : Avoids 0 full
full-Avoids = replicate-Avoids 260
  where
    replicate-Avoids : (n : ℕ) → Avoids 0 (replicate n b'x')
    replicate-Avoids ℕ.zero = tt
    replicate-Avoids (ℕ.suc n) = (omega arith, replicate-Avoids n)

send_chunks_overflow_example : send_chunks (Client.udpsend ones) 261 full ones answered ≡ crashed
send_chunks_overflow_example =
    send_chunks_overflow ones 261 full ones answered.arrivals answered (omega arith) (omega arith)
      refl full-Avoids refl refl

udpsend_cut_example :
    Returns
      (λ q t.
        Sent 5 5 1
          (record { seq_no = 0; payload = text_payload ones text ones })
          (select_error ∷ datagram 264 no_packet ∷ [])
          answered
          q
          t
        × ((receive 5 q no_packet).payload ≡ take 1 text ++ replicate 259 0))
      (Server.udpsend ones (memory_of text ones) 5 answered)
udpsend_cut_example =
    udpsend_cut ones ones text 1 (select_error ∷ datagram 264 no_packet ∷ []) answered no_packet
      text-Avoids (omega arith) (omega arith) refl (refl, refl)

-- The server says 75 after one timeout, and then nothing.
abbrev greeted : Party
greeted = record {
  client_start_seq = 0;
  server_start_seq = 0;
  send_seq = 0;
  next_rec_seq = 0;
  hearings = silence ∷ heard (codes "75" ++ 0 ∷ []) ∷ silence ∷ [];
  said = [];
}

client_handshake-Agreed_example :
    Returns (λ _ t. (t.send_seq ≡ 0) × (t.next_rec_seq ≡ 1)) (client_handshake 6 greeted)
unfolding c_string to_string digits
client_handshake-Agreed_example =
    client_handshake-Agreed 1 6 75 (codes "75" ++ 0 ∷ []) silence [] greeted (omega arith)
      (omega arith) refl refl (omega arith)
