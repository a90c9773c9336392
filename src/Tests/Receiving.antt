-- ===== src/Tests/Receiving.antt =====
-- The theorems on the receiver at the arrival of a short file.
use file_transfer_program.Base.{
  ℕ, ◌≡◌, true, false, some, List, [], ◌∷◌, length, codes, refl, inl, arith,
}
use file_transfer_program.Protocol.{Packet}
use file_transfer_program.Sock.State.{Sock, select_timeout, datagram}
use file_transfer_program.Sock.Receiver.{recv_file, sock_recvfrom, chk_seq_ex}
use file_transfer_program.Sock.Receiver.Accept.{Sure, Answered, chk_seq_ex-Answered}
use file_transfer_program.Sock.Receiver.Stream.{frame, Ready}
use file_transfer_program.Sock.Receiver.Deliver.{Copied, sock_recvfrom-Copied}
use file_transfer_program.Chunks.{gather, chunk}
use file_transfer_program.Sock.Receiver.File.{Written, recv_file-Written}
use file_transfer_program.Sock.Receiver.Chunks.{recv_file-chunk}
use file_transfer_program.Tests.Samples.{peer, fresh}

abbrev text : List ℕ
text = codes "five bytes, and more"

abbrev name : List ℕ
name = codes "copy.txt"

-- The stream of the file, whose first frame has number 3.
abbrev part : ℕ → Packet
part i = frame 1 3 (chunk 1024 text) i

-- Frame 1 overtakes frame 0, which comes after a timeout, and comes twice.
abbrev receiving : Sock
receiving = record fresh {
  last_seq = 2;
  arrivals =
      datagram peer 1032 (part 1)
      ∷ select_timeout
      ∷ datagram peer 1032 (part 0)
      ∷ datagram peer 1032 (part 0)
      ∷ [];
}

receiving-Ready : Ready 1 3 (chunk 1024 text) 0 receiving
receiving-Ready = (
  refl,
  (
    refl,
    inl (
      1,
      refl,
      omega arith,
      omega arith,
      (
        refl,
        inl (
          0,
          refl,
          omega arith,
          omega arith,
          (refl, inl (0, refl, omega arith, omega arith, omega arith)),
        ),
      ),
    ),
  ),
)

recv_file-chunk_example :
    Sure (λ _ t. t.disk name ≡ some text) (recv_file name (length text) receiving)
recv_file-chunk_example = recv_file-chunk 1 3 text name receiving refl (omega arith) receiving-Ready

sock_recvfrom-Copied_example :
    Sure (Copied 1 3 (chunk 1024 text) 0 8 [] receiving) (sock_recvfrom 8 false receiving)
sock_recvfrom-Copied_example =
    sock_recvfrom-Copied 1 3 (chunk 1024 text) 8 0 receiving (omega arith) (omega arith)
      (omega arith) receiving-Ready

recv_file-Written_example :
    Sure
      (λ _. Written 1 3 (chunk 1024 text) name 0 20 (gather 1024 (chunk 1024 text) 20 0 20))
      (recv_file name 20 receiving)
recv_file-Written_example =
    recv_file-Written 1 3 (chunk 1024 text) name 20 0 receiving refl (omega arith) receiving-Ready

-- The state in which frame 0 has just been taken from the socket.
abbrev arrived : Sock
arrived = record receiving { arrivals = [] }

chk_seq_ex-Answered_example :
    Sure (λ taken t. (taken ≡ true) × Answered 3 arrived t) (chk_seq_ex (part 0) arrived)
chk_seq_ex-Answered_example = chk_seq_ex-Answered (part 0) arrived
