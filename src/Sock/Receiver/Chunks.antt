-- ===== src/Sock/Receiver/Chunks.antt =====
-- A file cut into frames as `send_file` cuts it, and put together again by `recv_file`.
use file_transfer_program.Base.{
  ℕ, ◌+◌, ◌/◌, ◌≤◌, ◌≡◌, true, some, List, length, arith, refl, ◌∙◌, ap,
}
use file_transfer_program.Chunks.{gather-Carries, chunk, chunk-Carries}
use file_transfer_program.Protocol.{buffer_length}
use file_transfer_program.Sock.State.{Sock}
use file_transfer_program.Sock.Receiver.{recv_file}
use file_transfer_program.Sock.Receiver.Accept.{Sure, Sure-mono}
use file_transfer_program.Sock.Receiver.Stream.{Ready}
use file_transfer_program.Sock.Receiver.File.{recv_file-Written}

-- A file that goes out in frames as `send_file` cuts it comes back whole. `recv_file` is told the file's length
-- and can create it, and waits for frame 0. No call of `select` or `recvfrom` fails; what comes is whole,
-- and is a frame of another type, or a data frame of the file that is at most 31 places before or after the one
-- that is waited for. Such frames may be lost, repeated and reordered, as long as frames 0 to `goal` - 1,
-- which hold the file, each come in their turn in the end. Then `recv_file` returns and has written exactly
-- the file's bytes.
pub recv_file-chunk :
    (goal base : ℕ) (bytes name : List ℕ) (s : Sock)
    → s.can_create name ≡ true
    → (length bytes + 1023) / 1024 ≤ goal
    → Ready goal base (chunk buffer_length bytes) 0 s
    → Sure (λ _ t. t.disk name ≡ some bytes) (recv_file name (length bytes) s)
recv_file-chunk goal base bytes name s c g r =
    Sure-mono _ _ (recv_file name (length bytes) s)
      (recv_file-Written goal base (chunk buffer_length bytes) name (length bytes) 0 s c
        (omega (arith, g)) r)
      λ _ t w.
        w.0
        ∙ ap some (
            gather-Carries buffer_length (chunk buffer_length bytes) (length bytes) 0 (length bytes)
              bytes (omega arith) (omega arith) refl
              (chunk-Carries buffer_length bytes (length bytes) 0))
