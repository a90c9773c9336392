-- ===== src/Sock/Receiver/File.antt =====
-- `recv_file` on a sender's stream, and the frames that `send_file` cuts a file into.
use file_transfer_program.Base.{
  ℕ, zero, suc, ◌+◌, ◌-◌, ◌/◌, ◌≤◌, ◌≡◌, true, false, some, List, [], ◌++◌, take, min, arith, sym,
  ◌∙◌, ap, append_assoc, append-nil,
}
use file_transfer_program.Protocol.{buffer_length}
use file_transfer_program.Chunks.{gather}
use file_transfer_program.Files.{write_file_self}
use file_transfer_program.Sock.State.{Sock, pure, modify}
use file_transfer_program.Sock.Receiver.{sock_recvfrom, append_file, recv_file_loop, recv_file}
use file_transfer_program.Sock.Receiver.Accept.{Sure, Sure-mono, Sure-bind}
use file_transfer_program.Sock.Receiver.Stream.{Ready}
use file_transfer_program.Sock.Receiver.Deliver.{Copied, sock_recvfrom-Copied}

module _ (goal base : ℕ) (payload : ℕ → List ℕ) (name : List ℕ) where
  abbrev pub Written : ℕ → ℕ → List ℕ → Sock → Type 0
  Written next left bytes t =
      (t.disk name ≡ some bytes) × Ready goal base payload (next + (left + 1023) / 1024) t

  min-min : (n : ℕ) → min (min n buffer_length) buffer_length ≡ min n buffer_length
  min-min n = omega arith

  finished :
      (next : ℕ) (content : List ℕ) (s : Sock)
      → s.disk name ≡ some content
      → Ready goal base payload next s
      → Written next 0 (content ++ []) s
  finished next content s e r =
      let z : next + (0 + 1023) / 1024 ≡ next = omega arith in
      (e ∙ ap some (sym (append-nil content)), rw z r)

  appended :
      (content buf : List ℕ) (t : Sock)
      → t.disk name ≡ some content
      → (append_file name buf t).disk name ≡ some (content ++ buf)
  appended content buf t e = rw (write_file_self name _ t.disk, e)

  next_frame :
      (next left : ℕ)
      → next + (suc left + 1023) / 1024 ≡ suc next + ((suc left - buffer_length) + 1023) / 1024
  next_frame next left = omega arith

  recv_file_loop-Written :
      (fuel left next : ℕ) (content : List ℕ) (s : Sock)
      → left ≤ fuel
      → s.disk name ≡ some content
      → next + (left + 1023) / 1024 ≤ goal
      → Ready goal base payload next s
      → Sure
          (λ _. Written next left (content ++ gather buffer_length payload fuel next left))
          (recv_file_loop fuel left name s)
  unfolding recv_file_loop gather pure modify
  recv_file_loop-Written zero zero next content s l e g r = finished next content s e r
  recv_file_loop-Written zero (suc left) next content s l e g r = absurd (omega arith)
  recv_file_loop-Written (suc fuel) zero next content s l e g r = finished next content s e r
  recv_file_loop-Written (suc fuel) (suc left) next content s l e g r =
      Sure-bind (Copied goal base payload next (min (suc left) buffer_length) [] s) _
        (sock_recvfrom (min (suc left) buffer_length) false) _ s
        (sock_recvfrom-Copied goal base payload (min (suc left) buffer_length) next s (omega arith)
          (omega arith) (omega arith) r)
        λ buf t h.
          Sure-bind
            (λ _ u. (u.disk name ≡ some (content ++ buf)) × Ready goal base payload (suc next) u) _
            (modify (append_file name buf)) _ t (appended content buf t (rw h.2.0 e), h.1)
            λ _ u k.
              Sure-mono _ _ (recv_file_loop fuel (suc left - buffer_length) name u)
                (recv_file_loop-Written fuel (suc left - buffer_length) (suc next) (content ++ buf)
                  u (omega arith) k.0 (omega arith) k.1)
                λ _ v q. (
                  q.0
                      ∙ ap some (
                          append_assoc content buf _
                          ∙ ap
                              (λ b.
                                content
                                ++ (b
                                    ++ gather buffer_length payload fuel (suc next)
                                        (suc left - buffer_length)))
                              (h.0 ∙ ap (λ k. take k (payload next)) (min-min (suc left)))),
                  rw (next_frame next left) q.1,
                )

  -- `recv_file` waits for frame `next`, for a file of `len` bytes and a name that it can create. No call of
  -- `select` or `recvfrom` fails; what comes is whole, and is a frame of another type, or a data frame of the
  -- stream that is at most 31 places before or after the one waited for, lost, repeated and reordered within
  -- that, and each frame before `goal` comes in its turn in the end; those of the file are among them. Then
  -- `recv_file` returns: it has written exactly the `len` bytes that these frames carry, and waits for the
  -- frame after the last of them.
  pub recv_file-Written :
      (len next : ℕ) (s : Sock)
      → s.can_create name ≡ true
      → next + (len + 1023) / 1024 ≤ goal
      → Ready goal base payload next s
      → Sure
          (λ _. Written next len (gather buffer_length payload len next len))
          (recv_file name len s)
  unfolding recv_file
  recv_file-Written len next s c g r =
      rw (c, recv_file)
        (recv_file_loop-Written len len next [] _ (omega arith) (write_file_self name [] s.disk) g
          r)
