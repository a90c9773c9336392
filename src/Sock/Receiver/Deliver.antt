-- ===== src/Sock/Receiver/Deliver.antt =====
-- `sock_recvfrom` and `recv_file` on a sender's stream: the bytes arrive once each and in order.
use file_transfer_program.Base.{
  ℕ, zero, suc, ◌+◌, ◌-◌, ◌≤◌, ◌<◌, ◌≡◌, Bool, true, false, List, [], ◌++◌, length, take, min,
  arith, refl, ◌∙◌, ap, lt→ltb, le→ltb,
}
use file_transfer_program.Protocol.{Packet, buffer_length, mask}
use file_transfer_program.Sock.State.{Sock, M, pure, modify, ◌>>=◌}
use file_transfer_program.Sock.Wire.{Received, timed_out, got, lib_recvfrom}
use file_transfer_program.Sock.Receiver.{
  on_data, on_received, again, copy_frame, recv_next, recv_from_loop, sock_recvfrom,
}
use file_transfer_program.Sock.Receiver.Accept.{Sure, Sure-mono, Sure-bind}
use file_transfer_program.Sock.Receiver.Stream.{
  Classified, Ready, Taken, After, lib_recvfrom-Trace, on_data-After,
}

module _ (goal base : ℕ) (payload : ℕ → List ℕ) where
  -- The files are those of `d`, and the names those of `c`.
  abbrev Rest : Sock → Sock → Type 0
  Rest s t = (t.disk ≡ s.disk) × (t.can_create ≡ s.can_create)

  -- The next frame's first `len` bytes are in the buffer.
  abbrev pub Copied : ℕ → ℕ → List ℕ → Sock → List ℕ → Sock → Type 0
  Copied next len copied s out t =
      (out ≡ copied ++ take (min len buffer_length) (payload next))
      × Ready goal base payload (suc next) t
      × Rest s t

  abbrev Loops : ℕ → ℕ → (ℕ → List ℕ → M (List ℕ)) → Type 0
  Loops fuel len loop =
      (next : ℕ) (copied : List ℕ) (s : Sock)
      → length s.arrivals < fuel
      → next < goal
      → Ready goal base payload next s
      → Sure (Copied next len copied s) (loop len copied s)

  again-Copied :
      (fuel len next : ℕ) (loop : ℕ → List ℕ → M (List ℕ)) (copied : List ℕ) (s : Sock)
      → Loops fuel len loop
      → 0 < len
      → length s.arrivals < fuel
      → next < goal
      → Ready goal base payload next s
      → Sure (Copied next len copied s) (again loop len copied s)
  unfolding again
  again-Copied fuel len next loop copied s k pos l g r =
      rw (lt→ltb 0 len pos, again) (k next copied s l g r)

  copy_frame-Copied :
      (fuel len next : ℕ) (loop : ℕ → List ℕ → M (List ℕ)) (copied : List ℕ) (p : Packet)
      (taken : Bool) (s : Sock)
      → Loops fuel len loop
      → 0 < len
      → len ≤ buffer_length
      → length s.arrivals < fuel
      → next < goal
      → Taken goal base payload next p taken s
      → Sure (Copied next len copied s) (copy_frame loop len copied p taken s)
  unfolding copy_frame again pure modify ◌>>=◌
  copy_frame-Copied fuel len next loop copied p false s k pos le l g h =
      again-Copied fuel len next loop copied s k pos l g h
  copy_frame-Copied fuel len next loop copied p true s k pos le l g h =
      rw (le→ltb 0 (len - buffer_length) (omega arith), Sure, copy_frame, again)
        (ap (λ q. copied ++ take (min len buffer_length) q) h.0, h.1, (refl, refl))

  recv_next-Copied :
      (fuel len next : ℕ) (loop : ℕ → List ℕ → M (List ℕ)) (copied : List ℕ) (r : Received)
      (s : Sock)
      → Loops fuel len loop
      → 0 < len
      → len ≤ buffer_length
      → length s.arrivals < fuel
      → next < goal
      → s.last_seq ≡ mask (base + next + 31)
      → Classified goal base payload next r s.arrivals
      → Sure (Copied next len copied s) (recv_next loop len copied false r s)
  unfolding recv_next on_received
  recv_next-Copied fuel len next loop copied timed_out s k pos le l g e c =
      again-Copied fuel len next loop copied s k pos l g (e, c)
  recv_next-Copied fuel len next loop copied (got p) s k pos le l g e c =
      Sure-bind (After goal base payload next p s) (Copied next len copied s) (on_data p) _ s
        (on_data-After goal base payload next p s e c)
        λ taken t h.
          Sure-mono (Copied next len copied t) (Copied next len copied s)
            (copy_frame loop len copied p taken t)
            (copy_frame-Copied fuel len next loop copied p taken t k pos le (omega (arith, h.1)) g
              h.0)
            (λ out u q. (q.0, q.1, (q.2.0 ∙ h.2, q.2.1 ∙ h.3)))

  recv_from_loop-Copied :
      (fuel len : ℕ)
      → 0 < len
      → len ≤ buffer_length
      → Loops fuel len (λ left copied. recv_from_loop fuel left copied false)
  unfolding recv_from_loop
  recv_from_loop-Copied zero len pos le next copied s l g r = absurd (omega arith)
  recv_from_loop-Copied (suc fuel) len pos le next copied s l g r =
      Sure-bind _ (Copied next len copied s) lib_recvfrom _ s
        (lib_recvfrom-Trace goal base payload next s g r.1)
        λ x t h.
          Sure-mono (Copied next len copied t) (Copied next len copied s)
            (recv_next (λ left' copied'. recv_from_loop fuel left' copied' false) len copied false x
              t)
            (recv_next-Copied fuel len next _ copied x t (recv_from_loop-Copied fuel len pos le) pos
              le (omega (arith, h.1)) g (h.2.0 ∙ r.0) h.0)
            (λ out u q. (q.0, q.1, (q.2.0 ∙ h.2.1, q.2.1 ∙ h.2.2)))

  -- A receiver waits for a frame of the stream. No call of `select` or `recvfrom` fails; what comes is whole, and
  -- is a frame of another type, or a data frame of the stream that is at most 31 places before or after the one
  -- waited for, lost, repeated and reordered within that, and each frame before `goal` comes in its turn in
  -- the end. Then `sock_recvfrom` returns with the bytes of the frame that it waited for, as many as asked for, up
  -- to a whole buffer, and then waits for the frame after it; the files are as before.
  pub sock_recvfrom-Copied :
      (len next : ℕ) (s : Sock)
      → 0 < len
      → len ≤ buffer_length
      → next < goal
      → Ready goal base payload next s
      → Sure (Copied next len [] s) (sock_recvfrom len false s)
  unfolding sock_recvfrom
  sock_recvfrom-Copied len next s pos le g r =
      recv_from_loop-Copied (suc (length s.arrivals)) len pos le next [] s (omega arith) g r
