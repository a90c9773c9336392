-- ===== src/Sock/Sender/Transfer.antt =====
-- `copy_2_winbuf`, `sock_sendtoEx` and `send_file`: what they leave in the window, and what
-- `send_file` can report.
use file_transfer_program.Base.{
  ℕ, zero, suc, ◌<◌, ◌≡◌, false, List, length, drop, length-drop, ltb-false, arith, ◌==◌, ltb, refl,
  Bool-cases, Option-cases, inl, inr,
}
use file_transfer_program.Protocol.{Packet, mask, add_u32, buffer_length}
use file_transfer_program.Protocol.Codec.{Memory}
use file_transfer_program.Sock.State.{Sock, pure, fail, gets, ◌>>=◌}
use file_transfer_program.Sock.Wire.{add_udpheader}
use file_transfer_program.Sock.Window.{update}
use file_transfer_program.Sock.Window.Remove.{IsWindow}
use file_transfer_program.Sock.Logic.{
  Post, Triple, Keeps, Post-mono, Post-bind, Keeps-pure, Keeps-gets, Keeps-if, Keeps-bind,
}
use file_transfer_program.Sock.Sender.{
  send_all_win_packets, push_frame, copy_2_winbuf, flush, sock_sendto_ex, read_loop, send_file_body,
  send_file,
}
use file_transfer_program.Sock.Sender.Invariant.{Inv}
use file_transfer_program.Sock.Sender.Rounds.{
  Sent, send_all_win_packets-Sent, Flushed, flush-Flushed,
}

-- The state with one more frame in the window.
abbrev pub pushed : Packet → Sock → Sock
pushed p s = record s {
  seq = add_u32 s.seq 1;
  win_buf = update s.win_buf s.win_buf_pos p;
  win_buf_pos = suc s.win_buf_pos;
}

-- A frame that takes the next number keeps the window numbered.
pub pushed-IsWindow :
    (p : Packet) (s : Sock)
    → p.seq ≡ mask s.seq
    → s.win_buf_pos < s.w_size
    → IsWindow s
    → IsWindow (pushed p s)
pushed-IsWindow p s e l w = record {
  fits = omega arith;
  small = w.small;
  masked = λ i k. elim (Bool-cases (s.win_buf_pos == i)) [
    | inl last ↦ ground arith
    | inr other ↦
        let below : i < s.win_buf_pos = ground arith in let m = w.masked i below in ground arith
  ];
  numbered = λ i k. elim (Bool-cases (s.win_buf_pos == i)) [
    | inl last ↦ ground arith
    | inr other ↦
        let below : i < s.win_buf_pos = ground arith in let m = w.numbered i below in ground arith
  ];
}

push_frame-Keeps : (n : ℕ) (buf : Memory) → Keeps (Inv n) (push_frame buf)
unfolding push_frame add_udpheader ◌>>=◌
push_frame-Keeps n buf = record {
  at = λ s h. elim (Bool-cases (ltb s.win_buf_pos s.w_size)) [
    | inl e ↦
        rw e (record { window = pushed-IsWindow _ s refl (ground arith) h.window; rest = h.rest })
    | inr e ↦ rw e h
  ];
}

-- With a window that is full, or that the new frame fills, the frames are sent and some may be left.
copy_2_winbuf-Keeps : (n : ℕ) (buf : Memory) → Keeps (Inv n) (copy_2_winbuf buf)
unfolding copy_2_winbuf
copy_2_winbuf-Keeps n buf = Keeps-bind (push_frame buf) _ (push_frame-Keeps n buf) λ _.
    Keeps-bind (gets (λ s. s.win_buf_pos == s.w_size)) _ (Keeps-gets _)
      λ is_full. Keeps-if is_full send_all_win_packets (pure 1) sends (Keeps-pure 1)
  where
    sends : Keeps (Inv n) send_all_win_packets
    sends = record {
      at = λ s h.
          Post-mono (Sent n) (λ _. Inv n) (Inv n) (Inv n) (send_all_win_packets s)
            ((send_all_win_packets-Sent n).at s h) (λ left t k. k.inv) (λ t k. k);
    }

-- A window that is empty.
pub record Emptied (n : ℕ) (t : Sock) : Type 0 where
  pub inv : Inv n t
  pub empty : t.win_buf_pos ≡ 0

pub sock_sendto_ex-Post :
    (n : ℕ) (buf : Memory) → Triple (Inv n) (λ _. Emptied n) (Inv n) (sock_sendto_ex buf false)
unfolding sock_sendto_ex pure
sock_sendto_ex-Post n buf = record {
  at = λ s h.
      Post-bind (λ _. Inv n) (λ _. Emptied n) (Inv n) (copy_2_winbuf buf) _ s
        ((copy_2_winbuf-Keeps n buf).at s h)
        λ _ t ht.
          Post-bind (Flushed n) (λ _. Emptied n) (Inv n) flush _ t ((flush-Flushed n).at t ht)
            λ ret u hu. record { inv = hu.inv; empty = hu.empty };
}

pub sock_sendto_ex-Keeps : (n : ℕ) (buf : Memory) → Keeps (Inv n) (sock_sendto_ex buf false)
sock_sendto_ex-Keeps n buf = record {
  at = λ s h.
      Post-mono (λ _. Emptied n) (λ _. Inv n) (Inv n) (Inv n) (sock_sendto_ex buf false s)
        ((sock_sendto_ex-Post n buf).at s h) (λ _ t k. k.inv) (λ t k. k);
}

pub now : (s : Sock) → IsWindow s → Inv (length s.arrivals) s
now s w = record { window = w; rest = omega arith }

-- From a numbered window `copy_2_winbuf` returns, returns -1 or waits, and the window stays numbered on
-- every path, also where it was full and its frames were sent.
pub copy_2_winbuf-IsWindow :
    (buf : Memory) (s : Sock) → IsWindow s → Post (λ _. IsWindow) IsWindow (copy_2_winbuf buf s)
copy_2_winbuf-IsWindow buf s w =
    let n = length s.arrivals in
    Post-mono (λ _. Inv n) (λ _. IsWindow) (Inv n) IsWindow (copy_2_winbuf buf s)
      ((copy_2_winbuf-Keeps n buf).at s (now s w)) (λ _ t k. k.window) (λ t k. k.window)

-- From a numbered window `sock_sendtoEx` (with flag 0) returns, returns -1 or waits. It returns 0 only
-- once the window is empty; the window stays numbered on every path.
pub sock_sendto_ex-Emptied :
    (buf : Memory) (s : Sock)
    → IsWindow s
    → Post (λ _ t. IsWindow t × (t.win_buf_pos ≡ 0)) IsWindow (sock_sendto_ex buf false s)
sock_sendto_ex-Emptied buf s w =
    let n = length s.arrivals in
    Post-mono (λ _. Emptied n) _ (Inv n) IsWindow (sock_sendto_ex buf false s)
      ((sock_sendto_ex-Post n buf).at s (now s w)) (λ _ t k. (k.inv.window, k.empty))
      (λ t k. k.window)

read_loop-Keeps :
    (n fuel : ℕ) (bytes : List ℕ) → length bytes < fuel → Keeps (Inv n) (read_loop fuel bytes)
unfolding read_loop
read_loop-Keeps n zero bytes l = absurd (omega arith)
read_loop-Keeps n (suc fuel) bytes l = Keeps-bind (copy_2_winbuf _) _ (copy_2_winbuf-Keeps n _) λ _.
    elim (Bool-cases (ltb (length bytes) buffer_length)) [
      | inl e ↦ rw e (Keeps-pure tt)
      | inr e ↦ rw e (
          read_loop-Keeps n fuel (drop buffer_length bytes)
            (omega (arith, length-drop buffer_length bytes, ltb-false (length bytes) 1024 e)))
    ]

pub send_file-Post : (n : ℕ) (name : List ℕ) → Triple (Inv n) (λ _ _. ⊥) (Inv n) (send_file name)
unfolding send_file send_file_body fail
send_file-Post n name = record {
  at = λ s h. elim (Option-cases (s.disk name)) [
    | inl e ↦ rw (e, send_file) h
    | inr (bytes, e) ↦
        rw (e, send_file)
          (Post-bind (λ _. Inv n) (λ _ _. ⊥) (Inv n) (read_loop (suc (length bytes)) bytes) _ s
            ((read_loop-Keeps n (suc (length bytes)) bytes (omega arith)).at s h)
            λ _ t ht.
              Post-bind (Flushed n) (λ _ _. ⊥) (Inv n) flush _ t ((flush-Flushed n).at t ht)
                λ ret u hu. rw (hu.answer) hu.inv)
  ];
}

-- From a numbered window `send_file` never returns 0: once the last frame has been acknowledged, the
-- last call of `send_all_win_packets` returns 0, which `send_file` takes for an error. It returns -1 or
-- waits, and the window stays numbered.
pub send_file_never_succeeds :
    (name : List ℕ) (s : Sock) → IsWindow s → Post (λ _ _. ⊥) IsWindow (send_file name s)
send_file_never_succeeds name s w =
    let n = length s.arrivals in
    Post-mono (λ _ _. ⊥) (λ _ _. ⊥) (Inv n) IsWindow (send_file name s)
      ((send_file-Post n name).at s (now s w)) (λ _ t k. k) (λ t k. k.window)
