-- ===== src/Sock/Sender/Lost.antt =====
-- A chunk of a file that `copy_2_winbuf` loses: after a NACK for the first frame of a full window.
use file_transfer_program.Base.{
  ℕ, ◌<◌, ◌≡◌, ◌≢◌, none, arith, ◌==◌, refl, sym, ◌∙◌, le→ltb, eq→==, ne→==,
}
use file_transfer_program.Protocol.{mask, sub_u32}
use file_transfer_program.Protocol.Codec.{Memory}
use file_transfer_program.Sock.State.{Sock, done, gets}
use file_transfer_program.Sock.Window.{Acks, find_seq, remove_missing, remove_packets_from_win}
use file_transfer_program.Sock.Window.Arrays.{find_seq_absent}
use file_transfer_program.Sock.Window.Remove.{IsWindow}
use file_transfer_program.Sock.Logic.{bind-done}
use file_transfer_program.Sock.Sender.{
  finish, on_nack, push_frame, send_all_win_packets, copy_2_winbuf,
}

-- The number before that of the first frame of `s`.
abbrev pub before_first : Sock → ℕ
before_first s = mask (sub_u32 (s.win_buf 0).seq 1)

before_first_absent :
    (s : Sock)
    → IsWindow s
    → 0 < s.win_buf_pos
    → find_seq s.win_buf (before_first s) s.win_buf_pos 0 ≡ none
before_first_absent s w pos = find_seq_absent s.win_buf (before_first s) s.win_buf_pos 0 λ m a b e.
    omega (
      arith,
      w.numbered 0 pos,
      w.masked 0 pos,
      w.numbered m (omega arith),
      w.masked m (omega arith),
      w.fits,
      w.small,
    )

-- A NACK for the first frame takes nothing out, if the slot behind the window does not hold the
-- number that the test there looks for.
on_nack_first :
    (s : Sock) (acks : Acks)
    → IsWindow s
    → 0 < s.win_buf_pos
    → (s.win_buf s.win_buf_pos).seq ≢ sub_u32 (before_first s) 1
    → on_nack (s.win_buf 0).seq acks s ≡ done (finish s.win_buf_pos) s
unfolding on_nack remove_packets_from_win remove_missing
on_nack_first s acks w pos ne =
    rw (before_first_absent s w pos, remove_packets_from_win, ne→== _ _ ne) refl

push_frame-full :
    (buf : Memory) (s : Sock) → s.win_buf_pos ≡ s.w_size → push_frame buf s ≡ done tt s
unfolding push_frame
push_frame-full buf s full = rw (le→ltb s.win_buf_pos s.w_size (omega arith)) refl

pub full_window :
    (buf : Memory) (s : Sock)
    → s.win_buf_pos ≡ s.w_size
    → copy_2_winbuf buf s ≡ send_all_win_packets s
unfolding copy_2_winbuf
full_window buf s full =
    bind-done (push_frame buf) _ s tt s (push_frame-full buf s full)
    ∙ bind-done (gets (λ t. t.win_buf_pos == t.w_size)) _ s (s.win_buf_pos == s.w_size) s
        (unfold gets in refl)
    ∙ rw (eq→== s.win_buf_pos s.w_size full) refl

-- When a NACK names the first frame of a full numbered window, and the memory behind the window does
-- not hold the number that the code looks for there, no frame leaves the window and `udp_sendtoEx`
-- reports them all as left. A call of `copy_2_winbuf` in that state does the same whatever chunk of
-- the file it is given: the chunk is lost.
pub chunk_lost :
    (s : Sock) (acks : Acks) (a b : Memory)
    → IsWindow s
    → 0 < s.w_size
    → s.win_buf_pos ≡ s.w_size
    → (s.win_buf s.win_buf_pos).seq ≢ sub_u32 (before_first s) 1
    → (on_nack (s.win_buf 0).seq acks s ≡ done (finish s.win_buf_pos) s)
      × (copy_2_winbuf a s ≡ copy_2_winbuf b s)
chunk_lost s acks a b w pos full ne =
    (on_nack_first s acks w (omega arith) ne, full_window a s full ∙ sym (full_window b s full))
