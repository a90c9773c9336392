-- ===== src/Tests/Sending.antt =====
-- The theorems on the window and on the sender at a window of two frames.
use file_transfer_program.Base.{◌≡◌, false, some, [], ◌∷◌, codes, refl, arith}
use file_transfer_program.Sock.State.{Sock, done, datagram}
use file_transfer_program.Sock.Window.{update, no_acks, remove_packets_from_win, get_max_seq}
use file_transfer_program.Sock.Window.Remove.{IsWindow, Dropped, remove_packets_from_win-Dropped}
use file_transfer_program.Sock.Window.Acked.{IsRun, get_max_seq-IsRun}
use file_transfer_program.Sock.Logic.{Post}
use file_transfer_program.Sock.Sender.{
  finish, on_nack, udp_sendto_ex, sock_sendto_ex, send_file, copy_2_winbuf, flush,
}
use file_transfer_program.Sock.Sender.Invariant.{Inv}
use file_transfer_program.Sock.Sender.Rounds.{Sent, udp_sendto_ex-Sent}
use file_transfer_program.Sock.Sender.Transfer.{sock_sendto_ex-Emptied, send_file_never_succeeds}
use file_transfer_program.Sock.Sender.Acked.{Emptied}
use file_transfer_program.Sock.Sender.Delivered.{flush-Emptied, sock_sendto_ex-acked}
use file_transfer_program.Sock.Receiver.Accept.{Sure}
use file_transfer_program.Sock.Sender.Lost.{chunk_lost}
use file_transfer_program.Tests.Samples.{
  peer, fresh, two_frames, zeros, fresh-IsWindow, two_frames-IsWindow,
}

remove_packets_from_win-Dropped_example :
    Dropped 1 two_frames (remove_packets_from_win 0 no_acks two_frames).0
remove_packets_from_win-Dropped_example =
    remove_packets_from_win-Dropped two_frames no_acks 0 two_frames-IsWindow (omega arith)

-- The ACK of frame 0 makes a run of one frame.
first_acked : IsRun 2 (update no_acks 0 1) 1
first_acked = record { within = omega arith; set = λ m l. ground arith; ends = λ l. refl }

get_max_seq-IsRun_example : get_max_seq two_frames 0 no_acks ≡ some (update no_acks 0 1, some 0)
get_max_seq-IsRun_example =
    get_max_seq-IsRun two_frames no_acks 0 1 two_frames-IsWindow (omega arith) first_acked

udp_sendto_ex-Sent_example : Post (Sent 0) (Inv 0) (udp_sendto_ex 0 two_frames)
udp_sendto_ex-Sent_example =
    udp_sendto_ex-Sent 0 0 two_frames (record { window = two_frames-IsWindow; rest = omega arith })

sock_sendto_ex-Emptied_example :
    Post (λ _ t. IsWindow t × (t.win_buf_pos ≡ 0)) IsWindow (sock_sendto_ex zeros false fresh)
sock_sendto_ex-Emptied_example = sock_sendto_ex-Emptied zeros fresh fresh-IsWindow

-- A file of three bytes.
abbrev with_file : Sock
with_file = record fresh { disk = λ _. some (1 ∷ 2 ∷ 3 ∷ []) }

with_file-IsWindow : IsWindow with_file
with_file-IsWindow = record {
  fits = omega arith;
  small = omega arith;
  masked = λ i k. absurd (omega (arith, k));
  numbered = λ i k. absurd (omega (arith, k));
}

send_file_never_succeeds_example : Post (λ _ _. ⊥) IsWindow (send_file (codes "three") with_file)
send_file_never_succeeds_example =
    send_file_never_succeeds (codes "three") with_file with_file-IsWindow

chunk_lost_example :
    (on_nack 0 no_acks two_frames ≡ done (finish 2) two_frames)
    × (copy_2_winbuf zeros two_frames ≡ copy_2_winbuf (λ i. i) two_frames)
chunk_lost_example =
    chunk_lost two_frames no_acks zeros (λ i. i) two_frames-IsWindow (omega arith) refl
      (omega arith)

-- Both frames of the window are acknowledged.
abbrev acked : Sock
acked = record two_frames {
  arrivals =
      datagram peer 1032 (record { seq = 0; ack_type = 1; payload = [] })
      ∷ datagram peer 1032 (record { seq = 1; ack_type = 1; payload = [] })
      ∷ [];
}

acked-IsWindow : IsWindow acked
acked-IsWindow = record {
  fits = omega arith;
  small = omega arith;
  masked = λ i k. omega (arith, k);
  numbered = λ i k. omega (arith, k);
}

flush-Emptied_example : Sure Emptied (flush acked)
flush-Emptied_example =
    flush-Emptied 1 acked acked-IsWindow refl (λ k. refl) (refl, refl, refl, (refl, refl, refl, tt))

-- The ACK of the first message.
abbrev ready : Sock
ready = record fresh {
  arrivals = datagram peer 1032 (record { seq = 0; ack_type = 1; payload = [] }) ∷ [];
}

ready-IsWindow : IsWindow ready
ready-IsWindow = record {
  fits = omega arith;
  small = omega arith;
  masked = λ i k. absurd (omega (arith, k));
  numbered = λ i k. absurd (omega (arith, k));
}

sock_sendto_ex-acked_example : Sure (λ _ t. t.win_buf_pos ≡ 0) (sock_sendto_ex zeros false ready)
sock_sendto_ex-acked_example =
    sock_sendto_ex-acked zeros ready ready-IsWindow refl (omega arith) (λ k. refl)
      (refl, refl, refl, tt)
