-- ===== src/Tests/Samples.antt =====
-- Sample states of SockLib.
use file_transfer_program.Base.{ℕ, true, false, none, [], arith}
use file_transfer_program.Protocol.{Packet}
use file_transfer_program.Sock.State.{Sock, Address}
use file_transfer_program.Sock.Window.Remove.{IsWindow}
use file_transfer_program.Protocol.Codec.{Memory}

abbrev pub peer : Address
peer = record { host = 9; port = 7000 }

abbrev pub blank : Packet
blank = record { seq = 0; ack_type = 0; payload = [] }

-- A socket after `udp_init`, with a window of two frames.
abbrev pub fresh : Sock
fresh = record {
  seq = 0;
  last_seq = 0xffff_ffff;
  re_send_cnt = 0;
  send_cnt = 0;
  recv_cnt = 0;
  total_frames_sent = 0;
  file_size = 0;
  hs_data = record { client_seq = 0; server_seq = 0 };
  dst_addr = peer;
  w_size = 2;
  win_buf = λ _. blank;
  win_pos = 0;
  win_buf_pos = 0;
  seq_of_last_ack = 0;
  arrivals = [];
  sent = [];
  send_calls = 0;
  send_down = λ _. false;
  disk = λ _. none;
  can_create = λ _. true;
}

abbrev pub numbered : ℕ → Packet
numbered i = record { seq = i; ack_type = 0; payload = [] }

-- Two frames, 0 and 1, fill the window.
abbrev pub two_frames : Sock
two_frames = record fresh { win_buf = numbered; win_buf_pos = 2; seq = 2 }

pub fresh-IsWindow : IsWindow fresh
fresh-IsWindow = record {
  fits = omega arith;
  small = omega arith;
  masked = λ i k. absurd (omega (arith, k));
  numbered = λ i k. absurd (omega (arith, k));
}

pub two_frames-IsWindow : IsWindow two_frames
two_frames-IsWindow = record {
  fits = omega arith;
  small = omega arith;
  masked = λ i k. omega (arith, k);
  numbered = λ i k. omega (arith, k);
}

-- Memory behind the objects that are sent.
abbrev pub zeros : Memory
zeros i = 0
