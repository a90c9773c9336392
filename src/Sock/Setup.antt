-- ===== src/Sock/Setup.antt =====
-- `udp_init`, `set_dstAddr`, `setWindowsSize` and the statistics of socklib.cpp. What Winsock answers is
-- an argument: whether `init` and `bind` succeed, and the address that a name resolves to.
use file_transfer_program.Base.{ℕ, ◌+◌, ◌*◌, ◌/◌, Bool, true, false, Option, List, [], ◌∷◌}
use mathlib.Core.Option
use file_transfer_program.Protocol.{Packet}
use file_transfer_program.Sock.State.{Sock, done, failed, M}
use file_transfer_program.Sock.Wire.{packet_size}
use file_transfer_program.Sock.Receiver.{no_seq}

unfoldable pub reset_statistics : Bool → Sock → Sock
reset_statistics seq s = record s {
  re_send_cnt = 0;
  recv_cnt = 0;
  send_cnt = 0;
  total_frames_sent = 0;
  file_size = 0;
  last_seq = elim seq [ true ↦ no_seq | false ↦ s.last_seq ];
}

-- The numbers that are printed.
unfoldable pub statistics : Bool → Sock → List ℕ
statistics true s =
    s.file_size
    ∷ (s.file_size / packet_size + 1)
    ∷ s.total_frames_sent
    ∷ (s.total_frames_sent * packet_size)
    ∷ []
statistics false s = (s.recv_cnt * packet_size) ∷ s.recv_cnt ∷ []

unfoldable pub show_statistics : Bool → M (List ℕ)
show_statistics if_send s = done (statistics if_send s) (reset_statistics false s)

unfoldable pub set_windows_size : ℕ → Sock → Sock
set_windows_size size s = record s { w_size = size }

-- A name that is not found resolves to 0.
unfoldable pub set_dst_addr : Option ℕ → ℕ → Sock → Sock
set_dst_addr resolved port s = record s {
  dst_addr = record { host = Option.get_or resolved 0; port = port };
}

-- The window's memory is new and holds anything.
unfoldable pub udp_init : Bool → Bool → (ℕ → Packet) → ℕ → M (Unit {0})
udp_init false bound memory window_size s = failed s
udp_init true false memory window_size s = failed s
udp_init true true memory window_size s =
    let t = reset_statistics false (record s { seq = 0; last_seq = no_seq }) in
    done tt (record t {
      dst_addr = record { host = s.dst_addr.host; port = 0 };
      w_size = window_size;
      win_buf = memory;
      win_pos = 0;
      win_buf_pos = 0;
      file_size = 0;
    })
