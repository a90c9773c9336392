-- ===== src/StopWait/State.antt =====
-- The members that the exchange uses, and the world that it meets. The classes TcpClient (client/
-- client.cpp) and TcpServer (Server/server.cpp) have them alike.
use file_transfer_program.Base.{
  ℕ, ◌+◌, ◌-◌, ◌*◌, ◌/◌, ◌%◌, ◌^◌, Bool, Option, List, ◌++◌, take, replicate, leb, if◌then◌else◌,
}
use file_transfer_program.Run

-- BUFFER_LENGTH, and sizeof(Udppacket)
abbrev pub data_length : ℕ
data_length = 260

abbrev pub packet_length : ℕ
packet_length = 264

-- `seqNo` is the pattern of the 32-bit `int`; `payload` is `data`.
pub record Udppacket : Type 0 where
  pub seq_no : ℕ
  pub payload : List ℕ

-- What comes next: a `select` that times out or fails, a `recvfrom` that fails and leaves
-- its buffer, or a datagram of so many bytes, at most those of a Udppacket, which lie as in one.
pub data Event : Type 0 where
  quiet select_error recv_error : Event
  datagram : ℕ → Udppacket → Event

-- A datagram that `sendto` took, with its length.
pub record Datagram : Type 0 where
  pub size : ℕ
  pub packet : Udppacket

-- The last six fields are the world: whether the socket is open, the events to come, what was sent, the
-- files with their contents, the names that can be created and that can be deleted, and the names in the
-- working directory.
pub record Host : Type 0 where
  pub send_seq : ℕ
  pub prev_recv_seq : ℕ
  pub next_rec_seq : ℕ
  pub current_recv_seq : ℕ
  pub sendmsg : Udppacket
  pub recvmsg : Udppacket
  pub total_send_packet : ℕ
  pub total_send_number_packets : ℕ
  pub total_recv_packet : ℕ
  pub total_recv_number_packets : ℕ
  pub is_open : Bool
  pub arrivals : List Event
  pub sent : List Datagram
  pub disk : List ℕ → Option (List ℕ)
  pub can_create : List ℕ → Bool
  pub can_delete : List ℕ → Bool
  pub listing : List (List ℕ)

abbrev pub M : Type 0 → Type 0
M A = Run.M Host A

-- `recvfrom` of a datagram of `n` bytes into `recvmsg`, whose data was cleared: bytes that do not come
-- keep the old number.
unfoldable pub receive : ℕ → Udppacket → Udppacket → Udppacket
receive n p old = record {
  seq_no = if leb 4 n then p.seq_no else p.seq_no % 256 ^ n + old.seq_no / 256 ^ n * 256 ^ n;
  payload = take (n - 4) p.payload ++ replicate (data_length - (n - 4)) 0;
}

-- `recvmsg` with its data cleared
unfoldable pub cleared : Udppacket → Udppacket
cleared old = record old { payload = replicate data_length 0 }
