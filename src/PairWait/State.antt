-- ===== src/PairWait/State.antt =====
-- The members of TcpServer (Server/Server.h) and of TcpClient (Client/Client.h) of build3/Assign3_zcl.
use file_transfer_program.Base.{
  ℕ, ◌+◌, ◌-◌, ◌*◌, ◌/◌, ◌%◌, ◌^◌, List, ◌++◌, take, drop, replicate, leb, if◌then◌else◌,
}
use file_transfer_program.Run
use file_transfer_program.Run.{Ran, done, stuck, crashed, out_of_fuel}
use file_transfer_program.StopWait.State
use file_transfer_program.StopWait.State.{Udppacket}

-- PACKET_LENGTH
abbrev pub half_length : ℕ
half_length = 130

-- `base` holds the members that build 2 has too, and the world; the socket is never closed. The others are
-- for the pairs of packets.
pub record Host : Type 0 where
  pub base : State.Host
  pub sendmsg2 : Udppacket
  pub recvmsg2 : Udppacket
  pub send_temp_seq : ℕ
  pub rec_temp_seq : ℕ

abbrev pub M : Type 0 → Type 0
M A = Run.M Host A

-- A change of the members that build 2 has too.
abbrev pub on_base : (State.Host → State.Host) → Host → Host
on_base f h = record h { base = f h.base }

-- A call that needs no other members.
unfoldable pub lift : {A : Type 0} → State.M A → M A
lift m h = elim (m h.base) [
  | done a b ↦ done a (record h { base = b })
  | stuck b ↦ stuck (record h { base = b })
  | crashed ↦ crashed
  | out_of_fuel ↦ out_of_fuel
]

-- The first `n` bytes of a packet, written over an old one.
unfoldable pub overlay : ℕ → Udppacket → Udppacket → Udppacket
overlay n p old = record {
  seq_no = if leb 4 n then p.seq_no else p.seq_no % 256 ^ n + old.seq_no / 256 ^ n * 256 ^ n;
  payload = take (n - 4) p.payload ++ drop (n - 4) old.payload;
}

-- The first `n` bytes of the data are cleared.
unfoldable pub clear : ℕ → Udppacket → Udppacket
clear n old = record old { payload = replicate n 0 ++ drop n old.payload }

-- The first half of the data is replaced.
unfoldable pub put_half : List ℕ → Udppacket → List ℕ
put_half bytes old = bytes ++ drop half_length old.payload
