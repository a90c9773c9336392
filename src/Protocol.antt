-- ===== src/Protocol.antt =====
-- build3/sample-3/common/protocol.h: the messages, the UDP frame around them and the constants.
-- A `char` array is the list of its bytes, and an `int` field is its 32-bit pattern.
pub mod Codec
use file_transfer_program.Base.{ℕ, ◌+◌, ◌-◌, ◌%◌, ◌^◌, List}

-- BUFFER_LENGTH
abbrev pub buffer_length : ℕ
buffer_length = 1024

-- FILENAME_LENGTH and HOSTNAME_LENGTH
abbrev pub name_length : ℕ
name_length = 32

-- SEQUENCE_NUM_MAX. `x & SEQUENCE_NUM_MASK`, and a store into the field `seq:5`, is `mask x`.
abbrev pub sequence_num_max : ℕ
sequence_num_max = 32

abbrev pub mask : ℕ → ℕ
mask x = x % 32

-- ACKTYPE_REQUEST, _ACK, _NACK, _SACK and _HANDSHAKE: the values of the byte `ackType`.
abbrev pub acktype_request : ℕ
acktype_request = 0

abbrev pub acktype_ack : ℕ
acktype_ack = 1

abbrev pub acktype_nack : ℕ
acktype_nack = 2

abbrev pub acktype_sack : ℕ
acktype_sack = 3

abbrev pub acktype_handshake : ℕ
acktype_handshake = 4

-- MSGTYPE_REQ_* and MSGTYPE_RESP_*: the values of `MSGHEADER::type`.
abbrev pub req_get : ℕ
req_get = 1

abbrev pub req_put : ℕ
req_put = 2

abbrev pub resp_failtogetheader : ℕ
resp_failtogetheader = 1

abbrev pub resp_wrongheader : ℕ
resp_wrongheader = 2

abbrev pub resp_unknowntype : ℕ
resp_unknowntype = 3

abbrev pub resp_failtogetinfo : ℕ
resp_failtogetinfo = 4

abbrev pub resp_failtorecvfile : ℕ
resp_failtorecvfile = 5

abbrev pub resp_nofile : ℕ
resp_nofile = 6

abbrev pub resp_ok : ℕ
resp_ok = 101

-- `unsigned int` arithmetic
abbrev pub add_u32 : ℕ → ℕ → ℕ
add_u32 a b = (a + b) % 2 ^ 32

abbrev pub sub_u32 : ℕ → ℕ → ℕ
sub_u32 a b = (a + 2 ^ 32 - b) % 2 ^ 32

-- MSGREQUEST
pub record Request : Type 0 where
  pub hostname : List ℕ
  pub filename : List ℕ

-- MSGHEADER
pub record Header : Type 0 where
  pub type : ℕ
  pub len : ℕ

-- UDPPACKET: `seq` is below 32, and `payload` is `data[BUFFER_LENGTH]`.
pub record Packet : Type 0 where
  pub seq : ℕ
  pub ack_type : ℕ
  pub payload : List ℕ

-- HANDSHAKE
pub record Handshake : Type 0 where
  pub client_seq : ℕ
  pub server_seq : ℕ
