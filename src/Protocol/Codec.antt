-- ===== src/Protocol/Codec.antt =====
-- How the structs of protocol.h lie in memory on the 32-bit little-endian target, which the casts
-- to `char *` and the calls of `memmove` rely on, and the byte order of `htonl` and `ntohl`.
use file_transfer_program.Base.{
  ℕ, suc, ◌+◌, ◌-◌, ◌*◌, ◌/◌, ◌%◌, ◌^◌, ◌<◌, ◌≡◌, List, [], ◌∷◌, ◌++◌, arith, length, get_or, take,
  drop, replicate,
}
use file_transfer_program.Protocol.{buffer_length, name_length, Header, Request, Handshake}

-- The bytes that can be read from a pointer on: those of the object, then whatever lies behind it.
abbrev pub Memory : Type 0
Memory = ℕ → ℕ

unfoldable pub memory_of : List ℕ → Memory → Memory
memory_of [] rest i = rest i
memory_of (b ∷ bs) rest ℕ.zero = b
memory_of (b ∷ bs) rest (suc i) = memory_of bs rest i

-- `p + n`
abbrev pub offset : Memory → ℕ → Memory
offset p n i = p (n + i)

-- an unsigned 32-bit number, low byte first
unfoldable pub encode_u32 : ℕ → List ℕ
encode_u32 x = x % 256 ∷ x / 256 % 256 ∷ x / 65536 % 256 ∷ x / 16777216 % 256 ∷ []

unfoldable pub decode_u32 : List ℕ → ℕ
decode_u32 bs =
    get_or bs 0 0 + 256 * get_or bs 1 0 + 65536 * get_or bs 2 0 + 16777216 * get_or bs 3 0

-- `htonl` and `ntohl` reverse the four bytes.
unfoldable pub swap_bytes : ℕ → ℕ
swap_bytes x =
    x / 16777216 % 256 + 256 * (x / 65536 % 256) + 65536 * (x / 256 % 256) + 16777216 * (x % 256)

-- MSGHEADER: `type`, a `char`, three bytes of padding, which the `memset` of the sender clears, `len`.
unfoldable pub encode_header : Header → List ℕ
unfolding encode_u32
encode_header h = h.type % 256 ∷ 0 ∷ 0 ∷ 0 ∷ encode_u32 h.len

unfoldable pub decode_header : List ℕ → Header
unfolding decode_u32
decode_header bs = record { type = get_or bs 0 0; len = decode_u32 (drop 4 bs) }

-- HANDSHAKE: two `int`.
unfoldable pub encode_handshake : Handshake → List ℕ
unfolding encode_u32
encode_handshake h = encode_u32 h.client_seq ++ encode_u32 h.server_seq

unfoldable pub decode_handshake : List ℕ → Handshake
unfolding decode_u32
decode_handshake bs = record { client_seq = decode_u32 bs; server_seq = decode_u32 (drop 4 bs) }

-- MSGREQUEST: two arrays of 32 bytes.
unfoldable pub encode_request : Request → List ℕ
encode_request r = r.hostname ++ r.filename

unfoldable pub decode_request : List ℕ → Request
decode_request bs = record {
  hostname = take name_length bs;
  filename = take name_length (drop name_length bs);
}

-- A frame's data field that `memset` cleared and that then took `bs`.
unfoldable pub padded : List ℕ → List ℕ
padded bs = bs ++ replicate (buffer_length - length bs) 0

pub decode-encode_u32 : (x : ℕ) (rest : List ℕ) → x < 2 ^ 32 → decode_u32 (encode_u32 x ++ rest) ≡ x
unfolding decode_u32 encode_u32
decode-encode_u32 x rest h = omega arith

-- A handshake read back from a data field that starts with its bytes is the handshake, if both its
-- numbers are below 2^32.
pub decode-encode_handshake :
    (h : Handshake) (rest : List ℕ)
    → h.client_seq < 2 ^ 32
    → h.server_seq < 2 ^ 32
    → decode_handshake (encode_handshake h ++ rest) ≡ h
unfolding decode_handshake encode_handshake decode_u32 encode_u32
decode-encode_handshake h rest c s = ground arith

-- `ntohl (htonl x)` is `x`.
pub swap_bytes-swap_bytes : (x : ℕ) → x < 2 ^ 32 → swap_bytes (swap_bytes x) ≡ x
unfolding swap_bytes
swap_bytes-swap_bytes x h = omega arith
