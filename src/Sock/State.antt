-- ===== src/Sock/State.antt =====
-- The fields of SockLib (build3/sample-3/common/socklib.h), the world that its methods meet, and the
-- monad that the methods are written in.
use file_transfer_program.Base.{ℕ, Bool, true, false, Option, none, some, List}
unfoldable pub use file_transfer_program.Files.{same_name, write_file}
use file_transfer_program.Protocol.{Packet, Handshake}

-- `struct sockaddr_in`, as far as the code reads it
pub record Address : Type 0 where
  pub host : ℕ
  pub port : ℕ

-- A datagram that `sendto` accepted.
pub record Datagram : Type 0 where
  pub to : Address
  pub frame : Packet

-- What one round of `select`, and of the `recvfrom` that follows it, gives: an error of `select`, its
-- timeout, a result 0 or an error of `recvfrom`, or a datagram of so many bytes.
pub data Event : Type 0 where
  select_error select_timeout recv_closed recv_error : Event
  datagram : Address → ℕ → Packet → Event

-- The members of SockLib that the UDP methods use. The last five fields are the world: what the
-- coming rounds of `select` will give, the datagrams sent so far, the number of calls of `sendto` and
-- which of them fail, and the files by their name, with the names that can be opened for writing.
-- `win_buf` is memory: a slot at or after `w_size` lies behind the array.
pub record Sock : Type 0 where
  pub seq : ℕ
  pub last_seq : ℕ
  pub re_send_cnt : ℕ
  pub send_cnt : ℕ
  pub recv_cnt : ℕ
  pub total_frames_sent : ℕ
  pub file_size : ℕ
  pub hs_data : Handshake
  pub dst_addr : Address
  pub w_size : ℕ
  pub win_buf : ℕ → Packet
  pub win_pos : ℕ
  pub win_buf_pos : ℕ
  pub seq_of_last_ack : ℕ
  pub arrivals : List Event
  pub sent : List Datagram
  pub send_calls : ℕ
  pub send_down : ℕ → Bool
  pub disk : List ℕ → Option (List ℕ)
  pub can_create : List ℕ → Bool

-- A method returns (`done`), returns -1 (`failed`), or waits in `select` for what never comes
-- (`blocked`). `out_of_fuel` is the bound of a loop of the model.
pub data Outcome (A : Type 0) : Type 0 where
  done : A → Sock → Outcome A
  failed : Sock → Outcome A
  blocked : Sock → Outcome A
  out_of_fuel : Outcome A

abbrev pub M : Type 0 → Type 0
M A = Sock → Outcome A

unfoldable pub pure : {A : Type 0} → A → M A
pure a s = done a s

-- `return -1`
unfoldable pub fail : {A : Type 0} → M A
fail s = failed s

-- A loop of the model has used up its rounds.
unfoldable pub stop : {A : Type 0} → M A
stop s = out_of_fuel

unfoldable pub gets : {A : Type 0} → (Sock → A) → M A
gets f s = done (f s) s

unfoldable pub modify : (Sock → Sock) → M (Unit {0})
modify f s = done tt (f s)

unfoldable pub when : Bool → M (Unit {0}) → M (Unit {0})
when b m s = elim b [ true ↦ m s | false ↦ done tt s ]

-- A call whose result is looked at, or ignored, by the caller.
unfoldable pub attempt : {A : Type 0} → M A → M (Option A)
attempt m s = elim (m s) [
  | done a t ↦ done (some a) t
  | failed t ↦ done none t
  | blocked t ↦ blocked t
  | out_of_fuel ↦ out_of_fuel
]

infixl 5 ◌>>=◌ ◌>>◌
-- `if (m < 0) return -1;` and the rest. To open this opens the actions above.
unfoldable pub ◌>>=◌ : {A B : Type 0} → M A → (A → M B) → M B
unfolding pure fail stop gets modify when attempt
◌>>=◌ m f s = elim (m s) [
  | done a t ↦ f a t
  | failed t ↦ failed t
  | blocked t ↦ blocked t
  | out_of_fuel ↦ out_of_fuel
]

abbrev pub ◌>>◌ : {B : Type 0} → M (Unit {0}) → M B → M B
m >> k = m >>= λ _. k
