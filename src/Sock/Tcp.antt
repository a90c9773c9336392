-- ===== src/Sock/Tcp.antt =====
-- The stream methods of socklib.cpp: sock_recv and sock_send, and the connections that they use.
pub mod Transfer
use file_transfer_program.Base.{
  ℕ, suc, ◌-◌, min, ◌==◌, Bool, true, false, ◌&&◌, Option, none, some, List, [], ◌∷◌, ◌++◌, length,
  take, drop, leb, if◌then◌else◌,
}
use mathlib.Core.Option
use file_transfer_program.Sock.State.{Address}

-- What a call of `recv` finds: an error, the end of the stream, or one byte and `n` more that are there.
pub data Recv : Type 0 where
  recv_fails closed : Recv
  ready : ℕ → Recv

-- The bytes that are still to come, and how the calls of `recv` find them.
pub record Stream : Type 0 where
  pub incoming : List ℕ
  pub calls : List Recv

-- What a call of `send` gives: an error, or the number of bytes that it accepted.
pub data Send : Type 0 where
  send_fails : Send
  accepts : ℕ → Send

-- A call returns what it has moved and what is left of the stream or of the calls, returns -1, or waits.
pub data Moved (W : Type 0) : Type 0 where
  moved : List ℕ → W → Moved W
  broken : W → Moved W
  waiting : Moved W

-- `recv(sock, p, length, 0)` takes at most `length` bytes.
abbrev pub recv_size : ℕ → ℕ → List ℕ → ℕ
recv_size len n incoming = length (take (min len (suc n)) incoming)

-- The loop of `sock_recv`, whose body runs before `left` is looked at; `left` stops at 0, where the loop
-- ends.
unfoldable pub tcp_recv_loop : List Recv → ℕ → List ℕ → List ℕ → Moved Stream
tcp_recv_loop [] left incoming copied = waiting
tcp_recv_loop (recv_fails ∷ es) left incoming copied =
    broken (record { incoming = incoming; calls = es })
tcp_recv_loop (closed ∷ es) left incoming copied =
    broken (record { incoming = incoming; calls = es })
tcp_recv_loop (ready n ∷ es) left incoming copied =
    let ret = recv_size left n incoming in
    let grown = copied ++ take ret incoming in
    let after : Stream = record { incoming = drop ret incoming; calls = es } in
    let rest = tcp_recv_loop es (left - ret) (drop ret incoming) grown in
    if ret == 0 then broken after else if leb left ret then moved grown after else rest

unfoldable pub sock_recv : ℕ → Stream → Moved Stream
sock_recv len s = tcp_recv_loop s.calls len s.incoming []

-- The loop of `sock_send` over the bytes from `p` on, and those that were accepted.
unfoldable pub tcp_send_loop : List Send → List ℕ → List ℕ → Moved (List Send)
tcp_send_loop [] left sent = waiting
tcp_send_loop (send_fails ∷ es) left sent = broken es
tcp_send_loop (accepts n ∷ es) left sent =
    let rest = tcp_send_loop es (drop n left) (sent ++ take n left) in
    if leb (length left) n then moved (sent ++ take n left) es else rest

unfoldable pub sock_send : List ℕ → List Send → Moved (List Send)
sock_send buf es = tcp_send_loop es buf []

-- What Winsock answers while a socket is set up. `resolves` is `gethostbyname`.
pub record Winsock : Type 0 where
  pub starts : Bool
  pub host_name : Option (List ℕ)
  pub has_socket : Bool
  pub binds : Bool
  pub listens : Bool
  pub connects : Address → Bool
  pub resolves : List ℕ → Option ℕ

-- SERVER_RECV_PORT
abbrev server_port : ℕ
server_port = 5001

-- A name that is not found gives 0.
unfoldable pub resolve_name : Winsock → List ℕ → ℕ
resolve_name w name = Option.get_or (w.resolves name) 0

-- The host name, unless a step fails.
unfoldable pub init : Winsock → Option (List ℕ)
init w = if w.starts then (if w.has_socket then w.host_name else none) else none

-- The address that the client is connected to.
unfoldable pub client_init : Winsock → List ℕ → Option Address
client_init w name = elim (init w) [
  | none ↦ none
  | some host ↦
      let server : Address = record { host = resolve_name w name; port = server_port } in
      if w.connects server then some server else none
]

-- The server's host name, once it listens.
unfoldable pub server_init : Winsock → Option (List ℕ)
server_init w = elim (init w) [
  | none ↦ none
  | some host ↦ if w.binds && w.listens then some host else none
]
