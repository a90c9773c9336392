-- ===== src/Tests/Streams.antt =====
-- The theorems on the stream methods at messages that move in pieces.
use file_transfer_program.Base.{List, [], ◌∷◌, inl, inr, arith}
use file_transfer_program.Sock.Tcp.{ready, Stream, Send, accepts, sock_recv, sock_send}
use file_transfer_program.Sock.Tcp.Transfer.{Whole, Sent, sock_recv-Whole, sock_send-Sent}

-- Three bytes come in two pieces, and a fourth byte waits, which is there already at the second call.
abbrev pieces : Stream
pieces = record { incoming = 1 ∷ 2 ∷ 3 ∷ 4 ∷ []; calls = ready 0 ∷ ready 2 ∷ ready 0 ∷ [] }

sock_recv-Whole_example : Whole 3 (1 ∷ 2 ∷ 3 ∷ 4 ∷ []) [] (sock_recv 3 pieces)
sock_recv-Whole_example = sock_recv-Whole 3 pieces tt (omega arith) (omega arith) (omega arith)

-- Three bytes go out in two pieces.
abbrev takes : List Send
takes = accepts 2 ∷ accepts 1 ∷ []

sock_send-Sent_example : Sent (7 ∷ 8 ∷ 9 ∷ []) (sock_send (7 ∷ 8 ∷ 9 ∷ []) takes)
sock_send-Sent_example =
    sock_send-Sent (7 ∷ 8 ∷ 9 ∷ []) takes (omega arith, inr (omega arith, inl (omega arith)))
