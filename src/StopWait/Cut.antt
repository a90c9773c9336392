-- ===== src/StopWait/Cut.antt =====
-- The last packet that the server of build 2 sends of a file.
use file_transfer_program.Base.{
  ℕ, ◌-◌, ◌<◌, ◌≡◌, ap, ◌∙◌, true, List, ◌++◌, length, take, replicate, take-append, ne→==, arith,
}
use file_transfer_program.Protocol.Codec.{Memory, memory_of}
use file_transfer_program.Run.{Returns, Returns-mono}
use file_transfer_program.StopWait.State.{data_length, Udppacket, Event, Host, receive}
use file_transfer_program.StopWait.Exchange.Out.{Answered, Sent, exchange_out-Sent}
use file_transfer_program.StopWait.Sending.{text_payload, fill-text}
use file_transfer_program.StopWait.Server.{udpsend}
use file_transfer_program.Text.Strings.{Avoids}

cut :
    (bytes : List ℕ) (beyond behind : Memory) (seq : ℕ) (old : Udppacket)
    → (receive
        (length bytes)
        (record { seq_no = seq; payload = text_payload beyond bytes behind })
        old).payload
      ≡ take (length bytes - 4) bytes ++ replicate (data_length - (length bytes - 4)) 0
unfolding receive
cut bytes beyond behind seq old =
    ap (λ b. b ++ replicate (data_length - (length bytes - 4)) 0)
      (take-append (length bytes - 4) bytes _ (omega arith))

-- The last packet of a file without zero bytes loses the last four of its bytes on the way from the server
-- of build 2 to a client: the packet goes out with as many bytes as it has data, four of which are its
-- number, and the client reads zeros in place of those that are missing.
pub udpsend_cut :
    (beyond behind : Memory) (bytes : List ℕ) (k : ℕ) (rest : List Event) (h : Host)
    (old : Udppacket)
    → Avoids 0 bytes
    → 0 < length bytes
    → length bytes < data_length
    → h.is_open ≡ true
    → Answered k h.arrivals rest
    → Returns
        (λ q t.
          Sent
            (length bytes)
            (length bytes)
            k
            (record { seq_no = h.send_seq; payload = text_payload beyond bytes behind })
            rest
            h
            q
            t
          × ((receive (length bytes) q old).payload
              ≡ take (length bytes - 4) bytes ++ replicate (data_length - (length bytes - 4)) 0))
        (udpsend beyond (memory_of bytes behind) (length bytes) h)
unfolding udpsend
udpsend_cut beyond behind bytes k rest h old av p l o a =
    let packet : Udppacket = record {
      seq_no = h.send_seq;
      payload = text_payload beyond bytes behind;
    } in
    rw (ne→== (length bytes) 0 (omega (arith, p))) (
      Returns-mono (Sent (length bytes) (length bytes) k packet rest h) _ _
        (exchange_out-Sent (length bytes) (length bytes) (length bytes) k (memory_of bytes behind)
          rest packet h o a (fill-text beyond bytes behind h av p l))
        λ q t s. (
          s,
          ap (λ r. (receive (length bytes) r old).payload) s.0
              ∙ cut bytes beyond behind h.send_seq old,
        ))
