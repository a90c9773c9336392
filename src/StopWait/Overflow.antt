-- ===== src/StopWait/Overflow.antt =====
-- What an upload does with a file whose size is a multiple of the buffer's.
use file_transfer_program.Base.{
  ℕ, zero, suc, ◌-◌, ◌/◌, ◌%◌, ◌≤◌, ◌<◌, ◌≡◌, refl, sym, subst, true, inl, inr, List, length, first,
  drop, arith, Bool-cases, ltb, ltb-true, ltb-false, leb, ne→==, length-drop, take_all,
}
use file_transfer_program.Protocol.Codec.{Memory, memory_of}
use file_transfer_program.Run.{crashed, crashed-bind, crashed-first}
use file_transfer_program.StopWait.State.{data_length, packet_length, Event, Host}
use file_transfer_program.StopWait.Exchange.{fill, exchange_out}
use file_transfer_program.StopWait.Exchange.Out.{Sent}
use file_transfer_program.StopWait.Client.{udpsend}
use file_transfer_program.StopWait.Packets.{read_of}
use file_transfer_program.StopWait.Sending.{Answers, plain, send_chunks-more, send_chunks-last}
use file_transfer_program.StopWait.Transfer.{send_chunks}
use file_transfer_program.Text.Strings.{Avoids, Avoids-drop, c_string-whole}

module _ (beyond : Memory) where
  fill-overflow :
      (bytes : List ℕ) (behind : Memory) (h : Host)
      → Avoids 0 bytes
      → length bytes ≡ data_length
      → fill (memory_of bytes behind) (length bytes) h ≡ crashed
  unfolding fill
  fill-overflow bytes behind h av l =
      let big : leb data_length (length bytes) ≡ true = ground (arith, l) in
      rw (ne→== (length bytes) 0 (omega (arith, l)), c_string-whole bytes behind av, big) refl

  udpsend-overflow :
      (bytes : List ℕ) (behind : Memory) (h : Host)
      → Avoids 0 bytes
      → length bytes ≡ data_length
      → udpsend beyond (memory_of bytes behind) (length bytes) h ≡ crashed
  unfolding udpsend exchange_out
  udpsend-overflow bytes behind h av l = crashed-first _ _ h (fill-overflow bytes behind h av l)

  -- When the size of a file without zero bytes is a positive multiple of 260, the upload does what C++
  -- leaves undefined, once the packets before the last one are answered: `strcpy` writes a zero behind the
  -- packet's data.
  pub send_chunks_overflow :
      (fuel : ℕ) (bytes : List ℕ) (buffer : Memory) (rest : List Event) (h : Host)
      → length bytes < fuel
      → 0 < length bytes
      → length bytes % 260 ≡ 0
      → Avoids 0 bytes
      → h.is_open ≡ true
      → Answers (length bytes / 260 - 1) h.arrivals rest
      → send_chunks (udpsend beyond) fuel bytes buffer h ≡ crashed
  send_chunks_overflow zero bytes buffer rest h l p m av o a = absurd (omega arith)
  send_chunks_overflow (suc fuel) bytes buffer rest h l p m av o a =
      elim (Bool-cases (ltb data_length (length bytes))) [
        | inl e ↦
            let read = read_of bytes buffer in
            let left = drop data_length bytes in
            let big : data_length < length bytes = ltb-true data_length (length bytes) e in
            let len : length left ≡ length bytes - 260 = length-drop 260 bytes in
            let packets : length bytes / 260 - 1 ≡ suc (length left / 260 - 1) = omega arith in
            let (k, mid, answer, answers) = subst (λ i. Answers i h.arrivals rest) packets a in
            rw (send_chunks-more beyond fuel bytes buffer e) (
              crashed-bind
                (Sent packet_length packet_length k
                  (record { seq_no = h.send_seq; payload = first data_length read }) mid h)
                (udpsend beyond read 0) _ h (plain beyond read k mid h o answer)
                λ q t s.
                  send_chunks_overflow fuel left read rest t (omega arith) (omega arith)
                    (omega arith) (Avoids-drop 0 260 bytes av) s.5
                    (subst (λ es. Answers (length left / 260 - 1) es rest) (sym s.2) answers))
        | inr e ↦
            let small : length bytes ≤ data_length = ltb-false data_length (length bytes) e in
            let whole : length bytes ≡ data_length = omega arith in
            rw (send_chunks-last beyond fuel bytes buffer e, take_all data_length bytes small)
              (crashed-first _ _ h (udpsend-overflow bytes _ h av whole))
      ]
