-- ===== src/StopWait/Sending.antt =====
-- What `PutFileToServer` sends for a file.
use file_transfer_program.Base.{
  ℕ, zero, suc, ◌-◌, ◌/◌, ◌<◌, ◌≡◌, ◌⊎◌, inl, inr, refl, sym, ap, ◌∙◌, true, false, List, [], ◌∷◌,
  ◌++◌, length, take, drop, subst, take_all, replicate, first, length-drop, append_assoc,
  append-nil, leb, ltb, ◌==◌, ltb-true, ltb-false, ne→==, arith, Bool-cases,
}
use file_transfer_program.Protocol.Codec.{Memory, memory_of}
use file_transfer_program.Run.{done, crash, Returns, Returns-mono, Returns-bind, ◌>>=◌, when}
use file_transfer_program.StopWait.State.{
  data_length, packet_length, Udppacket, Event, Datagram, Host,
}
use file_transfer_program.StopWait.Exchange.{flip, fill}
use file_transfer_program.StopWait.Exchange.Out.{Answered, Sent, exchange_out-Sent}
use file_transfer_program.StopWait.Packets.{
  Fits, Fits-less, Fits-short, last_payload, read_of, chunk_packets,
}
use file_transfer_program.StopWait.Client.{udpsend}
use file_transfer_program.StopWait.Transfer.{send_chunks}
use file_transfer_program.Text.Strings.{Avoids, Avoids-drop, c_string-whole}

-- `n` answers come, each after some timeouts, and `rest` after them.
abbrev pub Answers : ℕ → List Event → List Event → Type 0
Answers zero es rest = rest ≡ es
Answers (suc n) es rest = (k : ℕ) × (mid : List Event) × Answered k es mid × Answers n mid rest

-- Each packet goes out whole, and perhaps again, before the next one does; only the last one may go out again
-- with fewer bytes.
abbrev pub Stream : List Udppacket → List Datagram → Type 0
Stream [] out = out ≡ []
Stream (p ∷ ps) out =
    (k : ℕ) × (again : ℕ) × (mid : List Datagram) × (out
      ≡ record { size = packet_length; packet = p }
          ∷ replicate k (record { size = again; packet = p })
        ++ mid)
    × ((again ≡ packet_length) ⊎ (ps ≡ []))
    × Stream ps mid

-- The packets `ps` have gone out, and `rest` is to come.
abbrev pub Streamed : List Event → List Udppacket → Host → Host → Type 0
Streamed rest ps h t =
    (out : List Datagram) × (t.sent ≡ h.sent ++ out)
    × Stream ps out
    × (t.arrivals ≡ rest)
    × (t.is_open ≡ true)
    × (t.disk ≡ h.disk)

module _ (beyond : Memory) where
  -- A whole buffer goes out.
  pub plain :
      (sbuffer : Memory) (k : ℕ) (rest : List Event) (h : Host)
      → h.is_open ≡ true
      → Answered k h.arrivals rest
      → Returns
          (Sent packet_length packet_length k
            (record { seq_no = h.send_seq; payload = first data_length sbuffer })
            rest
            h)
          (udpsend beyond sbuffer 0 h)
  unfolding udpsend fill
  plain sbuffer k rest h o a =
      exchange_out-Sent packet_length packet_length 0 k sbuffer rest _ h o a refl

  abbrev pub text_payload : List ℕ → Memory → List ℕ
  text_payload bytes behind =
      bytes ++ 0 ∷ drop (suc (length bytes)) (first data_length (memory_of bytes behind))

  pub fill-text :
      (bytes : List ℕ) (after : Memory) (h : Host)
      → Avoids 0 bytes
      → 0 < length bytes
      → length bytes < data_length
      → fill (memory_of bytes after) (length bytes) h
        ≡ done tt (record h {
          sendmsg = record { seq_no = h.send_seq; payload = text_payload bytes after };
        })
  unfolding fill
  fill-text bytes after h av p l =
      let big : leb data_length (length bytes) ≡ false = ground (arith, l) in
      rw (ne→== (length bytes) 0 (omega (arith, p)), c_string-whole bytes after av, big) refl

  -- A part of a buffer goes out as text.
  partial :
      (bytes : List ℕ) (after : Memory) (k : ℕ) (rest : List Event) (h : Host)
      → Avoids 0 bytes
      → 0 < length bytes
      → length bytes < data_length
      → h.is_open ≡ true
      → Answered k h.arrivals rest
      → Returns
          (Sent packet_length
            (length bytes)
            k
            (record { seq_no = h.send_seq; payload = text_payload bytes after })
            rest
            h)
          (udpsend beyond (memory_of bytes after) (length bytes) h)
  unfolding udpsend
  partial bytes after k rest h av p l o a = rw (ne→== (length bytes) 0 (omega (arith, p))) (
      exchange_out-Sent packet_length (length bytes) (length bytes) k (memory_of bytes after) rest _
        h o a (fill-text bytes after h av p l))

-- The packet `p` goes out, and then `ps` do.
pub Streamed-cons :
    (again k : ℕ) (p q : Udppacket) (ps : List Udppacket) (mid rest : List Event) (h t u : Host)
    → (again ≡ packet_length) ⊎ (ps ≡ [])
    → Sent packet_length again k p mid h q t
    → Streamed rest ps t u
    → Streamed rest (p ∷ ps) h u
Streamed-cons again k p q ps mid rest h t u w s (out, sent, stream, arrivals, is_open, disk) = (
  record { size = packet_length; packet = p } ∷ replicate k (record { size = again; packet = p })
      ++ out,
  sent ∙ ap (λ d. d ++ out) s.1 ∙ append_assoc h.sent _ out,
  (k, again, out, refl, w, stream),
  arrivals,
  is_open,
  disk ∙ s.6,
)

Streamed-one :
    (again k : ℕ) (p q : Udppacket) (rest : List Event) (h t : Host)
    → Sent packet_length again k p rest h q t
    → Streamed rest (p ∷ []) h t
Streamed-one again k p q rest h t s =
    Streamed-cons again k p q [] rest rest h t t (inr refl) s
      ([], sym (append-nil t.sent), refl, s.2, s.5, refl)

module _ (beyond : Memory) where
  pub send_chunks-more :
      (fuel : ℕ) (bytes : List ℕ) (buffer : Memory)
      → ltb data_length (length bytes) ≡ true
      → send_chunks (udpsend beyond) (suc fuel) bytes buffer ≡ (do
        _ ← udpsend beyond (read_of bytes buffer) 0
        send_chunks (udpsend beyond) fuel (drop data_length bytes) (read_of bytes buffer))
  unfolding send_chunks
  send_chunks-more fuel bytes buffer e = rw (send_chunks, e) refl

  pub send_chunks-last :
      (fuel : ℕ) (bytes : List ℕ) (buffer : Memory)
      → ltb data_length (length bytes) ≡ false
      → send_chunks (udpsend beyond) (suc fuel) bytes buffer ≡ (do
        _ ← udpsend beyond (read_of bytes buffer) (length bytes)
        when (length bytes == data_length) crash)
  unfolding send_chunks
  send_chunks-last fuel bytes buffer e = rw (send_chunks, e) refl

  last_chunk :
      (bytes : List ℕ) (behind : Memory) (k : ℕ) (rest : List Event) (h : Host)
      → Avoids 0 bytes
      → length bytes < data_length
      → h.is_open ≡ true
      → Answered k h.arrivals rest
      → Returns
          (λ _.
            Streamed rest
              (record { seq_no = h.send_seq; payload = last_payload bytes behind } ∷ [])
              h)
          ((do
            _ ← udpsend beyond (memory_of (take data_length bytes) behind) (length bytes)
            when (length bytes == data_length) crash)
            h)
  unfolding ◌>>=◌ memory_of
  last_chunk [] behind k rest h av l o a =
      let p : Udppacket = record { seq_no = h.send_seq; payload = first data_length behind } in
      Returns-bind (Sent packet_length packet_length k p rest h) _ (udpsend beyond behind 0) _ h
        (plain beyond behind k rest h o a) λ q t s. Streamed-one packet_length k p q rest h t s
  last_chunk (b ∷ bs) behind k rest h av l o a =
      let bytes = b ∷ bs in
      let p : Udppacket = record { seq_no = h.send_seq; payload = last_payload bytes behind } in
      rw
        (
          take_all data_length bytes (omega (arith, l)),
          ne→== (length bytes) data_length (omega (arith, l)),
        )
        (Returns-bind (Sent packet_length (length bytes) k p rest h) _
          (udpsend beyond (memory_of bytes behind) (length bytes)) _ h
          (partial beyond bytes behind k rest h av (omega arith) l o a)
          λ q t s. Streamed-one (length bytes) k p q rest h t s)

  -- For a text without zero bytes, on an open socket, when an answer comes to each packet in the end, the
  -- loop of `PutFileToServer` returns, and has sent the packets of the file, each perhaps several times.
  pub send_chunks-Streamed :
      (fuel : ℕ) (bytes : List ℕ) (buffer : Memory) (rest : List Event) (h : Host)
      → length bytes < fuel
      → Avoids 0 bytes
      → Fits (length bytes)
      → h.is_open ≡ true
      → Answers (suc (length bytes / 260)) h.arrivals rest
      → Returns
          (λ _. Streamed rest (chunk_packets fuel h.send_seq bytes buffer) h)
          (send_chunks (udpsend beyond) fuel bytes buffer h)
  unfolding chunk_packets
  send_chunks-Streamed zero bytes buffer rest h l av f o a = absurd (omega arith)
  send_chunks-Streamed (suc fuel) bytes buffer rest h l av f o (k, mid, a, as') =
      elim (Bool-cases (ltb data_length (length bytes))) [
        | inl e ↦
            let read = read_of bytes buffer in
            let p : Udppacket = record { seq_no = h.send_seq; payload = first data_length read } in
            let left = drop data_length bytes in
            let big : data_length < length bytes = ltb-true data_length (length bytes) e in
            let len : length left ≡ length bytes - 260 = length-drop 260 bytes in
            let packets : length bytes / 260 ≡ suc (length left / 260) = omega arith in
            rw (send_chunks-more fuel bytes buffer e, e)
              (Returns-bind (Sent packet_length packet_length k p mid h) _ (udpsend beyond read 0) _
                h (plain beyond read k mid h o a)
                λ q t s.
                  Returns-mono _ _ (send_chunks (udpsend beyond) fuel left read t)
                    (send_chunks-Streamed fuel left read rest t (omega arith)
                      (Avoids-drop 0 260 bytes av)
                      (subst Fits (sym len) (Fits-less (length bytes) f big)) s.5
                      (subst (λ i. Answers i t.arrivals rest) packets
                        (subst (λ es. Answers (length bytes / 260) es rest) (sym s.2) as')))
                    λ _ u w.
                      Streamed-cons packet_length k p q
                        (chunk_packets fuel (flip h.send_seq) left read) mid rest h t u (inl refl) s
                        (subst (λ i. Streamed rest (chunk_packets fuel i left read) t u) s.4 w))
        | inr e ↦
            let small : length bytes < data_length =
              Fits-short (length bytes) f (ltb-false data_length (length bytes) e) in
            let none_left : length bytes / 260 ≡ 0 = omega arith in
            let over : rest ≡ mid = subst (λ i. Answers i mid rest) none_left as' in
            rw (send_chunks-last fuel bytes buffer e, e)
              (last_chunk bytes _ k rest h av small o (subst (Answered k h.arrivals) (sym over) a))
      ]
