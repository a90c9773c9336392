-- ===== src/StopWait/Receiving.antt =====
-- `GetFileFromClient` on the packets of an upload.
use file_transfer_program.Base.{
  ℕ, zero, suc, ◌+◌, ◌-◌, ◌/◌, ◌≤◌, ◌≡◌, refl, sym, ap, ◌∙◌, some, List, [], ◌++◌, take, min,
  append-nil, append_assoc, arith,
}
use file_transfer_program.Chunks.{gather}
use file_transfer_program.Files.{write_file_self}
use file_transfer_program.Protocol.Codec.{Memory}
use file_transfer_program.Run.{Returns, Returns-mono, Returns-bind, modify, pure}
use file_transfer_program.StopWait.State.{data_length, Udppacket, Host}
use file_transfer_program.StopWait.Exchange.{exchange_in}
use file_transfer_program.StopWait.Exchange.In.{IsStream, Ready, Received, exchange_in-Received}
use file_transfer_program.StopWait.Transfer.{append_file, recv_chunks}

module _ (goal base : ℕ) (packet : ℕ → Udppacket) (is_stream : IsStream goal base packet) where
  -- The file holds these bytes, and the packet behind those that hold `left` bytes is awaited.
  abbrev pub Written : List ℕ → ℕ → ℕ → List ℕ → Host → Type 0
  Written name next left bytes t =
      (t.disk name ≡ some bytes) × Ready goal base packet (next + (left + 259) / 260) t

  finished :
      (name : List ℕ) (next : ℕ) (content : List ℕ) (h : Host)
      → h.disk name ≡ some content
      → Ready goal base packet next h
      → Written name next 0 (content ++ []) h
  finished name next content h e r =
      let z : next + (0 + 259) / 260 ≡ next = omega arith in
      (e ∙ ap some (sym (append-nil content)), rw z r)

  appended :
      (name content bytes : List ℕ) (t : Host)
      → t.disk name ≡ some content
      → (append_file name bytes t).disk name ≡ some (content ++ bytes)
  unfolding append_file
  appended name content bytes t e = rw (write_file_self name _ t.disk, e) refl

  next_packet :
      (next left : ℕ)
      → next + (suc left + 259) / 260 ≡ suc next + ((suc left - data_length) + 259) / 260
  next_packet next left = omega arith

  -- `append_file` keeps all that `Ready` reads.
  append_file-Ready :
      (name bytes : List ℕ) (next : ℕ) (t : Host)
      → Ready goal base packet next t
      → Ready goal base packet next (append_file name bytes t)
  unfolding append_file
  append_file-Ready name bytes next t r = r

  -- When the packets that hold `left` bytes come in their turn, the loop of `GetFileFromClient` and
  -- `GetFileFromServer` returns, has put exactly these bytes behind what the file holds, and waits for the
  -- packet after the last of them; repetitions and timeouts change nothing.
  pub recv_chunks-Written :
      (ack : List ℕ) (beyond : Memory) (name : List ℕ) (fuel left next : ℕ) (content : List ℕ)
      (h : Host)
      → left ≤ fuel
      → h.disk name ≡ some content
      → next + (left + 259) / 260 ≤ goal
      → Ready goal base packet next h
      → Returns
          (λ _.
            Written name next left
              (content ++ gather data_length (λ i. (packet i).payload) fuel next left))
          (recv_chunks (exchange_in ack beyond) fuel left name h)
  unfolding recv_chunks gather pure modify
  recv_chunks-Written ack beyond name zero zero next content h l e g r =
      finished name next content h e r
  recv_chunks-Written ack beyond name zero (suc left) next content h l e g r = absurd (omega arith)
  recv_chunks-Written ack beyond name (suc fuel) zero next content h l e g r =
      finished name next content h e r
  recv_chunks-Written ack beyond name (suc fuel) (suc left) next content h l e g r =
      Returns-bind (λ p. Received goal base packet next h p.payload) _ (exchange_in ack beyond) _ h
        (exchange_in-Received goal base packet is_stream ack beyond next h (omega arith) r)
        λ p t w.
          let n = min (suc left) data_length in
          Returns-bind
            (λ _ u.
              (u.disk name ≡ some (content ++ take n p.payload))
              × Ready goal base packet (suc next) u)
            _ (modify (append_file name (take n p.payload))) _ t
            (
              appended name content (take n p.payload) t (rw w.2 e),
              append_file-Ready name (take n p.payload) (suc next) t w.1,
            )
            λ _ u k.
              Returns-mono _ _
                (recv_chunks (exchange_in ack beyond) fuel (suc left - data_length) name u)
                (recv_chunks-Written ack beyond name fuel (suc left - data_length) (suc next)
                  (content ++ take n p.payload) u (omega arith) k.0 (omega arith) k.1)
                λ _ v q. (
                  q.0
                      ∙ ap some (
                          append_assoc content (take n p.payload) _
                          ∙ ap
                              (λ b.
                                content
                                ++ (take n b
                                    ++ gather data_length (λ i. (packet i).payload) fuel (suc next)
                                        (suc left - data_length)))
                              w.0),
                  rw (next_packet next left) q.1,
                )
