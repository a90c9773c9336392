-- ===== src/PairWait/Missing.antt =====
-- `PutFileToClient` for a file that is not there.
use file_transfer_program.Base.{
  ℕ, ◌<◌, ◌≡◌, ◌≢◌, ◌∙◌, refl, sym, ap, subst, not, none, List, length, leb, arith, codes, ◌-◌,
  ◌++◌, replicate, false,
}
use file_transfer_program.Protocol.Codec.{Memory, memory_of}
use file_transfer_program.Run.{Returns-mono, modify, gets, ◌>>=◌, pure, done}
use file_transfer_program.Run.Leaves.{Waits, Waits-after}
use file_transfer_program.StopWait.State.{data_length, packet_length, Udppacket, Event}
use file_transfer_program.Text.{c_string}
use file_transfer_program.PairWait.State.{Host, lift, on_base}
use file_transfer_program.PairWait.Last.{text_in, recv_last}
use file_transfer_program.PairWait.Last.Turn.{InTurn, Took, recv_last-Took}
use file_transfer_program.PairWait.Lift.{Returns-lift}
use file_transfer_program.PairWait.Reply.Judged.{IsWhole}
use file_transfer_program.PairWait.Exchange.{send_pair}
use file_transfer_program.PairWait.Exchange.Unacked.{NoAcks, IsOther, send_pair-Waits}
use file_transfer_program.PairWait.Server.{udplastrecv, udpsend, put_file_to_client}

module _ (beyond : Memory) (stale : List ℕ → List ℕ) where
  text-done :
      (p : Udppacket) (t : Host)
      → length (c_string p.payload) < data_length
      → lift (text_in p) t ≡ done (c_string p.payload) t
  unfolding lift text_in pure
  text-done p t l =
      let e : leb data_length (length (c_string p.payload)) ≡ false = ground (arith, l) in rw e refl

  -- A client asks for a file that is not there. The server sends the name back by `udpsend`, which waits for ACKs
  -- to a pair. Since nothing that the client sends starts as one does, `PutFileToClient` never returns.
  pub put_file_to_client-Waits :
      (p : Udppacket) (rest : List Event) (h : Host)
      → IsWhole p
      → p.seq_no ≢ h.base.prev_recv_seq
      → length (c_string p.payload) < data_length
      → h.base.disk (c_string p.payload) ≡ none
      → InTurn h.base.prev_recv_seq p h.base.arrivals rest
      → NoAcks rest
      → IsOther h.recvmsg2.payload
      → Waits (λ t. t.base.disk ≡ h.base.disk) (put_file_to_client beyond stale h)
  unfolding put_file_to_client modify gets ◌>>=◌ udplastrecv udpsend
  put_file_to_client-Waits p rest h w n l d i a o =
      let h1 =
        record (on_base (λ b. record b { total_send_number_packets = 0; total_send_packet = 0 })
          h) { send_temp_seq = 0 } in
      Waits-after
        (λ q u.
          (q ≡ p)
          × (u.base.arrivals ≡ rest)
          × (u.base.disk ≡ h.base.disk)
          × (u.recvmsg2 ≡ h.recvmsg2))
        (λ t. t.base.disk ≡ h.base.disk) (lift (recv_last not (codes "serverACK") beyond)) _ h1
        (Returns-lift _ (recv_last not (codes "serverACK") beyond) h1 (
          Returns-mono (λ q u. (q ≡ p) × Took p rest h1.base u) _ _
            (recv_last-Took not (codes "serverACK") beyond p rest h1.base w n i)
            λ q u (e, (em, ea, ev, en, es, ed, ec)). (e, ea, ed, refl)))
        λ q u (e, ea, ed, er).
          Waits-after (λ text w. (text ≡ c_string p.payload) × (w ≡ u))
            (λ t. t.base.disk ≡ h.base.disk) (lift (text_in q)) _ u
            (rw (e, text-done p u l) (refl, refl))
            λ text x (et, ex).
              let same : x.base.disk ≡ h.base.disk = ap (λ w. w.base.disk) ex ∙ ed in
              let gone : x.base.disk text ≡ none = ap (λ f. f text) same ∙ ap h.base.disk et ∙ d in
              let sbuffer = memory_of (text ++ replicate (data_length - length text) 0) beyond in
              rw gone (
                subst (λ f. Waits (λ t. t.base.disk ≡ f) (send_pair packet_length 130 sbuffer x))
                  same
                  (send_pair-Waits packet_length 130 sbuffer x
                    (subst NoAcks (sym (ap (λ w. w.base.arrivals) ex ∙ ea)) a)
                    (subst (λ m. IsOther m.payload) (sym (ap (λ w. w.recvmsg2) ex ∙ er)) o)))
