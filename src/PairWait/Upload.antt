-- ===== src/PairWait/Upload.antt =====
-- `GetFileFromClient` on an upload: two announcements, then the bytes.
use file_transfer_program.Base.{
  ℕ, suc, ◌+◌, ◌-◌, ◌*◌, ◌/◌, ◌≤◌, ◌<◌, ◌≡◌, ◌≢◌, refl, ap, ◌∙◌, true, false, not, some, List, [],
  length, arith, leb, codes, first,
}
use file_transfer_program.Files.{write_file_self}
use file_transfer_program.Protocol.Codec.{Memory, memory_of}
use file_transfer_program.Run.{
  Returns, Returns-mono, Returns-bind, Returns-if, modify, pure, gets, done, ◌>>=◌, ◌>>◌,
}
use file_transfer_program.StopWait.State.{data_length, packet_length, Udppacket, Event}
use file_transfer_program.StopWait.Exchange.{fill}
use file_transfer_program.StopWait.Transfer.{read_info, create_file}
use file_transfer_program.Text.{c_string}
use file_transfer_program.PairWait.State.{Host, lift}
use file_transfer_program.PairWait.Last.{text_in, recv_last, send_last}
use file_transfer_program.PairWait.Last.Turn.{InTurn, Took, recv_last-Took}
use file_transfer_program.PairWait.Last.Out.{Ends, Lingers, Sent, send_last-Sent}
use file_transfer_program.PairWait.Lift.{Returns-lift}
use file_transfer_program.PairWait.Reply.Judged.{IsWhole, IsBuffer}
use file_transfer_program.PairWait.Stream.{IsStream, Feed, Holds}
use file_transfer_program.PairWait.Receiving.{recv_pairs-Done}
use file_transfer_program.PairWait.Reply.{recv_pair}
use file_transfer_program.PairWait.Transfer.{recv_pairs}
use file_transfer_program.PairWait.Server.{
  rounds_for, udplastsend, udplastrecv, get_file_from_client,
}

-- The last number is `prev`, these events are to come, and the files are those of `h`; no pair has come.
abbrev Stage : Host → ℕ → List Event → Host → Type 0
Stage h prev es t =
    (t.base.prev_recv_seq ≡ prev)
    × (t.base.arrivals ≡ es)
    × (t.base.disk ≡ h.base.disk)
    × (t.base.can_create ≡ h.base.can_create)
    × IsBuffer t.base.recvmsg
    × (t.rec_temp_seq ≡ 0)
    × IsBuffer t.recvmsg2

module _ (beyond : Memory) (stale : List ℕ → List ℕ) where
  recv-Stage :
      (prev : ℕ) (p : Udppacket) (es rest : List Event) (h t : Host)
      → IsWhole p
      → p.seq_no ≢ prev
      → InTurn prev p es rest
      → Stage h prev es t
      → Returns (λ q u. (q ≡ p) × Stage h p.seq_no rest u) (lift (udplastrecv beyond stale) t)
  unfolding udplastrecv
  recv-Stage prev p es rest h t w n i (pr, ar, di, cr, b, r, b') =
      Returns-lift (λ q u. (q ≡ p) × Stage h p.seq_no rest u)
        (recv_last not (codes "serverACK") beyond) t
        (Returns-mono (λ q u. (q ≡ p) × Took p rest t.base u) _ _
          (recv_last-Took not (codes "serverACK") beyond p rest t.base w (λ z. n (z ∙ pr))
            (rw (pr, ar) i))
          λ q u (e, (em, ea, ev, en, es, ed, ec)).
            let length_e : length u.recvmsg.payload ≡ length p.payload =
              ap (λ q. length q.payload) em in
            (e, (ev, ea, ed ∙ di, ec ∙ cr, omega (arith, length_e, w), r, b')))

  say-Stage :
      (prev k : ℕ) (s : List ℕ) (es mid rest : List Event) (h t : Host)
      → Ends 0 k es mid
      → Lingers mid rest
      → Stage h prev es t
      → Returns
          (λ _ u. Stage h prev rest u)
          (lift (udplastsend beyond stale (memory_of s (λ _. 0)) 0) t)
  unfolding udplastsend fill
  say-Stage prev k s es mid rest h t e l (pr, ar, di, cr, b, r, b') =
      Returns-lift (λ _ u. Stage h prev rest u)
        (send_last packet_length packet_length (memory_of s (λ _. 0)) 0) t
        (Returns-mono
          (Sent packet_length packet_length k
            (record {
              seq_no = t.base.send_seq;
              payload = first data_length (memory_of s (λ _. 0));
            })
            rest t.base)
          _ _
          (send_last-Sent packet_length packet_length 0 k (memory_of s (λ _. 0)) mid rest _ t.base b
            (rw ar e) l refl)
          λ q u (eq, es, ea, ev, eb, en, ep, ed, ec). (ep ∙ pr, ea, ed ∙ di, ec ∙ cr, eb, r, b'))

  text-Stage :
      (p : Udppacket) (t : Host)
      → length (c_string p.payload) < data_length
      → lift (text_in p) t ≡ done (c_string p.payload) t
  unfolding lift text_in pure
  text-Stage p t l =
      let e : leb data_length (length (c_string p.payload)) ≡ false = ground (arith, l) in rw e refl

  -- The file is created, and the bytes come.
  filed :
      (packet : ℕ → Udppacket) (final : Udppacket) (name bytes : List ℕ) (prev count : ℕ)
      (es rest : List Event) (h t : Host)
      → IsStream packet final (count * 2)
      → length bytes ≤ 0x7fff_ffff
      → ((b : List ℕ) → stale b ≡ b)
      → count ≡ (length bytes - 1) / 260
      → 0 < length bytes
      → IsWhole final
      → final.seq_no ≢ prev
      → Holds packet final count 0 bytes
      → h.base.can_create name ≡ true
      → Feed packet final prev count 0 es rest
      → Stage h prev es t
      → Returns
          (λ _ u. (u.base.disk name ≡ some bytes) × (u.base.arrivals ≡ rest))
          ((do
            lift (create_file name)
            n ← gets (rounds_for (length bytes))
            recv_pairs stale
                (recv_pair beyond)
                (lift (udplastrecv beyond stale))
                n
                (length bytes)
                name)
            t)
  unfolding gets udplastrecv rounds_for create_file recv_pairs ◌>>=◌
  filed packet final name bytes prev count es rest h t st sh kept e pos w n hs c ps
        (pr, ar, di, cr, b, r, b') =
      Returns-bind
        (λ _ u.
          (u.base.disk name ≡ some [])
          × (u.base.prev_recv_seq ≡ prev)
          × (u.base.arrivals ≡ es)
          × IsBuffer u.base.recvmsg
          × (u.rec_temp_seq ≡ 0)
          × IsBuffer u.recvmsg2)
        _ (lift (create_file name)) _ t
        (Returns-lift _ (create_file name) t (
          Returns-if _ (t.base.can_create name) _ _ (ap (λ f. f name) cr ∙ c)
            (write_file_self name [] t.base.disk, pr, ar, b, r, b')))
        λ _ u (d, pr', ar', rb, r', rb').
          recv_pairs-Done packet final (count * 2) st (omega (arith, sh, e)) beyond stale kept not
            (codes "serverACK") name [] bytes prev count 0
            (length bytes + suc (length u.base.arrivals)) rest u e pos (omega arith) (omega arith) w
            n hs (r', d, pr', rb, rb') (rw ar' ps)

  -- Whether the file is there, and the answer; then the second announcement.
  answered :
      (packet : ℕ → Udppacket) (final p : Udppacket) (s name bytes : List ℕ) (prev count k : ℕ)
      (es es1 es2 es3 rest : List Event) (h t : Host)
      → IsStream packet final (count * 2)
      → length bytes ≤ 0x7fff_ffff
      → ((b : List ℕ) → stale b ≡ b)
      → count ≡ (length bytes - 1) / 260
      → 0 < length bytes
      → IsWhole p
      → IsWhole final
      → p.seq_no ≢ prev
      → final.seq_no ≢ p.seq_no
      → length (c_string p.payload) < data_length
      → read_info (c_string p.payload) ≡ (name, length bytes)
      → Holds packet final count 0 bytes
      → h.base.can_create name ≡ true
      → Ends 0 k es es1
      → Lingers es1 es2
      → InTurn prev p es2 es3
      → Feed packet final p.seq_no count 0 es3 rest
      → Stage h prev es t
      → Returns
          (λ _ u. (u.base.disk name ≡ some bytes) × (u.base.arrivals ≡ rest))
          ((do
            _ ← lift (udplastsend beyond stale (memory_of s (λ _. 0)) 0)
            p' ← lift (udplastrecv beyond stale)
            text' ← lift (text_in p')
            let (name', size') = read_info text'
            lift (create_file name')
            n ← gets (rounds_for size')
            recv_pairs stale (recv_pair beyond) (lift (udplastrecv beyond stale)) n size' name')
            t)
  answered packet final p s name bytes prev count k es es1 es2 es3 rest h t st sh kept e pos wp w np
        n short info hs c en li it ps sg =
      Returns-bind (λ _ u. Stage h prev es2 u) _
        (lift (udplastsend beyond stale (memory_of s (λ _. 0)) 0)) _ t
        (say-Stage prev k s es es1 es2 h t en li sg)
        λ _ u su.
          Returns-bind (λ q u. (q ≡ p) × Stage h p.seq_no es3 u) _ (lift (udplastrecv beyond stale))
            _ u (recv-Stage prev p es2 es3 h u wp np it su)
            λ q v (eq, sv).
              Returns-bind (λ text w. (text ≡ c_string p.payload) × (w ≡ v)) _ (lift (text_in q)) _
                v (rw (eq, text-Stage p v short) (refl, refl))
                λ text x (et, ex).
                  rw (et, info, ex)
                    (filed packet final name bytes p.seq_no count es3 rest h v st sh kept e pos w n
                      hs c ps sv)

  -- An upload to the server of build3/Assign3_zcl. Two announcements come as single packets, each perhaps after
  -- repetitions of the packet before; after the first one the server's answer is answered, or sent four times
  -- more. The texts of both fit a packet; the second one gives a name that can be created and the size of a
  -- file that is not empty, which fits an `int`. Then the bytes come in pairs, numbered from 0, in their turn,
  -- each pair perhaps again, as a whole, before the next one, and right behind the last pair the rest in a single
  -- packet; but for packets with the second announcement's number before that last one, nothing else
  -- comes between them. All packets are whole, the buffers hold no more than 260 bytes, and no single packet has the number of the one before.
  -- Then `GetFileFromClient` returns and the file holds exactly the bytes, provided that what `udprecv` left on
  -- the stack is still there when it is written.
  pub get_file_from_client-Filed :
      (packet : ℕ → Udppacket) (final p p' : Udppacket) (name bytes : List ℕ) (count k : ℕ)
      (es0 es1 es2 es3 rest : List Event) (h : Host)
      → IsStream packet final (count * 2)
      → length bytes ≤ 0x7fff_ffff
      → ((b : List ℕ) → stale b ≡ b)
      → count ≡ (length bytes - 1) / 260
      → 0 < length bytes
      → IsWhole p
      → IsWhole p'
      → IsWhole final
      → p.seq_no ≢ h.base.prev_recv_seq
      → p'.seq_no ≢ p.seq_no
      → final.seq_no ≢ p'.seq_no
      → length (c_string p.payload) < data_length
      → length (c_string p'.payload) < data_length
      → read_info (c_string p'.payload) ≡ (name, length bytes)
      → Holds packet final count 0 bytes
      → h.base.can_create name ≡ true
      → IsBuffer h.base.recvmsg
      → IsBuffer h.recvmsg2
      → InTurn h.base.prev_recv_seq p h.base.arrivals es0
      → Ends 0 k es0 es1
      → Lingers es1 es2
      → InTurn p.seq_no p' es2 es3
      → Feed packet final p'.seq_no count 0 es3 rest
      → Returns
          (λ _ u. (u.base.disk name ≡ some bytes) × (u.base.arrivals ≡ rest))
          (get_file_from_client beyond stale h)
  unfolding get_file_from_client modify gets ◌>>=◌
  get_file_from_client-Filed packet final p p' name bytes count k es0 es1 es2 es3 rest h st sh kept
        e pos wp wp' w n0 n1 n2 short short' info hs c b b' i0 en li i1 ps =
      let h0 = record h { rec_temp_seq = 0 } in
      Returns-bind (λ q u. (q ≡ p) × Stage h p.seq_no es0 u) _ (lift (udplastrecv beyond stale)) _
        h0
        (recv-Stage h.base.prev_recv_seq p h.base.arrivals es0 h h0 wp n0 i0
          (refl, refl, refl, refl, b, refl, b'))
        λ q v (eq, sv).
          Returns-bind (λ text w. (text ≡ c_string p.payload) × (w ≡ v)) _ (lift (text_in q)) _ v
            (rw (eq, text-Stage p v short) (refl, refl))
            λ text x (et, ex). rw ex (
              answered packet final p' _ name bytes p.seq_no count k es0 es1 es2 es3 rest h v st sh
                kept e pos wp' w n1 n2 short' info hs c en li i1 ps sv)
