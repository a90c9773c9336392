-- ===== src/PairWait/Agreed.antt =====
-- A pair from end to end: `udpsend` of one program and `udprecv` of the other.
use file_transfer_program.Base.{
  ℕ, suc, ◌<◌, ◌≡◌, ◌∙◌, refl, sym, ap, some, inl, inr, List, [], ◌∷◌, ◌++◌, length, take, drop,
  first, get_or, arith, length-append, length-first, length-drop, codes, Option,
}
use file_transfer_program.Protocol.{add_u32}
use file_transfer_program.Protocol.Codec.{Memory, offset}
use file_transfer_program.Run.{Returns, Returns-mono}
use file_transfer_program.StopWait.State.{packet_length, data_length, Udppacket, Event}
use file_transfer_program.PairWait.State.{half_length, Host, put_half}
use file_transfer_program.PairWait.Exchange.{at, fill_pair, send_pair}
use file_transfer_program.PairWait.Exchange.Acked.{answered, sendings, PairSent, send_pair-PairSent}
use file_transfer_program.PairWait.Reply.{recv_pair}
use file_transfer_program.PairWait.Reply.Judged.{
  IsWhole, IsBuffer, PairComes, halves, recv_pair-Answered,
}

put_half-whole :
    (bytes : List ℕ) (old : Udppacket)
    → length bytes ≡ half_length
    → IsWhole old
    → length (put_half bytes old) ≡ data_length
unfolding put_half
put_half-whole bytes old l w = omega (
  arith,
  length-append bytes (drop half_length old.payload),
  length-drop half_length old.payload,
  l,
  w,
)

head_ack : (s : List ℕ) → take 3 s ≡ codes "ACK" → get_or s 0 0 ≡ b'A'
head_ack [] e = ap (λ l. get_or l 0 0) e
head_ack (c ∷ s) e = ap (λ l. get_or l 0 0) e

fill_pair-halves :
    (sbuffer : Memory) (s : Host)
    → halves (fill_pair sbuffer s).base.sendmsg (fill_pair sbuffer s).sendmsg2
      ≡ first data_length sbuffer
unfolding fill_pair put_half first
fill_pair-halves sbuffer s = refl

fill_pair-IsWhole :
    (sbuffer : Memory) (s : Host)
    → IsWhole s.base.sendmsg
    → IsWhole s.sendmsg2
    → IsWhole (fill_pair sbuffer s).base.sendmsg × IsWhole (fill_pair sbuffer s).sendmsg2
unfolding fill_pair
fill_pair-IsWhole sbuffer s w w' = (
  put_half-whole (first half_length sbuffer) s.base.sendmsg (length-first half_length sbuffer) w,
  put_half-whole (first half_length (offset sbuffer half_length)) s.sendmsg2
      (length-first half_length _) w',
)

-- The receiver has the bytes, and its two answers end the sender's call, after which both have moved on alike.
abbrev pub Agreed : ℕ → ℕ → ℕ → Memory → List Event → Host → Host → Option (List ℕ) → Host → Type 0
Agreed room room' k sbuffer rest' s r o t =
    (o ≡ some (first data_length sbuffer))
    × (a : Udppacket) × (b : Udppacket) × (t.base.sent
        ≡ r.base.sent
          ++ record { size = packet_length; packet = a }
            ∷ record { size = packet_length; packet = b }
            ∷ [])
    × Returns
        (λ _ u.
          (u.send_temp_seq ≡ t.rec_temp_seq)
          × (u.base.arrivals ≡ rest')
          × (u.base.sent
              ≡ s.base.sent
                ++ sendings (suc k) (fill_pair sbuffer s).base.sendmsg
                    (fill_pair sbuffer s).sendmsg2))
        (send_pair room room' sbuffer (at (answered k a b rest') s))

-- A pair from end to end. The sender fills two whole packets with the halves of a buffer of 260 bytes, and its next
-- number is the one that the receiver awaits. When the two packets come to the receiver, its `udprecv`
-- returns the 260 bytes and sends two answers. When these come to the sender, after `k` timeouts and before
-- another one, its `udpsend` returns, and has sent the pair `k` times again; the next numbers of the two
-- sides are the same.
pub pair-Agreed :
    (room room' k : ℕ) (sbuffer beyond : Memory) (rest rest' : List Event) (s r : Host)
    → 4 < room
    → IsWhole s.base.sendmsg
    → IsWhole s.sendmsg2
    → IsBuffer r.base.recvmsg
    → IsBuffer r.recvmsg2
    → s.send_temp_seq ≡ r.rec_temp_seq
    → s.send_temp_seq < 0x8000_0000
    → PairComes
        (fill_pair sbuffer s).base.sendmsg
        (fill_pair sbuffer s).sendmsg2
        r.base.arrivals
        rest
    → Returns (Agreed room room' k sbuffer rest' s r) (recv_pair beyond r)
unfolding fill_pair
pair-Agreed room room' k sbuffer beyond rest rest' s r l w w' b b' e small c =
    let p = (fill_pair sbuffer s).base.sendmsg in
    let q = (fill_pair sbuffer s).sendmsg2 in
    let (wp, wq) = fill_pair-IsWhole sbuffer s w w' in
    Returns-mono _ _ (recv_pair beyond r) (recv_pair-Answered beyond p q rest r wp wq b b' c)
      λ o t (ans, after). elim ans [
        | inl (n, eo, er, (x, y, sent, ex, ey, hx, hy)) ↦ (
          eo ∙ ap some (fill_pair-halves sbuffer s),
          x,
          y,
          sent,
          Returns-mono (λ _. PairSent (suc k) p q rest' (at (answered k x y rest') s)) _ _
              (send_pair-PairSent room room' k sbuffer x y rest' (at (answered k x y rest') s) l
                (head_ack x.payload hx, ex) (head_ack y.payload hy, ey) refl)
              λ _ u (z0, z1, z2, z3, z4, z5, z6). (z2 ∙ ap (λ m. add_u32 m 2) e ∙ sym er, z1, z0),
        )
        | inr (inl ((n, n'), eo, er, out)) ↦ absurd (omega (arith, n, e, small))
        | inr (inr (n, n', eo, er, out)) ↦ absurd (n (e, ap (λ m. add_u32 m 1) e))
      ]
