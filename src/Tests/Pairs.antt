-- ===== src/Tests/Pairs.antt =====
-- The theorems on build3/Assign3_zcl at concrete inputs.
use file_transfer_program.Base.{
  ℕ, ◌≡◌, refl, not, some, List, [], ◌∷◌, ◌++◌, inl, inr, first, codes, replicate, arith,
}
use file_transfer_program.Protocol.Codec.{memory_of}
use file_transfer_program.Run.{Returns}
use file_transfer_program.Run.Leaves.{Waits}
use file_transfer_program.StopWait.State.{Udppacket, Event, quiet, datagram}
use file_transfer_program.StopWait.Exchange.{fill}
use file_transfer_program.StopWait.Transfer.{info_text, read_info}
use file_transfer_program.Text.{c_string, to_string, digits, after, before, atoi}
use file_transfer_program.Text.Strings.{Avoids}
use file_transfer_program.PairWait.State.{Host, lift, put_half}
use file_transfer_program.PairWait.Exchange.{fill_pair, send_pair}
use file_transfer_program.PairWait.Exchange.Acked.{answered, PairSent, send_pair-PairSent}
use file_transfer_program.PairWait.Reply.{recv_pair}
use file_transfer_program.PairWait.Reply.Judged.{
  Answered, Leftover, recv_pair-Answered, IsWhole, IsBuffer,
}
use file_transfer_program.PairWait.Agreed.{Agreed, pair-Agreed}
use file_transfer_program.PairWait.Last.{send_last, recv_last}
use file_transfer_program.PairWait.Last.Out.{Sent, send_last-Sent}
use file_transfer_program.PairWait.Stream.{IsStream}
use file_transfer_program.PairWait.Server.{get_file_from_client, put_file_to_client}
use file_transfer_program.PairWait.Upload.{get_file_from_client-Filed}
use file_transfer_program.PairWait.Missing.{put_file_to_client-Waits}
use file_transfer_program.PairWait.Starved.{shifted, recv_pairs-Waits}
use file_transfer_program.PairWait.Transfer.{recv_pairs}
use file_transfer_program.PairWait.Sizes.{read_info-twice}
use file_transfer_program.Tests.Uploads
use file_transfer_program.Tests.Uploads.{ones, no_packet}

-- A program that awaits these events, and pair 0.
abbrev pair_host : List Event → Host
pair_host es = record {
  base = Uploads.host es;
  sendmsg2 = no_packet;
  recvmsg2 = no_packet;
  send_temp_seq = 0;
  rec_temp_seq = 0;
}

abbrev kept : List ℕ → List ℕ
kept b = b

abbrev one : Udppacket
one = (fill_pair ones (pair_host [])).base.sendmsg

abbrev two : Udppacket
two = (fill_pair ones (pair_host [])).sendmsg2

-- Both halves of the buffer.
abbrev receiver : Host
receiver = pair_host (datagram 264 one ∷ quiet ∷ datagram 264 two ∷ [])

no_packet-IsWhole : IsWhole no_packet
no_packet-IsWhole = refl

no_packet-IsBuffer : IsBuffer no_packet
no_packet-IsBuffer = omega arith

pair-Agreed_example :
    Returns (Agreed 130 264 1 ones [] (pair_host []) receiver) (recv_pair ones receiver)
pair-Agreed_example =
    pair-Agreed 130 264 1 ones ones [] [] (pair_host []) receiver (omega arith) no_packet-IsWhole
      no_packet-IsWhole no_packet-IsBuffer no_packet-IsBuffer refl (omega arith)
      (quiet ∷ datagram 264 two ∷ [], (refl, refl, refl), (refl, refl, refl))

one-IsWhole : IsWhole one
unfolding fill_pair put_half first
one-IsWhole = refl

two-IsWhole : IsWhole two
unfolding fill_pair put_half first
two-IsWhole = refl

recv_pair-Answered_example :
    Returns
      (λ o t. Answered one two receiver o t × Leftover one two [] receiver t)
      (recv_pair ones receiver)
recv_pair-Answered_example =
    recv_pair-Answered ones one two [] receiver one-IsWhole two-IsWhole no_packet-IsBuffer
      no_packet-IsBuffer (quiet ∷ datagram 264 two ∷ [], (refl, refl, refl), (refl, refl, refl))

abbrev ack : ℕ → Udppacket
ack n = record { seq_no = n; payload = codes "ACK" }

abbrev sender : Host
sender = pair_host (answered 1 (ack 0) (ack 1) [])

send_pair-PairSent_example :
    Returns (λ _. PairSent 2 one two [] sender) (send_pair 130 264 ones sender)
unfolding fill_pair
send_pair-PairSent_example =
    send_pair-PairSent 130 264 1 ones (ack 0) (ack 1) [] sender (omega arith) (refl, refl)
      (refl, refl) refl

-- Five timeouts.
abbrev unanswered : Host
unanswered = pair_host (quiet ∷ quiet ∷ quiet ∷ quiet ∷ quiet ∷ [])

abbrev hello : Udppacket
hello = record { seq_no = 0; payload = first 260 ones }

send_last-Sent_example :
    Returns (Sent 264 264 4 hello [] unanswered.base) (send_last 264 264 ones 0 unanswered.base)
unfolding fill
send_last-Sent_example =
    send_last-Sent 264 264 0 4 ones (quiet ∷ []) [] hello unanswered.base no_packet-IsBuffer
      (
        3,
        refl,
        inl (
          omega arith,
          (
            2,
            refl,
            inl (
              omega arith,
              (1, refl, inl (omega arith, (0, refl, inr (omega arith, refl, refl)))),
            ),
          ),
        ),
      )
      refl refl

abbrev asked : Udppacket
asked = record { seq_no = 0; payload = first 260 (memory_of (codes "a.txt" ++ 0 ∷ []) ones) }

abbrev client_ack : Udppacket
client_ack = record { seq_no = 0; payload = codes "clientACK0" }

abbrev asked_host : Host
asked_host = pair_host (datagram 264 asked ∷ quiet ∷ datagram 264 client_ack ∷ [])

put_file_to_client-Waits_example :
    Waits (λ t. t.base.disk ≡ asked_host.base.disk) (put_file_to_client ones kept asked_host)
unfolding first memory_of c_string
put_file_to_client-Waits_example =
    put_file_to_client-Waits ones kept asked (quiet ∷ datagram 264 client_ack ∷ []) asked_host refl
      (omega arith) (omega arith) refl (refl, inl (refl, refl)) (omega arith, tt) (omega arith)

abbrev shifted_host : Host
shifted_host = pair_host (shifted 2 one two)

recv_pairs-Waits_example :
    Waits
      (λ t. (t.base.disk ≡ shifted_host.base.disk) × (t.base.arrivals ≡ []))
      (recv_pairs kept
        (recv_pair ones)
        (lift (recv_last not (codes "serverACK") ones))
        9
        300
        (codes "a.txt")
        shifted_host)
unfolding fill_pair
recv_pairs-Waits_example =
    recv_pairs-Waits ones one two one-IsWhole two-IsWhole kept
      (lift (recv_last not (codes "serverACK") ones)) 2 300 9 (codes "a.txt") shifted_host
      (omega arith) (omega arith) (refl, refl, omega arith, no_packet-IsBuffer, no_packet-IsBuffer)
      refl

name-Avoids : Avoids b',' (codes "a.txt")
name-Avoids = ground arith

read_info-twice_example :
    read_info (info_text (info_text (codes "a.txt") 300) 300) ≡ (codes "a.txt", 300)
read_info-twice_example = read_info-twice (codes "a.txt") 300 name-Avoids (omega arith)

-- A file of 300 bytes: its announcement with number `n`, a pair, and the rest.
abbrev announcement : ℕ → Udppacket
announcement n = record {
  seq_no = n;
  payload = first 260 (memory_of (info_text (codes "a.txt") 300 ++ 0 ∷ []) ones);
}

abbrev part : ℕ → Udppacket
part i = record { seq_no = i; payload = replicate 260 1 }

abbrev uploading : Host
uploading = pair_host (
    datagram 264 (announcement 0)
    ∷ quiet
    ∷ datagram 264 no_packet
    ∷ quiet
    ∷ datagram 264 (announcement 1)
    ∷ datagram 264 (part 0)
    ∷ datagram 264 (part 1)
    ∷ datagram 264 (part 0)
    ∷ [])

part-IsStream : IsStream part (part 0) 2
part-IsStream i l = (refl, refl)

get_file_from_client-Filed_example :
    Returns
      (λ _ u. (u.base.disk (codes "a.txt") ≡ some (replicate 300 1)) × (u.base.arrivals ≡ []))
      (get_file_from_client ones kept uploading)
unfolding info_text to_string digits first memory_of c_string read_info after before atoi
get_file_from_client-Filed_example =
    get_file_from_client-Filed ones kept part (part 0) (announcement 0) (announcement 1)
      (codes "a.txt") (replicate 300 1) 1 1
      (quiet
        ∷ datagram 264 no_packet
        ∷ quiet
        ∷ datagram 264 (announcement 1)
        ∷ datagram 264 (part 0)
        ∷ datagram 264 (part 1)
        ∷ datagram 264 (part 0)
        ∷ [])
      (quiet
        ∷ datagram 264 (announcement 1)
        ∷ datagram 264 (part 0)
        ∷ datagram 264 (part 1)
        ∷ datagram 264 (part 0)
        ∷ [])
      (datagram 264 (announcement 1)
        ∷ datagram 264 (part 0)
        ∷ datagram 264 (part 1)
        ∷ datagram 264 (part 0)
        ∷ [])
      (datagram 264 (part 0) ∷ datagram 264 (part 1) ∷ datagram 264 (part 0) ∷ []) [] uploading
      part-IsStream (omega arith) (λ b. refl) (omega arith) (omega arith) refl refl refl
      (omega arith) (omega arith) (omega arith) (omega arith) (omega arith) refl (refl, refl) refl
      no_packet-IsBuffer no_packet-IsBuffer (refl, inl (refl, refl))
      (0, refl, inl (omega arith, (refl, omega arith, refl))) refl (refl, inl (refl, refl))
      (_, _, refl, (_, (refl, refl, refl), (refl, refl, refl)), (refl, inl (refl, refl)))
