-- ===== src/Tests/Uploads.antt =====
-- The theorems on build 2 at concrete inputs.
use file_transfer_program.Base.{
  ℕ, ◌++◌, ◌≡◌, refl, true, none, List, [], ◌∷◌, inl, inr, first, codes, replicate, arith,
}
use file_transfer_program.Protocol.Codec.{Memory, memory_of}
use file_transfer_program.Run.{Returns, ◌>>◌}
use file_transfer_program.Run.Leaves.{Through}
use file_transfer_program.StopWait.State.{Udppacket, Event, quiet, select_error, datagram, Host}
use file_transfer_program.StopWait.Exchange.{fill, exchange_in, exchange_out}
use file_transfer_program.StopWait.Exchange.In.{IsStream, Ready, Received, exchange_in-Received}
use file_transfer_program.StopWait.Exchange.Out.{Sent, exchange_out-Sent}
use file_transfer_program.StopWait.Transfer.{info_text, send_info, send_chunks}
use file_transfer_program.StopWait.Client
use file_transfer_program.StopWait.Server.{run}
use file_transfer_program.StopWait.Bounds.{OneBit, run-OneBit, session-OneBit}
use file_transfer_program.StopWait.Packets.{chunk_packets}
use file_transfer_program.StopWait.Sending.{Answers}
use file_transfer_program.Text.{to_string, digits}
use file_transfer_program.Text.Strings.{Avoids}
use file_transfer_program.StopWait.Delivery.{
  packet_at, packet_at-IsStream, upload_packets, Delivers, upload-Delivered,
}

abbrev pub ones : Memory
ones i = 1

abbrev pub no_packet : Udppacket
no_packet = record { seq_no = 0; payload = replicate 260 0 }

-- A program that awaits these events; no number is current.
abbrev pub host : List Event → Host
host es = record {
  send_seq = 0;
  prev_recv_seq = 3000;
  next_rec_seq = 0;
  current_recv_seq = 3000;
  sendmsg = no_packet;
  recvmsg = no_packet;
  total_send_packet = 0;
  total_send_number_packets = 0;
  total_recv_packet = 0;
  total_recv_number_packets = 0;
  is_open = true;
  arrivals = es;
  sent = [];
  disk = λ _. none;
  can_create = λ _. true;
  can_delete = λ _. true;
  listing = [];
}

abbrev file_name : List ℕ
file_name = codes "a.txt"

abbrev pub text : List ℕ
text = codes "hello"

-- Two answers; the packet that the first belongs to is sent twice.
abbrev pub answered : Host
answered = host (quiet ∷ datagram 264 no_packet ∷ select_error ∷ datagram 264 no_packet ∷ [])

abbrev packets : List Udppacket
packets = upload_packets file_name text ones 0

-- Both packets, the first of them twice.
abbrev pub delivered : Host
delivered = host (
    datagram 264 (packet_at packets 0)
    ∷ datagram 264 (packet_at packets 0)
    ∷ quiet
    ∷ datagram 264 (packet_at packets 1)
    ∷ [])

delivered-Ready : Ready 2 0 (packet_at packets) 0 delivered
delivered-Ready = (
  refl,
  omega arith,
  inr (refl, inl (refl, inr (refl, inr (refl, inr (refl, inl (refl, omega arith)))))),
)

pub text-Avoids : Avoids 0 text
text-Avoids = ground arith

name-Avoids : Avoids b',' file_name
name-Avoids = ground arith

name-Avoids_zero : Avoids 0 file_name
name-Avoids_zero = ground arith

answered-Answers : Answers 2 answered.arrivals []
answered-Answers =
    (1, select_error ∷ datagram 264 no_packet ∷ [], (refl, refl), (0, [], (refl, refl), refl))

-- The server also meets the packet that the client has sent again, and one more datagram at the end.
upload-Delivered_example :
    Returns
      (λ _. Delivers file_name text ones (datagram 7 no_packet ∷ []) answered (host []))
      ((do
        send_info (Client.udpsend ones) file_name 5 ones
        send_chunks (Client.udpsend ones) 6 text ones)
        answered)
unfolding info_text to_string digits
upload-Delivered_example =
    upload-Delivered file_name text ones ones [] (datagram 7 no_packet ∷ []) answered (host []) refl
      (omega arith) refl (omega arith) refl name-Avoids_zero name-Avoids text-Avoids
      (inr (omega arith)) (omega arith) (omega arith) answered-Answers

packets-IsStream : IsStream 2 0 (packet_at packets)
unfolding chunk_packets first memory_of info_text to_string digits
packets-IsStream = packet_at-IsStream packets 0 (refl, (refl, tt)) (refl, (refl, tt))

exchange_in-Received_example :
    Returns
      (λ p. Received 2 0 (packet_at packets) 0 delivered p.payload)
      (exchange_in (codes "serverACK") ones delivered)
exchange_in-Received_example =
    exchange_in-Received 2 0 (packet_at packets) packets-IsStream (codes "serverACK") ones 0
      delivered (omega arith) delivered-Ready

abbrev hello : Udppacket
hello = record { seq_no = 0; payload = first 260 ones }

exchange_out-Sent_example :
    Returns
      (Sent 264 264 1 hello (select_error ∷ datagram 264 no_packet ∷ []) answered)
      (exchange_out 264 264 ones 0 answered)
unfolding fill
exchange_out-Sent_example =
    exchange_out-Sent 264 264 0 1 ones (select_error ∷ datagram 264 no_packet ∷ []) hello answered
      refl (refl, refl) refl

-- A round of the server, and a second one that waits.
abbrev asked : Host
asked = host (datagram 264 (record { seq_no = 0; payload = codes "LIST" ++ 13 ∷ 0 ∷ [] }) ∷ [])

run-OneBit_example : Through (λ _. OneBit (λ _. Unit)) (OneBit (λ _. Unit)) (run ones 3 asked)
run-OneBit_example = run-OneBit ones 3 asked (omega arith) refl

session-OneBit_example :
    Through
      (λ _. OneBit (λ o. o ≡ true))
      (OneBit (λ o. o ≡ true))
      (Client.session ones true true ((codes "4", file_name) ∷ []) answered)
session-OneBit_example =
    session-OneBit ones true true ((codes "4", file_name) ∷ []) answered (omega arith) refl refl
