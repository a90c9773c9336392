-- ===== src/StopWait/Bounds.antt =====
-- Packet numbers have one bit, in both programs.
use file_transfer_program.Base.{
  ℕ, ◌<◌, Bool, true, false, List, [], ◌∷◌, ◌++◌, arith, ◌==◌, first, length, leb, Bool-cases, inl,
  inr, ◌≡◌, refl, ap, codes, if◌then◌else◌, sym, subst,
}
use file_transfer_program.Protocol.Codec.{Memory}
use file_transfer_program.Run.{Ran, crashed, modify, gets, crash, stuck, ◌>>=◌}
use file_transfer_program.Run.Leaves.{
  Through, Through-mono, Through-bind, Through-if, Keeps, Keeps-bind, Keeps-gets, Keeps-modify,
}
use file_transfer_program.StopWait.State.{
  data_length, Udppacket, Event, quiet, select_error, recv_error, datagram, Datagram, Host, cleared,
  receive,
}
use file_transfer_program.StopWait.Exchange.{
  flip, fill, transmit, take_answer, wait_ack, wait_open, exchange_out, acknowledge, take_packet,
  taken, recv_loop, recv_closed, exchange_in,
}
use file_transfer_program.StopWait.Stable.{Stable, serve-Keeps, menu-Keeps}
use file_transfer_program.StopWait.Server.{run}
use file_transfer_program.StopWait.Client.{connectserver, udprecv, session}
use file_transfer_program.Text.{c_string}

-- The numbers on the wire have one bit.
abbrev pub Bits : List Datagram → Type 0
Bits [] = Unit
Bits (d ∷ ds) = (d.packet.seq_no < 2) × Bits ds

Bits-append : (ds es : List Datagram) → Bits ds → Bits es → Bits (ds ++ es)
Bits-append [] es b c = c
Bits-append (d ∷ ds) es (h, b) c = (h, Bits-append ds es b c)

-- So do those of the program and of the packet that it fills; `G` holds of whether its socket is open.
abbrev pub OneBit : (Bool → Type 0) → Host → Type 0
OneBit G h =
    (h.send_seq < 2) × (h.next_rec_seq < 2) × (h.sendmsg.seq_no < 2) × Bits h.sent × G h.is_open

flip_lt : (n : ℕ) → n < 2 → flip n < 2
flip_lt n h = ground arith

module _ (G : Bool → Type 0) where
  -- An event is taken too.
  abbrev Fewer : List Event → Host → Type 0
  Fewer es t = OneBit G t × (length t.arrivals < length es)

  fill-Keeps : (sbuffer : Memory) (flag : ℕ) → Keeps (OneBit G) (fill sbuffer flag)
  unfolding fill
  fill-Keeps sbuffer flag h i =
      let text = c_string (first flag sbuffer) in
      Through-if (λ _. OneBit G) (OneBit G) (flag == 0) _ _ (λ _. (i.0, i.1, i.0, i.3, i.4))
        (λ _.
          Through-if (λ _. OneBit G) (OneBit G) (leb data_length (length text)) crashed _ (λ _. tt)
            (λ _. (i.0, i.1, i.0, i.3, i.4)))

  transmit-OneBit : (size : ℕ) (h : Host) → OneBit G h → OneBit G (transmit size h)
  unfolding transmit
  transmit-OneBit size h (s, n, m, b, g) = (s, n, m, Bits-append h.sent _ b (m, tt), g)

  take_answer-OneBit :
      (p : Udppacket) (es : List Event) (h : Host) → OneBit G h → OneBit G (take_answer p es h)
  unfolding take_answer
  take_answer-OneBit p es h i = i

  wait_ack-Keeps : (size : ℕ) (es : List Event) → Keeps (OneBit G) (wait_ack size es)
  unfolding wait_ack
  wait_ack-Keeps size [] h i = i
  wait_ack-Keeps size (quiet ∷ es) h i = wait_ack-Keeps size es _ (transmit-OneBit size _ i)
  wait_ack-Keeps size (select_error ∷ es) h i = wait_ack-Keeps size es _ i
  wait_ack-Keeps size (recv_error ∷ es) h i = take_answer-OneBit _ es h i
  wait_ack-Keeps size (datagram n p ∷ es) h i = take_answer-OneBit _ es h i

  wait_open-Keeps : (size : ℕ) → Keeps (OneBit G) (wait_open size)
  unfolding wait_open
  wait_open-Keeps size h i =
      Through-if (λ _. OneBit G) (OneBit G) h.is_open (wait_ack size h.arrivals h) (stuck h)
        (λ _. wait_ack-Keeps size h.arrivals h i) (λ _. i)

  exchange_out-Keeps :
      (size again : ℕ) (sbuffer : Memory) (flag : ℕ)
      → Keeps (OneBit G) (exchange_out size again sbuffer flag)
  unfolding exchange_out
  exchange_out-Keeps size again sbuffer flag =
      Keeps-bind (OneBit G) _ _ (fill-Keeps sbuffer flag) λ _.
        Keeps-bind (OneBit G) _ _ (Keeps-modify (OneBit G) _ (transmit-OneBit size)) λ _.
          Keeps-bind (OneBit G) _ _ (wait_open-Keeps again) λ _.
            Keeps-bind (OneBit G) _ _
              (Keeps-modify (OneBit G) _ λ h i. (flip_lt h.send_seq i.0, i.1, i.2, i.3, i.4))
              λ _. Keeps-gets (OneBit G) _

  take_packet-OneBit :
      (counts : Bool → Bool) (name : List ℕ) (beyond : Memory) (n : ℕ) (p : Udppacket) (h : Host)
      → OneBit G h
      → OneBit G (take_packet counts name beyond n p h)
        × ((take_packet counts name beyond n p h).arrivals ≡ h.arrivals)
  unfolding take_packet acknowledge
  take_packet-OneBit counts name beyond n p h (s, r, m, b, g) = elim (Bool-cases (n == 0)) [
    | inl e ↦ rw e ((s, r, m, b, g), refl)
    | inr e ↦ rw e ((s, r, m, Bits-append h.sent _ b (m, tt), g), refl)
  ]

  taken-OneBit :
      (turn : ℕ → ℕ) (h : Host)
      → ((n : ℕ) → n < 2 → turn n < 2)
      → OneBit G h
      → OneBit G (taken turn h)
  unfolding taken
  taken-OneBit turn h l (s, r, m, b, g) = (s, l h.next_rec_seq r, m, b, g)

  fewer :
      (e : Event) (es : List Event) (o : Ran Host (Unit {0}))
      → Through (λ _. Fewer es) (OneBit G) o
      → Through (λ _. Fewer (e ∷ es)) (OneBit G) o
  fewer e es o w =
      Through-mono (λ _. Fewer es) (λ _. Fewer (e ∷ es)) (OneBit G) (OneBit G) o w
        (λ _ t f. (f.0, omega (arith, f.1))) (λ t i. i)

  recv_loop-Fewer :
      (counts : Bool → Bool) (turn : ℕ → ℕ) (name : List ℕ) (beyond : Memory) (es : List Event)
      (h : Host)
      → ((n : ℕ) → n < 2 → turn n < 2)
      → OneBit G h
      → Through (λ _. Fewer es) (OneBit G) (recv_loop counts turn name beyond es h)
  unfolding recv_loop taken
  recv_loop-Fewer counts turn name beyond [] h l i = i
  recv_loop-Fewer counts turn name beyond (quiet ∷ es) h l i =
      fewer quiet es _ (recv_loop-Fewer counts turn name beyond es _ l i)
  recv_loop-Fewer counts turn name beyond (select_error ∷ es) h l i =
      fewer select_error es _ (recv_loop-Fewer counts turn name beyond es _ l i)
  recv_loop-Fewer counts turn name beyond (recv_error ∷ es) h l i =
      let h' : Host = record h { arrivals = es } in
      let t = take_packet counts name beyond 0 (cleared h.recvmsg) h' in
      let (one_bit, e) = take_packet-OneBit counts name beyond 0 (cleared h.recvmsg) h' i in
      Through-if (λ _. Fewer (recv_error ∷ es)) (OneBit G) (t.current_recv_seq == t.prev_recv_seq)
        (recv_loop counts turn name beyond es t) _
        (λ _. fewer recv_error es _ (recv_loop-Fewer counts turn name beyond es t l one_bit))
        (λ _. (taken-OneBit turn t l one_bit, omega (arith, ap length e)))
  recv_loop-Fewer counts turn name beyond (datagram n p ∷ es) h l i =
      let h' : Host = record h { arrivals = es } in
      let t = take_packet counts name beyond n (receive n p h.recvmsg) h' in
      let (one_bit, e) = take_packet-OneBit counts name beyond n (receive n p h.recvmsg) h' i in
      Through-if (λ _. Fewer (datagram n p ∷ es)) (OneBit G) (t.current_recv_seq == t.prev_recv_seq)
        (recv_loop counts turn name beyond es t) _
        (λ _. fewer (datagram n p) es _ (recv_loop-Fewer counts turn name beyond es t l one_bit))
        (λ _. (taken-OneBit turn t l one_bit, omega (arith, ap length e)))

  recv_closed-Keeps : Keeps (OneBit G) recv_closed
  unfolding recv_closed
  recv_closed-Keeps h i =
      Through-if (λ _. OneBit G) (OneBit G) (h.current_recv_seq == h.prev_recv_seq) (stuck h) _
        (λ _. i) (λ _. taken-OneBit flip _ flip_lt i)

  exchange_in-Keeps : (name : List ℕ) (beyond : Memory) → Keeps (OneBit G) (exchange_in name beyond)
  unfolding exchange_in
  exchange_in-Keeps name beyond =
      Keeps-bind (OneBit G) _ _ (Keeps-modify (OneBit G) _ λ h i. i) λ _.
        Keeps-bind (OneBit G) _ _
          (λ h i.
            let go = λ (h : Host). recv_loop (λ awaited. awaited) flip name beyond h.arrivals h in
            Through-if (λ _. OneBit G) (OneBit G) h.is_open (go h) (recv_closed h)
              (λ _.
                Through-mono (λ _. Fewer h.arrivals) (λ _. OneBit G) (OneBit G) (OneBit G) (go h)
                  (recv_loop-Fewer (λ awaited. awaited) flip name beyond h.arrivals h flip_lt i)
                  (λ _ t f. f.0) (λ t i. i))
              (λ _. recv_closed-Keeps h i))
          λ _. Keeps-gets (OneBit G) _

  OneBit-Stable : Stable (OneBit G)
  OneBit-Stable = record {
    sends = exchange_out-Keeps;
    receives = exchange_in-Keeps;
    files = λ d h i. i;
    restarts = λ h i. (omega arith, omega arith, i.2, i.3, i.4);
  }

-- However many rounds the server of build 2 runs, whether they return or wait for ever, both its packet numbers
-- stay below 2, and so does the number of each packet that it sends, if the one in its packet buffer does
-- at the start and nothing was sent before. No loop of the model meets its bound. Of a run that C++ leaves
-- undefined nothing is said.
pub run-OneBit :
    (beyond : Memory) (rounds : ℕ) (h : Host)
    → h.sendmsg.seq_no < 2
    → h.sent ≡ []
    → Through (λ _. OneBit (λ _. Unit)) (OneBit (λ _. Unit)) (run beyond rounds h)
unfolding run modify
run-OneBit beyond rounds h m e =
    let I = OneBit (λ _. Unit) in
    Through-bind (λ _. I) (λ _. I) I _ _ h (omega arith, omega arith, m, subst Bits (sym e) tt, tt)
      λ _ t i. serve-Keeps I (OneBit-Stable (λ _. Unit)) beyond (λ h i. i) rounds t i

abbrev Open : Bool → Type 0
Open o = o ≡ true

udprecv-Fewer :
    (beyond : Memory) (h : Host)
    → OneBit Open h
    → Through
        (λ _ t. OneBit Open t × (length t.arrivals < length h.arrivals))
        (OneBit Open)
        (udprecv beyond h)
unfolding udprecv exchange_in modify gets ◌>>=◌
udprecv-Fewer beyond h i =
    let I = OneBit Open in
    let go =
      λ (h : Host). recv_loop (λ awaited. awaited) flip (codes "clientACK") beyond h.arrivals h in
    let u : Host = record h { total_recv_number_packets = 0; total_recv_packet = 0 } in
    Through-bind (λ _. Fewer Open h.arrivals) (λ _. Fewer Open h.arrivals) I
      (λ h. if h.is_open then go h else recv_closed h) _ u
      (Through-if (λ _. Fewer Open h.arrivals) I u.is_open (go u) (recv_closed u)
        (λ _.
          recv_loop-Fewer Open (λ awaited. awaited) flip (codes "clientACK") beyond h.arrivals u
            flip_lt i)
        (λ closed. absurd (ground (arith, i.4, closed))))
      λ _ t f. f

connectserver-OneBit :
    (resolved has_socket : Bool) (h : Host)
    → h.sendmsg.seq_no < 2
    → Bits h.sent
    → h.is_open ≡ true
    → Through (λ _. OneBit Open) (OneBit Open) (connectserver resolved has_socket h)
unfolding connectserver modify crash
connectserver-OneBit true true h m b o = (omega arith, omega arith, m, b, o)
connectserver-OneBit true false h m b o = tt
connectserver-OneBit false has_socket h m b o = tt

-- Whatever the user of the client of build 2 chooses, whether the session returns or waits for ever, both its
-- packet numbers stay below 2, and so does the number of each packet that it sends, if the one in its packet
-- buffer does at the start, nothing was sent before and its socket is open, which it stays. No loop of the
-- model meets its bound. Of a session that C++ leaves undefined, or that ends because the server's name is not
-- found or there is no socket, nothing is said.
pub session-OneBit :
    (beyond : Memory) (resolved has_socket : Bool) (choices : List (List ℕ × List ℕ)) (h : Host)
    → h.sendmsg.seq_no < 2
    → h.sent ≡ []
    → h.is_open ≡ true
    → Through
        (λ _. OneBit (λ o. o ≡ true))
        (OneBit (λ o. o ≡ true))
        (session beyond resolved has_socket choices h)
unfolding session
session-OneBit beyond resolved has_socket choices h m e o =
    Through-bind (λ _. OneBit Open) (λ _. OneBit Open) (OneBit Open)
      (connectserver resolved has_socket) _ h
      (connectserver-OneBit resolved has_socket h m (subst Bits (sym e) tt) o)
      λ _ t i.
        menu-Keeps (OneBit Open) (OneBit-Stable Open) beyond (udprecv-Fewer beyond) choices t i
