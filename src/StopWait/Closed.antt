-- ===== src/StopWait/Closed.antt =====
-- A command on a file closes the server's only socket.
use file_transfer_program.Base.{
  Bool, ℕ, ◌≡◌, refl, false, Option, none, some, List, [], ◌∷◌, arith, ◌==◌, leb, eq→==, first,
  length,
}
use file_transfer_program.Protocol.Codec.{Memory}
use file_transfer_program.Run.{Returns, ◌>>=◌, ◌>>◌, crashed, stuck, modify}
use file_transfer_program.Run.Leaves.{
  Leaves, Leaves-bind, Leaves-never, Through, Through-if, Through-Leaves, Keeps, Keeps-bind,
  Keeps-pure, Keeps-gets, Keeps-modify, Keeps-when,
}
use file_transfer_program.StopWait.State.{
  data_length, Event, quiet, select_error, recv_error, datagram, Host, M, cleared, receive,
}
use file_transfer_program.StopWait.Exchange.{
  flip, fill, transmit, take_answer, wait_ack, wait_open, exchange_out, take_packet, taken,
  recv_loop, recv_closed, exchange_in,
}
use file_transfer_program.StopWait.Stable.{
  Stable, create_file-Keeps, recv_chunks-Keeps, send_info-Keeps, send_chunks-Keeps, server_sends,
  server_receives,
}
use file_transfer_program.StopWait.Server.{
  udprecv, close, put_file_to_client, get_file_from_client, del_files, handle,
}
use file_transfer_program.StopWait.Server
use file_transfer_program.Text.{c_string}

-- The last packet that came is the last one that was taken.
abbrev pub Settled : Host → Type 0
Settled h = h.current_recv_seq ≡ h.prev_recv_seq

wait_ack-Settled : (size : ℕ) (es : List Event) → Keeps Settled (wait_ack size es)
unfolding wait_ack take_answer transmit
wait_ack-Settled size [] h i = i
wait_ack-Settled size (quiet ∷ es) h i = wait_ack-Settled size es _ i
wait_ack-Settled size (select_error ∷ es) h i = wait_ack-Settled size es _ i
wait_ack-Settled size (recv_error ∷ es) h i = i
wait_ack-Settled size (datagram n p ∷ es) h i = i

exchange_out-Settled :
    (size again : ℕ) (sbuffer : Memory) (flag : ℕ)
    → Keeps Settled (exchange_out size again sbuffer flag)
unfolding exchange_out wait_open fill transmit
exchange_out-Settled size again sbuffer flag =
    Keeps-bind Settled _ _
      (λ h i.
        let text = c_string (first flag sbuffer) in
        Through-if (λ _. Settled) Settled (flag == 0) _ _ (λ _. i)
          (λ _.
            Through-if (λ _. Settled) Settled (leb data_length (length text)) crashed _ (λ _. tt)
              (λ _. i)))
      λ _. Keeps-bind Settled _ _ (Keeps-modify Settled _ λ h i. i) λ _.
        Keeps-bind Settled _ _
          (λ h i.
            Through-if (λ _. Settled) Settled h.is_open (wait_ack again h.arrivals h) (stuck h)
              (λ _. wait_ack-Settled again h.arrivals h i) (λ _. i))
          λ _. Keeps-bind Settled _ _ (Keeps-modify Settled _ λ h i. i) λ _. Keeps-gets Settled _

pub recv_loop-Settled :
    (counts : Bool → Bool) (turn : ℕ → ℕ) (name : List ℕ) (beyond : Memory) (es : List Event)
    (h : Host)
    → Settled h
    → Through (λ _. Settled) Settled (recv_loop counts turn name beyond es h)
unfolding recv_loop taken
recv_loop-Settled counts turn name beyond [] h s = s
recv_loop-Settled counts turn name beyond (quiet ∷ es) h s =
    recv_loop-Settled counts turn name beyond es _ s
recv_loop-Settled counts turn name beyond (select_error ∷ es) h s =
    recv_loop-Settled counts turn name beyond es _ s
recv_loop-Settled counts turn name beyond (recv_error ∷ es) h s =
    let t = take_packet counts name beyond 0 (cleared h.recvmsg) (record h { arrivals = es }) in
    Through-if (λ _. Settled) Settled (t.current_recv_seq == t.prev_recv_seq)
      (recv_loop counts turn name beyond es t) _
      (λ e. recv_loop-Settled counts turn name beyond es t (ground (arith, e))) (λ _. refl)
recv_loop-Settled counts turn name beyond (datagram n p ∷ es) h s =
    let t = take_packet counts name beyond n (receive n p h.recvmsg) (record h { arrivals = es }) in
    Through-if (λ _. Settled) Settled (t.current_recv_seq == t.prev_recv_seq)
      (recv_loop counts turn name beyond es t) _
      (λ e. recv_loop-Settled counts turn name beyond es t (ground (arith, e))) (λ _. refl)

exchange_in-Settled : (name : List ℕ) (beyond : Memory) → Keeps Settled (exchange_in name beyond)
unfolding exchange_in recv_closed taken
exchange_in-Settled name beyond = Keeps-bind Settled _ _ (Keeps-modify Settled _ λ h i. i) λ _.
    Keeps-bind Settled _ _
      (λ h i.
        Through-if (λ _. Settled) Settled h.is_open
          (recv_loop (λ awaited. awaited) flip name beyond h.arrivals h) (recv_closed h)
          (λ _. recv_loop-Settled (λ awaited. awaited) flip name beyond h.arrivals h i)
          (λ _.
            Through-if (λ _. Settled) Settled (h.current_recv_seq == h.prev_recv_seq) (stuck h) _
              (λ _. i) (λ _. refl)))
      λ _. Keeps-gets Settled _

Settled-Stable : Stable Settled
Settled-Stable = record {
  sends = exchange_out-Settled;
  receives = exchange_in-Settled;
  files = λ d h i. i;
  restarts = λ h i. i;
}

recv_closed-stuck : (h : Host) → Settled h → Leaves (λ _ _. ⊥) (recv_closed h)
unfolding recv_closed
recv_closed-stuck h s = rw (eq→== h.current_recv_seq h.prev_recv_seq s) tt

-- The call leaves the socket closed.
abbrev Closed : Host → Type 0
Closed h = Settled h × (h.is_open ≡ false)

abbrev Closes : {A : Type 0} → M A → Type 0
Closes m = (h : Host) → Settled h → Leaves (λ _. Closed) (m h)

Closes-bind :
    {A B : Type 0} (m : M A) (f : A → M B)
    → Keeps Settled m
    → ((a : A) → Closes (f a))
    → Closes (m >>= f)
Closes-bind m f k g h i =
    Leaves-bind (λ _. Settled) (λ _. Closed) m f h
      (Through-Leaves (λ _. Settled) Settled (m h) (k h i)) g

Closes-Option :
    {A B : Type 0} (o : Option A) (m : M B) (f : A → M B)
    → Closes m
    → ((a : A) → Closes (f a))
    → Closes (elim o [ none ↦ m | some a ↦ f a ])
Closes-Option none m f k g = k
Closes-Option (some a) m f k g = g a

close-Closes : Closes close
unfolding close modify
close-Closes h i = (i, refl)

module _ (beyond : Memory) where
  sends : (b : Memory) (flag : ℕ) → Keeps Settled (Server.udpsend beyond b flag)
  sends = server_sends Settled Settled-Stable beyond

  takes : Keeps Settled (udprecv beyond)
  takes = server_receives Settled Settled-Stable beyond

  put_file_to_client-Closes : Closes (put_file_to_client beyond)
  unfolding put_file_to_client
  put_file_to_client-Closes = Closes-bind _ _ takes λ p.
      Closes-bind _ _ (Keeps-gets Settled _) λ file.
        Closes-Option file _ _ (Closes-bind _ _ (sends _ 0) λ _. close-Closes) λ bytes.
          Closes-bind _ _ (send_info-Keeps Settled Settled-Stable _ _ _ beyond sends) λ _.
            Closes-bind _ _
              (send_chunks-Keeps Settled Settled-Stable _ _ bytes beyond (omega arith) sends)
              λ _. close-Closes

  get_file_from_client-Closes : Closes (get_file_from_client beyond)
  unfolding get_file_from_client
  get_file_from_client-Closes = Closes-bind _ _ takes λ p.
      Closes-bind _ _ (create_file-Keeps Settled Settled-Stable _) λ _.
        Closes-bind _ _ (recv_chunks-Keeps Settled Settled-Stable _ _ _ _ (omega arith) takes)
          λ _. close-Closes

  del_files-Closes : Closes (del_files beyond)
  unfolding del_files
  del_files-Closes = Closes-bind _ _ takes λ p. Closes-bind _ _ (Keeps-gets Settled _) λ file.
      Closes-Option file _ _ (Closes-bind _ _ (sends _ 0) λ _. close-Closes) λ bytes.
        Closes-bind _ _ (Keeps-gets Settled _) λ allowed.
          Closes-bind _ _
            (Keeps-when Settled allowed _ (
              Keeps-bind Settled _ _ (Keeps-modify Settled _ λ h i. i)
                λ _. Keeps-bind Settled _ _ (sends _ 0) λ _. Keeps-pure Settled tt))
            λ _. close-Closes

  udprecv-Closed : (h : Host) → Closed h → Leaves (λ _ _. ⊥) (udprecv beyond h)
  unfolding udprecv exchange_in modify
  udprecv-Closed h (s, c) =
      Leaves-bind (λ _. Closed) (λ _ _. ⊥) _ _ h (s, c)
        λ _ t (s, c).
          Leaves-bind (λ _ _. ⊥) (λ _ _. ⊥) _ _ t
            (rw c (recv_closed-stuck (record t { is_open = false }) s)) λ _ _ f. absurd f

  handle-Closed : (h : Host) → Closed h → ¬ Returns (λ _ _. Unit {0}) (handle beyond h)
  unfolding handle
  handle-Closed h c =
      Leaves-never (λ _ _. ⊥) (udprecv beyond) _ h (udprecv-Closed h c) λ _ _ f. absurd f

  -- After GET, PUT and DEL the server of build 2 answers no further command: its only socket is closed,
  -- and the next round of its loop never returns. A packet (the command) was taken before.
  pub closed_never_serves :
      (h : Host)
      → Settled h
      → (¬ Returns (λ _ _. Unit {0}) ((put_file_to_client beyond >> handle beyond) h))
        × (¬ Returns (λ _ _. Unit {0}) ((get_file_from_client beyond >> handle beyond) h))
        × (¬ Returns (λ _ _. Unit {0}) ((del_files beyond >> handle beyond) h))
  closed_never_serves h s = (
    Leaves-never (λ _. Closed) (put_file_to_client beyond) _ h (put_file_to_client-Closes h s)
        λ _. handle-Closed,
    Leaves-never (λ _. Closed) (get_file_from_client beyond) _ h (get_file_from_client-Closes h s)
        λ _. handle-Closed,
    Leaves-never (λ _. Closed) (del_files beyond) _ h (del_files-Closes h s) λ _. handle-Closed,
  )
