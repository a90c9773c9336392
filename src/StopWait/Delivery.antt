-- ===== src/StopWait/Delivery.antt =====
-- An upload from end to end: what the client sends for a file, and what the server makes of it.
use file_transfer_program.Base.{
  ℕ, zero, suc, ◌/◌, ◌%◌, ◌≤◌, ◌<◌, ◌≡◌, ◌≢◌, ◌⊎◌, inl, inr, ◌+◌, replicate, refl, sym, ap, ◌∙◌,
  subst, true, false, some, List, [], ◌∷◌, ◌++◌, length, drop, first, get_or, length-first, leb,
  arith,
}
use file_transfer_program.Chunks.{Carries}
use file_transfer_program.Protocol.Codec.{Memory, memory_of}
use file_transfer_program.Run.{Returns, Returns-mono, Returns-bind, ◌>>◌, pure}
use file_transfer_program.StopWait.State.{
  data_length, packet_length, Udppacket, Event, quiet, select_error, recv_error, datagram, Datagram,
  Host,
}
use file_transfer_program.StopWait.Exchange.{flip}
use file_transfer_program.StopWait.Exchange.In.{IsStream, Ready, Trace}
use file_transfer_program.StopWait.Exchange.Out.{Answered, Sent}
use file_transfer_program.StopWait.Client.{udpsend}
use file_transfer_program.StopWait.Server.{get_file_from_client}
use file_transfer_program.StopWait.Packets.{
  Numbered, Holds, Fits, chunk_packets, chunk_packets-Holds, chunk_packets-Numbered,
  length-chunk_packets,
}
use file_transfer_program.StopWait.Sending.{
  Answers, Stream, Streamed, Streamed-cons, send_chunks-Streamed, plain,
}
use file_transfer_program.StopWait.Transfer.{info_text, send_info, send_chunks}
use file_transfer_program.StopWait.Upload.{get_file_from_client-Written}
use file_transfer_program.Text.{to_string}
use file_transfer_program.Text.Strings.{Avoids, Avoids-append, to_string-Avoids, c_string-first}

-- All packets are whole.
abbrev pub Whole : List Udppacket → Type 0
Whole [] = Unit
Whole (p ∷ ps) = (length p.payload ≡ data_length) × Whole ps

Holds-Whole : (ps : List Udppacket) (bytes : List ℕ) → Holds ps bytes → Whole ps
Holds-Whole [] bytes h = tt
Holds-Whole (p ∷ ps) bytes h = (h.0, Holds-Whole ps (drop data_length bytes) h.2)

abbrev pub packet_at : List Udppacket → ℕ → Udppacket
packet_at ps i = get_or ps i (record { seq_no = 0; payload = [] })

pub packet_at-IsStream :
    (ps : List Udppacket) (base : ℕ)
    → Numbered (base % 2) ps
    → Whole ps
    → IsStream (length ps) base (packet_at ps)
packet_at-IsStream [] base n w i l = absurd (omega arith)
packet_at-IsStream (p ∷ ps) base n w zero l = (w.0, n.0 ∙ omega arith)
packet_at-IsStream (p ∷ ps) base n w (suc i) l =
    let flipped : flip (base % 2) ≡ suc base % 2 = ground arith in
    let (whole, number) =
      packet_at-IsStream ps (suc base) (subst (λ k. Numbered k ps) flipped n.1) w.1 i
        (omega (arith, l)) in
    (whole, number ∙ omega arith)

nil-Carries : (payload : ℕ → List ℕ) (count next : ℕ) → Carries data_length payload count next []
nil-Carries payload zero next = tt
nil-Carries payload (suc count) next = (refl, nil-Carries payload count (suc next))

Carries-shift :
    (payload : ℕ → List ℕ) (count next : ℕ) (bytes : List ℕ)
    → Carries data_length (λ i. payload (suc i)) count next bytes
    → Carries data_length payload count (suc next) bytes
Carries-shift payload zero next bytes h = tt
Carries-shift payload (suc count) next bytes (e, h) =
    (e, Carries-shift payload count (suc next) (drop data_length bytes) h)

pub Holds-Carries :
    (ps : List Udppacket) (count : ℕ) (bytes : List ℕ)
    → Holds ps bytes
    → Carries data_length (λ i. (packet_at ps i).payload) count 0 bytes
Holds-Carries [] count bytes h =
    subst (Carries data_length (λ i. (packet_at [] i).payload) count 0) (sym h)
      (nil-Carries _ count 0)
Holds-Carries (p ∷ ps) zero bytes h = tt
Holds-Carries (p ∷ ps) (suc count) bytes h = (
  h.1,
  Carries-shift (λ i. (packet_at (p ∷ ps) i).payload) count 0 (drop data_length bytes)
      (Holds-Carries ps count (drop data_length bytes) h.2),
)

-- The packets of an upload: the text that announces the file, and its bytes.
abbrev pub upload_packets : List ℕ → List ℕ → Memory → ℕ → List Udppacket
upload_packets name bytes beyond seq =
    record {
      seq_no = seq;
      payload = first data_length (memory_of (info_text name (length bytes) ++ 0 ∷ []) beyond);
    }
    ∷ chunk_packets (suc (length bytes)) (flip seq) bytes beyond

Avoids-info_text : (name : List ℕ) (size : ℕ) → Avoids 0 name → Avoids 0 (info_text name size)
unfolding info_text
Avoids-info_text name size a =
    Avoids-append 0 name (b',' ∷ to_string size) a
      (omega arith, to_string-Avoids 0 size (omega arith))

send_info-Sent :
    (name : List ℕ) (size k : ℕ) (beyond : Memory) (rest : List Event) (h : Host)
    → length (info_text name size) < data_length
    → h.is_open ≡ true
    → Answered k h.arrivals rest
    → Returns
        (λ _ t.
          (q : Udppacket) × Sent packet_length packet_length k
            (record {
              seq_no = h.send_seq;
              payload = first data_length (memory_of (info_text name size ++ 0 ∷ []) beyond);
            })
            rest
            h
            q
            t)
        (send_info (udpsend beyond) name size beyond h)
unfolding send_info pure
send_info-Sent name size k beyond rest h l o a =
    let fits : leb data_length (length (info_text name size)) ≡ false = ground (arith, l) in
    let sbuffer = memory_of (info_text name size ++ 0 ∷ []) beyond in
    rw (send_info, fits)
      (Returns-bind
        (Sent packet_length packet_length k
          (record { seq_no = h.send_seq; payload = first data_length sbuffer }) rest h)
        _ (udpsend beyond sbuffer 0) _ h (plain beyond sbuffer k rest h o a) λ q t s. (q, s))

upload-Streamed :
    (name bytes : List ℕ) (beyond : Memory) (rest : List Event) (h : Host)
    → h.is_open ≡ true
    → Avoids 0 bytes
    → Fits (length bytes)
    → length (info_text name (length bytes)) < data_length
    → Answers (suc (suc (length bytes / 260))) h.arrivals rest
    → Returns
        (λ _. Streamed rest (upload_packets name bytes beyond h.send_seq) h)
        ((do
          send_info (udpsend beyond) name (length bytes) beyond
          send_chunks (udpsend beyond) (suc (length bytes)) bytes beyond)
          h)
upload-Streamed name bytes beyond rest h o av f l (k, mid, a, as') =
    let p : Udppacket = record {
      seq_no = h.send_seq;
      payload = first data_length (memory_of (info_text name (length bytes) ++ 0 ∷ []) beyond);
    } in
    let ps = chunk_packets (suc (length bytes)) (flip h.send_seq) bytes beyond in
    Returns-bind (λ _ t. (q : Udppacket) × Sent packet_length packet_length k p mid h q t) _
      (send_info (udpsend beyond) name (length bytes) beyond) _ h
      (send_info-Sent name (length bytes) k beyond mid h l o a)
      λ _ t (q, s).
        Returns-mono _ _ (send_chunks (udpsend beyond) (suc (length bytes)) bytes beyond t)
          (send_chunks-Streamed beyond (suc (length bytes)) bytes beyond rest t (omega arith) av f
            s.5 (subst (λ es. Answers (suc (length bytes / 260)) es rest) (sym s.2) as'))
          λ _ u w. Streamed-cons packet_length k p q ps mid rest h t u (inl refl) s (
            subst (λ i. Streamed rest (chunk_packets (suc (length bytes)) i bytes beyond) t u) s.4
              w)

upload-Written :
    (name bytes : List ℕ) (beyond behind : Memory) (seq : ℕ) (s : Host)
    → seq < 2
    → s.can_create name ≡ true
    → Avoids 0 name
    → Avoids b',' name
    → Fits (length bytes)
    → length bytes ≤ 0x7fff_ffff
    → length (info_text name (length bytes)) < data_length
    → Ready
        (suc (suc (length bytes / 260)))
        seq
        (packet_at (upload_packets name bytes beyond seq))
        0
        s
    → Returns
        (λ _ t. (t.disk name ≡ some bytes) × (t.is_open ≡ false))
        (get_file_from_client behind s)
upload-Written name bytes beyond behind seq s l c z a f big short r =
    let ps = upload_packets name bytes beyond seq in
    let more = chunk_packets (suc (length bytes)) (flip seq) bytes beyond in
    let holds : Holds more bytes =
      chunk_packets-Holds (suc (length bytes)) (flip seq) bytes beyond (omega arith) f in
    let count : length ps ≡ suc (suc (length bytes / 260)) =
      ap suc (length-chunk_packets (suc (length bytes)) (flip seq) bytes beyond (omega arith) f) in
    let is_stream =
      packet_at-IsStream ps seq
        (
          omega (arith, l),
          subst (λ i. Numbered (flip i) more) (omega (arith, l))
              (chunk_packets-Numbered (suc (length bytes)) (flip seq) bytes beyond),
        )
        (length-first data_length _, Holds-Whole more bytes holds) in
    get_file_from_client-Written (suc (suc (length bytes / 260))) seq (packet_at ps)
      (subst (λ n. IsStream n seq (packet_at ps)) count is_stream) behind name bytes 0 s c a big
      (c_string-first data_length (info_text name (length bytes)) beyond
        (Avoids-info_text name (length bytes) z) short)
      (Carries-shift (λ i. (packet_at ps i).payload) (length bytes) 0 bytes
        (Holds-Carries more (length bytes) bytes holds))
      (omega arith) r

-- The datagrams that were sent, as the other side meets them, each once and in order.
abbrev pub arrived : List Datagram → List Event
arrived [] = []
arrived (d ∷ ds) = datagram d.size d.packet ∷ arrived ds

module _ (base : ℕ) (packet : ℕ → Udppacket) where
  past-Trace : (goal next : ℕ) (es : List Event) → goal ≤ next → Trace goal base packet next es
  past-Trace goal next [] l = l
  past-Trace goal next (quiet ∷ es) l = past-Trace goal next es l
  past-Trace goal next (select_error ∷ es) l = past-Trace goal next es l
  past-Trace goal next (recv_error ∷ es) l = l
  past-Trace goal next (datagram n p ∷ es) l = inl l

  again-Trace :
      (goal next k again : ℕ) (p : Udppacket) (mid : List Datagram) (late : List Event)
      → (again ≡ packet_length) ⊎ (goal ≤ suc next)
      → p ≡ packet next
      → Trace goal base packet (suc next) (arrived mid ++ late)
      → Trace goal base packet
          (suc next)
          (arrived (replicate k (record { size = again; packet = p }) ++ mid) ++ late)
  again-Trace goal next zero again p mid late w e t = t
  again-Trace goal next (suc k) again p mid late (inl w) e t =
      inr (w, inr (e, again-Trace goal next k again p mid late (inl w) e t))
  again-Trace goal next (suc k) again p mid late (inr l) e t = inl l

  -- What goes out for these packets comes as a trace of them.
  stream-Trace :
      (goal next : ℕ) (ps : List Udppacket) (out : List Datagram) (late : List Event)
      → goal ≡ next + length ps
      → ((i : ℕ) → i < length ps → packet_at ps i ≡ packet (next + i))
      → Stream ps out
      → Trace goal base packet next (arrived out ++ late)
  stream-Trace goal next [] out late e f s =
      past-Trace goal next (arrived out ++ late) (omega (arith, e))
  stream-Trace goal next (p ∷ ps) out late e f (k, again, mid, o, w, s) =
      let first_one : p ≡ packet next = f 0 (omega arith) ∙ ap packet (omega arith) in
      let t =
        stream-Trace goal (suc next) ps mid late (omega (arith, e))
          (λ i l. f (suc i) (omega (arith, l)) ∙ ap packet (omega arith)) s in
      subst (λ out. Trace goal base packet next (arrived out ++ late)) (sym o)
        (inr (
          refl,
          inl (
            first_one,
            again-Trace goal next k again p mid late (whole_or_last goal next again ps e w)
                first_one t,
          ),
        ))
    where
      whole_or_last :
          (goal next again : ℕ) (ps : List Udppacket)
          → goal ≡ next + suc (length ps)
          → (again ≡ packet_length) ⊎ (ps ≡ [])
          → (again ≡ packet_length) ⊎ (goal ≤ suc next)
      whole_or_last goal next again ps e (inl w) = inl w
      whole_or_last goal next again ps e (inr n) = inr (omega (arith, e, ap length n))

-- The client of build 2 has sent some datagrams more, and when exactly these come to the server, in their order, and
-- then `late`, the server's call returns: its file holds these bytes, and its socket is closed.
abbrev pub Delivers : List ℕ → List ℕ → Memory → List Event → Host → Host → Host → Type 0
Delivers name bytes behind late h s t =
    (out : List Datagram) × (t.sent ≡ h.sent ++ out)
    × Returns (λ _ u. (u.disk name ≡ some bytes) × (u.is_open ≡ false))
        (get_file_from_client behind (record s { arrivals = arrived out ++ late }))

-- An upload from end to end. The file holds no zero byte, and its size is 0 or no multiple of 260 and fits
-- an `int`; its name holds no zero and no comma, and the text that announces it fits a packet. An
-- answer comes to each packet of the client in the end, perhaps after timeouts, at each of which it sends the
-- packet again. Then the client returns. Let all the datagrams that it has sent, the repetitions with them,
-- come to the server in their order, and anything after them; the server can create the file, its socket is
-- open, and the last number that it took is not that of the client's first packet. Then the server returns as
-- well: the file on its disk holds exactly the bytes, and its socket is closed.
pub upload-Delivered :
    (name bytes : List ℕ) (beyond behind : Memory) (rest late : List Event) (h s : Host)
    → h.is_open ≡ true
    → h.send_seq < 2
    → s.is_open ≡ true
    → s.prev_recv_seq ≢ h.send_seq
    → s.can_create name ≡ true
    → Avoids 0 name
    → Avoids b',' name
    → Avoids 0 bytes
    → Fits (length bytes)
    → length bytes ≤ 0x7fff_ffff
    → length (info_text name (length bytes)) < data_length
    → Answers (suc (suc (length bytes / 260))) h.arrivals rest
    → Returns
        (λ _. Delivers name bytes behind late h s)
        ((do
          send_info (udpsend beyond) name (length bytes) beyond
          send_chunks (udpsend beyond) (suc (length bytes)) bytes beyond)
          h)
upload-Delivered name bytes beyond behind rest late h s o l o' prev c z a av f big short as' =
    let ps = upload_packets name bytes beyond h.send_seq in
    let more = chunk_packets (suc (length bytes)) (flip h.send_seq) bytes beyond in
    let more =
      length-chunk_packets (suc (length bytes)) (flip h.send_seq) bytes beyond (omega arith) f in
    let count : suc (suc (length bytes / 260)) ≡ 0 + length ps = omega (arith, more) in
    Returns-mono (λ _. Streamed rest ps h) (λ _. Delivers name bytes behind late h s) _
      (upload-Streamed name bytes beyond rest h o av f short as')
      λ _ t (out, sent, stream, es, is_open, disk).
        let trace =
          stream-Trace h.send_seq (packet_at ps) (suc (suc (length bytes / 260))) 0 ps out late
            count (λ i _. ap (packet_at ps) (omega arith)) stream in
        (
          out,
          sent,
          upload-Written name bytes beyond behind h.send_seq
              (record s { arrivals = arrived out ++ late }) l c z a f big short
              (o', λ e. prev (e ∙ omega (arith, l)), trace),
        )
