-- ===== src/StopWait/Packets.antt =====
-- The packets that hold the bytes of a file: what the loop of `PutFileToServer` is to send.
use file_transfer_program.Base.{
  ℕ, zero, suc, ◌-◌, ◌/◌, ◌%◌, ◌≤◌, ◌<◌, ◌≡◌, ◌≢◌, ◌⊎◌, inl, inr, refl, sym, ap, ◌∙◌, List, [], ◌∷◌,
  ◌++◌, length, take, drop, min, subst, take-take, length-take, drop_all, take-append, first,
  length-first, length-append, length-drop, ltb, ltb-true, ltb-false, if◌then◌else◌, arith,
  Bool-cases,
}
use file_transfer_program.Protocol.Codec.{Memory, memory_of, offset}
use file_transfer_program.StopWait.State.{data_length, Udppacket}
use file_transfer_program.StopWait.Exchange.{flip}

-- The packets take the two numbers in turn.
abbrev pub Numbered : ℕ → List Udppacket → Type 0
Numbered n [] = Unit
Numbered n (p ∷ ps) = (p.seq_no ≡ n) × Numbered (flip n) ps

-- The packets are whole, and start with the chunks of a file.
abbrev pub Holds : List Udppacket → List ℕ → Type 0
Holds [] bytes = bytes ≡ []
Holds (p ∷ ps) bytes =
    (length p.payload ≡ data_length)
    × (take (min (length bytes) data_length) p.payload
        ≡ take (min (length bytes) data_length) bytes)
    × Holds ps (drop data_length bytes)

-- A size that leaves no whole buffer for the last packet.
abbrev pub Fits : ℕ → Type 0
Fits n = (n ≡ 0) ⊎ (n % 260 ≢ 0)

pub Fits-less : (n : ℕ) → Fits n → 260 < n → Fits (n - 260)
Fits-less n (inl z) l = absurd (omega arith)
Fits-less n (inr f) l = inr λ z. f (omega arith)

pub Fits-short : (n : ℕ) → Fits n → n ≤ 260 → n < 260
Fits-short n (inl z) l = omega arith
Fits-short n (inr f) l = omega arith

take-memory_of :
    (n m : ℕ) (bs : List ℕ) (rest : Memory)
    → n ≤ m
    → n ≤ length bs
    → take n (first m (memory_of bs rest)) ≡ take n bs
unfolding first memory_of
take-memory_of zero m bs rest a b = refl
take-memory_of (suc n) zero bs rest a b = absurd (omega arith)
take-memory_of (suc n) (suc m) [] rest a b = absurd (omega arith)
take-memory_of (suc n) (suc m) (x ∷ bs) rest a b =
    ap (λ r. x ∷ r) (take-memory_of n m bs rest (omega arith) (omega arith))

-- What the last packet holds: the text, its zero, and what was in the buffer; nothing of an empty file.
abbrev pub last_payload : List ℕ → Memory → List ℕ
last_payload [] behind = first data_length behind
last_payload (b ∷ bs) behind =
    b ∷ bs ++ 0 ∷ drop (suc (length (b ∷ bs))) (first data_length (memory_of (b ∷ bs) behind))

abbrev pub read_of : List ℕ → Memory → Memory
read_of bytes buffer =
    memory_of (take data_length bytes) (offset buffer (min (length bytes) data_length))

-- The packets that hold the bytes of a file, the first with number `seq`.
unfoldable pub chunk_packets : ℕ → ℕ → List ℕ → Memory → List Udppacket
chunk_packets zero seq bytes buffer = []
chunk_packets (suc fuel) seq bytes buffer =
    let read = read_of bytes buffer in
    let more = chunk_packets fuel (flip seq) (drop data_length bytes) read in
    let behind = offset buffer (min (length bytes) data_length) in
    if ltb data_length (length bytes)
    then record { seq_no = seq; payload = first data_length read } ∷ more
    else record { seq_no = seq; payload = last_payload bytes behind } ∷ []

last_payload-Holds :
    (n : ℕ) (bytes : List ℕ) (behind : Memory)
    → length bytes < data_length
    → Holds (record { seq_no = n; payload = last_payload bytes behind } ∷ []) bytes
last_payload-Holds n [] behind l = (length-first data_length behind, refl, refl)
last_payload-Holds n (b ∷ bs) behind l =
    let bytes = b ∷ bs in
    (
      omega (
        arith,
        l,
        length-append bytes
            (0 ∷ drop (suc (length bytes)) (first data_length (memory_of bytes behind))),
        length-drop (suc (length bytes)) (first data_length (memory_of bytes behind)),
        length-first data_length (memory_of bytes behind),
      ),
      take-append (min (length bytes) data_length) bytes _ (omega arith),
      drop_all data_length bytes (omega (arith, l)),
    )

-- The packet of a whole buffer starts with the bytes that were read.
read-Holds :
    (n : ℕ) (bytes : List ℕ) (behind : Memory) (ps : List Udppacket)
    → Holds ps (drop data_length bytes)
    → Holds
        (record {
          seq_no = n;
          payload = first data_length (memory_of (take data_length bytes) behind);
        }
          ∷ ps)
        bytes
read-Holds n bytes behind ps holds =
    let k = min (length bytes) data_length in
    (
      length-first data_length (memory_of (take data_length bytes) behind),
      take-memory_of k data_length (take data_length bytes) behind (omega arith)
            (omega (arith, length-take data_length bytes))
          ∙ take-take k data_length bytes (omega arith),
      holds,
    )

pub chunk_packets-Holds :
    (fuel seq : ℕ) (bytes : List ℕ) (buffer : Memory)
    → length bytes < fuel
    → Fits (length bytes)
    → Holds (chunk_packets fuel seq bytes buffer) bytes
unfolding chunk_packets
chunk_packets-Holds zero seq bytes buffer l f = absurd (omega arith)
chunk_packets-Holds (suc fuel) seq bytes buffer l f =
    elim (Bool-cases (ltb data_length (length bytes))) [
      | inl e ↦
          let big : data_length < length bytes = ltb-true data_length (length bytes) e in
          let len : length (drop data_length bytes) ≡ length bytes - 260 = length-drop 260 bytes in
          rw e (
            read-Holds seq bytes _ _ (
              chunk_packets-Holds fuel (flip seq) (drop data_length bytes) (read_of bytes buffer)
                (omega arith) (subst Fits (sym len) (Fits-less (length bytes) f big))))
      | inr e ↦ rw e (
          last_payload-Holds seq bytes _
            (Fits-short (length bytes) f (ltb-false data_length (length bytes) e)))
    ]

pub chunk_packets-Numbered :
    (fuel seq : ℕ) (bytes : List ℕ) (buffer : Memory)
    → Numbered seq (chunk_packets fuel seq bytes buffer)
unfolding chunk_packets
chunk_packets-Numbered zero seq bytes buffer = tt
chunk_packets-Numbered (suc fuel) seq bytes buffer =
    elim (Bool-cases (ltb data_length (length bytes))) [
      | inl e ↦ rw e (
        refl,
        chunk_packets-Numbered fuel (flip seq) (drop data_length bytes) (read_of bytes buffer),
      )
      | inr e ↦ rw e (refl, tt)
    ]

pub length-chunk_packets :
    (fuel seq : ℕ) (bytes : List ℕ) (buffer : Memory)
    → length bytes < fuel
    → Fits (length bytes)
    → length (chunk_packets fuel seq bytes buffer) ≡ suc (length bytes / 260)
unfolding chunk_packets
length-chunk_packets zero seq bytes buffer l f = absurd (omega arith)
length-chunk_packets (suc fuel) seq bytes buffer l f =
    elim (Bool-cases (ltb data_length (length bytes))) [
      | inl e ↦
          let big : data_length < length bytes = ltb-true data_length (length bytes) e in
          let len : length (drop data_length bytes) ≡ length bytes - 260 = length-drop 260 bytes in
          let more =
            length-chunk_packets fuel (flip seq) (drop data_length bytes) (read_of bytes buffer)
              (omega arith) (subst Fits (sym len) (Fits-less (length bytes) f big)) in
          rw e (omega (arith, more))
      | inr e ↦
          let small = Fits-short (length bytes) f (ltb-false data_length (length bytes) e) in
          rw e (omega (arith, small))
    ]
