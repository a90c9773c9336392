-- ===== src/TcpThread/Upload.antt =====
-- `GetFileFromClient` of build 1, on a stream that is cut anyhow.
use file_transfer_program.Base.{
  ℕ, zero, suc, ◌+◌, ◌-◌, ◌^◌, ◌≤◌, ◌<◌, ◌≡◌, refl, sym, ap, ◌∙◌, subst, true, false, Option, some,
  min, List, [], ◌∷◌, ◌++◌, length, take, drop, first, lt→ltb, length-take, length-drop, take-drop,
  take-append, length-append, take_all, drop-append, append_assoc, append-nil, arith,
}
use file_transfer_program.Files.{write_file_self}
use file_transfer_program.Protocol.Codec.{
  Memory, memory_of, encode_u32, decode_u32, decode-encode_u32,
}
use file_transfer_program.Run.{modify, Returns, Returns-mono, Returns-bind, Returns-if, ◌>>◌}
use file_transfer_program.Text.{c_string}
use file_transfer_program.TcpThread.{
  chunk_length, Call, fails, ended, ready, Conn, M, taken, skip, recv, append_file, file_loop,
  info_name, info_size, create_file, get_file_from_client, close,
}

-- Bytes are there at each call.
abbrev pub AllReady : List Call → Type 0
AllReady [] = Unit
AllReady (fails ∷ es) = ⊥
AllReady (ended ∷ es) = ⊥
AllReady (ready n ∷ es) = AllReady es

-- The file holds these bytes.
abbrev pub Holds : List ℕ → List ℕ → Conn → Type 0
Holds name bytes t = t.disk name ≡ some bytes

appended :
    (name content got : List ℕ) (len n : ℕ) (es : List Call) (c : Conn)
    → c.disk name ≡ some content
    → (append_file name got (skip len n es c)).disk name ≡ some (content ++ got)
unfolding append_file skip
appended name content got len n es c e = rw (write_file_self name _ c.disk, e) refl

pub file_loop-Holds :
    (es : List Call) (left : ℕ) (name content : List ℕ) (c : Conn)
    → AllReady es
    → left ≤ length es
    → left ≤ length c.incoming
    → c.disk name ≡ some content
    → Returns (λ _. Holds name (content ++ take left c.incoming)) (file_loop left name es c)
unfolding file_loop append_file skip
file_loop-Holds es zero name content c a l i e = e ∙ ap some (sym (append-nil content))
file_loop-Holds [] (suc left) name content c a l i e = absurd (omega arith)
file_loop-Holds (fails ∷ es) (suc left) name content c a l i e = absurd a
file_loop-Holds (ended ∷ es) (suc left) name content c a l i e = absurd a
file_loop-Holds (ready n ∷ es) (suc left) name content c a l i e =
    let len = min (suc left) chunk_length in
    let k = min len (suc n) in
    let got = taken len n c in
    let size : length got ≡ k = omega (arith, length-take k c.incoming) in
    Returns-mono
      (λ _. Holds name ((content ++ got) ++ take (suc left - length got) (drop k c.incoming))) _
      (file_loop (suc left - length got) name es (append_file name got (skip len n es c)))
      (file_loop-Holds es (suc left - length got) name (content ++ got)
        (append_file name got (skip len n es c)) a (omega arith)
        (omega (arith, length-drop k c.incoming)) (appended name content got len n es c e))
      λ _ t q.
        q
        ∙ ap some (
            append_assoc content got _
            ∙ ap (λ b. content ++ b)
                (take-drop k (suc left - length got) (suc left) c.incoming (omega arith)))

first-memory_of :
    (bs : List ℕ) (n : ℕ) (beyond : Memory)
    → n ≤ length bs
    → first n (memory_of bs beyond) ≡ take n bs
unfolding first memory_of
first-memory_of bs zero beyond l = refl
first-memory_of [] (suc n) beyond l = absurd (omega arith)
first-memory_of (b ∷ bs) (suc n) beyond l =
    ap (λ r. b ∷ r) (first-memory_of bs n beyond (omega arith))

-- A Fileinfo.
abbrev pub info_bytes : List ℕ → ℕ → List ℕ
info_bytes name_field size = name_field ++ encode_u32 size

length-encode_u32 : (x : ℕ) → length (encode_u32 x) ≡ 4
unfolding encode_u32
length-encode_u32 x = refl

pub length-info_bytes :
    (name_field : List ℕ) (size : ℕ)
    → length name_field ≡ 260
    → length (info_bytes name_field size) ≡ 264
length-info_bytes name_field size l =
    omega (arith, l, length-append name_field (encode_u32 size), length-encode_u32 size)

pub info_name-info_bytes :
    (name_field : List ℕ) (size : ℕ) (beyond : Memory)
    → length name_field ≡ 260
    → info_name (info_bytes name_field size) beyond ≡ c_string name_field
unfolding info_name
info_name-info_bytes name_field size beyond l = ap c_string (
    first-memory_of (info_bytes name_field size) 260 beyond
      (omega (arith, l, length-append name_field (encode_u32 size)))
    ∙ take-append 260 name_field (encode_u32 size) (omega (arith, l))
    ∙ take_all 260 name_field (omega (arith, l)))

pub info_size-info_bytes :
    (name_field : List ℕ) (size : ℕ) (beyond : Memory)
    → length name_field ≡ 260
    → size < 2 ^ 32
    → info_size (info_bytes name_field size) beyond ≡ size
unfolding info_size
info_size-info_bytes name_field size beyond l s =
    let info = info_bytes name_field size in
    let four : length info ≡ 264 =
      omega (arith, l, length-append name_field (encode_u32 size), length-encode_u32 size) in
    let whole : first 264 (memory_of info beyond) ≡ info =
      first-memory_of info 264 beyond (omega (arith, four))
      ∙ take_all 264 info (omega (arith, four)) in
    ap (λ b. decode_u32 (drop 260 b)) whole
    ∙ ap decode_u32
        (subst (λ k. drop k info ≡ encode_u32 size) l (drop-append name_field (encode_u32 size)))
    ∙ ap decode_u32 (sym (append-nil (encode_u32 size)))
    ∙ decode-encode_u32 size [] s

created :
    (name bytes : List ℕ) (es : List Call) (c : Conn)
    → c.incoming ≡ bytes
    → c.calls ≡ es
    → c.can_create name ≡ true
    → Returns
        (λ _ t. (t.disk name ≡ some []) × (t.incoming ≡ bytes) × (t.calls ≡ es))
        (create_file name c)
unfolding create_file
created name bytes es c i e can =
    Returns-if (λ _ t. (t.disk name ≡ some []) × (t.incoming ≡ bytes) × (t.calls ≡ es))
      (c.can_create name) _ _ can (write_file_self name [] c.disk, i, e)

recv_lem :
    (len n : ℕ) (es : List Call) (c : Conn)
    → c.calls ≡ ready n ∷ es
    → Returns
        (λ got t.
          (got ≡ some (taken len n c))
          × (t.incoming ≡ drop (min len (suc n)) c.incoming)
          × (t.calls ≡ es)
          × (t.can_create ≡ c.can_create)
          × (t.send_fails ≡ c.send_fails))
        (recv len c)
unfolding recv skip
recv_lem len n es c e = rw (recv, e) (refl, refl, refl, refl, refl)

-- A call of `recv` has taken `front`, and `rest` is still to come.
abbrev pub Took : List ℕ → List ℕ → List Call → Conn → Option (List ℕ) → Conn → Type 0
Took front rest es c got t =
    (got ≡ some front)
    × (t.incoming ≡ rest)
    × (t.calls ≡ es)
    × (t.can_create ≡ c.can_create)
    × (t.send_fails ≡ c.send_fails)

-- All of `front` is there at once.
pub recv-Took :
    (len n : ℕ) (front rest : List ℕ) (es : List Call) (c : Conn)
    → length front ≡ len
    → len ≤ suc n
    → c.incoming ≡ front ++ rest
    → c.calls ≡ ready n ∷ es
    → Returns (Took front rest es c) (recv len c)
recv-Took len n front rest es c l m i e =
    let k = min len (suc n) in
    let size : length front ≡ k = omega (arith, l, m) in
    Returns-mono _ _ (recv len c) (recv_lem len n es c e) λ got t (g, i', e', f, s). (
      g
          ∙ ap some (
              ap (take k) i
              ∙ take-append k front rest (omega (arith, size))
              ∙ take_all k front (omega (arith, size))),
      i' ∙ ap (drop k) i ∙ subst (λ k. drop k (front ++ rest) ≡ rest) size (drop-append front rest),
      e',
      f,
      s,
    )

-- A file of these bytes, which are the whole stream, is created and received; then comes `tail`.
pub filed :
    {A : Type 0} (P : A → Conn → Type 0) (tail : M A) (name bytes : List ℕ) (es : List Call)
    (c : Conn)
    → AllReady es
    → length bytes ≤ length es
    → c.incoming ≡ bytes
    → c.calls ≡ es
    → c.can_create name ≡ true
    → ((t : Conn) → t.disk name ≡ some bytes → Returns P (tail t))
    → Returns P ((do create_file name; (λ c. file_loop (length bytes) name c.calls c); tail) c)
filed P tail name bytes es c a l i e can k =
    Returns-bind (λ _ t. (t.disk name ≡ some []) × (t.incoming ≡ bytes) × (t.calls ≡ es)) P
      (create_file name) _ c (created name bytes es c i e can)
      λ _ t (d, i, e).
        Returns-bind (λ _. Holds name bytes) P (λ c. file_loop (length bytes) name c.calls c) _ t
          (subst (λ q. Returns (λ _. Holds name bytes) (file_loop (length bytes) name q t)) (sym e)
            (Returns-mono (λ _. Holds name ([] ++ take (length bytes) t.incoming)) _
              (file_loop (length bytes) name es t)
              (file_loop-Holds es (length bytes) name [] t a l (omega (arith, ap length i)) d)
              λ _ u q.
                q
                ∙ ap some
                    (ap (take (length bytes)) i ∙ take_all (length bytes) bytes (omega arith))))
          λ _ u h. k u h

-- An upload to the server of build 1. The announcement comes in one piece: a name field of 260 bytes, and a
-- size below 2^31. However the stream cuts the file behind it, with bytes there at each call of `recv` and
-- enough calls, `GetFileFromClient` returns; the file, which can be created, holds exactly its bytes.
pub get_file_from_client-Stored :
    (beyond : Memory) (name_field bytes : List ℕ) (n : ℕ) (es : List Call) (c : Conn)
    → length name_field ≡ 260
    → length bytes < 0x8000_0000
    → c.incoming ≡ info_bytes name_field (length bytes) ++ bytes
    → c.calls ≡ ready (263 + n) ∷ es
    → AllReady es
    → length bytes ≤ length es
    → c.can_create (c_string name_field) ≡ true
    → Returns
        (λ _ t. (t.disk (c_string name_field) ≡ some bytes) × (t.is_open ≡ false))
        (get_file_from_client beyond c)
unfolding get_file_from_client close modify
get_file_from_client-Stored beyond name_field bytes n es c l s i e a enough can =
    let info = info_bytes name_field (length bytes) in
    Returns-bind (Took info bytes es c) _ (recv 264) _ c
      (recv-Took 264 (263 + n) info bytes es c (length-info_bytes name_field (length bytes) l)
        (omega arith) i e)
      λ got t (g, i', e', f, b).
        rw
          (
            g,
            info_name-info_bytes name_field (length bytes) beyond l,
            info_size-info_bytes name_field (length bytes) beyond l (omega (arith, s)),
            lt→ltb (length bytes) 0x8000_0000 s,
          )
          (filed (λ _ t. (t.disk (c_string name_field) ≡ some bytes) × (t.is_open ≡ false)) close
            (c_string name_field) bytes es t a enough i' e'
            (ap (λ f. f (c_string name_field)) f ∙ can) λ u h. (h, refl))
