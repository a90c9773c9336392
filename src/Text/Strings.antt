-- ===== src/Text/Strings.antt =====
-- C strings in buffers, and the parts of a text at a character.
use file_transfer_program.Base.{
  ℕ, zero, suc, List, [], ◌∷◌, ◌++◌, ◌≡◌, ◌≢◌, ◌<◌, refl, ap, arith, length, first, drop, some,
  ne→==, ◌+◌, ◌/◌, ◌%◌, ltb, Bool-cases, inl, inr,
}
use file_transfer_program.Protocol.Codec.{Memory, memory_of}
use file_transfer_program.Text.{digits, to_string, c_string, before, after}

-- No byte of the text is `c`.
abbrev pub Avoids : ℕ → List ℕ → Type 0
Avoids c [] = Unit
Avoids c (b ∷ bs) = (b ≢ c) × Avoids c bs

pub Avoids-append : (c : ℕ) (s t : List ℕ) → Avoids c s → Avoids c t → Avoids c (s ++ t)
Avoids-append c [] t h k = k
Avoids-append c (b ∷ s) t (ne, h) k = (ne, Avoids-append c s t h k)

pub Avoids-drop : (c n : ℕ) (bs : List ℕ) → Avoids c bs → Avoids c (drop n bs)
Avoids-drop c zero bs h = h
Avoids-drop c (suc n) [] h = tt
Avoids-drop c (suc n) (b ∷ bs) h = Avoids-drop c n bs h.1

-- A text with its zero in a buffer of `n` bytes is read back, whatever lies behind it.
pub c_string-first :
    (n : ℕ) (s : List ℕ) (rest : Memory)
    → Avoids 0 s
    → length s < n
    → c_string (first n (memory_of (s ++ 0 ∷ []) rest)) ≡ s
unfolding c_string first memory_of
c_string-first zero s rest h l = absurd (omega arith)
c_string-first (suc n) [] rest h l = refl
c_string-first (suc n) (b ∷ s) rest (ne, h) l =
    rw (ne→== b 0 ne) (ap (λ r. b ∷ r) (c_string-first n s rest h (omega arith)))

-- A text that fills the bytes that are read is read as it is.
pub c_string-whole :
    (s : List ℕ) (rest : Memory) → Avoids 0 s → c_string (first (length s) (memory_of s rest)) ≡ s
unfolding c_string first memory_of
c_string-whole [] rest h = refl
c_string-whole (b ∷ s) rest (ne, h) = rw (ne→== b 0 ne) (ap (λ r. b ∷ r) (c_string-whole s rest h))

pub before-append : (c : ℕ) (s t : List ℕ) → Avoids c s → before c (s ++ c ∷ t) ≡ s
unfolding before
before-append c [] t h = ground arith
before-append c (b ∷ s) t (ne, h) = rw (ne→== b c ne) (ap (λ r. b ∷ r) (before-append c s t h))

pub after-append : (c : ℕ) (s t : List ℕ) → Avoids c s → after c (s ++ c ∷ t) ≡ some t
unfolding after
after-append c [] t h = ground arith
after-append c (b ∷ s) t (ne, h) = rw (ne→== b c ne) (after-append c s t h)

digits-Avoids :
    (c fuel n : ℕ) (out : List ℕ) → c < b'0' → Avoids c out → Avoids c (digits fuel n out)
unfolding digits
digits-Avoids c zero n out l h = h
digits-Avoids c (suc fuel) n out l h = elim (Bool-cases (ltb n 10)) [
  | inl e ↦ rw e (omega arith, h)
  | inr e ↦ rw e (digits-Avoids c fuel (n / 10) ((b'0' + n % 10) ∷ out) l (omega arith, h))
]

pub to_string-Avoids : (c n : ℕ) → c < b'0' → Avoids c (to_string n)
unfolding to_string
to_string-Avoids c n l = digits-Avoids c (suc n) n [] l tt
