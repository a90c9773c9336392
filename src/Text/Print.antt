-- ===== src/Text/Print.antt =====
-- A number is read back from its print.
use file_transfer_program.Base.{
  ℕ, zero, suc, ◌+◌, ◌/◌, ◌%◌, ◌≤◌, ◌<◌, ◌≡◌, ◌*◌, ◌-◌, refl, ap, true, false, List, [], ◌∷◌, ◌++◌,
  if◌then◌else◌, arith, ltb, Bool-cases, inl, inr,
}
use file_transfer_program.Text.{digits, to_string, value, atoi, skip_space, signed, is_digit}

value-digits : (fuel n : ℕ) (out : List ℕ) → n < fuel → value (digits fuel n out) 0 ≡ value out n
unfolding digits value
value-digits zero n out l = absurd (omega arith)
value-digits (suc fuel) n out l = ground (arith, value-digits fuel (n / 10) ((b'0' + n % 10) ∷ out))

-- The first byte of a print is a digit, whatever follows the print.
abbrev pub Leads : List ℕ → Type 0
Leads [] = ⊥
Leads (c ∷ s) = is_digit c ≡ true

digits-Leads : (fuel n : ℕ) (out : List ℕ) → n < fuel → Leads (digits fuel n out)
unfolding digits
digits-Leads zero n out l = absurd (omega arith)
digits-Leads (suc fuel) n out l = elim (Bool-cases (ltb n 10)) [
  | inl e ↦ rw e (ground arith)
  | inr e ↦ rw e (digits-Leads fuel (n / 10) ((b'0' + n % 10) ∷ out) (ground arith))
]

signed-Leads : (s : List ℕ) → Leads s → signed (skip_space s) ≡ value s 0
unfolding signed skip_space
signed-Leads [] h = absurd h
signed-Leads (c ∷ s) h = ground arith

pub to_string-Leads : (n : ℕ) → Leads (to_string n)
unfolding to_string
to_string-Leads n = digits-Leads (suc n) n [] (omega arith)

value-to_string : (n : ℕ) → value (to_string n) 0 ≡ n
unfolding to_string value
value-to_string n = value-digits (suc n) n [] (omega arith)

-- `atoi` gives back the number that `to_string` has printed, if it fits an `int`.
pub atoi-to_string : (n : ℕ) → n ≤ 0x7fff_ffff → atoi (to_string n) ≡ n
unfolding atoi
atoi-to_string n l =
    omega (arith, signed-Leads (to_string n) (to_string-Leads n), value-to_string n)

value-append :
    (s rest : List ℕ) (c n : ℕ) → is_digit c ≡ false → value (s ++ c ∷ rest) n ≡ value s n
unfolding value
value-append [] rest c n e = rw e refl
value-append (d ∷ s) rest c n e =
    ap (λ m. if is_digit d then m else n) (value-append s rest c (n * 10 + (d - b'0')) e)

append-Leads : (s t : List ℕ) → Leads s → Leads (s ++ t)
append-Leads [] t h = absurd h
append-Leads (c ∷ s) t h = h

-- So it does when something else follows the number.
pub atoi-append :
    (n c : ℕ) (rest : List ℕ)
    → is_digit c ≡ false
    → n ≤ 0x7fff_ffff
    → atoi (to_string n ++ c ∷ rest) ≡ n
unfolding atoi
atoi-append n c rest e l = omega (
  arith,
  signed-Leads (to_string n ++ c ∷ rest)
      (append-Leads (to_string n) (c ∷ rest) (to_string-Leads n)),
  value-append (to_string n) rest c 0 e,
  value-to_string n,
  l,
)
