-- ===== src/Text.antt =====
-- Texts as the C and C++ library functions read and print them: C strings, `to_string`, `atoi`,
-- `find_first_of`.
pub mod Print
pub mod Strings
use file_transfer_program.Base.{
  ℕ, zero, suc, ◌+◌, ◌-◌, ◌*◌, ◌/◌, ◌%◌, min, Bool, ◌&&◌, ◌||◌, Option, none, some, List, [], ◌∷◌,
  ◌++◌, length, first, ltb, leb, ◌==◌, if◌then◌else◌,
}

-- The text in a `char` array ends at its first zero.
unfoldable pub c_string : List ℕ → List ℕ
c_string [] = []
c_string (b ∷ bs) = if b == 0 then [] else b ∷ c_string bs

unfoldable pub digits : ℕ → ℕ → List ℕ → List ℕ
digits zero n out = out
digits (suc fuel) n out =
    let rest = digits fuel (n / 10) ((b'0' + n % 10) ∷ out) in
    if ltb n 10 then (b'0' + n) ∷ out else rest

-- `to_string` of a number that is not negative; each round divides by ten, so the fuel is enough.
unfoldable pub to_string : ℕ → List ℕ
unfolding digits
to_string n = digits (suc n) n []

-- An `int` printed from its 32-bit pattern.
unfoldable pub int_string : ℕ → List ℕ
int_string x = if ltb x 0x8000_0000 then to_string x else b'-' ∷ to_string (0x1_0000_0000 - x)

abbrev pub is_digit : ℕ → Bool
is_digit c = leb b'0' c && leb c b'9'

-- The number that leading digits spell behind `n`.
unfoldable pub value : List ℕ → ℕ → ℕ
value [] n = n
value (c ∷ s) n = let rest = value s (n * 10 + (c - b'0')) in if is_digit c then rest else n

abbrev is_space : ℕ → Bool
is_space c = c == 32 || (leb 9 c && leb c 13)

unfoldable pub skip_space : List ℕ → List ℕ
skip_space [] = []
skip_space (c ∷ s) = if is_space c then skip_space s else c ∷ s

-- A negative number counts as 0: the programs only count it down while it is positive.
signed : List ℕ → ℕ
unfolding value
signed [] = 0
signed (c ∷ s) = if c == b'-' then 0 else if c == b'+' then value s 0 else value (c ∷ s) 0

-- `atoi`, which stops at INT_MAX.
unfoldable pub atoi : List ℕ → ℕ
unfolding signed skip_space
atoi s = min (signed (skip_space s)) 0x7fff_ffff

-- What stands before the first `c`, or the whole text.
unfoldable pub before : ℕ → List ℕ → List ℕ
before c [] = []
before c (b ∷ bs) = if b == c then [] else b ∷ before c bs

-- What stands behind the first `c`.
unfoldable pub after : ℕ → List ℕ → Option (List ℕ)
after c [] = none
after c (b ∷ bs) = if b == c then some bs else after c bs
