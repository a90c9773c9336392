-- ===== src/Chunks.antt =====
-- A file cut into chunks of `size` bytes, as every one of the programs sends it.
use file_transfer_program.Base.{
  ℕ, zero, suc, ◌-◌, ◌≤◌, ◌<◌, ◌≡◌, List, [], ◌∷◌, ◌++◌, length, take, drop, min, first, get_or,
  length-drop, arith, refl, ap,
}

take-first :
    (n m k : ℕ) (bs : List ℕ)
    → n ≤ m
    → n ≤ k
    → n ≤ length bs
    → take n (first m (λ j. get_or (take k bs) j 0)) ≡ take n bs
unfolding first
take-first zero m k bs a b c = refl
take-first (suc n) zero k bs a b c = absurd (omega arith)
take-first (suc n) (suc m) zero bs a b c = absurd (omega arith)
take-first (suc n) (suc m) (suc k) [] a b c = absurd (omega arith)
take-first (suc n) (suc m) (suc k) (x ∷ bs) a b c =
    ap (λ r. x ∷ r) (take-first n m k bs (omega arith) (omega arith) (omega arith))

take-min : (n : ℕ) (bs : List ℕ) → take (min (length bs) n) bs ++ drop n bs ≡ bs
take-min zero bs = let z : min (length bs) 0 ≡ 0 = omega arith in rw z refl
take-min (suc n) [] = let z : min 0 (suc n) ≡ 0 = omega arith in rw z refl
take-min (suc n) (x ∷ bs) =
    let z : min (suc (length bs)) (suc n) ≡ suc (min (length bs) n) = omega arith in
    rw z (ap (λ r. x ∷ r) (take-min n bs))

nil_of_length : (bs : List ℕ) → 0 ≡ length bs → [] ≡ bs
nil_of_length [] e = refl
nil_of_length (x ∷ bs) e = absurd (omega arith)

module _ (size : ℕ) where
  -- The first `left` bytes that the frames from `next` on carry, `size` to a frame.
  unfoldable pub gather : (ℕ → List ℕ) → ℕ → ℕ → ℕ → List ℕ
  gather payload zero next left = []
  gather payload (suc fuel) next zero = []
  gather payload (suc fuel) next (suc left) =
      take (min (suc left) size) (payload next) ++ gather payload fuel (suc next) (suc left - size)

  -- The first `count` frames from `next` on start with the chunks of a file.
  abbrev pub Carries : (ℕ → List ℕ) → ℕ → ℕ → List ℕ → Type 0
  Carries payload zero next bytes = Unit
  Carries payload (suc count) next bytes =
      (take (min (length bytes) size) (payload next) ≡ take (min (length bytes) size) bytes)
      × Carries payload count (suc next) (drop size bytes)

  pub gather-Carries :
      (payload : ℕ → List ℕ) (fuel next left : ℕ) (bytes : List ℕ)
      → 0 < size
      → left ≤ fuel
      → left ≡ length bytes
      → Carries payload fuel next bytes
      → gather payload fuel next left ≡ bytes
  unfolding gather
  gather-Carries payload zero next zero bytes p l e c = nil_of_length bytes e
  gather-Carries payload zero next (suc left) bytes p l e c = absurd (omega arith)
  gather-Carries payload (suc fuel) next zero bytes p l e c = nil_of_length bytes e
  gather-Carries payload (suc fuel) next (suc left) bytes p l e (c, cs) =
      let tail : gather payload fuel (suc next) (suc left - size) ≡ drop size bytes =
        gather-Carries payload fuel (suc next) (suc left - size) (drop size bytes) p (omega arith)
          (omega (arith, length-drop size bytes, e)) cs in
      rw (tail, e, c) (take-min size bytes)

  -- What is left of a file after `i` whole buffers.
  abbrev pub rest_of : ℕ → List ℕ → List ℕ
  rest_of zero bytes = bytes
  rest_of (suc i) bytes = drop size (rest_of i bytes)

  -- The data field of frame `i`: what `fread` gives, and zeros.
  abbrev pub chunk : List ℕ → ℕ → List ℕ
  chunk bytes i = first size (λ j. get_or (take size (rest_of i bytes)) j 0)

  pub chunk-Carries :
      (bytes : List ℕ) (count i : ℕ) → Carries (chunk bytes) count i (rest_of i bytes)
  chunk-Carries bytes zero i = tt
  chunk-Carries bytes (suc count) i = (
    take-first (min (length (rest_of i bytes)) size) size size (rest_of i bytes) (omega arith)
        (omega arith) (omega arith),
    chunk-Carries bytes count (suc i),
  )
