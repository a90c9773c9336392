-- ===== src/Sock/Window/Arrays.antt =====
-- The loops over the window's arrays: what the search finds, and where the move puts each element.
use file_transfer_program.Base.{
  ℕ, zero, suc, ◌+◌, ◌≤◌, ◌<◌, ◌≡◌, ◌≢◌, ◌&&◌, none, some, arith, ◌==◌, ltb, leb, if◌then◌else◌,
  refl, Bool-cases, inl, inr,
}
use file_transfer_program.Protocol.{Packet}
use file_transfer_program.Sock.Window.{find_seq, move_left, update}

-- The move takes element `i + k` to place `k` in the places that it fills, and changes no other.
pub move_left_lem {ℓ} :
    {A : Type ℓ} (n j i : ℕ) (a : ℕ → A) (k : ℕ)
    → move_left n j i a k ≡ (if leb j k && ltb k (j + n) then a (i + k) else a k)
unfolding move_left
move_left_lem zero j i a k = ground arith
move_left_lem (suc n) j i a k = ground (arith, move_left_lem n (suc j) i (update a j (a (i + j))) k)

-- The first slot with the number, and no other before it.
pub find_seq-some :
    (win : ℕ → Packet) (r n i k : ℕ)
    → find_seq win r n i ≡ some k
    → (i ≤ k) × (k < i + n) × ((win k).seq ≡ r)
unfolding find_seq
find_seq-some win r zero i k h = ground arith
find_seq-some win r (suc n) i k h = ground (arith, find_seq-some win r n (suc i) k)

-- A number that no slot before `k` has, and slot `k` has, is found there.
pub find_seq_at :
    (win : ℕ → Packet) (r n i k : ℕ)
    → i ≤ k
    → k < i + n
    → (win k).seq ≡ r
    → ((m : ℕ) → i ≤ m → m < k → (win m).seq ≢ r)
    → find_seq win r n i ≡ some k
unfolding find_seq
find_seq_at win r zero i k l u e d = absurd (omega arith)
find_seq_at win r (suc n) i k l u e d = elim (Bool-cases (i == k)) [
  | inl same ↦ ground arith
  | inr other ↦ ground (
    arith,
    d i,
    find_seq_at win r n (suc i) k (ground arith) (omega arith) e (λ m p q. d m (omega arith) q),
  )
]

-- No slot has the number.
pub find_seq-none :
    (win : ℕ → Packet) (r n i m : ℕ)
    → find_seq win r n i ≡ none
    → i ≤ m
    → m < i + n
    → (win m).seq ≢ r
unfolding find_seq
find_seq-none win r zero i m h l u = absurd (omega arith)
find_seq-none win r (suc n) i m h l u = elim (Bool-cases (i == m)) [
  | inl same ↦ ground arith
  | inr other ↦ find_seq-none win r n (suc i) m (ground arith) (ground arith) (omega arith)
]

pub find_seq_absent :
    (win : ℕ → Packet) (r n i : ℕ)
    → ((m : ℕ) → i ≤ m → m < i + n → (win m).seq ≢ r)
    → find_seq win r n i ≡ none
unfolding find_seq
find_seq_absent win r zero i d = refl
find_seq_absent win r (suc n) i d = ground (
  arith,
  d i (omega arith) (omega arith),
  find_seq_absent win r n (suc i) (λ m p q. d m (omega arith) (omega arith)),
)
