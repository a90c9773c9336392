-- ===== src/Run/Leaves.antt =====
-- What a call leaves if it returns, and what it keeps.
use file_transfer_program.Base.{◌≡◌, refl, Bool, true, false, Option, none, some, if◌then◌else◌}
use file_transfer_program.Run.{
  Ran, done, stuck, crashed, out_of_fuel, M, pure, gets, modify, crash, when, ◌>>=◌, Returns,
}

-- If the call returns, `P` holds of its result and of the state it leaves.
abbrev pub Leaves : {S A : Type 0} → (A → S → Type 0) → Ran S A → Type 0
Leaves P (done a t) = P a t
Leaves P (stuck t) = Unit
Leaves P crashed = Unit
Leaves P out_of_fuel = Unit

pub Leaves-bind :
    {S A B : Type 0} (P : A → S → Type 0) (P' : B → S → Type 0) (m : M S A) (f : A → M S B) (s : S)
    → Leaves P (m s)
    → ((a : A) (t : S) → P a t → Leaves P' (f a t))
    → Leaves P' ((m >>= f) s)
unfolding ◌>>=◌
Leaves-bind {S} {A} {B} P P' m f s h k = go (m s) h
  where
    go :
        (o : Ran S A)
        → Leaves P o
        → Leaves P' (elim o [
          | done a t ↦ f a t
          | stuck t ↦ stuck t
          | crashed ↦ crashed
          | out_of_fuel ↦ out_of_fuel
        ])
    go (done a t) h = k a t h
    go (stuck t) h = tt
    go crashed h = tt
    go out_of_fuel h = tt

-- What runs where `m` leaves `P`, and never returns there.
pub Leaves-never :
    {S A B : Type 0} (P : A → S → Type 0) (m : M S A) (f : A → M S B) (s : S)
    → Leaves P (m s)
    → ((a : A) (t : S) → P a t → ¬ Returns (λ _ _. Unit {0}) (f a t))
    → ¬ Returns (λ _ _. Unit {0}) ((m >>= f) s)
unfolding ◌>>=◌
Leaves-never {S} {A} {B} P m f s h k = go (m s) h
  where
    go :
        (o : Ran S A)
        → Leaves P o
        → ¬ Returns
            (λ _ _. Unit {0})
            (elim o as (λ _. Ran S B) [
              | done a t ↦ f a t
              | stuck t ↦ stuck t
              | crashed ↦ crashed
              | out_of_fuel ↦ out_of_fuel
            ])
    go (done a t) h r = k a t h r
    go (stuck t) h r = r
    go crashed h r = r
    go out_of_fuel h r = r

-- No bound of a loop of the model is met; `P` holds if the call returns, and `I` holds of the state in which it
-- waits for ever. Of a run that C++ leaves undefined nothing is said.
abbrev pub Through : {S A : Type 0} → (A → S → Type 0) → (S → Type 0) → Ran S A → Type 0
Through P I (done a t) = P a t
Through P I (stuck t) = I t
Through P I crashed = Unit
Through P I out_of_fuel = ⊥

pub Through-mono :
    {S A : Type 0} (P P' : A → S → Type 0) (I I' : S → Type 0) (o : Ran S A)
    → Through P I o
    → ((a : A) (t : S) → P a t → P' a t)
    → ((t : S) → I t → I' t)
    → Through P' I' o
Through-mono P P' I I' (done a t) h f g = f a t h
Through-mono P P' I I' (stuck t) h f g = g t h
Through-mono P P' I I' crashed h f g = tt
Through-mono P P' I I' out_of_fuel h f g = h

pub Through-Leaves :
    {S A : Type 0} (P : A → S → Type 0) (I : S → Type 0) (o : Ran S A) → Through P I o → Leaves P o
Through-Leaves P I (done a t) h = h
Through-Leaves P I (stuck t) h = tt
Through-Leaves P I crashed h = tt
Through-Leaves P I out_of_fuel h = tt

pub Through-bind :
    {S A B : Type 0} (P : A → S → Type 0) (P' : B → S → Type 0) (I : S → Type 0) (m : M S A)
    (f : A → M S B) (s : S)
    → Through P I (m s)
    → ((a : A) (t : S) → P a t → Through P' I (f a t))
    → Through P' I ((m >>= f) s)
unfolding ◌>>=◌
Through-bind {S} {A} {B} P P' I m f s h k = go (m s) h
  where
    go :
        (o : Ran S A)
        → Through P I o
        → Through P' I (elim o [
          | done a t ↦ f a t
          | stuck t ↦ stuck t
          | crashed ↦ crashed
          | out_of_fuel ↦ out_of_fuel
        ])
    go (done a t) h = k a t h
    go (stuck t) h = h
    go crashed h = tt
    go out_of_fuel h = h

pub Through-if :
    {S A : Type 0} (P : A → S → Type 0) (I : S → Type 0) (b : Bool) (x y : Ran S A)
    → (b ≡ true → Through P I x)
    → (b ≡ false → Through P I y)
    → Through P I (if b then x else y)
Through-if P I true x y h k = h refl
Through-if P I false x y h k = k refl

pub Through-elim :
    {S A : Type 0} (P : A → S → Type 0) (I : S → Type 0) (b : Bool) (m m' : M S A) (s : S)
    → Through P I (m s)
    → Through P I (m' s)
    → Through P I ((elim b as (λ _. M S A) [ true ↦ m | false ↦ m' ]) s)
Through-elim P I true m m' s h k = h
Through-elim P I false m m' s h k = k

-- A call that returns or waits keeps `I`.
abbrev pub Keeps : {S A : Type 0} → (S → Type 0) → M S A → Type 0
Keeps {S} I m = (s : S) → I s → Through (λ _. I) I (m s)

module _ {S : Type 0} (I : S → Type 0) where
  pub Keeps-bind :
      {A B : Type 0} (m : M S A) (f : A → M S B)
      → Keeps I m
      → ((a : A) → Keeps I (f a))
      → Keeps I (m >>= f)
  Keeps-bind m f k g s i = Through-bind (λ _. I) (λ _. I) I m f s (k s i) g

  pub Keeps-pure : {A : Type 0} (a : A) → Keeps I (pure a)
  unfolding pure
  Keeps-pure a s i = i

  pub Keeps-gets : {A : Type 0} (f : S → A) → Keeps I (gets f)
  unfolding gets
  Keeps-gets f s i = i

  pub Keeps-modify : (f : S → S) → ((s : S) → I s → I (f s)) → Keeps I (modify f)
  unfolding modify
  Keeps-modify f k s i = k s i

  pub Keeps-when : (b : Bool) (m : M S (Unit {0})) → Keeps I m → Keeps I (when b m)
  unfolding when
  Keeps-when true m k s i = k s i
  Keeps-when false m k s i = i

  pub Keeps-crash : (A : Type 0) → Keeps I (crash {A = A})
  unfolding crash
  Keeps-crash A s i = tt

  pub Keeps-if :
      {A : Type 0} (b : Bool) (m m' : M S A)
      → Keeps I m
      → Keeps I m'
      → Keeps I (if b then m else m')
  Keeps-if true m m' k k' = k
  Keeps-if false m m' k k' = k'

  pub Keeps-elim :
      {A : Type 0} (b : Bool) (m m' : M S A)
      → Keeps I m
      → Keeps I m'
      → Keeps I (elim b [ true ↦ m | false ↦ m' ])
  Keeps-elim true m m' k k' = k
  Keeps-elim false m m' k k' = k'

  pub Keeps-Option :
      {A B : Type 0} (o : Option A) (m : M S B) (f : A → M S B)
      → Keeps I m
      → ((a : A) → Keeps I (f a))
      → Keeps I (elim o [ none ↦ m | some a ↦ f a ])
  Keeps-Option none m f k g = k
  Keeps-Option (some a) m f k g = g a

-- The call never returns: it waits for ever, and `Q` holds of the state that it waits in.
abbrev pub Waits : {S A : Type 0} → (S → Type 0) → Ran S A → Type 0
Waits Q (done a t) = ⊥
Waits Q (stuck t) = Q t
Waits Q crashed = ⊥
Waits Q out_of_fuel = ⊥

pub Waits-after :
    {S A B : Type 0} (P : A → S → Type 0) (Q : S → Type 0) (m : M S A) (f : A → M S B) (s : S)
    → Returns P (m s)
    → ((a : A) (t : S) → P a t → Waits Q (f a t))
    → Waits Q ((m >>= f) s)
unfolding ◌>>=◌
Waits-after {S} {A} {B} P Q m f s h k = go (m s) h
  where
    go :
        (o : Ran S A)
        → Returns P o
        → Waits Q (elim o as (λ _. Ran S B) [
          | done a t ↦ f a t
          | stuck t ↦ stuck t
          | crashed ↦ crashed
          | out_of_fuel ↦ out_of_fuel
        ])
    go (done a t) h = k a t h
    go (stuck t) h = absurd h
    go crashed h = absurd h
    go out_of_fuel h = absurd h

pub Waits-first :
    {S A B : Type 0} (Q : S → Type 0) (m : M S A) (f : A → M S B) (s : S)
    → Waits Q (m s)
    → Waits Q ((m >>= f) s)
unfolding ◌>>=◌
Waits-first {S} {A} {B} Q m f s h = go (m s) h
  where
    go :
        (o : Ran S A)
        → Waits Q o
        → Waits Q (elim o as (λ _. Ran S B) [
          | done a t ↦ f a t
          | stuck t ↦ stuck t
          | crashed ↦ crashed
          | out_of_fuel ↦ out_of_fuel
        ])
    go (done a t) h = absurd h
    go (stuck t) h = h
    go crashed h = absurd h
    go out_of_fuel h = absurd h
