-- ===== src/Files.antt =====
-- File names and their contents: a disk maps a name to the bytes of its file.
use file_transfer_program.Base.{
  ℕ, ◌≡◌, refl, Bool, true, false, ◌&&◌, Option, none, some, List, [], ◌∷◌, ◌==◌, if◌then◌else◌,
  arith,
}

-- Equality of file names.
unfoldable pub same_name : List ℕ → List ℕ → Bool
same_name [] [] = true
same_name (a ∷ as') (b ∷ bs) = a == b && same_name as' bs
same_name _ _ = false

-- The files after the whole content of one has become `bytes`.
unfoldable pub write_file : List ℕ → List ℕ → (List ℕ → Option (List ℕ)) → List ℕ → Option (List ℕ)
unfolding same_name
write_file name bytes disk n = if same_name n name then some bytes else disk n

-- The files after one was deleted.
unfoldable pub remove_file : List ℕ → (List ℕ → Option (List ℕ)) → List ℕ → Option (List ℕ)
unfolding same_name
remove_file name disk n = if same_name n name then none else disk n

pub same_name_refl : (n : List ℕ) → same_name n n ≡ true
unfolding same_name
same_name_refl [] = refl
same_name_refl (a ∷ n) = ground (arith, same_name_refl n)

pub write_file_self :
    (n bytes : List ℕ) (d : List ℕ → Option (List ℕ)) → write_file n bytes d n ≡ some bytes
unfolding write_file
write_file_self n bytes d = rw (same_name_refl n)
