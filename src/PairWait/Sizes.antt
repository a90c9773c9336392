-- ===== src/PairWait/Sizes.antt =====
-- The announcement with two sizes.
use file_transfer_program.Base.{ℕ, ◌≤◌, ◌≡◌, ◌∙◌, refl, ap, List, ◌∷◌, ◌++◌, append_assoc}
use file_transfer_program.StopWait.Transfer.{info_text, read_info}
use file_transfer_program.Text.{to_string, atoi}
use file_transfer_program.Text.Print.{atoi-append}
use file_transfer_program.Text.Strings.{Avoids, before-append, after-append}

read_info-append :
    (name rest : List ℕ) → Avoids b',' name → read_info (name ++ b',' ∷ rest) ≡ (name, atoi rest)
unfolding read_info
read_info-append name rest a =
    rw (read_info, after-append b',' name rest a, before-append b',' name rest a) refl

-- The second announcement of `PutFileToServer` holds the size twice where no new name is asked for. Name and size
-- are read back from it all the same, for a name without a comma and a size that fits an `int`.
pub read_info-twice :
    (name : List ℕ) (size : ℕ)
    → Avoids b',' name
    → size ≤ 0x7fff_ffff
    → read_info (info_text (info_text name size) size) ≡ (name, size)
unfolding info_text
read_info-twice name size a l =
    ap read_info (append_assoc name (b',' ∷ to_string size) (b',' ∷ to_string size))
    ∙ read_info-append name (to_string size ++ b',' ∷ to_string size) a
    ∙ ap (λ n. (name, n)) (atoi-append size b',' (to_string size) refl l)
