-- ===== src/TcpThread/Download.antt =====
-- What `PutFileToClient` of build 1 sends for a file.
use file_transfer_program.Base.{
  ℕ, zero, suc, ◌-◌, ◌%◌, ◌<◌, ◌≡◌, ◌≢◌, ◌⊎◌, inl, inr, refl, sym, ap, ◌∙◌, false, List, [], ◌∷◌,
  ◌++◌, length, take, drop, ltb, ltb-true, Bool-cases, ne→==, length-drop, take-drop, take_all,
  append_assoc, append-nil, subst, arith,
}
use file_transfer_program.Run.{Returns, Returns-mono, Returns-bind, when, modify}
use file_transfer_program.TcpThread.{chunk_length, Conn, send, send_loop}

-- The stream of these messages.
abbrev pub join : List (List ℕ) → List ℕ
join [] = []
join (bytes ∷ out) = bytes ++ join out

-- Messages have gone out that make up the bytes.
abbrev pub Streamed : List ℕ → Conn → Conn → Type 0
Streamed bytes c t =
    (out : List (List ℕ)) × (t.sent ≡ c.sent ++ out) × (join out ≡ bytes) × (t.send_fails ≡ false)

-- A size that leaves no whole buffer for the last message.
abbrev pub Fits : ℕ → Type 0
Fits n = (n ≡ 0) ⊎ (n % 128 ≢ 0)

Fits-less : (n : ℕ) → Fits n → 128 < n → Fits (n - 128)
Fits-less n (inl z) l = absurd (omega arith)
Fits-less n (inr f) l = inr λ z. f (omega arith)

Fits-ne : (n : ℕ) → Fits n → n ≢ 128
Fits-ne n (inl z) e = absurd (omega arith)
Fits-ne n (inr f) e = f (omega arith)

send-Streamed :
    (bytes : List ℕ) (c : Conn)
    → c.send_fails ≡ false
    → Returns (λ _. Streamed bytes c) (send bytes c)
unfolding send modify
send-Streamed bytes c f = rw f (bytes ∷ [], refl, append-nil bytes, refl)

join-append : (out more : List (List ℕ)) → join (out ++ more) ≡ join out ++ join more
join-append [] more = refl
join-append (b ∷ out) more =
    ap (λ r. b ++ r) (join-append out more) ∙ sym (append_assoc b (join out) (join more))

Streamed-append :
    (a b : List ℕ) (c t u : Conn) → Streamed a c t → Streamed b t u → Streamed (a ++ b) c u
Streamed-append a b c t u (out, s, j, f) (more, s', j', f') = (
  out ++ more,
  s' ∙ ap (λ d. d ++ more) s ∙ append_assoc c.sent out more,
  join-append out more ∙ ap (λ r. r ++ join more) j ∙ ap (λ r. a ++ r) j',
  f',
)

-- When `send` works, the loop of `PutFileToClient` of build 1 returns for a file whose size is 0 or no
-- multiple of 128, and the messages that it has sent make up exactly the bytes of the file.
pub send_loop-Streamed :
    (fuel : ℕ) (bytes : List ℕ) (c : Conn)
    → length bytes < fuel
    → Fits (length bytes)
    → c.send_fails ≡ false
    → Returns (λ _. Streamed bytes c) (send_loop fuel bytes c)
unfolding send_loop when
send_loop-Streamed zero bytes c l f s = absurd (omega arith)
send_loop-Streamed (suc fuel) bytes c l f s = elim (Bool-cases (ltb chunk_length (length bytes))) [
  | inl e ↦
      let left = drop chunk_length bytes in
      let big : chunk_length < length bytes = ltb-true chunk_length (length bytes) e in
      let len : length left ≡ length bytes - 128 = length-drop 128 bytes in
      rw (send_loop, e)
        (Returns-bind (λ _. Streamed (take chunk_length bytes) c) _ (send (take chunk_length bytes))
          _ c (send-Streamed (take chunk_length bytes) c s)
          λ _ t w.
            Returns-mono (λ _. Streamed left t) _ (send_loop fuel left t)
              (send_loop-Streamed fuel left t (omega arith)
                (subst Fits (sym len) (Fits-less (length bytes) f big)) w.3)
              λ _ u v.
                subst (λ b. Streamed b c u)
                  (ap (λ b. take chunk_length bytes ++ b)
                      (sym (take_all (length left) left (omega arith)))
                    ∙ take-drop chunk_length (length left) (length bytes) bytes (omega arith)
                    ∙ take_all (length bytes) bytes (omega arith))
                  (Streamed-append (take chunk_length bytes) left c t u w v))
  | inr e ↦
      rw (send_loop, e, ne→== (length bytes) 128 (Fits-ne (length bytes) f))
        (Returns-bind (λ _. Streamed bytes c) _ (send bytes) _ c (send-Streamed bytes c s)
          λ _ t w. w)
]
