-- ===== src/StopWait/Handshake.antt =====
-- `threeWayHandShake` of the client of build 2, which nothing calls: each side draws a number and tells
-- the other one, and the parities are to be the first packet numbers. That of the server writes 512 bytes
-- into a buffer of 260 before it sends anything, and is left out.
use file_transfer_program.Base.{
  ℕ, zero, suc, ◌%◌, ◌<◌, ◌≡◌, ◌≤◌, refl, sym, subst, ap, ◌∙◌, false, List, [], ◌∷◌, ◌++◌, length,
  take, replicate, min, leb, ◌==◌, if◌then◌else◌, arith,
}
use file_transfer_program.Run
use file_transfer_program.Run.{
  Ran, done, stuck, crashed, Returns, Returns-bind, ◌>>=◌, ◌>>◌, modify, gets,
}
use file_transfer_program.Text.{c_string, to_string, value, skip_space, atoi}
use file_transfer_program.Text.Print.{Leads, to_string-Leads, atoi-to_string}

-- What `select` and `recvfrom` give: a timeout, an error of either, or a message.
pub data Hearing : Type 0 where
  silence poll_error hear_error : Hearing
  heard : List ℕ → Hearing

-- The members that the handshake sets, the messages to come, and those sent.
pub record Party : Type 0 where
  pub client_start_seq : ℕ
  pub server_start_seq : ℕ
  pub send_seq : ℕ
  pub next_rec_seq : ℕ
  pub hearings : List Hearing
  pub said : List (List ℕ)

abbrev M : Type 0 → Type 0
M A = Run.M Party A

-- `szbuffer`
abbrev pub size : ℕ
size = 256

unfoldable pub say : List ℕ → Party → Party
say text s = record s { said = s.said ++ text ∷ [] }

-- `atoi(...) % 2`, as the pattern of an `int`: -1 for a negative odd number.
unfoldable pub parity : List ℕ → ℕ
parity [] = 0
parity (c ∷ s) =
    if c == b'-'
    then (if min (value s 0) 0x8000_0000 % 2 == 0 then 0 else 0xffff_ffff)
    else atoi (c ∷ s) % 2

-- The text in `szbuffer`; one that fills it is read beyond its end.
unfoldable pub text_of : List ℕ → M (List ℕ)
text_of message s =
    let text = c_string (take size message) in
    if leb size (length text) then crashed else done text s

-- The client says its number until something comes.
unfoldable pub client_wait : List ℕ → List Hearing → M (List ℕ)
client_wait text [] s = stuck (record s { hearings = [] })
client_wait text (silence ∷ es) s = client_wait text es (say text (record s { hearings = es }))
client_wait text (poll_error ∷ es) s = client_wait text es (record s { hearings = es })
client_wait text (hear_error ∷ es) s = done [] (record s { hearings = es })
client_wait text (heard message ∷ es) s = text_of message (record s { hearings = es })

-- The loop at the end goes round once, since `success` is true from the start.
unfoldable pub client_confirm : List ℕ → List Hearing → M (Unit {0})
client_confirm text [] s = stuck (record s { hearings = [] })
client_confirm text (silence ∷ es) s = done tt (record s { hearings = es })
client_confirm text (poll_error ∷ es) s = done tt (record s { hearings = es })
client_confirm text (hear_error ∷ es) s = done tt (say text (record s { hearings = es }))
client_confirm text (heard message ∷ es) s = done tt (say text (record s { hearings = es }))

-- `random` is `rand() % 256`.
unfoldable pub client_handshake : ℕ → M (Unit {0})
client_handshake random = do
  modify (say (to_string random))
  server_num ← (λ s. client_wait (to_string random) s.hearings s)
  modify (say server_num)
  (λ s. client_confirm server_num s.hearings s)
  modify (λ s. record s {
    server_start_seq = parity (skip_space server_num);
    client_start_seq = parity (skip_space (to_string random));
    send_seq = parity (skip_space (to_string random));
    next_rec_seq = parity (skip_space server_num);
  })

parity-Leads : (s : List ℕ) → Leads s → parity (skip_space s) ≡ atoi s % 2
unfolding parity skip_space
parity-Leads [] h = absurd h
parity-Leads (c ∷ s) h = ground arith

parity-to_string : (n : ℕ) → n ≤ 0x7fff_ffff → parity (skip_space (to_string n)) ≡ n % 2
parity-to_string n l =
    parity-Leads (to_string n) (to_string-Leads n) ∙ ap (λ m. m % 2) (atoi-to_string n l)

client_wait-heard :
    (k : ℕ) (text message answer : List ℕ) (rest : List Hearing) (s : Party)
    → c_string (take size message) ≡ answer
    → length answer < size
    → Returns
        (λ a t. (a ≡ answer) × (t.hearings ≡ rest))
        (client_wait text (replicate k silence ++ heard message ∷ rest) s)
unfolding client_wait text_of
client_wait-heard zero text message answer rest s e l =
    let short : leb size (length answer) ≡ false = ground (arith, l) in rw (e, short) (refl, refl)
client_wait-heard (suc k) text message answer rest s e l =
    client_wait-heard k text message answer rest _ e l

client_confirm-Returns :
    (text : List ℕ) (e : Hearing) (es : List Hearing) (s : Party)
    → Returns (λ _ _. Unit {0}) (client_confirm text (e ∷ es) s)
unfolding client_confirm
client_confirm-Returns text silence es s = tt
client_confirm-Returns text poll_error es s = tt
client_confirm-Returns text hear_error es s = tt
client_confirm-Returns text (heard message) es s = tt

-- When the server's number comes after `k` timeouts, and anything at all after it, the handshake of the
-- client of build 2 returns; its packets start with the parity of its own number, and it awaits packets
-- that start with the parity of the server's.
pub client_handshake-Agreed :
    (k random number : ℕ) (message : List ℕ) (e : Hearing) (es : List Hearing) (s : Party)
    → random < 256
    → number < 256
    → s.hearings ≡ replicate k silence ++ heard message ∷ e ∷ es
    → c_string (take size message) ≡ to_string number
    → length (to_string number) < size
    → Returns
        (λ _ t. (t.send_seq ≡ random % 2) × (t.next_rec_seq ≡ number % 2))
        (client_handshake random s)
unfolding client_handshake modify say
client_handshake-Agreed k random number message e es s r n h c l =
    Returns-bind (λ _ t. t.hearings ≡ replicate k silence ++ heard message ∷ e ∷ es) _ _ _ s h
      λ _ t h.
        Returns-bind (λ a u. (a ≡ to_string number) × (u.hearings ≡ e ∷ es)) _ _ _ t
          (subst
            (λ q.
              Returns (λ a u. (a ≡ to_string number) × (u.hearings ≡ e ∷ es))
                (client_wait (to_string random) q t))
            (sym h)
            (client_wait-heard k (to_string random) message (to_string number) (e ∷ es) t c l))
          λ a u (ea, hu).
            Returns-bind (λ _ v. v.hearings ≡ e ∷ es) _ _ _ u hu
              λ _ v hv.
                Returns-bind (λ _ _. Unit {0}) _ _ _ v
                  (subst (λ q. Returns (λ _ _. Unit {0}) (client_confirm a q v)) (sym hv)
                    (client_confirm-Returns a e es v))
                  λ _ w _. (
                    parity-to_string random (omega arith),
                    ap (λ b. parity (skip_space b)) ea ∙ parity-to_string number (omega arith),
                  )
