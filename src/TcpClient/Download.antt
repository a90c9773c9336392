-- ===== src/TcpClient/Download.antt =====
-- A download over TCP: `GetFileFromServer`, and both sides of the transfer.
use file_transfer_program.Base.{
  ℕ, ◌≤◌, ◌<◌, ◌≡◌, refl, ap, ◌∙◌, true, false, some, List, [], ◌∷◌, ◌++◌, length, arith, codes,
  first, lt→ltb, ◌+◌,
}
use file_transfer_program.Run.{Returns, Returns-mono, Returns-bind, modify, gets, when, pure, ◌>>=◌}
use file_transfer_program.TcpThread.{Call, ready, Conn, send, recv, send_loop}
use file_transfer_program.TcpThread.Download.{join, Streamed, Fits, send_loop-Streamed}
use file_transfer_program.TcpThread.Upload.{
  AllReady, info_bytes, length-info_bytes, info_name-info_bytes, info_size-info_bytes, Took,
  recv-Took, filed,
}
use file_transfer_program.TcpClient.{must_send, get_file_from_server}
use file_transfer_program.Files.{same_name_refl}
use file_transfer_program.Protocol.Codec.{Memory, memory_of}
use file_transfer_program.Text.{c_string}

sent_kept :
    (bytes : List ℕ) (c : Conn)
    → c.send_fails ≡ false
    → Returns
        (λ _ t.
          (t.incoming ≡ c.incoming)
          × (t.calls ≡ c.calls)
          × (t.can_create ≡ c.can_create)
          × (t.send_fails ≡ false))
        (send bytes c)
unfolding send modify
sent_kept bytes c f = simp f (refl, refl, refl, refl)

must_sent_kept :
    (bytes : List ℕ) (c : Conn)
    → c.send_fails ≡ false
    → Returns
        (λ _ t.
          (t.incoming ≡ c.incoming)
          × (t.calls ≡ c.calls)
          × (t.can_create ≡ c.can_create)
          × (t.send_fails ≡ false))
        (must_send bytes c)
unfolding must_send gets when ◌>>=◌
must_sent_kept bytes c f = simp f (sent_kept bytes c f)

-- `GetFileFromServer` of build 1. The connection sends, and the server's echo of 128 bytes and its announcement
-- of 264 bytes each come in one piece; the name in it is the one that was asked for, the file can be created,
-- and its size is below 2^31. However the stream cuts the file behind them, with bytes there at each call of
-- `recv` and enough calls, the call returns and says that the file is there, and it holds exactly its bytes.
get_file_from_server-Arrived :
    (beyond : Memory) (name_field echo bytes : List ℕ) (k n : ℕ) (es : List Call) (c : Conn)
    → c.send_fails ≡ false
    → length echo ≡ 128
    → length name_field ≡ 260
    → length bytes < 0x8000_0000
    → c.incoming ≡ echo ++ (info_bytes name_field (length bytes) ++ bytes)
    → c.calls ≡ ready (127 + k) ∷ ready (263 + n) ∷ es
    → AllReady es
    → length bytes ≤ length es
    → c.can_create (c_string name_field) ≡ true
    → Returns
        (λ b t. (b ≡ true) × (t.disk (c_string name_field) ≡ some bytes))
        (get_file_from_server beyond (c_string name_field) c)
unfolding get_file_from_server pure
get_file_from_server-Arrived beyond name_field echo bytes k n es c f l l' s i e a enough can =
    let name = c_string name_field in
    let info = info_bytes name_field (length bytes) in
    Returns-bind _ _ (send (first 128 (memory_of ((codes "GET" ++ 13 ∷ []) ++ 0 ∷ []) beyond))) _ c
      (sent_kept _ c f)
      λ _ t (ti, te, tc, tf).
        Returns-bind (Took echo (info ++ bytes) (ready (263 + n) ∷ es) t) _ (recv 128) _ t
          (recv-Took 128 (127 + k) echo (info ++ bytes) _ t l (omega arith) (ti ∙ i) (te ∙ e))
          λ _ u (g, ui, ue, uc, uf).
            Returns-bind _ _ (must_send (first 260 (memory_of (name ++ 0 ∷ []) beyond))) _ u
              (must_sent_kept _ u (uf ∙ tf))
              λ _ v (vi, ve, vc, vf).
                Returns-bind (Took info bytes es v) _ (recv 264) _ v
                  (recv-Took 264 (263 + n) info bytes es v
                    (length-info_bytes name_field (length bytes) l') (omega arith) (vi ∙ ui)
                    (ve ∙ ue))
                  λ got w (g', wi, we, wc, wf).
                    rw
                      (
                        g',
                        info_name-info_bytes name_field (length bytes) beyond l',
                        same_name_refl name,
                        g',
                        info_name-info_bytes name_field (length bytes) beyond l',
                        info_size-info_bytes name_field (length bytes) beyond l' (omega (arith, s)),
                        lt→ltb (length bytes) 0x8000_0000 s,
                      )
                      (filed (λ b t. (b ≡ true) × (t.disk name ≡ some bytes)) (pure true) name bytes
                        es w a enough wi we (ap (λ f. f name) (wc ∙ vc ∙ uc ∙ tc) ∙ can)
                        λ _ h. (refl, h))

-- The messages that went out, as one stream behind the echo of the command and the announcement, give the file
-- to the client's call.
abbrev pub Arrives : Memory → List ℕ → List ℕ → List ℕ → Conn → Conn → Conn → Type 0
Arrives beyond name_field echo bytes c d t =
    (out : List (List ℕ)) × (t.sent ≡ c.sent ++ out)
    × Returns (λ b u. (b ≡ true) × (u.disk (c_string name_field) ≡ some bytes))
        (get_file_from_server beyond (c_string name_field)
          (record d { incoming = echo ++ (info_bytes name_field (length bytes) ++ join out) }))

-- A download over TCP of build 1. The connections send, the size of the file is below 2^31, and 0 or no multiple
-- of 128. Then the server's loop returns. Let the stream of its messages come to the client behind an echo of
-- 128 bytes and the announcement of 264, which each come in one piece and name the file asked for, and let
-- the client be able to create it. However the stream cuts the file, with bytes there at each call of `recv`
-- and enough calls, `GetFileFromServer` returns true, and the client's file holds exactly the bytes.
pub send_loop-Arrives :
    (beyond : Memory) (fuel k n : ℕ) (name_field echo bytes : List ℕ) (es : List Call) (c d : Conn)
    → length bytes < fuel
    → length bytes < 0x8000_0000
    → Fits (length bytes)
    → length echo ≡ 128
    → length name_field ≡ 260
    → c.send_fails ≡ false
    → d.send_fails ≡ false
    → d.calls ≡ ready (127 + k) ∷ ready (263 + n) ∷ es
    → AllReady es
    → length bytes ≤ length es
    → d.can_create (c_string name_field) ≡ true
    → Returns (λ _. Arrives beyond name_field echo bytes c d) (send_loop fuel bytes c)
send_loop-Arrives beyond fuel k n name_field echo bytes es c d l s f le ln sc sd e a enough can =
    Returns-mono (λ _. Streamed bytes c) (λ _. Arrives beyond name_field echo bytes c d)
      (send_loop fuel bytes c) (send_loop-Streamed fuel bytes c l f sc)
      λ _ t (out, sent, j, fails). (
        out,
        sent,
        get_file_from_server-Arrived beyond name_field echo bytes k n es
            (record d { incoming = echo ++ (info_bytes name_field (length bytes) ++ join out) }) sd
            le ln s (ap (λ b. echo ++ (info_bytes name_field (length bytes) ++ b)) j) e a enough
            can,
      )
