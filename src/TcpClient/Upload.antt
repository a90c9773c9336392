-- ===== src/TcpClient/Upload.antt =====
-- An upload over TCP: `PutFileToServer`, and the server's `GetFileFromClient`.
use file_transfer_program.Base.{
  ℕ, suc, ◌+◌, ◌≤◌, ◌<◌, ◌≡◌, refl, ap, sym, ◌∙◌, Bool, true, false, some, List, [], ◌∷◌, ◌++◌,
  length, first, length-first, append_assoc, arith, codes,
}
use file_transfer_program.Protocol.Codec.{Memory, memory_of}
use file_transfer_program.Run.{Returns, Returns-mono, Returns-bind, modify, gets, pure}
use file_transfer_program.Text.{c_string}
use file_transfer_program.Text.Strings.{Avoids, c_string-first}
use file_transfer_program.TcpThread.{
  Call, fails, ended, ready, Conn, skip, recv, send, send_loop, get_file_from_client,
}
use file_transfer_program.TcpThread.Download.{join, Streamed, Fits, send_loop-Streamed}
use file_transfer_program.TcpThread.Upload.{AllReady, info_bytes, get_file_from_client-Stored}
use file_transfer_program.TcpClient.{put_file_to_server}

-- These messages have gone out, and `send` still works; the files and the calls to come stay.
abbrev Gone : List (List ℕ) → Conn → Conn → Type 0
Gone out c t =
    (t.sent ≡ c.sent ++ out) × (t.disk ≡ c.disk) × (t.calls ≡ c.calls) × (t.send_fails ≡ false)

send-Gone :
    (bytes : List ℕ) (c : Conn)
    → c.send_fails ≡ false
    → Returns (λ _. Gone (bytes ∷ []) c) (send bytes c)
unfolding send modify
send-Gone bytes c f = simp f (refl, refl, refl, refl)

-- A call of `recv` returns, whatever it finds.
recv_kept :
    (len : ℕ) (call : Call) (es : List Call) (c : Conn)
    → c.calls ≡ call ∷ es
    → Returns
        (λ _ t. (t.sent ≡ c.sent) × (t.disk ≡ c.disk) × (t.send_fails ≡ c.send_fails))
        (recv len c)
unfolding recv skip
recv_kept len fails es c e = rw (recv, e) (refl, refl, refl)
recv_kept len ended es c e = rw (recv, e) (refl, refl, refl)
recv_kept len (ready n) es c e = rw (recv, e) (refl, refl, refl)

-- The field that holds the name, as `PutFileToServer` sends it.
abbrev pub name_bytes : List ℕ → Memory → List ℕ
name_bytes name beyond = first 260 (memory_of (name ++ 0 ∷ []) beyond)

-- What `PutFileToServer` has sent behind the command, as one stream, gives the file to the server.
abbrev pub Stores : List ℕ → List ℕ → Memory → List ℕ → Conn → Conn → Conn → Type 0
Stores name bytes behind command c d t =
    (out : List (List ℕ)) × (t.sent ≡ c.sent ++ command ∷ out)
    × Returns (λ _ u. (u.disk name ≡ some bytes) × (u.is_open ≡ false))
        (get_file_from_client behind (record d { incoming = join out }))

stored :
    (name bytes : List ℕ) (beyond behind : Memory) (n : ℕ) (es : List Call) (out : List (List ℕ))
    (d : Conn)
    → Avoids 0 name
    → length name < 260
    → length bytes < 0x8000_0000
    → d.calls ≡ ready (263 + n) ∷ es
    → AllReady es
    → length bytes ≤ length es
    → d.can_create name ≡ true
    → join out ≡ info_bytes (name_bytes name beyond) (length bytes) ++ bytes
    → Returns
        (λ _ u. (u.disk name ≡ some bytes) × (u.is_open ≡ false))
        (get_file_from_client behind (record d { incoming = join out }))
stored name bytes beyond behind n es out d z l s e a enough can j =
    let named = c_string-first 260 name beyond z l in
    Returns-mono
      (λ _ u. (u.disk (c_string (name_bytes name beyond)) ≡ some bytes) × (u.is_open ≡ false)) _ _
      (get_file_from_client-Stored behind (name_bytes name beyond) bytes n es
        (record d { incoming = join out }) (length-first 260 _) s j e a enough
        (ap d.can_create named ∙ can))
      λ _ u (h, o). (ap u.disk (sym named) ∙ h, o)

-- An upload over TCP of build 1, from `PutFileToServer` to `GetFileFromClient`. The client has the file; its size is
-- below 2^31, and 0 or no multiple of 128; its name is a text of less than 260 bytes. The client's
-- connection sends, and whatever its `recv` finds behind the command, the client returns and says that there is
-- such a file. Let the stream of its messages behind the command come to the server: the announcement in
-- one piece, and the rest cut anyhow, with bytes there at each call of `recv` and enough calls; and let the
-- server be able to create the file. Then the server returns, its file holds exactly the bytes, and the
-- connection is closed.
pub put_file_to_server-Stored :
    (name bytes : List ℕ) (beyond behind : Memory) (n : ℕ) (answer : Call) (more es : List Call)
    (c d : Conn)
    → Avoids 0 name
    → length name < 260
    → length bytes < 0x8000_0000
    → Fits (length bytes)
    → c.disk name ≡ some bytes
    → c.send_fails ≡ false
    → c.calls ≡ answer ∷ more
    → d.calls ≡ ready (263 + n) ∷ es
    → AllReady es
    → length bytes ≤ length es
    → d.can_create name ≡ true
    → Returns
        (λ ok t.
          (ok ≡ true)
          × Stores name bytes behind
              (first 20 (memory_of ((codes "PUT" ++ 13 ∷ []) ++ 0 ∷ []) beyond))
              c
              d
              t)
        (put_file_to_server beyond name c)
unfolding put_file_to_server gets pure
put_file_to_server-Stored name bytes beyond behind n answer more es c d z l s f has sf calls e a
      enough can =
    let command = first 20 (memory_of ((codes "PUT" ++ 13 ∷ []) ++ 0 ∷ []) beyond) in
    let info = info_bytes (name_bytes name beyond) (length bytes) in
    let Ends : Bool → Conn → Type 0 =
      λ ok t. (ok ≡ true) × Stores name bytes behind command c d t in
    Returns-bind (λ _. Gone (command ∷ []) c) Ends (send command) _ c (send-Gone command c sf)
      λ _ t (ts, td, tc, tf).
        Returns-bind (λ _ u. (u.sent ≡ t.sent) × (u.disk ≡ t.disk) × (u.send_fails ≡ t.send_fails))
          Ends (recv 20) _ t (recv_kept 20 answer more t (tc ∙ calls))
          λ _ u (us, ud, uf).
            Returns-bind (λ o v. (v ≡ u) × (o ≡ some bytes)) Ends (gets (λ c. c.disk name)) _ u
              (refl, ap (λ g. g name) (ud ∙ td) ∙ has)
              λ o v (ve, oe).
                rw (oe, ve)
                  (Returns-bind (λ _. Gone (info ∷ []) u) Ends (send info) _ u
                    (send-Gone info u (uf ∙ tf))
                    λ _ w (ws, wd, wc, wf).
                      Returns-bind (λ _. Streamed bytes w) Ends
                        (send_loop (suc (length bytes)) bytes) _ w
                        (send_loop-Streamed (suc (length bytes)) bytes w (omega arith) f wf)
                        λ _ x (out, xs, j, xf). (
                          refl,
                          (
                            info ∷ out,
                            xs
                                ∙ ap (λ m. m ++ out) (ws ∙ ap (λ m. m ++ info ∷ []) (us ∙ ts))
                                ∙ append_assoc (c.sent ++ command ∷ []) (info ∷ []) out
                                ∙ append_assoc c.sent (command ∷ []) (info ∷ out),
                            stored name bytes beyond behind n es (info ∷ out) d z l s e a enough can
                                (ap (λ b. info ++ b) j),
                          ),
                        ))
