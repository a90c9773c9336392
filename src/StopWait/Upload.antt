-- ===== src/StopWait/Upload.antt =====
-- An upload: what `GetFileFromClient` does with the packets that `PutFileToServer` sends.
use file_transfer_program.Base.{
  ℕ, suc, ◌+◌, ◌/◌, ◌≤◌, ◌≡◌, refl, ap, ◌∙◌, true, false, some, List, [], length, arith,
}
use file_transfer_program.Chunks.{gather, Carries, gather-Carries}
use file_transfer_program.Files.{write_file_self}
use file_transfer_program.Protocol.Codec.{Memory}
use file_transfer_program.Run.{Returns, Returns-bind, Returns-if, ◌>>=◌, ◌>>◌}
use file_transfer_program.StopWait.State.{data_length, Udppacket, Host}
use file_transfer_program.StopWait.Exchange.In.{IsStream, Ready, Received, exchange_in-Received}
use file_transfer_program.StopWait.Receiving.{recv_chunks-Written, Written}
use file_transfer_program.StopWait.Server.{udprecv, get_file_from_client, close}
use file_transfer_program.StopWait.Transfer.{info_text, read_info, create_file, recv_chunks}
use file_transfer_program.Text.{c_string, to_string}
use file_transfer_program.Text.Print.{atoi-to_string}
use file_transfer_program.Text.Strings.{Avoids, before-append, after-append}

-- A name without a comma and a size that fits an `int` are read back from the text that announces a file.
pub read_info-info_text :
    (name : List ℕ) (size : ℕ)
    → Avoids b',' name
    → size ≤ 0x7fff_ffff
    → read_info (info_text name size) ≡ (name, size)
unfolding read_info info_text
read_info-info_text name size a l =
    rw
      (
        info_text,
        read_info,
        after-append b',' name (to_string size) a,
        before-append b',' name (to_string size) a,
        atoi-to_string size l,
      )
      refl

module _ (goal base : ℕ) (packet : ℕ → Udppacket) (is_stream : IsStream goal base packet) where
  created :
      (name : List ℕ) (next : ℕ) (h : Host)
      → h.can_create name ≡ true
      → Ready goal base packet next h
      → Returns
          (λ _ u. (u.disk name ≡ some []) × Ready goal base packet next u)
          (create_file name h)
  unfolding create_file
  created name next h c r =
      Returns-if (λ _ u. (u.disk name ≡ some []) × Ready goal base packet next u)
        (h.can_create name) _ _ c (write_file_self name [] h.disk, r)

  -- What is done after the text that announces the file has come.
  filed :
      (beyond : Memory) (name bytes : List ℕ) (next : ℕ) (h : Host)
      → h.can_create name ≡ true
      → Carries data_length (λ i. (packet i).payload) (length bytes) next bytes
      → next + (length bytes + 259) / 260 ≤ goal
      → Ready goal base packet next h
      → Returns
          (λ _ t. (t.disk name ≡ some bytes) × (t.is_open ≡ false))
          ((do
            create_file name
            recv_chunks (udprecv beyond) (length bytes) (length bytes) name
            close)
            h)
  unfolding ◌>>=◌ udprecv close
  filed beyond name bytes next h c cs g r =
      Returns-bind (λ _ u. (u.disk name ≡ some []) × Ready goal base packet next u) _
        (create_file name) _ h (created name next h c r)
        λ _ u k.
          Returns-bind
            (λ _.
              Written goal base packet is_stream name next (length bytes)
                (gather data_length (λ i. (packet i).payload) (length bytes) next (length bytes)))
            _ (recv_chunks (udprecv beyond) (length bytes) (length bytes) name) _ u
            (recv_chunks-Written goal base packet is_stream _ beyond name (length bytes)
              (length bytes) next [] u (omega arith) k.0 g k.1)
            λ _ v w. (
              w.0
                  ∙ ap some (
                      gather-Carries data_length (λ i. (packet i).payload) (length bytes) next
                        (length bytes) bytes (omega arith) (omega arith) refl cs),
              refl,
            )

  -- `GetFileFromClient` on the packets of a file: the first announces a name without a comma, which can be
  -- created, and a size that fits an `int`, and the others start with the chunks of a file of that size.
  -- When they come in their turn, each perhaps again before the next one, it returns; the file holds
  -- exactly these bytes, and the socket is closed.
  pub get_file_from_client-Written :
      (beyond : Memory) (name bytes : List ℕ) (next : ℕ) (h : Host)
      → h.can_create name ≡ true
      → Avoids b',' name
      → length bytes ≤ 0x7fff_ffff
      → c_string (packet next).payload ≡ info_text name (length bytes)
      → Carries data_length (λ i. (packet i).payload) (length bytes) (suc next) bytes
      → suc next + (length bytes + 259) / 260 ≤ goal
      → Ready goal base packet next h
      → Returns
          (λ _ t. (t.disk name ≡ some bytes) × (t.is_open ≡ false))
          (get_file_from_client beyond h)
  unfolding get_file_from_client udprecv
  get_file_from_client-Written beyond name bytes next h c a l i cs g r =
      Returns-bind (λ p. Received goal base packet next h p.payload) _ (udprecv beyond) _ h
        (exchange_in-Received goal base packet is_stream _ beyond next h (omega (arith, g)) r)
        λ p t w.
          rw (w.0, i, read_info-info_text name (length bytes) a l)
            (filed beyond name bytes (suc next) t (rw w.3 c) cs g w.1)
