-- ===== src/StopWait/Stable.antt =====
-- What the exchanges of packets and the changes of files keep, all operations of both programs keep.
use file_transfer_program.Base.{
  ℕ, zero, suc, ◌-◌, ◌≤◌, ◌<◌, ◌≡◌, refl, arith, inl, inr, Bool-cases, ltb-true, length-drop, true,
  false, Option, List, [], ◌∷◌, length, leb, ltb, ◌==◌, if◌then◌else◌, drop, take, min,
}
use file_transfer_program.Files.{write_file}
use file_transfer_program.Protocol.Codec.{Memory, memory_of, offset}
use file_transfer_program.Run.{done, crashed, ◌>>=◌, pure, modify, when, crash, gets}
use file_transfer_program.Run.Leaves.{
  Through, Through-bind, Through-elim, Keeps, Keeps-bind, Keeps-pure, Keeps-gets, Keeps-modify,
  Keeps-when, Keeps-crash, Keeps-if, Keeps-elim, Keeps-Option,
}
use file_transfer_program.StopWait.State.{data_length, Udppacket, Host, M}
use file_transfer_program.StopWait.Exchange.{exchange_out, exchange_in}
use file_transfer_program.StopWait.Transfer.{
  info_text, send_info, send_chunks, recv_chunks, create_file, append_file,
}
use file_transfer_program.StopWait.Server
use file_transfer_program.StopWait.Client

-- The interface: one packet out, one packet in, a change of the files,
-- and the new numbers of an upload.
pub record Stable (I : Host → Type 0) : Type 0 where
  pub sends :
      (size again : ℕ) (sbuffer : Memory) (flag : ℕ)
      → Keeps I (exchange_out size again sbuffer flag)
  pub receives : (name : List ℕ) (beyond : Memory) → Keeps I (exchange_in name beyond)
  pub files : (d : List ℕ → Option (List ℕ)) (h : Host) → I h → I (record h { disk = d })
  pub restarts : (h : Host) → I h → I (record h { send_seq = 0; next_rec_seq = 0 })

module _ (I : Host → Type 0) (stable : Stable I) where
  pub create_file-Keeps : (name : List ℕ) → Keeps I (create_file name)
  unfolding create_file
  create_file-Keeps name h i =
      elim (h.can_create name)
        as (λ b.
          Through (λ _. I) I
            (if b then done tt (record h { disk = write_file name [] h.disk }) else crashed)) [
              | true ↦ stable.files (write_file name [] h.disk) h i
              | false ↦ tt
            ]

  append_file-Keeps : (name bytes : List ℕ) → Keeps I (modify (append_file name bytes))
  unfolding append_file
  append_file-Keeps name bytes = Keeps-modify I (append_file name bytes) λ h i. stable.files _ h i

  pub recv_chunks-Keeps :
      (recv : M Udppacket) (fuel left : ℕ) (name : List ℕ)
      → left ≤ fuel
      → Keeps I recv
      → Keeps I (recv_chunks recv fuel left name)
  unfolding recv_chunks
  recv_chunks-Keeps recv zero zero name l k = Keeps-pure I tt
  recv_chunks-Keeps recv zero (suc left) name l k = absurd (omega arith)
  recv_chunks-Keeps recv (suc fuel) zero name l k = Keeps-pure I tt
  recv_chunks-Keeps recv (suc fuel) (suc left) name l k = Keeps-bind I recv _ k λ p.
      Keeps-bind I _ _ (append_file-Keeps name _)
        λ _. recv_chunks-Keeps recv fuel (suc left - data_length) name (omega arith) k

  pub send_info-Keeps :
      (send : Memory → ℕ → M Udppacket) (name : List ℕ) (size : ℕ) (beyond : Memory)
      → ((b : Memory) (flag : ℕ) → Keeps I (send b flag))
      → Keeps I (send_info send name size beyond)
  unfolding send_info
  send_info-Keeps send name size beyond k =
      Keeps-if I (leb data_length (length (info_text name size))) crash _ (Keeps-crash I _)
        (Keeps-bind I _ _ (k _ 0) λ _. Keeps-pure I tt)

  pub send_chunks-Keeps :
      (send : Memory → ℕ → M Udppacket) (fuel : ℕ) (bytes : List ℕ) (buffer : Memory)
      → length bytes < fuel
      → ((b : Memory) (flag : ℕ) → Keeps I (send b flag))
      → Keeps I (send_chunks send fuel bytes buffer)
  unfolding send_chunks
  send_chunks-Keeps send zero bytes buffer l k = absurd (omega arith)
  send_chunks-Keeps send (suc fuel) bytes buffer l k =
      let read =
        memory_of (take data_length bytes) (offset buffer (min (length bytes) data_length)) in
      let last : M (Unit {0}) = (do
        _ ← send read (length bytes)
        when (length bytes == data_length) crash) in
      let go : Keeps I last =
        Keeps-bind I (send read (length bytes)) _ (k read (length bytes))
          λ _. Keeps-when I (length bytes == data_length) crash (Keeps-crash I _) in
      elim (Bool-cases (ltb data_length (length bytes))) [
        | inl e ↦
            let big : data_length < length bytes = ltb-true data_length (length bytes) e in
            rw (send_chunks, e)
              (Keeps-bind I (send read 0) _ (k read 0) λ _.
                send_chunks-Keeps send fuel (drop data_length bytes) read
                  (omega (arith, big, l, length-drop data_length bytes)) k)
        | inr e ↦ rw (send_chunks, e) go
      ]

  module _ (beyond : Memory) where
    pub server_sends : (b : Memory) (flag : ℕ) → Keeps I (Server.udpsend beyond b flag)
    unfolding Server.udpsend
    server_sends b flag = stable.sends _ _ b flag

    pub server_receives : Keeps I (Server.udprecv beyond)
    unfolding Server.udprecv
    server_receives = stable.receives _ beyond

    module _ (closes : (h : Host) → I h → I (record h { is_open = false })) where
      close-Keeps : Keeps I Server.close
      unfolding Server.close
      close-Keeps = Keeps-modify I _ closes

      put_file_to_client-Keeps : Keeps I (Server.put_file_to_client beyond)
      unfolding Server.put_file_to_client
      put_file_to_client-Keeps = Keeps-bind I _ _ server_receives λ p.
          Keeps-bind I _ _ (Keeps-gets I _) λ file.
            Keeps-Option I file _ _ (Keeps-bind I _ _ (server_sends _ 0) λ _. close-Keeps) λ bytes.
              Keeps-bind I _ _ (send_info-Keeps _ _ _ beyond server_sends) λ _.
                Keeps-bind I _ _ (send_chunks-Keeps _ _ bytes beyond (omega arith) server_sends)
                  λ _. close-Keeps

      get_file_from_client-Keeps : Keeps I (Server.get_file_from_client beyond)
      unfolding Server.get_file_from_client
      get_file_from_client-Keeps = Keeps-bind I _ _ server_receives λ p.
          Keeps-bind I _ _ (create_file-Keeps _) λ _.
            Keeps-bind I _ _ (recv_chunks-Keeps _ _ _ _ (omega arith) server_receives)
              λ _. close-Keeps

      del_files-Keeps : Keeps I (Server.del_files beyond)
      unfolding Server.del_files
      del_files-Keeps = Keeps-bind I _ _ server_receives λ p.
          Keeps-bind I _ _ (Keeps-gets I _) λ file.
            Keeps-Option I file _ _ (Keeps-bind I _ _ (server_sends _ 0) λ _. close-Keeps) λ bytes.
              Keeps-bind I _ _ (Keeps-gets I _) λ allowed.
                Keeps-bind I _ _
                  (Keeps-when I allowed _ (
                    Keeps-bind I _ _ (Keeps-modify I _ λ h. stable.files _ h)
                      λ _. Keeps-bind I _ _ (server_sends _ 0) λ _. Keeps-pure I tt))
                  λ _. close-Keeps

      send_names-Keeps : (names : List (List ℕ)) → Keeps I (Server.send_names beyond names)
      unfolding Server.send_names
      send_names-Keeps [] = Keeps-pure I tt
      send_names-Keeps (name ∷ names) =
          Keeps-bind I _ _ (server_sends _ 0) λ _. send_names-Keeps names

      list_files-Keeps : Keeps I (Server.list_files beyond)
      unfolding Server.list_files
      list_files-Keeps = Keeps-bind I _ _ (Keeps-gets I _) λ names.
          Keeps-bind I _ _ (send_names-Keeps names)
            λ _. Keeps-bind I _ _ (server_sends _ 0) λ _. Keeps-pure I tt

      echo-Keeps :
          (p : Udppacket) (action : M (Unit {0}))
          → Keeps I action
          → Keeps I (Server.echo beyond p action)
      unfolding Server.echo
      echo-Keeps p action k = Keeps-bind I _ _ (server_sends _ 0) λ _. k

      pub handle-Keeps : Keeps I (Server.handle beyond)
      unfolding Server.handle
      handle-Keeps = Keeps-bind I _ _ server_receives λ p.
          Keeps-bind I _ _ (Keeps-when I _ _ list_files-Keeps) λ _.
            Keeps-bind I _ _ (Keeps-when I _ _ (echo-Keeps p _ put_file_to_client-Keeps)) λ _.
              Keeps-bind I _ _ (Keeps-when I _ _ (echo-Keeps p _ get_file_from_client-Keeps))
                λ _. Keeps-when I _ _ (echo-Keeps p _ del_files-Keeps)

      pub serve-Keeps : (rounds : ℕ) → Keeps I (Server.serve beyond rounds)
      unfolding Server.serve
      serve-Keeps zero = Keeps-pure I tt
      serve-Keeps (suc rounds) = Keeps-bind I _ _ handle-Keeps λ _. serve-Keeps rounds

    client_sends : (b : Memory) (flag : ℕ) → Keeps I (Client.udpsend beyond b flag)
    unfolding Client.udpsend
    client_sends b flag = stable.sends _ _ b flag

    client_receives : Keeps I (Client.udprecv beyond)
    unfolding Client.udprecv
    client_receives = stable.receives _ beyond

    put_file_to_server-Keeps :
        (filename : List ℕ) → Keeps I (Client.put_file_to_server beyond filename)
    unfolding Client.put_file_to_server
    put_file_to_server-Keeps filename = Keeps-bind I _ _ (Keeps-modify I _ stable.restarts) λ _.
        Keeps-bind I _ _ (client_sends _ 0) λ _. Keeps-bind I _ _ client_receives λ _.
          Keeps-bind I _ _ (Keeps-gets I _) λ file.
            Keeps-Option I file _ _ (Keeps-pure I false) λ bytes.
              Keeps-bind I _ _ (send_info-Keeps _ _ _ beyond client_sends) λ _.
                Keeps-bind I _ _ (send_chunks-Keeps _ _ bytes beyond (omega arith) client_sends)
                  λ _. Keeps-pure I true

    get_file_from_server-Keeps :
        (filename : List ℕ) → Keeps I (Client.get_file_from_server beyond filename)
    unfolding Client.get_file_from_server
    get_file_from_server-Keeps filename = Keeps-bind I _ _ (client_sends _ 0) λ _.
        Keeps-bind I _ _ client_receives λ _. Keeps-bind I _ _ (client_sends _ 0) λ _.
          Keeps-bind I _ _ client_receives λ p.
            Keeps-elim I _ _ _
              (Keeps-bind I _ _ (create_file-Keeps _) λ _.
                Keeps-bind I _ _ (recv_chunks-Keeps _ _ _ _ (omega arith) client_receives)
                  λ _. Keeps-pure I true)
              (Keeps-pure I false)

    delete_server_files-Keeps :
        (filename : List ℕ) → Keeps I (Client.delete_server_files beyond filename)
    unfolding Client.delete_server_files
    delete_server_files-Keeps filename = Keeps-bind I _ _ (client_sends _ 0) λ _.
        Keeps-bind I _ _ client_receives λ _.
          Keeps-bind I _ _ (client_sends _ 0)
            λ _. Keeps-bind I _ _ client_receives λ p. Keeps-pure I _

    -- Each packet that comes takes an event.
    module _
        (hears : (h : Host)
          → I h
          → Through
              (λ _ t. I t × (length t.arrivals < length h.arrivals))
              I
              (Client.udprecv beyond h)) where
      list_loop-Through :
          (fuel : ℕ) (names : List (List ℕ)) (h : Host)
          → length h.arrivals < fuel
          → I h
          → Through (λ _. I) I (Client.list_loop beyond fuel names h)
      unfolding Client.list_loop
      list_loop-Through zero names h l i = absurd (omega arith)
      list_loop-Through (suc fuel) names h l i =
          Through-bind (λ _ t. I t × (length t.arrivals < length h.arrivals)) (λ _. I) I
            (Client.udprecv beyond) _ h (hears h i)
            λ p t (i', f).
              Through-elim (λ _. I) I _ (pure names) (Client.list_loop beyond fuel _) t
                (Keeps-pure I names t i') (list_loop-Through fuel _ t (omega (arith, l, f)) i')

      list_server_files-Keeps : Keeps I (Client.list_server_files beyond)
      unfolding Client.list_server_files gets
      list_server_files-Keeps = Keeps-bind I _ _ (client_sends _ 0) λ _ h i.
          Through-bind (λ n t. I t × (n ≡ suc (length t.arrivals))) (λ _. I) I
            (gets (λ h. suc (length h.arrivals))) _ h (i, refl)
            λ n t (i', e). list_loop-Through n [] t (omega (arith, e)) i'

      run_command-Keeps :
          (command filename : List ℕ) → Keeps I (Client.run_command beyond command filename)
      unfolding Client.run_command
      run_command-Keeps command filename =
          Keeps-bind I _ _
            (Keeps-when I _ _ (Keeps-bind I _ _ list_server_files-Keeps λ _. Keeps-pure I tt))
            λ _.
              Keeps-bind I _ _
                (Keeps-when I _ _
                  (Keeps-bind I _ _ (get_file_from_server-Keeps filename) λ _. Keeps-pure I tt))
                λ _.
                  Keeps-bind I _ _
                    (Keeps-when I _ _
                      (Keeps-bind I _ _ (put_file_to_server-Keeps filename) λ _. Keeps-pure I tt))
                    λ _.
                      Keeps-when I _ _
                        (Keeps-bind I _ _ (delete_server_files-Keeps filename) λ _. Keeps-pure I tt)

      pub menu-Keeps : (choices : List (List ℕ × List ℕ)) → Keeps I (Client.menu beyond choices)
      unfolding Client.menu
      menu-Keeps [] = Keeps-pure I tt
      menu-Keeps ((command, filename) ∷ choices) =
          Keeps-bind I _ _ (run_command-Keeps command filename) λ _. menu-Keeps choices
