-- ===== src/Sock/Sender/Invariant.antt =====
-- The invariant of the sending methods: the window is numbered, and no loop runs out of fuel.
use file_transfer_program.Base.{
  ℕ, zero, suc, ◌≤◌, ◌≡◌, Bool, true, ◌||◌, Option, none, some, length, arith, ◌==◌, if◌then◌else◌,
  refl, sym, ==_iff, Bool-cases, inl, inr,
}
use file_transfer_program.Protocol.{
  Packet, mask, add_u32, sub_u32, acktype_ack, acktype_nack, acktype_sack,
}
use file_transfer_program.Sock.State.{Sock, done, failed, pure}
use file_transfer_program.Sock.Wire.{lib_sendto, send_ack, send_special_request}
use file_transfer_program.Sock.Window.{
  Acks, get_max_seq, remove_packets_from_win, remove_found, remove_missing,
}
use file_transfer_program.Sock.Window.Remove.{IsWindow, remove_packets_from_win-IsWindow}
use file_transfer_program.Sock.Logic.{
  Post, Triple, Keeps, Post-bind, keeps_rules, Keeps-bind, KeepsRecv, KeepsSend, lib_sendto-Keeps,
  send_ack-Keeps,
}
use file_transfer_program.Sock.Sender.{
  send_slot, send_slots, resend_all, Reply, finish, go_on, on_nack, on_ack, on_other, on_frame,
  on_timeout,
}

-- A numbered window, and at most `n` events to come.
pub record Inv (n : ℕ) (s : Sock) : Type 0 where
  pub window : IsWindow s
  pub rest : length s.arrivals ≤ n

-- Fields outside the window may change.
pub IsWindow-same :
    (s t : Sock)
    → t.win_buf ≡ s.win_buf
    → t.win_buf_pos ≡ s.win_buf_pos
    → t.w_size ≡ s.w_size
    → t.seq ≡ s.seq
    → IsWindow s
    → IsWindow t
IsWindow-same s t b p z q w = record {
  fits = omega (arith, w.fits);
  small = omega (arith, w.small);
  masked = λ i l. let m = w.masked i (omega arith) in rw b m;
  numbered = λ i l. let m = w.numbered i (omega arith) in rw (b, p, q) m;
}

pub Inv-KeepsRecv : (n : ℕ) → KeepsRecv (Inv n)
Inv-KeepsRecv n = record {
  at = λ s es d l h. record {
    window = IsWindow-same s _ refl refl refl refl h.window;
    rest = omega (arith, h.rest);
  };
}

pub Inv-KeepsSend : (n : ℕ) → KeepsSend (Inv n)
Inv-KeepsSend n = record {
  at = λ s c k ds h. record {
    window = IsWindow-same s _ refl refl refl refl h.window;
    rest = h.rest;
  };
}

pub Inv-mono : (m n : ℕ) (s : Sock) → m ≤ n → Inv m s → Inv n s
Inv-mono m n s l h = record { window = h.window; rest = omega (arith, h.rest) }

pub arrivals-remove :
    (s : Sock) (acks : Acks) (r : ℕ) → (remove_packets_from_win r acks s).0.arrivals ≡ s.arrivals
unfolding remove_packets_from_win remove_found remove_missing
arrivals-remove s acks r = ground arith

module _ (n : ℕ) where
  pub send-Keeps : (p : Packet) → Keeps (Inv n) (lib_sendto p)
  send-Keeps = lib_sendto-Keeps (Inv n) (Inv-KeepsSend n)

  pub ack-Keeps : (seq type : ℕ) → Keeps (Inv n) (send_ack seq type)
  ack-Keeps = send_ack-Keeps (Inv n) (Inv-KeepsSend n)

  pub send_slot-Keeps : (i : ℕ) → Keeps (Inv n) (send_slot i)
  unfolding send_slot
  send_slot-Keeps i = record { at = λ s h. (send-Keeps (s.win_buf i)).at s h }

  pub send_slots-Keeps : (k i : ℕ) → Keeps (Inv n) (send_slots k i)
  unfolding send_slots
  send_slots-Keeps zero i = search keeps_rules
  send_slots-Keeps (suc k) i =
      Keeps-bind (send_slot i) _ (send_slot-Keeps i) (λ _. send_slots-Keeps k (suc i))

  resend_all-Keeps : Keeps (Inv n) resend_all
  unfolding resend_all
  resend_all-Keeps = search (keeps_rules, send_slot-Keeps, send_slots-Keeps)

  special-Keeps : Keeps (Inv n) send_special_request
  unfolding send_special_request
  special-Keeps = search (keeps_rules, send-Keeps)

  pub on_timeout-Keeps : (k : ℕ) → Keeps (Inv n) (on_timeout k)
  unfolding on_timeout
  on_timeout-Keeps k = search (keeps_rules, resend_all-Keeps, special-Keeps)

  -- What the caller is told is what is left in the window.
  abbrev pub Answers : Reply → Sock → Type 0
  Answers (finish left) t = Inv n t × (left ≡ t.win_buf_pos)
  Answers (go_on wait acks) t = Inv n t

  removed-Inv :
      (s : Sock) (acks : Acks) (r : ℕ) → Inv n s → Inv n (remove_packets_from_win r acks s).0
  removed-Inv s acks r h = record {
    window = remove_packets_from_win-IsWindow s acks r h.window;
    rest = rw (arrivals-remove s acks r) h.rest;
  }

  on_nack-Answers :
      (seq : ℕ) (acks : Acks) (s : Sock) → Inv n s → Post Answers (Inv n) (on_nack seq acks s)
  unfolding on_nack
  on_nack-Answers seq acks s h = (removed-Inv s acks (mask (sub_u32 seq 1)) h, refl)

  on_other-Answers :
      (seq : ℕ) (wait : Bool) (acks : Acks) (s : Sock)
      → Inv n s
      → Post Answers (Inv n) (on_other seq wait acks s)
  unfolding on_other
  on_other-Answers seq wait acks s h = elim (Bool-cases (seq == mask (add_u32 s.last_seq 1))) [
    | inl e ↦ rw e (
        Post-bind (λ _. Inv n) Answers (Inv n) (send_ack seq acktype_ack) _ s
          ((ack-Keeps seq acktype_ack).at s h) (λ a t k. unfold pure in k))
    | inr e ↦ rw e h
  ]

  on_ack-Answers :
      (seq : ℕ) (acks : Acks) (s : Sock) → Inv n s → Post Answers (Inv n) (on_ack seq acks s)
  unfolding on_ack
  on_ack-Answers seq acks s h = go (get_max_seq s seq acks)
    where
      go :
          (o : Option (Acks × Option ℕ))
          → Post Answers (Inv n) (elim o [
            | none ↦ failed s
            | some (tagged, none) ↦ done (go_on true tagged) s
            | some (tagged, some biggest) ↦
                let (t, acks') = remove_packets_from_win biggest tagged s in
                if t.win_buf_pos == 0 then done (finish 0) t else done (go_on true acks') t
          ])
      go none = h
      go (some (tagged, none)) = h
      go (some (tagged, some biggest)) =
          let t = (remove_packets_from_win biggest tagged s).0 in
          elim (Bool-cases (t.win_buf_pos == 0)) [
            | inl e ↦ rw e (removed-Inv s tagged biggest h, sym ((==_iff t.win_buf_pos 0).0 e))
            | inr e ↦ rw e (removed-Inv s tagged biggest h)
          ]

  pub on_frame-Answers :
      (p : Packet) (wait : Bool) (acks : Acks)
      → Triple (Inv n) Answers (Inv n) (on_frame p wait acks)
  unfolding on_frame
  on_frame-Answers p wait acks =
      elim (Bool-cases (p.ack_type == acktype_nack || p.ack_type == acktype_sack)) [
        | inl e ↦ rw e (record { at = on_nack-Answers p.seq acks })
        | inr e ↦ elim (Bool-cases (p.ack_type == acktype_ack)) [
          | inl f ↦ rw (e, f) (record { at = on_ack-Answers p.seq acks })
          | inr f ↦ rw (e, f) (record { at = on_other-Answers p.seq wait acks })
        ]
      ]
