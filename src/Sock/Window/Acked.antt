-- ===== src/Sock/Window/Acked.antt =====
-- `get_max_seq` with the branch of `udp_sendtoEx` that it serves: an ACK releases the longest run of
-- acknowledged frames at the front of the window.
use file_transfer_program.Base.{
  ℕ, zero, suc, ◌+◌, ◌-◌, ◌≤◌, ◌<◌, ◌≡◌, ◌≢◌, none, some, arith, ltb, if◌then◌else◌,
}
use file_transfer_program.Sock.State.{Sock}
use file_transfer_program.Sock.Window.{Acks, update, acked_run, mark_ack, get_max_seq}
use file_transfer_program.Sock.Window.Remove.{IsWindow, find_seq-IsWindow}

-- `j` is the length of the run of set tags at the front of `n` slots.
pub record IsRun (n : ℕ) (acks : Acks) (j : ℕ) : Type 0 where
  pub within : j ≤ n
  pub set : (m : ℕ) → m < j → acks m ≢ 0
  pub ends : j < n → acks j ≡ 0

acked_run_at :
    (n i j : ℕ) (acks : Acks)
    → j ≤ n
    → ((m : ℕ) → m < j → acks (i + m) ≢ 0)
    → (j < n → acks (i + j) ≡ 0)
    → acked_run n i acks ≡ j
unfolding acked_run
acked_run_at zero i j acks l f g = omega arith
acked_run_at (suc n) i zero acks l f g =
    let e : i + 0 ≡ i = omega arith in let h : acks (i + 0) ≡ 0 = g (omega arith) in ground arith
acked_run_at (suc n) i (suc j) acks l f g =
    let e : i + 0 ≡ i = omega arith in
    let h : acks (i + 0) ≢ 0 = f 0 (omega arith) in
    let rest =
      acked_run_at n (suc i) j acks (omega arith)
        (λ m q. let e' : i + suc m ≡ suc i + m = omega arith in rw (← e') (f (suc m) (omega arith)))
        (λ q. let e' : i + suc j ≡ suc i + j = omega arith in rw (← e') (g (omega arith))) in
    ground arith

pub acked_run-IsRun : (n j : ℕ) (acks : Acks) → IsRun n acks j → acked_run n 0 acks ≡ j
acked_run-IsRun n j acks r =
    acked_run_at n 0 j acks r.within (λ m q. let e : 0 + m ≡ m = omega arith in rw e (r.set m q))
      (λ q. let e : 0 + j ≡ j = omega arith in rw e (r.ends q))

mark_ack-IsWindow :
    (s : Sock) (acks : Acks) (k : ℕ)
    → IsWindow s
    → k < s.win_buf_pos
    → mark_ack s (s.win_buf k).seq acks ≡ update acks k 1
unfolding mark_ack
mark_ack-IsWindow s acks k w l = rw (find_seq-IsWindow s k w l, mark_ack)

-- The ACK of the frame in slot `k` of a numbered window sets the tag of that slot. If then the first
-- `j` tags of the window are set and the next is not, the call reports the number of frame `j` - 1,
-- or nothing where `j` is 0.
pub get_max_seq-IsRun :
    (s : Sock) (acks : Acks) (k j : ℕ)
    → IsWindow s
    → k < s.win_buf_pos
    → IsRun s.win_buf_pos (update acks k 1) j
    → get_max_seq s (s.win_buf k).seq acks
      ≡ some (update acks k 1, if ltb 0 j then some (s.win_buf (j - 1)).seq else none)
unfolding get_max_seq
get_max_seq-IsRun s acks k j w l r =
    ground
      (arith, mark_ack-IsWindow s acks k w l, acked_run-IsRun s.win_buf_pos j (update acks k 1) r)
