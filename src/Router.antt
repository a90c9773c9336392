-- ===== src/Router.antt =====
-- The lossy router between the two hosts: build3/sample-3/Router/Router.h and Router.cpp (build 2 and
-- build3/Assign3_zcl hold the same files).
pub mod Conserve
pub mod Flush
use file_transfer_program.Protocol.{add_u32}
use file_transfer_program.Base.{
  ℕ, suc, Bool, true, false, not, ◌&&◌, List, [], ◌∷◌, ◌++◌, ◌==◌, leb, if◌then◌else◌,
}

-- EVENT_LIST without `empty`: what `temp` holds.
pub record Parcel : Type 0 where
  pub count : ℕ
  pub destination : ℕ
  pub buffer : List ℕ

-- The state of `Run`: FileBuf, with its flag, the locals `count1`, `count2` and `wait_count`, and the
-- parcels that `sendto` accepted, oldest first.
pub record Router : Type 0 where
  pub empty : Bool
  pub file_buf : Parcel
  pub count1 : ℕ
  pub count2 : ℕ
  pub wait_count : ℕ
  pub delivered : List Parcel

-- What one round of the loop meets. A packet comes from host 1 or 2, with what `IsDelayed` and
-- `IsDamage` draw if they are asked, whether `sendto` fails for it, and whether it fails for the parcel
-- that `SendProc` sends after it.
pub data Round : Type 0 where
  select_fails recv_fails no_socket : Round
  arrives : ℕ → List ℕ → Bool → Bool → Bool → Bool → Round
  idle : Bool → Round

-- `SendProc`; its `sendto` fails or not, and it catches the exception.
unfoldable pub send_proc : Bool → Router → Router
send_proc down r = record r {
  empty = true;
  delivered = if down then r.delivered else r.delivered ++ r.file_buf ∷ [];
}

-- `temp`, and the state after the counter of its host has gone up.
unfoldable pub number : ℕ → List ℕ → Router → Parcel × Router
number host bytes r =
    if host == 1
    then (
      record { count = r.count1; destination = 2; buffer = bytes },
      record r { count1 = add_u32 r.count1 1 },
    )
    else (
      record { count = r.count2; destination = 1; buffer = bytes },
      record r { count2 = add_u32 r.count2 1 },
    )

-- `if(!FileBuf.empty) wait_count++;`
unfoldable pub count_wait : Router → Router
count_wait r = record r { wait_count = if r.empty then r.wait_count else suc r.wait_count }

-- The parcel is sent on, and a delayed one for the same host after it. An exception of the first
-- `sendto` leaves the round.
unfoldable pub forward : Parcel → Bool → Bool → Router → Router
unfolding send_proc
forward temp down proc_down r =
    let sent = record r { delivered = r.delivered ++ temp ∷ [] } in
    if down
    then r
    else if not r.empty && r.file_buf.destination == temp.destination
    then send_proc proc_down (record sent { wait_count = 0 })
    else sent

-- `if (FileBuf.empty && IsDelayed()) … else if (IsDamage()) … else …`
unfoldable pub route : Parcel → Bool → Bool → Bool → Bool → Router → Router
unfolding forward
route temp delayed damaged down proc_down r =
    if r.empty && delayed
    then record r { file_buf = temp; empty = false }
    else if damaged
    then r
    else forward temp down proc_down r

-- No packet for a while: at the third wait the delayed parcel is sent.
unfoldable pub on_idle : Bool → Router → Router
unfolding send_proc
on_idle proc_down r =
    let waited = record r { wait_count = suc r.wait_count } in
    if r.empty
    then r
    else if leb 3 waited.wait_count
    then record (send_proc proc_down waited) { wait_count = 0 }
    else waited

-- One round of `Run`; a round that throws has done what it did before.
unfoldable pub step : Round → Router → Router
unfolding number count_wait route on_idle
step select_fails r = r
step no_socket r = count_wait r
step recv_fails r = count_wait r
step (arrives host bytes delayed damaged down proc_down) r =
    let (temp, r') = number host bytes (count_wait r) in
    route temp delayed damaged down proc_down r'
step (idle proc_down) r = on_idle proc_down r

unfoldable pub run : List Round → Router → Router
unfolding step
run [] r = r
run (e ∷ es) r = run es (step e r)

-- The state at the start of `Run`, with whatever the buffer holds.
unfoldable pub start : Parcel → Router
start junk = record {
  empty = true;
  file_buf = junk;
  count1 = 0;
  count2 = 0;
  wait_count = 0;
  delivered = [];
}
