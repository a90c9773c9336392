-- ===== src/Tests/Hosts.antt =====
-- The theorems on the frame formats, the router, the client and the server at concrete inputs.
use file_transfer_program.Base.{true, false, List, [], ◌∷◌, ◌++◌, codes, refl}
use mathlib.Core.List.{Perm}
use file_transfer_program.Sock.Window.Remove.{IsWindow}
use file_transfer_program.Sock.Logic.{Post}
use file_transfer_program.Router
use file_transfer_program.Router.{Parcel, Round, arrives, idle}
use file_transfer_program.Router.Conserve.{kept, all_lost, all_arrived, run-perm}
use file_transfer_program.Router.Flush.{Flushed, run-idle}
use file_transfer_program.Endpoint.Client
use file_transfer_program.Endpoint.Client.Upload.{start-put_never_succeeds}
use file_transfer_program.Endpoint.Server.{serve}
use file_transfer_program.Endpoint.Server.Serving.{serve-IsWindow}
use file_transfer_program.Tests.Samples.{fresh, fresh-IsWindow, zeros}

abbrev junk : Parcel
junk = record { count = 0; destination = 0; buffer = [] }

-- The first packet is held back, the second goes on and takes it along, and the third is dropped.
abbrev traffic : List Round
traffic =
    arrives 1 (7 ∷ []) true false false false
    ∷ idle false
    ∷ arrives 1 (8 ∷ []) false false false false
    ∷ arrives 2 (9 ∷ []) false true false false
    ∷ []

run-perm_example :
    let r = Router.start junk in
    Perm (kept (Router.run traffic r) ++ all_lost traffic r) (kept r ++ all_arrived traffic r)
run-perm_example = run-perm traffic (Router.start junk)

serve-IsWindow_example : Post (λ _. IsWindow) IsWindow (serve zeros 2 fresh)
serve-IsWindow_example = serve-IsWindow zeros 2 fresh fresh-IsWindow

start-put_never_succeeds_example :
    Post
      (λ _ _. ⊥)
      IsWindow
      (Client.start zeros true 7 (codes "a") (codes "put") (codes "host") fresh)
start-put_never_succeeds_example =
    start-put_never_succeeds zeros true 7 (codes "a") (codes "host") fresh fresh-IsWindow
      (λ _. refl)

-- A packet of host 1 is held back.
abbrev holding : Router.Router
holding = record {
  empty = false;
  file_buf = record { count = 4; destination = 2; buffer = 7 ∷ [] };
  count1 = 5;
  count2 = 0;
  wait_count = 1;
  delivered = [];
}

run-idle_example : Flushed holding (Router.run (idle false ∷ idle false ∷ idle false ∷ []) holding)
run-idle_example = run-idle holding refl
