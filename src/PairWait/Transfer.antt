-- ===== src/PairWait/Transfer.antt =====
-- The bytes of a file, as both programs receive them: while more than 260 bytes are left they come in pairs of
-- packets, and the rest in one.
use file_transfer_program.Base.{ℕ, zero, suc, ◌-◌, true, false, Option, none, some, List, take, ltb}
use file_transfer_program.Run.{◌>>=◌, ◌>>◌, pure, stop, modify}
use file_transfer_program.StopWait.State.{data_length, Udppacket}
use file_transfer_program.StopWait.Transfer.{append_file}
use file_transfer_program.PairWait.State.{M, on_base}

-- `stale` is what the caller reads in the buffer that `udprecv` had on its stack.
module _ (stale : List ℕ → List ℕ) (pair : M (Option (List ℕ))) (last : M Udppacket) where
  -- `while (fsize > 0)`
  unfoldable pub recv_pairs : ℕ → ℕ → List ℕ → M (Unit {0})
  recv_pairs zero left name = stop
  recv_pairs (suc fuel) zero name = pure tt
  recv_pairs (suc fuel) (suc left) name = elim (ltb data_length (suc left)) [
    | true ↦ do
      buffer ← pair
      elim buffer [
        | none ↦ recv_pairs fuel (suc left) name
        | some bytes ↦ do
          modify (on_base (append_file name (stale bytes)))
          recv_pairs fuel (suc left - data_length) name
      ]
    | false ↦ do p ← last; modify (on_base (append_file name (take (suc left) p.payload)))
  ]
