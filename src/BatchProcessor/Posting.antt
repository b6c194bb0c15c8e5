-- ===== src/BatchProcessor/Posting.antt =====
-- Any number of cycles of the monitor of api/src/batch_processor.rs: how often a batch is sent to the contract, and
-- a batch whose job has failed.
use Prim.Native.String.{String}
use demo_vapp.Prelude.{ℕ, ◌≡◌, false, some, List, [], ◌∷◌, ℤ, arith}
use demo_vapp.Hashing.{Hash}
use demo_vapp.Batches.{ProofBatch, ProofStatus, Store, find_batch}
use demo_vapp.BatchProcessor.Monitor.{
  Services, Task, Monitor, is_missing_id, monitor_cycle, run_batch_monitor_service,
}
use demo_vapp.BatchProcessor.Table.{AreDistinct}
use demo_vapp.BatchProcessor.Calls.{IsSafe, IsStuck}
use demo_vapp.BatchProcessor.Cycle.{cycle-IsSafe}
use demo_vapp.BatchProcessor.Stuck.{HasNone, IsLeft, cycle-Found}

-- A monitor that has sent no calls, with tasks that are under way.
abbrev pub begun : Store → List Task → Monitor
begun s tasks = record { store = s; tasks = tasks; calls = [] }

module _ (decimal : ℤ → String) (decimal_id : ℕ → String) (keccak256 : String → Hash) where
  leaves :
      (cycles : List Services) (c : Monitor) (id : ℕ) (b : ProofBatch)
      → IsSafe c
      → IsLeft id b c
      → IsStuck b
      → find_batch id
          (run_batch_monitor_service decimal decimal_id keccak256 cycles c).store.batches
        ≡ some b
  unfolding run_batch_monitor_service
  leaves [] c id b s left stuck = left.there
  leaves (services ∷ later) c id b s left stuck =
      let safe_after = cycle-IsSafe decimal decimal_id keccak256 services c s in
      let found = cycle-Found decimal decimal_id keccak256 services id b c stuck left in
      leaves later (monitor_cycle decimal decimal_id keccak256 services c) id b safe_after
        (record { rows = safe_after.0; there = found.0; no_task = found.1 }) stuck

  -- A batch with the status of a failed job and the id of that job, for which no task is under way, is left as it
  -- is by any number of cycles, whatever is answered in them and whichever tasks finish: its proof is not asked
  -- for again, and it is never posted.
  pub run_batch_monitor_service-stuck :
      (cycles : List Services) (s : Store) (tasks : List Task) (id : ℕ) (b : ProofBatch)
      → AreDistinct s.batches
      → find_batch id s.batches ≡ some b
      → HasNone id tasks
      → b.proof_status ≡ ProofStatus.failed
      → is_missing_id b.sindri_proof_id ≡ false
      → find_batch id
          (run_batch_monitor_service decimal decimal_id keccak256 cycles
            (begun s tasks)).store.batches
        ≡ some b
  run_batch_monitor_service-stuck cycles s tasks id b d there unasked failed real =
      leaves cycles (begun s tasks) id b (d, λ i. omega arith)
        (record { rows = d; there = there; no_task = unasked })
        (real, ground (arith, failed), ground (arith, failed))
