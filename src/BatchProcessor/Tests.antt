-- ===== src/BatchProcessor/Tests.antt =====
-- A processor over an empty queue, its timer at work, and tables of two batches.
use Prim.Native.String.{String}
use demo_vapp.Prelude.{
  ℕ, ◌+◌, ◌*◌, ◌≤◌, ◌≡◌, refl, true, false, none, some, List, [], ◌∷◌, ℤ, pos, replicate, arith,
}
use demo_vapp.Hashing.{Hash}
use demo_vapp.Samples.{toy_sha}
use demo_vapp.Samples.Queue.{empty, empty-IsValid, first, queued}
use demo_vapp.Samples.Services.{config, roots, service}
use demo_vapp.Batches.{ProofBatch, ProofStatus, Store, find_batch}
use demo_vapp.Batches.Counter.{IsValid}
use demo_vapp.Proof.{JobStatus, ProofInfoResponse}
use demo_vapp.BatchProcessor.Kinds.{pulls_in}
use demo_vapp.BatchProcessor.{
  default_config, no_stats, Processor, Trigger, Event, ticked, slept, received, submitted,
  trigger_batch, run,
}
use demo_vapp.BatchProcessor.Triggers.{AreCounted, run-AreCounted, run-IsValid}
use demo_vapp.BatchProcessor.Rate.{end_of, run-rate}
use demo_vapp.BatchProcessor.Monitor.{Services, UpdateResult, run_batch_monitor_service}
use demo_vapp.BatchProcessor.Posting.{begun, run_batch_monitor_service-stuck}

abbrev digest : List ℕ → Hash
digest m = 29 ∷ replicate 31 0

abbrev midnight : ℕ → ℤ
midnight id = pos 0

abbrev idle : Processor
idle = record {
  config = default_config;
  stats = no_stats;
  last_batch_time = 0;
  stopped = false;
  world = record { store = empty; ads = service };
}

-- A transaction comes in, and the timer and the sleep find it.
abbrev events : List Event
events =
    record { kind = submitted (pos 5); now = 1000; after = 1000 }
    ∷ record { kind = ticked; now = 60000; after = 60100 }
    ∷ record { kind = slept; now = 70000; after = 70000 }
    ∷ record { kind = received trigger_batch; now = 71000; after = 71000 }
    ∷ []

run-AreCounted_example :
    let q = run toy_sha roots config digest midnight events idle in
    AreCounted 0 q
    × (q.stats.timer_triggers ≤ 0 + pulls_in Trigger.timer events)
    × (q.stats.count_triggers ≤ 0 + pulls_in Trigger.count events)
    × (q.stats.manual_triggers ≤ 0 + pulls_in Trigger.manual events)
run-AreCounted_example =
    run-AreCounted toy_sha roots config digest midnight events 0 idle
      (record { by_trigger = refl; at_least = omega arith; at_most = omega arith })

run-IsValid_example :
    let p = run toy_sha roots config digest midnight events idle in IsValid p.world.store
run-IsValid_example = run-IsValid toy_sha roots config digest midnight events idle empty-IsValid

run-rate_example :
    let q = run toy_sha roots config digest midnight events idle in
    0 + (q.stats.timer_triggers + q.stats.count_triggers) * (1000 * 5) ≤ end_of 0 events
run-rate_example = run-rate toy_sha roots config digest midnight 5 0 events idle refl refl refl (
  omega arith,
  omega arith,
  tt,
  (
    omega arith,
    omega arith,
    tt,
    (omega arith, omega arith, tt, (omega arith, omega arith, tt, tt)),
  ),
)

-- A batch that waits for its proof, and one whose job has failed.
abbrev waiting : ProofBatch
waiting = record {
  id = 1;
  previous_counter_value = pos 0;
  final_counter_value = pos 5;
  transaction_ids = 1 ∷ [];
  sindri_proof_id = none;
  proof_status = ProofStatus.pending;
  posted_to_contract = false;
}

abbrev broken : ProofBatch
broken = record waiting {
  id = 2;
  previous_counter_value = pos 5;
  transaction_ids = [];
  sindri_proof_id = some "job";
  proof_status = ProofStatus.failed;
}

abbrev table : Store
table = record queued {
  transactions = record first { included_in_batch_id = some 1 } ∷ [];
  batches = waiting ∷ broken ∷ [];
  next_batch = 3;
}

abbrev done_job : ProofInfoResponse
done_job = record {
  proof_id = "proof";
  status = JobStatus.ready;
  sp1_proof = some (record { public_values = 0 ∷ 5 ∷ []; bytes = 1 ∷ [] });
  sp1_verifying_key = some (replicate 32 7);
  verifies_locally = true;
}

-- In a cycle the first task finishes before the second phase, and the next one before the third.
abbrev all_ready : Services
all_ready = record {
  api_key = some "key";
  prove_circuit = λ r. some done_job;
  get_proof = λ id. some done_job;
  contract = some (λ c. UpdateResult.confirmed);
  marks = λ id. true;
  early = 0 ∷ [];
  late = 0 ∷ [];
}

-- The receipt of every call is lost.
abbrev no_receipt : Services
no_receipt = record all_ready { contract = some (λ c. UpdateResult.unconfirmed) }

-- Stand-ins for the printing of numbers, and for keccak.
abbrev print : ℤ → String
print a = "0"

abbrev print_id : ℕ → String
print_id n = "0"

abbrev keccak : String → Hash
keccak s = replicate 32 1

abbrev cycles : List Services
cycles = no_receipt ∷ all_ready ∷ all_ready ∷ []

run_batch_monitor_service-stuck_example :
    find_batch 2
      (run_batch_monitor_service print print_id keccak cycles (begun table [])).store.batches
    ≡ some broken
run_batch_monitor_service-stuck_example =
    run_batch_monitor_service-stuck print print_id keccak cycles table [] 2 broken
      (refl, (refl, tt)) refl tt refl refl
