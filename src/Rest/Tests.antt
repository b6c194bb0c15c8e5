-- ===== src/Rest/Tests.antt =====
-- A request that calls the batch 1, with 20 and -15, proven; and four requests on a queue that holds 5.
use Prim.Native.String.{String}
use text.Mathlib.Text.{◌==◌}
use demo_vapp.Prelude.{
  ℕ, ◌≤◌, false, none, some, List, [], ◌∷◌, Option, replicate, if◌then◌else◌, ℤ, pos, negsuc, arith,
}
use demo_vapp.Batches.{ProofBatch, ProofStatus, Store}
use demo_vapp.Samples.Queue.{queued, queued-IsValid}
use demo_vapp.Samples.Services.{config, roots, service}
use demo_vapp.Samples.{toy_sha}
use demo_vapp.Batches.Counter.{IsValid}
use demo_vapp.Hashing.{Hash}
use demo_vapp.UnifiedBatchService.{as_usize}
use demo_vapp.Rest.{ApiState, clamped_size}
use demo_vapp.Rest.Requests.{Request, submit, create, update, trigger, serve_all, serve_all-IsValid}
use demo_vapp.Rest.Endpoints.{clamped_size-bounds}

clamped_size-bounds_example :
    (1 ≤ as_usize (clamped_size (some (negsuc 4)) 100))
    × (as_usize (clamped_size (some (negsuc 4)) 100) ≤ 100)
clamped_size-bounds_example =
    clamped_size-bounds (some (negsuc 4)) 100 (ground arith) (ground arith)

abbrev row : ProofBatch
row = record {
  id = 1;
  previous_counter_value = pos 0;
  final_counter_value = pos 5;
  transaction_ids = 1 ∷ 2 ∷ [];
  sindri_proof_id = none;
  proof_status = ProofStatus.pending;
  posted_to_contract = false;
}

abbrev table : Store
table = record {
  transactions =
      record { id = 1; amount = pos 20; included_in_batch_id = some 1 }
      ∷ record { id = 2; amount = negsuc 14; included_in_batch_id = some 1 }
      ∷ [];
  batches = row ∷ [];
  commits = [];
  next_transaction = 3;
  next_batch = 2;
  next_commit = 1;
}

abbrev state : ApiState
state = record {
  config = record { server_name = "api"; version = "1"; max_batch_size = 50 };
  world = record { store = table; ads = service };
  batch_processor = none;
  proof_tasks = [];
}

abbrev at_start : ApiState
at_start = record state { world = record { store = queued; ads = service } }

abbrev root : List ℕ
root = replicate 32 171

abbrev decode_ab : String → Option (List ℕ)
decode_ab text = if text == "ab" then some root else none

abbrev digest : List ℕ → Hash
digest m = 29 ∷ replicate 31 0

abbrev midnight : ℕ → ℤ
midnight id = pos 0

abbrev requests : List Request
requests =
    submit (negsuc 14)
    ∷ create none
    ∷ update 1 (record { sindri_proof_id = "job"; status = "failed"; merkle_root = none })
    ∷ trigger
    ∷ []

serve_all-IsValid_example :
    IsValid (serve_all toy_sha roots config digest midnight decode_ab requests at_start).world.store
serve_all-IsValid_example =
    serve_all-IsValid toy_sha roots config digest midnight decode_ab requests at_start
      queued-IsValid
