-- ===== src/BatchProcessor/Monitor.antt =====
-- The monitor of api/src/batch_processor.rs: the three phases of a cycle over the table of batches. A task that the
-- first two phases spawn is left in a list until it finishes, which may be before a later phase, in a later
-- cycle, or never; it then makes its request, from columns that never change, and stores the answer. What Sindri
-- and the contract answer within a cycle, which tasks finish, and whether the mark of a posted batch can be
-- written are arguments, as are the printing of numbers and keccak.
use mathlib.Core.Bool.{not}
use Prim.Native.String
use Prim.Native.String.{String, count}
use text.Mathlib.Text.{starts_with, ◌==◌}
use demo_vapp.Prelude.{
  ℕ, zero, suc, Bool, true, false, ◌&&◌, ◌||◌, Option, none, some, List, [], ◌∷◌, ◌++◌, ltb,
  if◌then◌else◌, take, ℤ, wrap_i32,
}
use demo_vapp.Hashing.{Hash}
use demo_vapp.Error.{Result, ok, err}
use demo_vapp.Batches.{ProofBatch, ProofStatus, Store, get_batch_by_id}
use demo_vapp.Batches.Contract.{
  update_batch_proof, amounts_of, eq_ℤ, get_proven_unposted_batches, mark_batch_posted_to_contract,
}
use demo_vapp.Proof.{
  JobStatus, ProofSystem, ProofInfoResponse, ProofGenerationRequest, ProofGenerationResponse,
  ProofResult, returns, fails, SindriProofData, generate_batch_proof, get_sindri_proof_info,
  get_sindri_proof_data, expected_final,
}

-- LIKE 'failed_%' and LIKE 'error_%': after the word, at least one more character.
abbrev pub is_like : String → ℕ → String → Bool
is_like word size s = starts_with s word && ltb size (count s)

abbrev pub is_missing_id : Option String → Bool
is_missing_id none = true
is_missing_id (some s) = (s == "") || (is_like "failed" 6 s || is_like "error" 5 s)

abbrev pub is_pending : ProofBatch → Bool
is_pending b = elim b.proof_status [ ProofStatus.pending ↦ true | _ ↦ false ]

abbrev pub selected : (ProofBatch → Bool) → List ProofBatch → List ProofBatch
selected test [] = []
selected test (b ∷ bs) = if test b then b ∷ selected test bs else selected test bs

abbrev pub misses_proof : ProofBatch → Bool
misses_proof b = is_missing_id b.sindri_proof_id

abbrev pub awaits_proof : ProofBatch → Bool
awaits_proof b = is_pending b && not (is_missing_id b.sindri_proof_id)

abbrev pub status_of : JobStatus → ProofStatus
status_of JobStatus.ready = ProofStatus.proven
status_of JobStatus.failed = ProofStatus.failed
status_of JobStatus.unfinished = ProofStatus.pending

-- A call of the contract's `update_state`.
pub record Submission : Type 0 where
  pub batch_id : ℕ
  pub state_id : Hash
  pub new_state_root : Hash
  pub proof : List ℕ
  pub public_values : List ℕ

-- What the Ethereum client's `update_state` reports: the transaction has not been sent; it has been sent, but its
-- receipt or the cache's entry failed; all is well.
pub data UpdateResult : Type 0 where
  not_sent unconfirmed confirmed : UpdateResult

-- A call that has been sent, and whether its batch has been marked for it.
pub record Sent : Type 0 where
  pub call : Submission
  pub settled : Bool

pub data Task : Type 0 where
  submission : ℕ → Task
  check : ℕ → String → Task

-- What happens within one cycle. `contract` is none where the client cannot be made. `early` and `late` are the tasks,
-- by their places in the list, that finish before the second and the third phase.
pub record Services : Type 0 where
  pub api_key : Option String
  pub prove_circuit : ProofGenerationRequest → Option ProofInfoResponse
  pub get_proof : String → Option ProofInfoResponse
  pub contract : Option (Submission → UpdateResult)
  pub marks : ℕ → Bool
  pub early : List ℕ
  pub late : List ℕ

-- The database, the tasks that have not finished, and the calls that have been sent.
pub record Monitor : Type 0 where
  pub store : Store
  pub tasks : List Task
  pub calls : List Sent

abbrev pub spawn_submissions : List ProofBatch → List Task
spawn_submissions [] = []
spawn_submissions (b ∷ bs) = submission b.id ∷ spawn_submissions bs

abbrev pub check_of : ℕ → Option String → List Task
check_of id none = []
check_of id (some proof_id) = check id proof_id ∷ []

abbrev pub spawn_checks : List ProofBatch → List Task
spawn_checks [] = []
spawn_checks (b ∷ bs) = check_of b.id b.sindri_proof_id ++ spawn_checks bs

-- Phase 1
unfoldable pub submit_missing_proofs : Monitor → Monitor
submit_missing_proofs c = record c {
  tasks = c.tasks ++ spawn_submissions (take 5 (selected misses_proof c.store.batches));
}

-- Phase 2
unfoldable pub update_proof_statuses : Monitor → Monitor
update_proof_statuses c = record c {
  tasks = c.tasks ++ spawn_checks (take 10 (selected awaits_proof c.store.batches));
}

abbrev pub task_at : ℕ → List Task → Option Task
task_at n [] = none
task_at zero (t ∷ ts) = some t
task_at (suc n) (t ∷ ts) = task_at n ts

abbrev pub without : ℕ → List Task → List Task
without n [] = []
without zero (t ∷ ts) = ts
without (suc n) (t ∷ ts) = t ∷ without n ts

abbrev pub request_for : ProofBatch → Store → ProofGenerationRequest
request_for b s = record {
  initial_balance = wrap_i32 b.previous_counter_value;
  transactions = amounts_of b.transaction_ids s.transactions;
  proof_system = ProofSystem.groth16;
  generate_fixtures = false;
}

-- What generate_proof_for_batch reports.
pub data ProofOutcome : Type 0 where
  submitted no_batch sum_mismatch job_failed request_failed : ProofOutcome

module _ (decimal : ℕ → String) (services : Services) where
  abbrev pub error_id : ℕ → String
  error_id id = String.◌++◌ "error_" (decimal id)

  -- The answer to a request is stored at once.
  abbrev pub store_submission : ℕ → ProofResult ProofGenerationResponse → Store → Store
  store_submission id (returns r) s = (update_batch_proof id r.proof_id (status_of r.status) s).1
  store_submission id (fails e) s = (update_batch_proof id (error_id id) ProofStatus.failed s).1

  abbrev pub answer_for : ProofBatch → Store → ProofResult ProofGenerationResponse
  answer_for b s = generate_batch_proof services.api_key services.prove_circuit (request_for b s)

  unfoldable pub submit_proof_fast : ℕ → Store → Store
  submit_proof_fast id s = elim (get_batch_by_id id s).0 [
    | err e ↦ s
    | ok b ↦ store_submission id (answer_for b s) s
  ]

  -- Only a status that has changed is stored.
  abbrev pub store_status : ℕ → String → JobStatus → Store → Store
  store_status id proof_id JobStatus.unfinished s = s
  store_status id proof_id status s = (update_batch_proof id proof_id (status_of status) s).1

  abbrev pub store_answer : ℕ → String → ProofResult ProofInfoResponse → Store → Store
  store_answer id proof_id (fails e) s = s
  store_answer id proof_id (returns info) s = store_status id proof_id info.status s

  unfoldable pub check_and_update_proof_status : ℕ → String → Store → Store
  check_and_update_proof_status id proof_id s =
      store_answer id proof_id (get_sindri_proof_info (services.get_proof proof_id)) s

  abbrev pub run_task : Task → Store → Store
  run_task (submission id) s = submit_proof_fast id s
  run_task (check id proof_id) s = check_and_update_proof_status id proof_id s

  abbrev pub finish_task : ℕ → Option Task → Monitor → Monitor
  finish_task n none c = c
  finish_task n (some t) c = record c { store = run_task t c.store; tasks = without n c.tasks }

  abbrev pub finish_tasks : List ℕ → Monitor → Monitor
  finish_tasks [] c = c
  finish_tasks (n ∷ ns) c = finish_tasks ns (finish_task n (task_at n c.tasks) c)

  unfoldable pub generate_proof_for_batch : ℕ → Store → ProofOutcome × Store
  generate_proof_for_batch id s = elim (get_batch_by_id id s).0 [
    | err e ↦ (no_batch, s)
    | ok b ↦
        let request = request_for b s in
        if eq_ℤ (expected_final request.initial_balance request.transactions)
          (wrap_i32 b.final_counter_value)
        then elim (answer_for b s) [
          | fails e ↦ (request_failed, store_submission id (fails e) s)
          | returns r ↦ (
            elim r.status [ JobStatus.failed ↦ job_failed | _ ↦ submitted ],
            store_submission id (returns r) s,
          )
        ]
        else (sum_mismatch, s)
  ]

module _ (decimal : ℤ → String) (decimal_id : ℕ → String) (keccak256 : String → Hash)
    (services : Services) where
  abbrev pub call_for : ProofBatch → SindriProofData → Submission
  call_for b data_of = record {
    batch_id = b.id;
    state_id = keccak256 (String.◌++◌ "batch_" (decimal_id b.id));
    new_state_root = keccak256 (String.◌++◌ "state_root_" (decimal b.final_counter_value));
    proof = data_of.proof_bytes;
    public_values = data_of.public_values;
  }

  abbrev pub sent_call : Submission → UpdateResult → Option (Submission × UpdateResult)
  sent_call call not_sent = none
  sent_call call unconfirmed = some (call, unconfirmed)
  sent_call call confirmed = some (call, confirmed)

  -- The call that is sent, if any, and what is reported of it.
  unfoldable pub submit_batch_to_contract :
      (Submission → UpdateResult) → ProofBatch → Option (Submission × UpdateResult)
  submit_batch_to_contract update_state b = elim b.sindri_proof_id [
    | none ↦ none
    | some proof_id ↦ elim (get_sindri_proof_data proof_id (services.get_proof proof_id)) [
      | fails e ↦ none
      | returns data_of ↦ sent_call (call_for b data_of) (update_state (call_for b data_of))
    ]
  ]

  -- Only a call that is reported as confirmed has its batch marked, where the mark can be written.
  abbrev pub after_call : ℕ → Option (Submission × UpdateResult) → Monitor → Monitor
  after_call id (some (call, confirmed)) c =
      if services.marks id
      then record c {
        store = (mark_batch_posted_to_contract id c.store).1;
        calls = c.calls ++ record { call = call; settled = true } ∷ [];
      }
      else record c { calls = c.calls ++ record { call = call; settled = false } ∷ [] }
  after_call id (some (call, _)) c = record c {
    calls = c.calls ++ record { call = call; settled = false } ∷ [];
  }
  after_call id none c = c

  abbrev pub post_each : (Submission → UpdateResult) → List ProofBatch → Monitor → Monitor
  post_each update_state [] c = c
  post_each update_state (b ∷ bs) c =
      post_each update_state bs (after_call b.id (submit_batch_to_contract update_state b) c)

  abbrev pub post_batches :
      Option (Submission → UpdateResult) → Result (List ProofBatch) → Monitor → Monitor
  post_batches contract (err e) c = c
  post_batches none (ok bs) c = c
  post_batches (some update_state) (ok bs) c = post_each update_state bs c

  -- Phase 3
  unfoldable pub post_proven_batches_to_contract : Monitor → Monitor
  post_proven_batches_to_contract c =
      post_batches services.contract (get_proven_unposted_batches (some 5) c.store).0 c

  -- One turn of run_batch_monitor_service.
  unfoldable pub monitor_cycle : Monitor → Monitor
  monitor_cycle c =
      let first = finish_tasks decimal_id services services.early (submit_missing_proofs c) in
      let second = finish_tasks decimal_id services services.late (update_proof_statuses first) in
      post_proven_batches_to_contract second

-- The turns of the loop, each with what happens in it.
unfoldable pub run_batch_monitor_service :
    (ℤ → String) → (ℕ → String) → (String → Hash) → List Services → Monitor → Monitor
run_batch_monitor_service decimal decimal_id keccak256 [] c = c
run_batch_monitor_service decimal decimal_id keccak256 (services ∷ later) c =
    run_batch_monitor_service decimal decimal_id keccak256 later
      (monitor_cycle decimal decimal_id keccak256 services c)
