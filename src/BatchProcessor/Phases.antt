-- ===== src/BatchProcessor/Phases.antt =====
-- The tasks of the monitor, which store proofs: each changes at most its own row.
use mathlib.Core.Path.{subst}
use Prim.Native.String.{String}
use demo_vapp.Prelude.{ℕ, ◌≡◌, refl, sym, inl, inr, false, none, some, ◌==◌, arith, Option-cases}
use demo_vapp.Batches.{ProofBatch, ProofStatus, Store, find_batch, get_batch_by_id}
use demo_vapp.Batches.Contract.{update_batch_proof}
use demo_vapp.Proof.{
  JobStatus, ProofInfoResponse, ProofResult, returns, fails, ProofGenerationResponse,
  get_sindri_proof_info,
}
use demo_vapp.BatchProcessor.Monitor.{
  Services, status_of, store_submission, answer_for, submit_proof_fast, store_status, run_task,
  Task, submission, check, check_and_update_proof_status, store_answer, error_id,
}
use demo_vapp.BatchProcessor.Table.{
  AreDistinct, find-update_other, AreDistinct-update, posted_mark, posted_mark-update,
}

-- The new state is the old one, or differs in the proof's columns of the row `id`.
pub record ChangesRow (id : ℕ) (s s' : Store) : Type 0 where
  pub rows : AreDistinct s.batches → AreDistinct s'.batches
  pub others : (j : ℕ) → (id == j) ≡ false → find_batch j s'.batches ≡ find_batch j s.batches
  pub transactions : s'.transactions ≡ s.transactions
  pub marks : (j : ℕ) → posted_mark j s'.batches ≡ posted_mark j s.batches

kept : (id : ℕ) (s : Store) → ChangesRow id s s
kept id s = record {
  rows = λ d. d;
  others = λ j other. refl;
  transactions = refl;
  marks = λ j. refl;
}

abbrev pub with_proof : String → ProofStatus → ProofBatch → ProofBatch
with_proof proof_id status b = record b { sindri_proof_id = some proof_id; proof_status = status }

stored :
    (id : ℕ) (proof_id : String) (status : ProofStatus) (s : Store)
    → ChangesRow id s (update_batch_proof id proof_id status s).1
unfolding update_batch_proof
stored id proof_id status s = record {
  rows = AreDistinct-update (with_proof proof_id status) id s.batches (λ b. refl);
  others =
      λ j other. find-update_other (with_proof proof_id status) id j s.batches (λ b. refl) other;
  transactions = refl;
  marks =
      λ j. posted_mark-update (with_proof proof_id status) id j s.batches (λ b. refl) (λ b. refl);
}

-- The row that a task may change.
abbrev pub row_of : Task → ℕ
row_of (submission id) = id
row_of (check id proof_id) = id

module _ (decimal : ℕ → String) (services : Services) where
  stores_submission :
      (id : ℕ) (r : ProofResult ProofGenerationResponse) (s : Store)
      → ChangesRow id s (store_submission decimal services id r s)
  stores_submission id (returns r) s = stored id r.proof_id (status_of r.status) s
  stores_submission id (fails e) s = stored id (error_id decimal services id) ProofStatus.failed s

  submits_nothing :
      (id : ℕ) (s : Store)
      → find_batch id s.batches ≡ none
      → submit_proof_fast decimal services id s ≡ s
  unfolding submit_proof_fast get_batch_by_id
  submits_nothing id s gone = ground (arith, gone)

  pub submits_batch :
      (id : ℕ) (s : Store) (b : ProofBatch)
      → find_batch id s.batches ≡ some b
      → submit_proof_fast decimal services id s
        ≡ store_submission decimal services id (answer_for decimal services b s) s
  unfolding submit_proof_fast get_batch_by_id
  submits_batch id s b there = ground (arith, there)

  pub submits : (id : ℕ) (s : Store) → ChangesRow id s (submit_proof_fast decimal services id s)
  submits id s = elim (Option-cases (find_batch id s.batches)) [
    | inl gone ↦ subst (ChangesRow id s) (sym (submits_nothing id s gone)) (kept id s)
    | inr (b, there) ↦
        subst (ChangesRow id s) (sym (submits_batch id s b there))
          (stores_submission id (answer_for decimal services b s) s)
  ]

  stores_status :
      (id : ℕ) (proof_id : String) (status : JobStatus) (s : Store)
      → ChangesRow id s (store_status decimal services id proof_id status s)
  stores_status id proof_id JobStatus.unfinished s = kept id s
  stores_status id proof_id JobStatus.ready s = stored id proof_id ProofStatus.proven s
  stores_status id proof_id JobStatus.failed s = stored id proof_id ProofStatus.failed s

  stores_answer :
      (id : ℕ) (proof_id : String) (r : ProofResult ProofInfoResponse) (s : Store)
      → ChangesRow id s (store_answer decimal services id proof_id r s)
  stores_answer id proof_id (fails e) s = kept id s
  stores_answer id proof_id (returns info) s = stores_status id proof_id info.status s

  pub task-changes :
      (t : Task) (s : Store) → ChangesRow (row_of t) s (run_task decimal services t s)
  unfolding check_and_update_proof_status
  task-changes (submission id) s = submits id s
  task-changes (check id proof_id) s =
      stores_answer id proof_id (get_sindri_proof_info (services.get_proof proof_id)) s
