-- ===== src/BatchProcessor/Requests.antt =====
-- The requests for proofs of api/src/batch_processor.rs: what is asked, and what becomes of the answer.
use Prim.Native.String.{String}
use demo_vapp.Prelude.{ℕ, false, wrap_i32}
use demo_vapp.Batches.{ProofBatch, ProofStatus}
use demo_vapp.Batches.Queue.{Transactions, amounts}
use demo_vapp.Proof.{
  JobStatus, ProofSystem, ProofGenerationRequest, ProofResult, returns, fails,
  ProofGenerationResponse,
}
use demo_vapp.BatchProcessor.Monitor.{
  Services, status_of, error_id, ProofOutcome, submitted, job_failed, request_failed,
}
use demo_vapp.BatchProcessor.Phases.{with_proof}

-- The request for the proof of a row with the transactions `ts`.
abbrev pub asked : ProofBatch → Transactions → ProofGenerationRequest
asked b ts = record {
  initial_balance = wrap_i32 b.previous_counter_value;
  transactions = amounts ts;
  proof_system = ProofSystem.groth16;
  generate_fixtures = false;
}

module _ (decimal : ℕ → String) (services : Services) where
  -- A row after the answer to its request.
  abbrev pub answered : ProofResult ProofGenerationResponse → ProofBatch → ProofBatch
  answered (returns r) b = with_proof r.proof_id (status_of r.status) b
  answered (fails e) b = with_proof (error_id decimal services b.id) ProofStatus.failed b

-- What generate_proof_for_batch reports of an answer.
abbrev pub reported : ProofResult ProofGenerationResponse → ProofOutcome
reported (fails e) = request_failed
reported (returns r) = elim r.status [ JobStatus.failed ↦ job_failed | _ ↦ submitted ]
