-- ===== src/Proof/Tests.antt =====
-- A job that is ready at the third poll, and its proof of a balance that goes from 0 to 5.
use demo_vapp.Prelude.{
  ℕ, ◌≡◌, ◌↔◌, refl, true, Option, none, some, List, [], ◌∷◌, replicate, is_some, if◌then◌else◌,
  ◌==◌, ℤ, pos, arith,
}
use demo_vapp.Proof.{
  JobStatus, Sp1Proof, ProofInfoResponse, ProofVerificationRequest, ProofVerificationResponse,
  Sp1ArithmeticProofFixture, returns, verify_sindri_proof, wait_for_proof_ready, create_evm_fixture,
  poll_until_ready,
}
use demo_vapp.Proof.Verification.{IsProven, verify_sindri_proof_iff}
use demo_vapp.Proof.Waiting.{wait_for_proof_ready-ends, wait_for_proof_ready-Decides, job_ready}
use demo_vapp.Proof.Fixtures.{IsMadeFrom, create_evm_fixture-IsMadeFrom}

abbrev proof : Sp1Proof
proof = record { public_values = 0 ∷ 5 ∷ []; bytes = 1 ∷ 2 ∷ 3 ∷ [] }

abbrev job : JobStatus → ProofInfoResponse
job status = record {
  proof_id = "proof";
  status = status;
  sp1_proof = some proof;
  sp1_verifying_key = some (replicate 32 7);
  verifies_locally = true;
}

-- Two bytes, for the two balances.
abbrev two_bytes : List ℕ → Option (ℤ × ℤ)
two_bytes (a ∷ b ∷ []) = some (pos a, pos b)
two_bytes _ = none

abbrev request : ProofVerificationRequest
request = record {
  proof_id = "proof";
  expected_initial_balance = pos 0;
  expected_final_balance = pos 5;
}

verify_sindri_proof_iff_example :
    ((r : ProofVerificationResponse) × (verify_sindri_proof two_bytes request
          (some (job JobStatus.ready))
        ≡ returns r)
      × (r.is_valid ≡ true))
    ↔ IsProven two_bytes request (some (job JobStatus.ready))
verify_sindri_proof_iff_example =
    verify_sindri_proof_iff two_bytes request (some (job JobStatus.ready))

abbrev third : ℕ → Option ProofInfoResponse
third n = some (job (if n == 2 then JobStatus.ready else JobStatus.unfinished))

abbrev never : ℕ → Option ProofInfoResponse
never n = some (job JobStatus.unfinished)

wait_for_proof_ready-ends_example : is_some (wait_for_proof_ready never 13 60) ≡ true
wait_for_proof_ready-ends_example = wait_for_proof_ready-ends never 60 13 (omega arith)

wait_for_proof_ready-Decides_example :
    wait_for_proof_ready third 13 60 ≡ some (returns (job JobStatus.ready))
wait_for_proof_ready-Decides_example =
    wait_for_proof_ready-Decides third 60 13 2 (returns (job JobStatus.ready)) (omega arith)
      (omega arith) (λ i below. (job JobStatus.unfinished, ground arith, refl))
      (job_ready (job JobStatus.ready) refl refl)

abbrev fixture : Sp1ArithmeticProofFixture
fixture = record {
  initial_balance = pos 0;
  final_balance = pos 5;
  vkey = replicate 32 7;
  public_values = 0 ∷ 5 ∷ [];
  proof = 1 ∷ 2 ∷ 3 ∷ [];
}

fixture_made : create_evm_fixture third (job JobStatus.unfinished) (pos 0) (pos 5) ≡ returns fixture
unfolding create_evm_fixture poll_until_ready
fixture_made = refl

create_evm_fixture-IsMadeFrom_example :
    IsMadeFrom third (job JobStatus.unfinished) (pos 0) (pos 5) fixture
create_evm_fixture-IsMadeFrom_example =
    create_evm_fixture-IsMadeFrom third (job JobStatus.unfinished) (pos 0) (pos 5) fixture
      fixture_made
