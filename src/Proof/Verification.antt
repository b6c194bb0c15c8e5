-- ===== src/Proof/Verification.antt =====
-- What a positive verification means (verify_sindri_proof of lib/src/proof.rs).
use mathlib.Core.Bool.{false≢true}
use demo_vapp.Prelude.{
  ℕ, ◌≡◌, ◌∙◌, refl, ap, ◌↔◌, Bool, true, false, Option, none, some, List, inl, inr, ℤ, pos, negsuc,
  arith, &&-true, Bool-cases,
}
use demo_vapp.Hashing.{Hash}
use demo_vapp.Batches.Contract.{eq_ℤ}
use demo_vapp.Proof.{
  JobStatus, Sp1Proof, ProofInfoResponse, ProofVerificationRequest, ProofVerificationResponse,
  ProofResult, returns, fails, verify_sindri_proof, verified, decoded, compared, is_ready,
}

pub eq_ℤ_sound : (a b : ℤ) → eq_ℤ a b ≡ true → a ≡ b
eq_ℤ_sound (pos n) (pos m) h = ground arith
eq_ℤ_sound (pos n) (negsuc m) h = cc
eq_ℤ_sound (negsuc n) (pos m) h = cc
eq_ℤ_sound (negsuc n) (negsuc m) h = ground arith

pub eq_ℤ_refl : (a : ℤ) → eq_ℤ a a ≡ true
eq_ℤ_refl (pos n) = ground arith
eq_ℤ_refl (negsuc n) = ground arith

-- A job that is done, whose proof verifies and decodes to the balances that the request expects.
pub record IsProven (abi_decode : List ℕ → Option (ℤ × ℤ)) (request : ProofVerificationRequest)
    (answer : Option ProofInfoResponse) : Type 0 where
  pub info : ProofInfoResponse
  pub proof : Sp1Proof
  pub key : Hash
  pub answered : answer ≡ some info
  pub done : info.status ≡ JobStatus.ready
  pub has_proof : info.sp1_proof ≡ some proof
  pub has_key : info.sp1_verifying_key ≡ some key
  pub verifies : info.verifies_locally ≡ true
  pub balances :
      abi_decode proof.public_values
      ≡ some (request.expected_initial_balance, request.expected_final_balance)

pub ready_status : (s : JobStatus) → is_ready s ≡ true → s ≡ JobStatus.ready
ready_status JobStatus.ready h = refl
ready_status JobStatus.failed h = absurd (false≢true h)
ready_status JobStatus.unfinished h = absurd (false≢true h)

module _ (abi_decode : List ℕ → Option (ℤ × ℤ)) (request : ProofVerificationRequest) where
  abbrev pub Accepts : Option ProofInfoResponse → Type 0
  Accepts answer =
      (r : ProofVerificationResponse) × (verify_sindri_proof abi_decode request answer ≡ returns r)
      × (r.is_valid ≡ true)

  accepted :
      (answer : Option ProofInfoResponse) → IsProven abi_decode request answer → Accepts answer
  unfolding verify_sindri_proof
  accepted answer p = (
    compared request request.expected_initial_balance request.expected_final_balance,
    ground (arith, p.answered, p.done, p.has_proof, p.has_key, p.verifies, p.balances),
    ground (
      arith,
      eq_ℤ_refl request.expected_initial_balance,
      eq_ℤ_refl request.expected_final_balance,
    ),
  )

  -- What a result says of the proof.
  abbrev says_valid : ProofResult ProofVerificationResponse → Bool
  says_valid (fails e) = false
  says_valid (returns r) = r.is_valid

  from_decoded :
      (o : Option (ℤ × ℤ))
      → says_valid (decoded abi_decode request o) ≡ true
      → o ≡ some (request.expected_initial_balance, request.expected_final_balance)
  from_decoded none h = absurd (false≢true h)
  from_decoded (some (i, f)) h =
      let both =
        &&-true (eq_ℤ i request.expected_initial_balance) (eq_ℤ f request.expected_final_balance)
          h in
      rw (eq_ℤ_sound i request.expected_initial_balance both.0)
        (rw (eq_ℤ_sound f request.expected_final_balance both.1) refl)

  from_verified :
      (info : ProofInfoResponse) (proof : Option Sp1Proof) (key : Option Hash)
      → says_valid (verified abi_decode request info proof key) ≡ true
      → (p : Sp1Proof) × (k : Hash) × (proof ≡ some p)
        × (key ≡ some k)
        × (info.verifies_locally ≡ true)
        × (abi_decode p.public_values
            ≡ some (request.expected_initial_balance, request.expected_final_balance))
  from_verified info none key h = absurd (false≢true h)
  from_verified info (some p) none h = absurd (false≢true h)
  from_verified info (some p) (some k) h = elim (Bool-cases info.verifies_locally) [
    | inl good ↦
        (p, k, refl, refl, good, from_decoded (abi_decode p.public_values) (ground (arith, good)))
    | inr bad ↦ absurd (ground (arith, bad))
  ]

  from_answer :
      (answer : Option ProofInfoResponse)
      → says_valid (verify_sindri_proof abi_decode request answer) ≡ true
      → IsProven abi_decode request answer
  unfolding verify_sindri_proof
  from_answer none h = absurd (false≢true h)
  from_answer (some info) h = elim (Bool-cases (is_ready info.status)) [
    | inl good ↦
        let (p, k, has_proof, has_key, verifies, balances) =
          from_verified info info.sp1_proof info.sp1_verifying_key (ground (arith, good)) in
        record {
          info = info;
          proof = p;
          key = k;
          answered = refl;
          done = ready_status info.status good;
          has_proof = has_proof;
          has_key = has_key;
          verifies = verifies;
          balances = balances;
        }
    | inr bad ↦ absurd (ground (arith, bad))
  ]

  -- A verification comes out as valid exactly when the service answers with a finished job whose proof and
  -- key can be read and verify together, and the public values decode to the two balances that the
  -- request expects.
  pub verify_sindri_proof_iff :
      (answer : Option ProofInfoResponse)
      → ((r : ProofVerificationResponse) × (verify_sindri_proof abi_decode request answer
            ≡ returns r)
          × (r.is_valid ≡ true))
        ↔ IsProven abi_decode request answer
  verify_sindri_proof_iff answer =
      (λ a. from_answer answer (ap says_valid a.1 ∙ a.2), accepted answer)
