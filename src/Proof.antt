-- ===== src/Proof.antt =====
-- lib/src/proof.rs: the calls of the Sindri service. What the service answers is an argument, `none` where the
-- request itself fails; a poll that is made `n` sleeps later gets the n-th answer. What the methods of its
-- SDK extract from an answer stands in the answer's fields. Texts of errors are constructors.
pub mod Verification
pub mod Waiting
pub mod Fixtures
mod Tests
use mathlib.Core.Bool.{not}
use Prim.Native.String.{String}
use demo_vapp.Prelude.{
  ℕ, zero, suc, ◌+◌, ◌-◌, ◌/◌, Bool, true, false, ◌&&◌, Option, none, some, List, [], ◌∷◌, leb, pos,
  if◌then◌else◌, unwrap_or, ℤ, wrap_i32, ◌+ℤ◌,
}
use demo_vapp.Hashing.{Hash}
use demo_vapp.Batches.Contract.{eq_ℤ}

pub data ProofSystem : Type 0 where
  plonk groth16 : ProofSystem

-- Of the statuses of a job the code tells apart the two that are final.
pub data JobStatus : Type 0 where
  ready failed unfinished : JobStatus

pub record Sp1Proof : Type 0 where
  pub public_values : List ℕ
  pub bytes : List ℕ

-- An answer of the service; the last three are what `to_sp1_proof_with_public`, `get_sp1_verifying_key` and
-- `verify_sp1_proof_locally` return for it.
pub record ProofInfoResponse : Type 0 where
  pub proof_id : String
  pub status : JobStatus
  pub sp1_proof : Option Sp1Proof
  pub sp1_verifying_key : Option Hash
  pub verifies_locally : Bool

pub record ProofGenerationRequest : Type 0 where
  pub initial_balance : ℤ
  pub transactions : List ℤ
  pub proof_system : ProofSystem
  pub generate_fixtures : Bool

pub record ProofGenerationResponse : Type 0 where
  pub proof_id : String
  pub status : JobStatus
  pub proof_info : ProofInfoResponse

pub record ProofVerificationRequest : Type 0 where
  pub proof_id : String
  pub expected_initial_balance : ℤ
  pub expected_final_balance : ℤ

pub record ProofVerificationResponse : Type 0 where
  pub is_valid : Bool
  pub cryptographic_proof_valid : Bool
  pub balances_match_expected : Bool
  pub actual_initial_balance : Option ℤ
  pub actual_final_balance : Option ℤ
  pub expected_initial_balance : ℤ
  pub expected_final_balance : ℤ

pub record SindriProofData : Type 0 where
  pub proof_id : String
  pub proof_bytes : List ℕ
  pub public_values : List ℕ
  pub verifying_key : Hash

pub record Sp1ArithmeticProofFixture : Type 0 where
  pub initial_balance : ℤ
  pub final_balance : ℤ
  pub vkey : Hash
  pub public_values : List ℕ
  pub proof : List ℕ

pub data ProofError : Type 0 where
  serialization_error sindri_error proof_generation_failed verification_failed : ProofError
  public_values_decode_error fixture_generation_error config_error proof_not_ready : ProofError
  io_error : ProofError

pub data ProofResult (A : Type 0) : Type 0 where
  returns : A → ProofResult A
  fails : ProofError → ProofResult A

abbrev pub is_ready : JobStatus → Bool
is_ready JobStatus.ready = true
is_ready _ = false

abbrev pub is_failed : JobStatus → Bool
is_failed JobStatus.failed = true
is_failed _ = false

abbrev pub response_for : ProofInfoResponse → ProofGenerationResponse
response_for info = record { proof_id = info.proof_id; status = info.status; proof_info = info }

-- `get_proof`, and its error.
abbrev pub fetched : Option ProofInfoResponse → ProofResult ProofInfoResponse
fetched none = fails sindri_error
fetched (some info) = returns info

unfoldable pub get_sindri_proof_info : Option ProofInfoResponse → ProofResult ProofInfoResponse
get_sindri_proof_info answer = fetched answer

unfoldable pub is_proof_ready : Option ProofInfoResponse → ProofResult Bool
is_proof_ready answer = elim (get_sindri_proof_info answer) [
  | fails e ↦ fails e
  | returns info ↦ returns (is_ready info.status)
]

unfoldable pub get_sindri_proof_data :
    String → Option ProofInfoResponse → ProofResult SindriProofData
get_sindri_proof_data proof_id answer = elim (get_sindri_proof_info answer) [
  | fails e ↦ fails e
  | returns info ↦
      if not (is_ready info.status) then fails proof_not_ready else elim info.sp1_proof [
        | none ↦ fails sindri_error
        | some proof ↦ elim info.sp1_verifying_key [
          | none ↦ fails sindri_error
          | some key ↦ returns record {
            proof_id = proof_id;
            proof_bytes = proof.bytes;
            public_values = proof.public_values;
            verifying_key = key;
          }
        ]
      ]
]

-- The three responses of a verification: nothing established, a proof that does not verify, and the
-- comparison of the balances.
abbrev pub rejected : ProofVerificationRequest → ProofVerificationResponse
rejected request = record {
  is_valid = false;
  cryptographic_proof_valid = false;
  balances_match_expected = false;
  actual_initial_balance = none;
  actual_final_balance = none;
  expected_initial_balance = request.expected_initial_balance;
  expected_final_balance = request.expected_final_balance;
}

abbrev pub compared : ProofVerificationRequest → ℤ → ℤ → ProofVerificationResponse
compared request initial final =
    let same =
      eq_ℤ initial request.expected_initial_balance && eq_ℤ final request.expected_final_balance in
    record {
      is_valid = true && same;
      cryptographic_proof_valid = true;
      balances_match_expected = same;
      actual_initial_balance = some initial;
      actual_final_balance = some final;
      expected_initial_balance = request.expected_initial_balance;
      expected_final_balance = request.expected_final_balance;
    }

module _ (abi_decode : List ℕ → Option (ℤ × ℤ)) where
  abbrev pub decoded :
      ProofVerificationRequest → Option (ℤ × ℤ) → ProofResult ProofVerificationResponse
  decoded request none = fails public_values_decode_error
  decoded request (some (initial, final)) = returns (compared request initial final)

  abbrev pub verified :
      ProofVerificationRequest
      → ProofInfoResponse
      → Option Sp1Proof
      → Option Hash
      → ProofResult ProofVerificationResponse
  verified request info none key = fails verification_failed
  verified request info (some proof) none = fails verification_failed
  verified request info (some proof) (some key) =
      if not info.verifies_locally
      then returns (rejected request)
      else decoded request (abi_decode proof.public_values)

  unfoldable pub verify_sindri_proof :
      ProofVerificationRequest → Option ProofInfoResponse → ProofResult ProofVerificationResponse
  verify_sindri_proof request answer = elim (fetched answer) [
    | fails e ↦ fails e
    | returns info ↦
        if not (is_ready info.status)
        then returns (rejected request)
        else verified request info info.sp1_proof info.sp1_verifying_key
  ]

abbrev pub max_attempts : ℕ
max_attempts = 60

module _ (answers : ℕ → Option ProofInfoResponse) where
  -- The loop of the two fixture functions on `left` attempts, with the status known so far.
  unfoldable pub poll_until_ready :
      (left : ℕ) → (attempts : ℕ) → ProofInfoResponse → ProofResult ProofInfoResponse
  poll_until_ready zero attempts current =
      if is_ready current.status then returns current else fails fixture_generation_error
  poll_until_ready (suc left) attempts current = elim current.status [
    | JobStatus.ready ↦ returns current
    | JobStatus.failed ↦ fails fixture_generation_error
    | JobStatus.unfinished ↦ elim (answers attempts) [
      | none ↦ fails sindri_error
      | some info ↦ poll_until_ready left (attempts + 1) info
    ]
  ]

  abbrev pub extracted : ℤ → ℤ → ProofInfoResponse → ProofResult Sp1ArithmeticProofFixture
  extracted initial final info = elim info.sp1_proof [
    | none ↦ fails fixture_generation_error
    | some proof ↦ elim info.sp1_verifying_key [
      | none ↦ fails fixture_generation_error
      | some key ↦ returns record {
        initial_balance = initial;
        final_balance = final;
        vkey = key;
        public_values = proof.public_values;
        proof = proof.bytes;
      }
    ]
  ]

  abbrev pub fixture_of :
      ℤ → ℤ → ProofResult ProofInfoResponse → ProofResult Sp1ArithmeticProofFixture
  fixture_of initial final (fails e) = fails e
  fixture_of initial final (returns info) = extracted initial final info

  -- What create_evm_fixture and create_batch_evm_fixture write to their files.
  unfoldable pub create_evm_fixture :
      ProofInfoResponse → ℤ → ℤ → ProofResult Sp1ArithmeticProofFixture
  create_evm_fixture info initial final =
      fixture_of initial final (poll_until_ready max_attempts 0 info)

  -- The loop of wait_for_proof_ready, on fuel: none when it runs out.
  unfoldable pub wait_loop :
      (fuel : ℕ) → (attempts : ℕ) → (max : ℕ) → Option (ProofResult ProofInfoResponse)
  wait_loop zero attempts max = none
  wait_loop (suc fuel) attempts max =
      let rest = wait_loop fuel (attempts + 1) max in
      elim (answers attempts) [
        | none ↦ some (fails sindri_error)
        | some info ↦ elim info.status [
          | JobStatus.ready ↦ some (returns info)
          | JobStatus.failed ↦ some (fails proof_generation_failed)
          | JobStatus.unfinished ↦
              if leb max attempts then some (fails proof_generation_failed) else rest
        ]
      ]

  unfoldable pub wait_for_proof_ready :
      (fuel : ℕ) → (timeout_seconds : ℕ) → Option (ProofResult ProofInfoResponse)
  wait_for_proof_ready fuel timeout_seconds = wait_loop fuel 0 (timeout_seconds / 5)

-- `initial + transactions.iter().sum::<i32>()`, which wraps around in a release build.
unfoldable pub sum_i32 : ℤ → List ℤ → ℤ
sum_i32 acc [] = acc
sum_i32 acc (t ∷ ts) = sum_i32 (wrap_i32 (acc +ℤ t)) ts

unfoldable pub expected_final : ℤ → List ℤ → ℤ
expected_final initial transactions = wrap_i32 (initial +ℤ sum_i32 (pos 0) transactions)

module _ (api_key : Option String)
    (prove_circuit : ProofGenerationRequest → Option ProofInfoResponse) where
  -- A fixture that fails only warns.
  unfoldable pub generate_batch_proof : ProofGenerationRequest → ProofResult ProofGenerationResponse
  generate_batch_proof request = elim api_key [
    | none ↦ fails config_error
    | some key ↦ elim (prove_circuit request) [
      | none ↦ fails sindri_error
      | some info ↦ returns (response_for info)
    ]
  ]

unfoldable pub generate_sindri_proof :
    (ProofGenerationRequest → Option ProofInfoResponse)
    → ProofGenerationRequest
    → ProofResult ProofGenerationResponse
generate_sindri_proof prove_circuit request = elim (prove_circuit request) [
  | none ↦ fails sindri_error
  | some info ↦
      if is_failed info.status then fails proof_generation_failed else returns (response_for info)
]
