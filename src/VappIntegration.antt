-- ===== src/VappIntegration.antt =====
-- db/src/vapp_integration.rs: the service over the tree, with the services that are injected into it as an
-- interface: what each answers is a field, none where it fails. The calls that they have received stand in
-- the state. Ids, durations, JSON inputs of circuits and texts are left out.
pub mod Operations
pub mod Batches
mod Tests
use mathlib.Core.Bool.{not}
use Prim.Native.String.{String}
use demo_vapp.Prelude.{
  ℕ, Bool, true, false, ◌&&◌, Option, none, some, List, [], ◌∷◌, ◌++◌, length, if◌then◌else◌,
}
use demo_vapp.Hashing.{Hash, Sha256}
use demo_vapp.AdsService.{
  AdsError, AdsResult, done, AdsConfig, StateCommitment, StateTransition, MembershipProof,
  NonMembershipProof, AuditEvent, Ads, insert, batch_insert,
}
use demo_vapp.AdsService.Queries.{
  prove_membership, prove_non_membership, get_state_commitment, get_audit_trail,
}
use demo_vapp.UnifiedBatchService.{last_transition}

pub data Environment : Type 0 where
  development staging production : Environment

pub record VappConfig : Type 0 where
  pub environment : Environment
  pub settlement_enabled : Bool
  pub compliance_checks_enabled : Bool
  pub auto_proof_generation : Bool
  pub batch_processing_enabled : Bool

pub data SettlementStatus : Type 0 where
  pending confirmed failed reverted : SettlementStatus

pub record SettlementResult : Type 0 where
  pub transaction_hash : String
  pub block_number : ℕ
  pub gas_used : ℕ
  pub status : SettlementStatus

pub record ZkProof : Type 0 where
  pub circuit_type : String
  pub proof_data : List ℕ
  pub verification_key_hash : Hash

pub record ComplianceResult : Type 0 where
  pub is_valid : Bool
  pub jurisdiction : String

-- What a circuit's witness is made of.
pub data WitnessData : Type 0 where
  insertion : StateTransition → WitnessData
  membership : MembershipProof → WitnessData
  non_membership : NonMembershipProof → WitnessData

pub record VappServices : Type 0 where
  pub validate_nullifier : ℕ → Option ComplianceResult
  pub generate_zk_proof : WitnessData → Option ZkProof
  pub submit_state_commitment : StateCommitment → Option SettlementResult

-- The tree's service, and the calls that the settlement, the compliance and the notification service have received.
pub record Vapp : Type 0 where
  pub ads : Ads
  pub settlements : List StateCommitment
  pub audits : List (List AuditEvent)
  pub notifications : List StateTransition

pub data VappError : Type 0 where
  ads_error : AdsError → VappError
  compliance_error : VappError
  invalid_nullifier : ℕ → VappError
  configuration_error : VappError

pub data VappResult (A : Type 0) : Type 0 where
  completed : A → VappResult A
  aborted : VappError → VappResult A

abbrev pub V : Type 0 → Type 0
V A = Vapp → VappResult A × Vapp

pub record VappInsertionResponse : Type 0 where
  pub state_transition : StateTransition
  pub settlement_result : Option SettlementResult
  pub zk_proof : Option ZkProof
  pub compliance_result : ComplianceResult

pub data ProofType : Type 0 where
  member absent : ProofType

pub record VappProofResponse : Type 0 where
  pub proof_type : ProofType
  pub membership_proof : Option MembershipProof
  pub non_membership_proof : Option NonMembershipProof
  pub zk_proof : Option ZkProof
  pub verification_status : Bool

pub record BatchFailure : Type 0 where
  pub nullifier : ℕ
  pub error : AdsError

pub record VappBatchResponse : Type 0 where
  pub total_operations : ℕ
  pub successful_operations : ℕ
  pub failed_operations : List BatchFailure
  pub combined_state_transition : Option StateTransition

abbrev pub chain_id_of : Environment → ℕ
chain_id_of development = 31337
chain_id_of staging = 11155111
chain_id_of production = 1

-- The configuration with which `new` makes the service over the tree.
abbrev pub ads_config_for : VappConfig → AdsConfig
ads_config_for config = record {
  settlement_contract = "0x742d35cc6640CA5AaAaB2AAD9d8e7f2B6E37b5D1";
  chain_id = chain_id_of config.environment;
  audit_enabled = config.compliance_checks_enabled;
  metrics_enabled = true;
  cache_size_limit = 50000;
  batch_size_limit = 1000;
  gas_price = 20000000000;
}

module _ (sha : Sha256) (order : List StateCommitment → List Hash) (services : VappServices)
    (config : VappConfig) where
  abbrev pub ads_config : AdsConfig
  ads_config = ads_config_for config

  abbrev pub zk_proof_for : WitnessData → Option ZkProof
  zk_proof_for witness =
      if config.auto_proof_generation then services.generate_zk_proof witness else none

  abbrev pub compliance_for : ℕ → Option ComplianceResult
  compliance_for nullifier =
      if config.compliance_checks_enabled
      then services.validate_nullifier nullifier
      else some (record { is_valid = true; jurisdiction = "NONE" })

  -- Steps 5 and 6: the audit trail goes to the compliance service, the transition to the notification service.
  abbrev pub report : ℕ → StateTransition → Vapp → Vapp
  report nullifier t s = record s {
    audits =
        if config.compliance_checks_enabled
        then s.audits ++ get_audit_trail nullifier s.ads ∷ []
        else s.audits;
    notifications = s.notifications ++ t ∷ [];
  }

  abbrev pub respond :
      ℕ → ComplianceResult → StateTransition → Option SettlementResult → V VappInsertionResponse
  respond nullifier c t settlement s = (
    completed (record {
      state_transition = t;
      settlement_result = settlement;
      zk_proof = zk_proof_for (insertion t);
      compliance_result = c;
    }),
    report nullifier t s,
  )

  -- Step 4 with the commitment, which is submitted once.
  abbrev pub settle :
      ℕ
      → ComplianceResult
      → StateTransition
      → Vapp
      → AdsResult StateCommitment × Ads
      → VappResult VappInsertionResponse × Vapp
  settle nullifier c t s (AdsResult.failed e, a) = (aborted (ads_error e), record s { ads = a })
  settle nullifier c t s (done commitment, a) =
      respond nullifier c t (services.submit_state_commitment commitment)
        (record s { ads = a; settlements = s.settlements ++ commitment ∷ [] })

  abbrev pub with_insertion :
      ℕ
      → ComplianceResult
      → Vapp
      → AdsResult StateTransition × Ads
      → VappResult VappInsertionResponse × Vapp
  with_insertion nullifier c s (AdsResult.failed e, a) =
      (aborted (ads_error e), record s { ads = a })
  with_insertion nullifier c s (done t, a) =
      if config.settlement_enabled
      then settle nullifier c t (record s { ads = a }) (get_state_commitment ads_config sha a)
      else respond nullifier c t none (record s { ads = a })

  abbrev pub with_compliance :
      ℕ → Option ComplianceResult → Vapp → VappResult VappInsertionResponse × Vapp
  with_compliance nullifier none s = (aborted compliance_error, s)
  with_compliance nullifier (some c) s =
      if c.is_valid
      then with_insertion nullifier c s (insert sha order ads_config nullifier s.ads)
      else (aborted (invalid_nullifier nullifier), s)

  unfoldable pub process_nullifier_insertion : ℕ → V VappInsertionResponse
  process_nullifier_insertion nullifier s = with_compliance nullifier (compliance_for nullifier) s

  abbrev pub absence_of :
      Vapp → AdsResult NonMembershipProof × Ads → VappResult VappProofResponse × Vapp
  absence_of s (AdsResult.failed e, a) = (aborted (ads_error e), record s { ads = a })
  absence_of s (done p, a) = (
    completed (record {
      proof_type = absent;
      membership_proof = none;
      non_membership_proof = some p;
      zk_proof = zk_proof_for (non_membership p);
      verification_status = p.range_proof.valid;
    }),
    record s { ads = a },
  )

  unfoldable pub verify_nullifier_absence : ℕ → V VappProofResponse
  verify_nullifier_absence nullifier s =
      absence_of s (prove_non_membership ads_config nullifier s.ads)

  abbrev pub presence_of :
      Vapp → AdsResult MembershipProof × Ads → VappResult VappProofResponse × Vapp
  presence_of s (AdsResult.failed e, a) = (aborted (ads_error e), record s { ads = a })
  presence_of s (done p, a) = (
    completed (record {
      proof_type = member;
      membership_proof = some p;
      non_membership_proof = none;
      zk_proof = zk_proof_for (membership p);
      verification_status = true;
    }),
    record s { ads = a },
  )

  unfoldable pub verify_nullifier_presence : ℕ → V VappProofResponse
  verify_nullifier_presence nullifier s =
      presence_of s (prove_membership ads_config nullifier s.ads)

  abbrev pub failures : AdsError → List ℕ → List BatchFailure
  failures e [] = []
  failures e (n ∷ ns) = record { nullifier = n; error = e } ∷ failures e ns

  -- A commitment that cannot be had is not submitted, and the batch goes on.
  abbrev pub settle_batch : Vapp → AdsResult StateCommitment × Ads → Vapp
  settle_batch s (AdsResult.failed e, a) = record s { ads = a }
  settle_batch s (done commitment, a) = record s {
    ads = a;
    settlements = s.settlements ++ commitment ∷ [];
  }

  abbrev pub settle_transitions : List StateTransition → Vapp → Vapp
  settle_transitions [] s = s
  settle_transitions (t ∷ ts) s =
      if config.settlement_enabled
      then settle_batch s (get_state_commitment ads_config sha s.ads)
      else s

  abbrev pub finish_batch_insertions :
      List ℕ → Vapp → AdsResult (List StateTransition) × Ads → VappResult VappBatchResponse × Vapp
  finish_batch_insertions nullifiers s (AdsResult.failed e, a) = (
    completed (record {
      total_operations = length nullifiers;
      successful_operations = 0;
      failed_operations = failures e nullifiers;
      combined_state_transition = none;
    }),
    record s { ads = a },
  )
  finish_batch_insertions nullifiers s (done ts, a) = (
    completed (record {
      total_operations = length nullifiers;
      successful_operations = length ts;
      failed_operations = [];
      combined_state_transition = last_transition ts;
    }),
    settle_transitions ts (record s { ads = a }),
  )

  unfoldable pub process_batch_insertions : List ℕ → V VappBatchResponse
  process_batch_insertions nullifiers s =
      if config.batch_processing_enabled
      then finish_batch_insertions nullifiers s (batch_insert sha order ads_config nullifiers s.ads)
      else (aborted configuration_error, s)

  abbrev pub commitment_of :
      Vapp → AdsResult StateCommitment × Ads → VappResult StateCommitment × Vapp
  commitment_of s (AdsResult.failed e, a) = (aborted (ads_error e), record s { ads = a })
  commitment_of s (done commitment, a) = (completed commitment, record s { ads = a })

  unfoldable pub get_current_state_commitment : V StateCommitment
  get_current_state_commitment s = commitment_of s (get_state_commitment ads_config sha s.ads)
