-- ===== src/AdsService.antt =====
-- db/src/ads_service.rs: the service over the indexed Merkle tree, with its cache of commitments, its audit
-- events and its counters. Random ids, clocks, durations and JSON metadata are left out. The order in which
-- a `HashMap` hands out its keys is the argument `order`.
pub mod Queries
pub mod Proofs
pub mod Insertion
mod Tests
use Prim.Native.String.{String}
use demo_vapp.Prelude.{
  ℕ, zero, suc, ◌+◌, ◌-◌, ◌*◌, Bool, true, false, ◌&&◌, ◌||◌, Option, none, some, List, [], ◌∷◌,
  ◌++◌, ◌==◌, ltb, leb, if◌then◌else◌, unwrap_or, length, take, bytes_eq, replicate,
}
use mathlib.Core.Bool.{not}
use demo_vapp.Hashing.{Hash, Sha256}
use demo_vapp.Error.{DbError, Result, ok, err}
use demo_vapp.Db.{Db, TreeState, M}
use demo_vapp.Nullifiers.{Nullifier, LowNullifier, exists, get_by_value, find_low_nullifier}
use demo_vapp.IndexedMerkleTree.{
  MerkleProof, InsertionProof, AlgorithmInsertionResult, insert_nullifier, generate_merkle_proof,
  get_root, verify_insertion_proof, be_bytes,
}

pub data AdsError : Type 0 where
  database : DbError → AdsError
  nullifier_exists nullifier_not_found : ℕ → AdsError
  insertion_failed : DbError → AdsError
  invalid_range proof_verification_failed : AdsError

pub data AdsResult (A : Type 0) : Type 0 where
  done : A → AdsResult A
  failed : AdsError → AdsResult A

pub record AdsConfig : Type 0 where
  pub settlement_contract : String
  pub chain_id : ℕ
  pub audit_enabled : Bool
  pub metrics_enabled : Bool
  pub cache_size_limit : ℕ
  pub batch_size_limit : ℕ
  pub gas_price : ℕ

pub record SettlementData : Type 0 where
  pub contract_address : String
  pub chain_id : ℕ
  pub nonce : ℕ
  pub gas_price : ℕ

pub record StateCommitment : Type 0 where
  pub root_hash : Hash
  pub nullifier_count : ℕ
  pub tree_height : ℕ
  pub commitment_hash : Hash
  pub settlement_data : SettlementData

pub record StateTransition : Type 0 where
  pub old_root : Hash
  pub new_root : Hash
  pub nullifier_value : ℕ
  pub insertion_proof : InsertionProof
  pub block_height : ℕ
  pub gas_estimate : ℕ
  pub witness_constraints : ℕ

pub record MembershipProof : Type 0 where
  pub nullifier_value : ℕ
  pub merkle_proof : MerkleProof
  pub root_hash : Hash
  pub tree_index : ℕ

pub record LowNullifierProof : Type 0 where
  pub value : ℕ
  pub next_value : ℕ
  pub tree_index : ℕ
  pub merkle_proof : MerkleProof

pub record RangeProof : Type 0 where
  pub lower_bound : ℕ
  pub upper_bound : ℕ
  pub queried_value : ℕ
  pub valid : Bool

pub record NonMembershipProof : Type 0 where
  pub queried_value : ℕ
  pub low_nullifier : LowNullifierProof
  pub root_hash : Hash
  pub range_proof : RangeProof

pub data AuditEventType : Type 0 where
  insertion membership non_membership : AuditEventType

pub record AuditEvent : Type 0 where
  pub nullifier_value : ℕ
  pub event_type : AuditEventType
  pub root_before : Hash
  pub root_after : Hash
  pub block_height : ℕ

-- The tables, the cache, the rows of `audit_events` (of which the trails in memory keep a copy, value by
-- value), and the counters.
pub record Ads : Type 0 where
  pub db : Db
  pub state_cache : List StateCommitment
  pub audit_events : List AuditEvent
  pub operations_total : ℕ
  pub insertions_total : ℕ
  pub proofs_generated : ℕ

abbrev pub A : Type 0 → Type 0
A T = Ads → AdsResult T × Ads

abbrev pub block_height_now : ℕ
block_height_now = 1000

unfoldable pub record_audit_event : AdsConfig → ℕ → AuditEventType → Hash → Hash → Ads → Ads
record_audit_event config value event_type before after s =
    if config.audit_enabled
    then record s {
      audit_events =
          s.audit_events
          ++ record {
            nullifier_value = value;
            event_type = event_type;
            root_before = before;
            root_after = after;
            block_height = block_height_now;
          }
            ∷ [];
    }
    else s

unfoldable pub update_metrics : AdsConfig → AuditEventType → Ads → Ads
update_metrics config operation s =
    if config.metrics_enabled
    then elim operation [
      | AuditEventType.insertion ↦ record s {
        operations_total = s.operations_total + 1;
        insertions_total = s.insertions_total + 1;
      }
      | _ ↦ record s {
        operations_total = s.operations_total + 1;
        proofs_generated = s.proofs_generated + 1;
      }
    ]
    else s

unfoldable pub get_nullifier_count : Ads → ℕ
get_nullifier_count s = elim s.db.tree_state [ none ↦ 0 | some t ↦ t.total_nullifiers ]

unfoldable pub calculate_commitment_hash : Sha256 → AdsConfig → Hash → ℕ → Hash
calculate_commitment_hash sha config root count =
    sha.digest (root ++ (be_bytes 8 count ++ be_bytes 8 config.chain_id))

abbrev pub commitment_for : Sha256 → AdsConfig → Hash → Ads → StateCommitment
commitment_for sha config root s =
    let nullifier_count = get_nullifier_count s in
    record {
      root_hash = root;
      nullifier_count = nullifier_count;
      tree_height = 32;
      commitment_hash = calculate_commitment_hash sha config root nullifier_count;
      settlement_data = record {
        contract_address = config.settlement_contract;
        chain_id = config.chain_id;
        nonce = nullifier_count;
        gas_price = config.gas_price;
      };
    }

-- The cache is keyed by the root.
abbrev pub find_cached : Hash → List StateCommitment → Option StateCommitment
find_cached root [] = none
find_cached root (c ∷ cs) = if bytes_eq c.root_hash root then some c else find_cached root cs

abbrev pub cache_insert : StateCommitment → List StateCommitment → List StateCommitment
cache_insert c [] = c ∷ []
cache_insert c (d ∷ ds) = if bytes_eq d.root_hash c.root_hash then c ∷ ds else d ∷ cache_insert c ds

abbrev pub cache_remove : Hash → List StateCommitment → List StateCommitment
cache_remove root [] = []
cache_remove root (c ∷ cs) = if bytes_eq c.root_hash root then cs else c ∷ cache_remove root cs

abbrev pub remove_all : List Hash → List StateCommitment → List StateCommitment
remove_all [] cs = cs
remove_all (k ∷ ks) cs = remove_all ks (cache_remove k cs)

-- Past the limit the first keys go, in the map's order.
unfoldable pub cache_limited :
    (List StateCommitment → List Hash) → ℕ → List StateCommitment → List StateCommitment
cache_limited order limit cs =
    if ltb limit (length cs) then remove_all (take (length cs - limit) (order cs)) cs else cs

abbrev pub transition_of : ℕ → AlgorithmInsertionResult → StateTransition
transition_of value r = record {
  old_root = r.old_root;
  new_root = r.new_root;
  nullifier_value = value;
  insertion_proof = r.insertion_proof;
  block_height = block_height_now;
  gas_estimate = 150000 + 32 * 5000;
  witness_constraints = r.operations_count.constraints_count;
}

module _ (sha : Sha256) (order : List StateCommitment → List Hash) (config : AdsConfig) where
  -- What an insertion does once the tree has changed: cache, audit event, counters.
  abbrev pub after_insertion : ℕ → AlgorithmInsertionResult → Ads → Ads
  after_insertion value r s =
      let cached = cache_insert (commitment_for sha config r.new_root s) s.state_cache in
      update_metrics config AuditEventType.insertion (
        record_audit_event config value AuditEventType.insertion r.old_root r.new_root
          (record s { state_cache = cache_limited order config.cache_size_limit cached }))

  abbrev pub finish_insertion :
      ℕ → Ads → Result AlgorithmInsertionResult × Db → AdsResult StateTransition × Ads
  finish_insertion value s (err e, db') = (failed (insertion_failed e), record s { db = db' })
  finish_insertion value s (ok r, db') =
      (done (transition_of value r), after_insertion value r (record s { db = db' }))

  unfoldable pub insert : ℕ → A StateTransition
  insert value s =
      if exists value s.db.nullifiers
      then (failed (AdsError.nullifier_exists value), s)
      else finish_insertion value s (insert_nullifier sha value s.db)

  -- One insertion after the other, up to the first that fails; what was inserted before stays.
  abbrev pub collect :
      StateTransition → AdsResult (List StateTransition) → AdsResult (List StateTransition)
  collect t (failed e) = failed e
  collect t (done ts) = done (t ∷ ts)

  unfoldable pub insert_each : List ℕ → A (List StateTransition)
  insert_each [] s = (done [], s)
  insert_each (value ∷ values) s =
      let (r, s') = insert value s in
      let (rest, s'') = insert_each values s' in
      elim r [ failed e ↦ (failed e, s') | done t ↦ (collect t rest, s'') ]

  unfoldable pub batch_insert : List ℕ → A (List StateTransition)
  batch_insert values s =
      if ltb config.batch_size_limit (length values)
      then (failed invalid_range, s)
      else insert_each values s
