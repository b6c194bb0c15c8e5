-- ===== src/AdsService/Queries.antt =====
-- The proofs, commitments and checks of db/src/ads_service.rs, which leave the tree alone.
use demo_vapp.Prelude.{
  ℕ, Bool, true, false, ◌&&◌, ◌||◌, Option, none, some, List, [], ◌∷◌, ◌==◌, ltb, leb,
  if◌then◌else◌, bytes_eq,
}
use mathlib.Core.Bool.{not}
use demo_vapp.Hashing.{Hash, Sha256}
use demo_vapp.Error.{Result, ok, err}
use demo_vapp.Nullifiers.{LowNullifier, get_by_value, find_low_nullifier}
use demo_vapp.IndexedMerkleTree.{generate_merkle_proof, get_root, verify_insertion_proof}
use demo_vapp.AdsService.{
  AdsError, AdsResult, done, failed, database, nullifier_not_found, invalid_range,
  proof_verification_failed, AdsConfig, StateCommitment, StateTransition, MembershipProof,
  NonMembershipProof, Ads, A, AuditEvent, AuditEventType, membership, non_membership,
  record_audit_event, update_metrics, commitment_for, find_cached, cache_insert,
}

-- A read of the tree that may fail.
abbrev pub read : {T U : Type 0} → Result T → (T → AdsResult U × Ads) → Ads → AdsResult U × Ads
read (err e) f s = (failed (database e), s)
read (ok a) f s = f a

abbrev pub found :
    {T U : Type 0} → Option T → AdsError → (T → AdsResult U × Ads) → Ads → AdsResult U × Ads
found none e f s = (failed e, s)
found (some a) e f s = f a

-- The audit event and the counters of a proof.
abbrev pub after_proof : AdsConfig → ℕ → AuditEventType → Hash → Ads → Ads
after_proof config value event_type root s =
    update_metrics config event_type (record_audit_event config value event_type root root s)

module _ (config : AdsConfig) where
  unfoldable pub prove_membership : ℕ → A MembershipProof
  prove_membership value s =
      read (get_by_value value s.db).0
        (λ row.
          found row (nullifier_not_found value)
            (λ nullifier.
              read (generate_merkle_proof nullifier.tree_index s.db).0
                (λ merkle_proof.
                  read (get_root s.db).0
                    (λ root_hash. (
                      done (record {
                        nullifier_value = value;
                        merkle_proof = merkle_proof;
                        root_hash = root_hash;
                        tree_index = nullifier.tree_index;
                      }),
                      after_proof config value membership root_hash s,
                    ))
                    s)
                s)
            s)
        s

  -- value > low.value && (low.next_value == 0 || value < low.next_value)
  abbrev pub in_range : ℕ → LowNullifier → Bool
  in_range value low = ltb low.value value && ((low.next_value == 0) || ltb value low.next_value)

  abbrev pub low_found : ℕ → LowNullifier → A NonMembershipProof
  low_found value low s =
      if leb value low.value
      then (failed invalid_range, s)
      else if not (low.next_value == 0) && leb low.next_value value
      then (failed invalid_range, s)
      else read (generate_merkle_proof low.tree_index s.db).0
          (λ merkle_proof.
            read (get_root s.db).0
              (λ root_hash. (
                done (record {
                  queried_value = value;
                  low_nullifier = record {
                    value = low.value;
                    next_value = low.next_value;
                    tree_index = low.tree_index;
                    merkle_proof = merkle_proof;
                  };
                  root_hash = root_hash;
                  range_proof = record {
                    lower_bound = low.value;
                    upper_bound = low.next_value;
                    queried_value = value;
                    valid = in_range value low;
                  };
                }),
                after_proof config value non_membership root_hash s,
              ))
              s)
          s

  unfoldable pub prove_non_membership : ℕ → A NonMembershipProof
  prove_non_membership value s =
      found (find_low_nullifier value s.db.nullifiers) invalid_range (λ low. low_found value low s)
        s

  unfoldable pub get_state_commitment : Sha256 → A StateCommitment
  get_state_commitment sha s =
      read (get_root s.db).0
        (λ root_hash. elim (find_cached root_hash s.state_cache) [
          | some cached ↦ (done cached, s)
          | none ↦
              let commitment = commitment_for sha config root_hash s in
              (done commitment, record s { state_cache = cache_insert commitment s.state_cache })
        ])
        s

-- The events of one nullifier, in the order in which they were recorded.
abbrev pub events_for : ℕ → List AuditEvent → List AuditEvent
events_for value [] = []
events_for value (e ∷ es) =
    if e.nullifier_value == value then e ∷ events_for value es else events_for value es

-- Where a trail is kept in memory, it is a copy of the rows.
unfoldable pub get_audit_trail : ℕ → Ads → List AuditEvent
get_audit_trail value s = events_for value s.audit_events

unfoldable pub verify_state_transition : Sha256 → StateTransition → A Bool
verify_state_transition sha transition s =
    if not (verify_insertion_proof sha transition.insertion_proof transition.new_root)
    then (done false, s)
    else if bytes_eq transition.old_root transition.new_root
    then (failed proof_verification_failed, s)
    else if transition.nullifier_value == 0
    then (failed proof_verification_failed, s)
    else (done true, s)
