-- ===== src/AdsService/Tests.antt =====
-- 30 inserted behind 20 through the service, and 20 asked for.
use demo_vapp.Prelude.{◌≡◌, refl, true, false, arith, bytes_eq}
use demo_vapp.Hashing.{to_array, hash_pair}
use demo_vapp.Nodes.{select_node, upsert}
use demo_vapp.Paths.{siblings, climb, node, parent_hash}
use demo_vapp.Samples.{toy_sha}
use demo_vapp.Samples.Chains.{
  second_state, row_20, two-IsFree, two_fits, proper, two-IsChain, search_30, empty-IsRecorded,
  twenty_found,
}
use demo_vapp.Samples.Services.{stored_leaf, absence, config, roots, service}
use demo_vapp.Nullifiers.{find_low_nullifier, find_low_row, highest}
use demo_vapp.IndexedMerkleTree.{
  verify_merkle_proof, generate_merkle_proof, path_indices, get_root, be_bytes, hash_nullifier_leaf,
  hash_low_nullifier_leaf,
}
use demo_vapp.AdsService.{
  done, failed, invalid_range, StateTransition, MembershipProof, Ads, insert,
}
use demo_vapp.AdsService.Queries.{prove_membership, prove_non_membership, verify_state_transition}
use demo_vapp.AdsService.Proofs.{prove_non_membership-member}
use demo_vapp.AdsService.Insertion.{insert-prove_membership, insert-verify_state_transition, root}

prove_non_membership-member_example :
    prove_non_membership config 20 service ≡ (failed invalid_range, service)
prove_non_membership-member_example =
    prove_non_membership-member config 20 service two-IsChain row_20 twenty_found

insert-prove_membership_example :
    (t : StateTransition) × (b : Ads) × (m : MembershipProof) × (insert toy_sha roots config 30
        service
      ≡ (done t, b))
    × ((prove_membership config 30 b).0 ≡ done m)
    × (m.nullifier_value ≡ 30)
    × (m.tree_index ≡ second_state.next_available_index)
    × (m.merkle_proof.leaf_index ≡ second_state.next_available_index)
    × (m.merkle_proof.leaf_hash
        ≡ hash_nullifier_leaf toy_sha (record {
          id = service.db.next_id;
          value = 30;
          next_index = row_20.next_index;
          next_value = 0;
          tree_index = second_state.next_available_index;
          is_active = true;
        }))
    × (m.root_hash ≡ t.new_root)
    × (verify_merkle_proof toy_sha m.merkle_proof m.root_hash ≡ true)
insert-prove_membership_example =
    insert-prove_membership toy_sha roots config 30 service second_state row_20 0 two-IsFree
      two_fits proper two-IsChain search_30 empty-IsRecorded (omega arith)

root_changes :
    bytes_eq (to_array second_state.root_hash) (
      root toy_sha roots config 30 service second_state row_20 0 two-IsFree two_fits proper
        two-IsChain search_30 empty-IsRecorded
        (omega arith))
    ≡ false
unfolding to_array climb node parent_hash hash_pair upsert select_node be_bytes hash_nullifier_leaf
    hash_low_nullifier_leaf
root_changes = refl

insert-verify_state_transition_example :
    (t : StateTransition) × (b : Ads) × (insert toy_sha roots config 30 service ≡ (done t, b))
    × (verify_state_transition toy_sha t b ≡ (done true, b))
insert-verify_state_transition_example =
    insert-verify_state_transition toy_sha roots config 30 service second_state row_20 0 two-IsFree
      two_fits proper two-IsChain search_30 empty-IsRecorded (omega arith) root_changes

absence_made : (prove_non_membership config 20 stored_leaf).0 ≡ done absence
unfolding prove_non_membership find_low_nullifier find_low_row highest generate_merkle_proof
    select_node to_array siblings node path_indices get_root
absence_made = refl
