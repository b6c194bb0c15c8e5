-- ===== src/IndexedMerkleTree/Tests.antt =====
-- Insertions into the tables of the migration: 20 behind the genesis row, and 30 behind 20.
use demo_vapp.Prelude.{ℕ, ◌≡◌, ◌⊎◌, refl, true, none, some, arith, [], unwrap_or}
use demo_vapp.Hashing.{Hash, Collision}
use demo_vapp.Paths.{node}
use demo_vapp.Paths.Recorded.{IsRecorded}
use demo_vapp.Error.{ok}
use demo_vapp.Db.{Db, NullifierRow}
use demo_vapp.Samples.{toy_sha, some_leaf, genesis_row, genesis_db, first_state}
use demo_vapp.Nullifiers.{
  Nullifier, find_low_row, low_of, insert_with_update, virtual_low_nullifier,
}
use demo_vapp.Nullifiers.Chain.{IsChain, Fits}
use demo_vapp.Nullifiers.Search.{find_low_row-Fits}
use demo_vapp.MerkleTreeDb.{insert_nullifier_complete, atomic_insert}
use demo_vapp.MerkleTreeDb.Atomic.{atomic_insert-IsChain, inserted_db, insertion_result}
use demo_vapp.MerkleTreeDb.Validation.{insert_nullifier_complete_counts_twice}
use demo_vapp.IndexedMerkleTree.{
  MerkleProof, InsertionProof, tree_height, zero_node, insert_nullifier, verify_merkle_proof,
  verify_insertion_proof, hash_nullifier_leaf, hash_low_nullifier_leaf, generate_merkle_proof,
  relinked,
}
use demo_vapp.IndexedMerkleTree.Tree.{
  leaf_db, leaf_db_self, leaf_db-root, leaf_db-IsRecorded, climbed, generate_merkle_proof-verifies,
}
use demo_vapp.IndexedMerkleTree.Insertion.{
  insert_nullifier-succeeds, final_db, final_root, outcome_of, proof_of, low_hash, entry_hash,
}
use demo_vapp.IndexedMerkleTree.Genesis.{insert_with_update-breaks_chain, unlinked_db}
use demo_vapp.IndexedMerkleTree.Leaves.{leaf_hash-binds}
use demo_vapp.Samples.Chains.{
  genesis-IsChain, genesis_fits, genesis-IsFree, genesis_found, twenty_absent, second_state, row_20,
  two_db, two-IsChain, two-IsFree, two_fits, search_30, empty-IsRecorded, proper,
}

find_low_row-Fits_example :
    (r : NullifierRow) × (find_low_row 20 genesis_db.nullifiers ≡ some r)
    × ((n : ℕ) × Fits genesis_db.nullifiers r.value 20 n r)
find_low_row-Fits_example =
    find_low_row-Fits genesis_db.nullifiers 20 genesis-IsChain genesis_row genesis_found
      (omega arith) twenty_absent

atomic_insert-IsChain_example :
    (r : NullifierRow) × (n : ℕ) × (fits : Fits genesis_db.nullifiers r.value 20 n r)
    × (atomic_insert 20 genesis_db ≡ (
      ok (insertion_result 20 genesis_db first_state genesis-IsFree r n fits),
      inserted_db 20 genesis_db first_state genesis-IsFree r n,
    ))
    × IsChain (inserted_db 20 genesis_db first_state genesis-IsFree r n).nullifiers
atomic_insert-IsChain_example =
    atomic_insert-IsChain 20 genesis_db first_state genesis-IsFree genesis_row genesis_found
      genesis-IsChain

insert_nullifier_complete_counts_twice_example :
    (r : NullifierRow) × (n : ℕ) × (fits : Fits genesis_db.nullifiers r.value 20 n r)
    × (insert_nullifier_complete 20 genesis_db ≡ (
      ok (insertion_result 20 genesis_db first_state genesis-IsFree r n fits),
      record (inserted_db 20 genesis_db first_state genesis-IsFree r n) {
        tree_state = some (record first_state { next_available_index = 2; total_nullifiers = 2 });
      },
    ))
insert_nullifier_complete_counts_twice_example =
    insert_nullifier_complete_counts_twice 20 genesis_db first_state genesis-IsFree genesis_row
      genesis_found genesis-IsChain

insert_with_update-breaks_chain_example :
    (e : Nullifier) × (insert_with_update 20 1 (low_of genesis_row) genesis_db ≡ (
      ok e,
      unlinked_db 20 genesis_db first_state genesis_row 0 genesis-IsFree genesis_fits
          genesis-IsChain refl refl,
    ))
    × (e.value ≡ 20)
    × ¬ IsChain
        (unlinked_db 20 genesis_db first_state genesis_row 0 genesis-IsFree genesis_fits
          genesis-IsChain refl refl).nullifiers
insert_with_update-breaks_chain_example =
    insert_with_update-breaks_chain 20 genesis_db first_state genesis_row 0 genesis-IsFree
      genesis_fits genesis-IsChain refl refl

abbrev unlinked : Db
unlinked =
    unlinked_db 20 genesis_db first_state genesis_row 0 genesis-IsFree genesis_fits genesis-IsChain
      refl refl

insert_nullifier-succeeds_example :
    (p : MerkleProof) × (q : MerkleProof) × (insert_nullifier toy_sha 30 two_db ≡ (
      ok (
          outcome_of toy_sha 30 two_db second_state row_20 0 two-IsFree two_fits proper two-IsChain
            search_30 empty-IsRecorded
            (omega arith)
            p
            q),
      final_db toy_sha 30 two_db second_state row_20 0 two-IsFree two_fits,
    ))
    × (p.leaf_hash ≡ low_hash toy_sha 30 two_db second_state row_20 0 two-IsFree two_fits)
    × (q.leaf_hash ≡ entry_hash toy_sha 30 two_db second_state row_20 0 two-IsFree two_fits)
    × (verify_insertion_proof toy_sha
          (proof_of toy_sha 30 two_db second_state row_20 0 two-IsFree two_fits proper two-IsChain
            search_30 empty-IsRecorded
            (omega arith)
            p
            q)
          (final_root toy_sha 30 two_db second_state row_20 0 two-IsFree two_fits)
        ≡ true)
    × IsChain (final_db toy_sha 30 two_db second_state row_20 0 two-IsFree two_fits).nullifiers
    × IsRecorded toy_sha zero_node tree_height
        (final_db toy_sha 30 two_db second_state row_20 0 two-IsFree two_fits).nodes
insert_nullifier-succeeds_example =
    insert_nullifier-succeeds toy_sha 30 two_db second_state row_20 0 two-IsFree two_fits proper
      two-IsChain search_30 empty-IsRecorded (omega arith)

abbrev leafy_db : Db
leafy_db = leaf_db toy_sha genesis_db first_state 3 some_leaf

abbrev leafy_root : Hash
leafy_root = (climbed toy_sha genesis_db first_state 3 some_leaf).0

generate_merkle_proof-verifies_example :
    (p : MerkleProof) × (generate_merkle_proof 3 leafy_db ≡ (ok p, leafy_db))
    × (p.leaf_index ≡ 3)
    × (p.leaf_hash ≡ node zero_node leafy_db.nodes 0 3)
    × (verify_merkle_proof toy_sha p leafy_root ≡ true)
generate_merkle_proof-verifies_example =
    generate_merkle_proof-verifies toy_sha leafy_db 3 leafy_root
      (leaf_db-IsRecorded toy_sha genesis_db first_state 3 some_leaf refl refl empty-IsRecorded)
      (leaf_db_self toy_sha genesis_db first_state 3 some_leaf refl refl) (omega arith)
      (leaf_db-root toy_sha genesis_db first_state 3 some_leaf refl refl (omega arith))

abbrev bare : MerkleProof
bare = record { leaf_index = 3; leaf_hash = some_leaf; siblings = []; path_indices = [] }

abbrev bare_proof : InsertionProof
bare_proof = record {
  low_nullifier_proof = bare;
  new_nullifier_proof = bare;
  low_nullifier_before = virtual_low_nullifier;
  low_nullifier_after = relinked virtual_low_nullifier 3 20;
}

abbrev first_entry : Nullifier
first_entry = record {
  id = 2;
  value = 20;
  next_index = none;
  next_value = 0;
  tree_index = 1;
  is_active = true;
}

leaf_hash-binds_example :
    ((first_entry.value ≡ row_20.value)
      × (unwrap_or first_entry.next_index 0 ≡ unwrap_or row_20.next_index 0)
      × (first_entry.next_value ≡ 0))
    ⊎ Collision toy_sha
leaf_hash-binds_example =
    leaf_hash-binds toy_sha first_entry (low_of row_20) (omega arith) (omega arith) (omega arith)
      (omega arith) (omega arith) (omega arith)
      (unfold hash_nullifier_leaf hash_low_nullifier_leaf in refl)
