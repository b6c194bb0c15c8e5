-- ===== src/IndexedMerkleTree/Verification.antt =====
-- `verify_insertion_proof` of db/src/merkle_tree.rs: what acceptance means, and what it leaves open.
use demo_vapp.Prelude.{ℕ, ◌≡◌, ◌↔◌, refl, true, some, arith}
use demo_vapp.Hashing.{Hash, Sha256}
use demo_vapp.Nullifiers.{LowNullifier}
use demo_vapp.IndexedMerkleTree.{InsertionProof, verify_merkle_proof, verify_insertion_proof}

-- A proof is accepted exactly when both Merkle proofs are, against one root, and the low nullifier's new
-- index is the leaf index that the second proof states.
pub verify_insertion_proof_iff :
    (sha : Sha256) (p : InsertionProof) (root : Hash)
    → (verify_insertion_proof sha p root ≡ true) ↔ (
        (verify_merkle_proof sha p.low_nullifier_proof root ≡ true)
        × (verify_merkle_proof sha p.new_nullifier_proof root ≡ true)
        × (p.low_nullifier_after.next_index ≡ some p.new_nullifier_proof.leaf_index))
unfolding verify_insertion_proof
verify_insertion_proof_iff sha p root = ground arith

-- The low nullifiers that a proof states are not tied to the hashes it shows: the one before, and all of
-- the one after but its `next_index`, can be replaced, and so can the leaf index of the first proof.
pub verify_insertion_proof_ignores :
    (sha : Sha256) (p : InsertionProof) (root : Hash) (before : LowNullifier)
    (value next_value tree_index leaf_index : ℕ)
    → verify_insertion_proof sha
        (record p {
          low_nullifier_proof = record p.low_nullifier_proof { leaf_index = leaf_index };
          low_nullifier_before = before;
          low_nullifier_after = record p.low_nullifier_after {
            value = value;
            next_value = next_value;
            tree_index = tree_index;
          };
        })
        root
      ≡ verify_insertion_proof sha p root
unfolding verify_insertion_proof verify_merkle_proof
verify_insertion_proof_ignores sha p root before value next_value tree_index leaf_index = refl
