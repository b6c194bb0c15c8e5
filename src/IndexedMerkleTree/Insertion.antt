-- ===== src/IndexedMerkleTree/Insertion.antt =====
-- `insert_nullifier` of db/src/merkle_tree.rs where the low nullifier is a row of its own.
use demo_vapp.Prelude.{
  ℕ, suc, ◌+◌, ◌^◌, ◌<◌, ◌≡◌, refl, ap, ◌∙◌, true, false, some, arith, length, unwrap_or,
}
use demo_vapp.Hashing.{Hash, Sha256, to_array, to_array_id}
use demo_vapp.Paths.{node}
use demo_vapp.Paths.Recorded.{IsRecorded}
use demo_vapp.Error.{ok}
use demo_vapp.Db.{Db, NullifierRow, TreeState}
use demo_vapp.Nullifiers.{
  Nullifier, LowNullifier, find_low_row, find_low_nullifier, low_of, is_empty_tree,
  insert_with_update, new_row, insert_row, link,
}
use demo_vapp.Nullifiers.Rows.{
  exists-row_at, insert_row_ok, update_low_ok, value_taken-link, tree_index-fresh, index_taken-link,
}
use demo_vapp.Nullifiers.Chain.{IsChain, Fits, linked, linked-IsChain}
use demo_vapp.MerkleTreeDb.{get_next_index}
use demo_vapp.MerkleTreeDb.Atomic.{IsFree, accepts_row-fits}
use demo_vapp.IndexedMerkleTree.{
  MerkleProof, InsertionProof, AlgorithmInsertionResult, tree_height, zero_node, get_root,
  hash_nullifier_leaf, hash_low_nullifier_leaf, update_tree_for_insertion, generate_merkle_proof,
  generate_insertion_proof, calculate_constraints, relinked, insert_nullifier,
  verify_insertion_proof,
}
use demo_vapp.IndexedMerkleTree.Tree.{
  IsProvable, climbed, leaf_db, update_leaf_runs, leaf_db-IsRecorded, leaf_db-root, node-leaf_db,
  leaf_db_self, leaf_db_other, generate_merkle_proof-verifies, length-climbed,
}

module _ (sha : Sha256) (x : ℕ) (db : Db) (s : TreeState) (r : NullifierRow) (n : ℕ)
    (free : IsFree db s x) (fits : Fits db.nullifiers r.value x n r) where
  abbrev index : ℕ
  index = s.next_available_index

  abbrev low : LowNullifier
  low = low_of r

  abbrev low_after : LowNullifier
  low_after = relinked low index x

  -- The rows and the state row after the database steps.
  abbrev rows_db : Db
  rows_db = record db {
    nullifiers = linked db.next_id x r.next_index n index r.value db.nullifiers;
    next_id = suc db.next_id;
    tree_state = some (record s { next_available_index = index + 1 });
  }

  abbrev indexed_db : Db
  indexed_db = record db { tree_state = some (record s { next_available_index = index + 1 }) }

  abbrev linked_db : Db
  linked_db = record indexed_db { nullifiers = link r.value index x db.nullifiers }

  abbrev pub entry : Nullifier
  entry = record {
    id = db.next_id;
    value = x;
    next_index = r.next_index;
    next_value = n;
    tree_index = index;
    is_active = true;
  }

  abbrev pub low_hash : Hash
  low_hash = hash_low_nullifier_leaf sha low_after

  abbrev pub entry_hash : Hash
  entry_hash = hash_nullifier_leaf sha entry

  abbrev state1 : TreeState
  state1 = record s { next_available_index = index + 1 }

  abbrev low_db : Db
  low_db = leaf_db sha rows_db state1 r.tree_index low_hash

  abbrev state2 : TreeState
  state2 = record state1 { root_hash = (climbed sha rows_db state1 r.tree_index low_hash).0 }

  -- The state when the insertion returns.
  abbrev pub final_db : Db
  final_db = leaf_db sha low_db state2 index entry_hash

  abbrev pub final_root : Hash
  final_root = (climbed sha low_db state2 index entry_hash).0

  length-low_hash : length low_hash ≡ 32
  unfolding hash_low_nullifier_leaf
  length-low_hash = sha.size _

  length-entry_hash : length entry_hash ≡ 32
  unfolding hash_nullifier_leaf
  length-entry_hash = sha.size _

  pub length-final_root : length final_root ≡ 32
  length-final_root = length-climbed sha low_db state2 index entry_hash length-entry_hash

  row_accepted :
      insert_row x low.next_index (some low.next_value) index linked_db
      ≡ (ok (new_row db.next_id x r.next_index (some n) index), rows_db)
  row_accepted =
      insert_row_ok x r.next_index (some low.next_value) index linked_db (
        rw (ap (λ o. unwrap_or o 0) fits.names) (
          accepts_row-fits linked_db.nullifiers x n index fits.before
            (value_taken-link x r.value index x db.nullifiers ∙ free.value)
            (index_taken-link index r.value index x db.nullifiers ∙ free.index) free.in_range))
      ∙ rw (ap (λ o. unwrap_or o 0) fits.names)

  module _ (proper : is_empty_tree low ≡ false) where
    -- The rows are relinked and the entry is returned.
    entered : insert_with_update x index low indexed_db ≡ (ok entry, rows_db)
    unfolding insert_with_update
    entered = ground (
      arith,
      proper,
      update_low_ok r.value index x indexed_db r fits.found fits.after,
      row_accepted,
    )

    tree_updated : update_tree_for_insertion sha low low_after entry rows_db ≡ (ok 66, final_db)
    unfolding update_tree_for_insertion
    tree_updated = ground (
      arith,
      update_leaf_runs sha rows_db state1 r.tree_index low_hash refl length-low_hash,
      update_leaf_runs sha low_db state2 index entry_hash refl length-entry_hash,
    )

    module _ (chain : IsChain db.nullifiers) (found : find_low_row x db.nullifiers ≡ some r)
        (recorded : IsRecorded sha zero_node tree_height db.nodes)
        (low_range : r.tree_index < 2 ^ tree_height) where
      recorded_low : IsRecorded sha zero_node tree_height low_db.nodes
      recorded_low =
          leaf_db-IsRecorded sha rows_db state1 r.tree_index low_hash refl length-low_hash recorded

      pub recorded_final : IsRecorded sha zero_node tree_height final_db.nodes
      recorded_final =
          leaf_db-IsRecorded sha low_db state2 index entry_hash refl length-entry_hash recorded_low

      pub top : final_root ≡ node zero_node final_db.nodes tree_height 0
      top = leaf_db-root sha low_db state2 index entry_hash refl length-entry_hash free.in_range

      low-IsProvable : IsProvable final_db r.tree_index
      low-IsProvable =
          leaf_db_other sha low_db state2 index entry_hash refl length-entry_hash r.tree_index
            (leaf_db_self sha rows_db state1 r.tree_index low_hash refl length-low_hash)

      pub entry-IsProvable : IsProvable final_db index
      entry-IsProvable = leaf_db_self sha low_db state2 index entry_hash refl length-entry_hash

      low_leaf : node zero_node final_db.nodes 0 r.tree_index ≡ low_hash
      low_leaf = ground (
        arith,
        node-leaf_db sha low_db state2 index entry_hash refl length-entry_hash r.tree_index,
        node-leaf_db sha rows_db state1 r.tree_index low_hash refl length-low_hash r.tree_index,
        tree_index-fresh r.value index db.nullifiers r fits.found free.index,
      )

      pub entry_leaf : node zero_node final_db.nodes 0 index ≡ entry_hash
      entry_leaf =
          ground
            (arith, node-leaf_db sha low_db state2 index entry_hash refl length-entry_hash index)

      abbrev pub proof_of : MerkleProof → MerkleProof → InsertionProof
      proof_of p q = record {
        low_nullifier_proof = p;
        new_nullifier_proof = q;
        low_nullifier_before = low;
        low_nullifier_after = low_after;
      }

      abbrev pub outcome_of : MerkleProof → MerkleProof → AlgorithmInsertionResult
      outcome_of p q = record {
        old_root = to_array s.root_hash;
        new_root = final_root;
        insertion_proof = proof_of p q;
        nullifier = entry;
        operations_count = record {
          hash_operations = 66;
          range_checks = 3;
          database_rounds = 6;
          constraints_count = 1288;
        };
      }

      runs :
          (p q : MerkleProof)
          → generate_merkle_proof r.tree_index final_db ≡ (ok p, final_db)
          → generate_merkle_proof index final_db ≡ (ok q, final_db)
          → insert_nullifier sha x db ≡ (ok (outcome_of p q), final_db)
      unfolding insert_nullifier get_root find_low_nullifier get_next_index generate_insertion_proof
          calculate_constraints
      runs p q low_made entry_made = ground (
        arith,
        free.state,
        found,
        proper,
        exists-row_at r.value db.nullifiers,
        fits.found,
        fits.after,
        fits.before,
        fits.names,
        entered,
        tree_updated,
        to_array_id final_root
            (length-climbed sha low_db state2 index entry_hash length-entry_hash),
        low_made,
        entry_made,
      )

      -- Where the rows are a chain, every stored Merkle parent is the hash of its children, and the
      -- low nullifier that is found is not the genesis row (value 0 and tree index 0) and has a tree
      -- index below 2 ^ 32, the insertion of a free value succeeds. Its two Merkle proofs show the new
      -- leaves of both rows and are accepted against the returned root, the rows are a chain again,
      -- and every stored parent is still the hash of its children.
      pub insert_nullifier-succeeds :
          (p : MerkleProof) × (q : MerkleProof) × (insert_nullifier sha x db
            ≡ (ok (outcome_of p q), final_db))
          × (p.leaf_hash ≡ low_hash)
          × (q.leaf_hash ≡ entry_hash)
          × (verify_insertion_proof sha (proof_of p q) final_root ≡ true)
          × IsChain final_db.nullifiers
          × IsRecorded sha zero_node tree_height final_db.nodes
      unfolding verify_insertion_proof
      insert_nullifier-succeeds =
          let lows =
            generate_merkle_proof-verifies sha final_db r.tree_index final_root recorded_final
              low-IsProvable low_range top in
          let news =
            generate_merkle_proof-verifies sha final_db index final_root recorded_final
              entry-IsProvable free.in_range top in
          (
            lows.0,
            news.0,
            runs lows.0 news.0 lows.1 news.1,
            lows.3 ∙ low_leaf,
            news.3 ∙ entry_leaf,
            ground (arith, lows.4, news.4, news.2),
            linked-IsChain db.nullifiers r.value x n db.next_id index r.next_index r chain fits
                free.value,
            recorded_final,
          )
