-- ===== src/IndexedMerkleTree.antt =====
-- `IndexedMerkleTree` of db/src/merkle_tree.rs: the 7-step insertion of a nullifier, the Merkle tree over
-- the nullifiers' leaves, and its proofs. A missing node counts as 32 zero bytes at every level. The
-- statements of an insertion run one after the other with no transaction around them.
pub mod Tree
pub mod Insertion
pub mod Genesis
pub mod Leaves
pub mod Verification
mod Tests
use mathlib.Core.Option
use mathlib.Core.Bool.{not}
use demo_vapp.Prelude.{
  ℕ, zero, suc, ◌+◌, ◌*◌, ◌/◌, ◌%◌, ◌^◌, Bool, true, false, ◌&&◌, ◌||◌, Option, none, some, List,
  [], ◌∷◌, ◌++◌, ◌==◌, ltb, leb, if◌then◌else◌, unwrap_or, length, bytes_eq,
}
use demo_vapp.Hashing.{Hash, Sha256, zero_hash, hash_pair, to_array}
use demo_vapp.Nodes.{Nodes, select_node, upsert}
use demo_vapp.Paths.{climb, siblings, is_right_child}
use demo_vapp.Error.{
  DbError, Result, ok, err, database, SqlxError, not_found, invalid_nullifier_value, invalid_state,
  invalid_hash_length,
}
use demo_vapp.Db.{
  Db, TreeState, M, ◌>>=◌, ◌>>◌, pure, raise, ok_or, continue, rollback, transaction,
}
use demo_vapp.Nullifiers.{
  Nullifier, LowNullifier, find_low_nullifier, exists, insert_with_update, is_empty_tree,
}
use demo_vapp.MerkleTreeDb.{upsert_node, update_root, get_next_index, validate_chain}

pub record MerkleProof : Type 0 where
  pub leaf_index : ℕ
  pub leaf_hash : Hash
  pub siblings : List Hash
  pub path_indices : List Bool

pub record InsertionProof : Type 0 where
  pub low_nullifier_proof : MerkleProof
  pub new_nullifier_proof : MerkleProof
  pub low_nullifier_before : LowNullifier
  pub low_nullifier_after : LowNullifier

pub record InsertionMetrics : Type 0 where
  pub hash_operations : ℕ
  pub range_checks : ℕ
  pub database_rounds : ℕ
  pub constraints_count : ℕ

pub record AlgorithmInsertionResult : Type 0 where
  pub old_root : Hash
  pub new_root : Hash
  pub insertion_proof : InsertionProof
  pub nullifier : Nullifier
  pub operations_count : InsertionMetrics

abbrev pub tree_height : ℕ
tree_height = 32

-- What stands in for a node that is not stored.
abbrev pub zero_node : ℕ → Hash
zero_node level = zero_hash

-- `to_be_bytes` on `k` bytes.
unfoldable pub be_bytes : ℕ → ℕ → List ℕ
be_bytes zero n = []
be_bytes (suc k) n = (n / 256 ^ k % 256) ∷ be_bytes k n

unfoldable pub get_root : M Hash
get_root db = elim db.tree_state [
  | none ↦ (err not_found, db)
  | some state ↦ (ok (to_array state.root_hash), db)
]

module _ (sha : Sha256) where
  abbrev pub leaf_bytes : ℕ → Option ℕ → ℕ → List ℕ
  leaf_bytes value next_index next_value =
      be_bytes 8 value ++ (be_bytes 8 (unwrap_or next_index 0) ++ be_bytes 8 next_value)

  unfoldable pub hash_nullifier_leaf : Nullifier → Hash
  hash_nullifier_leaf n = sha.digest (leaf_bytes n.value n.next_index n.next_value)

  unfoldable pub hash_low_nullifier_leaf : LowNullifier → Hash
  hash_low_nullifier_leaf n = sha.digest (leaf_bytes n.value n.next_index n.next_value)

  unfoldable pub update_leaf : ℕ → Hash → M (Unit {0})
  update_leaf leaf_index leaf_hash = do
    upsert_node 0 leaf_index leaf_hash
    root ← λ db.
        let (root_hash, ns) = climb sha zero_node tree_height 0 leaf_index leaf_hash db.nodes in
        (ok root_hash, record db { nodes = ns })
    update_root root
    pure tt

  unfoldable pub update_tree_for_insertion : LowNullifier → LowNullifier → Nullifier → M ℕ
  update_tree_for_insertion low_before low_after new = do
    update_leaf low_before.tree_index (hash_low_nullifier_leaf low_after)
    update_leaf new.tree_index (hash_nullifier_leaf new)
    pure (1 + 1 + tree_height * 2)

-- The directions of the path, from the leaf up.
unfoldable pub path_indices : ℕ → ℕ → List Bool
path_indices zero index = []
path_indices (suc levels) index = is_right_child index ∷ path_indices levels (index / 2)

unfoldable pub generate_merkle_proof : ℕ → M MerkleProof
generate_merkle_proof leaf_index db = elim (select_node db.nodes 0 leaf_index) [
  | none ↦ (err not_found, db)
  | some leaf ↦ (
    ok (record {
      leaf_index = leaf_index;
      leaf_hash = to_array leaf;
      siblings = siblings zero_node tree_height 0 leaf_index db.nodes;
      path_indices = path_indices tree_height leaf_index;
    }),
    db,
  )
]

unfoldable pub generate_insertion_proof :
    LowNullifier → LowNullifier → Nullifier → M (InsertionProof × ℕ)
generate_insertion_proof low_before low_after new = do
  low_proof ← generate_merkle_proof low_before.tree_index
  new_proof ← generate_merkle_proof new.tree_index
  pure (
    record {
      low_nullifier_proof = low_proof;
      new_nullifier_proof = new_proof;
      low_nullifier_before = low_before;
      low_nullifier_after = low_after;
    },
    0,
  )

unfoldable pub calculate_constraints : InsertionMetrics → ℕ
calculate_constraints m = m.hash_operations * 8 + m.range_checks * 250 + 10

-- Step 2: the low nullifier must be stored, unless it stands for an empty tree.
abbrev pub check_low : LowNullifier → M (Unit {0})
check_low low db =
    if is_empty_tree low
    then (ok tt, db)
    else if exists low.value db.nullifiers
    then (ok tt, db)
    else (err not_found, db)

-- Step 3: the two range checks.
abbrev pub refuse_if : Bool → DbError → M (Unit {0})
refuse_if true e db = (err e, db)
refuse_if false e db = (ok tt, db)

abbrev pub check_range : ℕ → LowNullifier → M (Unit {0})
check_range x low = do
  refuse_if (if is_empty_tree low then x == 0 else leb x low.value) invalid_nullifier_value
  refuse_if (not (low.next_value == 0) && leb low.next_value x) invalid_nullifier_value

abbrev pub relinked : LowNullifier → ℕ → ℕ → LowNullifier
relinked low index x = record low { next_index = some index; next_value = x }

unfoldable pub insert_nullifier : Sha256 → ℕ → M AlgorithmInsertionResult
insert_nullifier sha new_nullifier = do
  old_root ← get_root
  low ← λ db. ok_or (find_low_nullifier new_nullifier db.nullifiers) not_found db
  check_low low
  check_range new_nullifier low
  new_tree_index ← get_next_index
  let low_after = relinked low new_tree_index new_nullifier
  entry ← insert_with_update new_nullifier new_tree_index low
  tree_hashes ← update_tree_for_insertion sha low low_after entry
  new_root ← get_root
  proof ← generate_insertion_proof low low_after entry
  let metrics : InsertionMetrics = record {
    hash_operations = tree_hashes + proof.1;
    range_checks = 3;
    database_rounds = if is_empty_tree low then 5 else 6;
    constraints_count = 0;
  }
  pure (record {
    old_root = old_root;
    new_root = new_root;
    insertion_proof = proof.0;
    nullifier = entry;
    operations_count = record metrics { constraints_count = calculate_constraints metrics };
  })

module _ (sha : Sha256) where
  -- The fold over `siblings` zipped with `path_indices`.
  unfoldable pub fold_path : Hash → List Hash → List Bool → Hash
  fold_path current [] paths = current
  fold_path current (s ∷ ss) [] = current
  fold_path current (s ∷ ss) (right ∷ rest) =
      fold_path (if right then hash_pair sha s current else hash_pair sha current s) ss rest

  unfoldable pub verify_merkle_proof : MerkleProof → Hash → Bool
  verify_merkle_proof proof root =
      bytes_eq (fold_path proof.leaf_hash proof.siblings proof.path_indices) root

  abbrev pub index_is : Option ℕ → ℕ → Bool
  index_is none i = false
  index_is (some j) i = j == i

  unfoldable pub verify_insertion_proof : InsertionProof → Hash → Bool
  verify_insertion_proof proof root =
      if not (verify_merkle_proof proof.low_nullifier_proof root)
      then false
      else if not (verify_merkle_proof proof.new_nullifier_proof root)
      then false
      else index_is proof.low_nullifier_after.next_index proof.new_nullifier_proof.leaf_index

-- The checks on a recovered state; `total_nullifiers` and `next_available_index` are naturals here.
unfoldable pub recover_state : TreeState → M (Unit {0})
recover_state state =
    if not (length state.root_hash == 32)
    then raise (invalid_hash_length (length state.root_hash))
    else (do
      λ db.
          refuse_if (ltb 0 state.total_nullifiers && not (validate_chain db.nullifiers))
            invalid_state db
      get_root
      pure tt)
