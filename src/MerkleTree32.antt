-- ===== src/MerkleTree32.antt =====
-- db/src/merkle_tree_32.rs: the sparse Merkle tree of 32 levels over `merkle_nodes`, with precomputed
-- hashes for empty subtrees. `height` is a field as in the source; `new` sets it to 32. The connection
-- pool is the `Db` that each operation takes; failures of the connection are not modelled.
pub mod ZeroHashes
pub mod Update
pub mod Proofs
pub mod Batch
mod Tests
use mathlib.Core.Option
use demo_vapp.Prelude.{
  ℕ, zero, suc, ◌+◌, ◌*◌, ◌/◌, ◌^◌, ◌≡◌, Bool, true, false, Option, none, some, List, [], ◌∷◌, ◌==◌,
  leb, if◌then◌else◌, length, get_or, bytes_eq, unwrap_or, ◌&&◌,
}
use demo_vapp.Hashing.{Hash, Sha256, zero_hash, hash_pair, to_array}
use demo_vapp.Nodes.{Nodes, select_node, upsert}
use demo_vapp.Paths.{climb, siblings, fold_proof, node}
use demo_vapp.Error.{DbError, Result, ok, err, database, row_not_found, invalid_tree_parameter}
use demo_vapp.Db.{Db, TreeState, M, ◌>>=◌, ◌>>◌, pure, raise, ok_or, transaction}

pub record MerkleTree32 : Type 0 where
  pub height : ℕ
  pub zero_hashes : List Hash

pub record MerkleProof32 : Type 0 where
  pub leaf_index : ℕ
  pub proof_hashes : List Hash
  pub leaf_hash : Hash

module _ (sha : Sha256) where
  -- Each level hashes the zero hash of the level below with itself.
  next_zero_hashes : ℕ → Hash → List Hash
  next_zero_hashes zero below = []
  next_zero_hashes (suc levels) below =
      let current = hash_pair sha below below in current ∷ next_zero_hashes levels current

  unfoldable pub compute_zero_hashes : ℕ → List Hash
  unfolding next_zero_hashes
  compute_zero_hashes tree_height =
      let level0_hash = sha.digest zero_hash in
      level0_hash ∷ next_zero_hashes tree_height level0_hash

  unfoldable pub new : MerkleTree32
  new =
      let tree_height : ℕ = 32 in
      record { height = tree_height; zero_hashes = compute_zero_hashes tree_height }

-- `self.zero_hashes[level]`
abbrev pub zero_at : MerkleTree32 → ℕ → Hash
zero_at tree level = get_or tree.zero_hashes level zero_hash

-- UPDATE tree_state SET root_hash = $1 WHERE tree_id = 'default'
abbrev pub set_root : Hash → Option TreeState → Option TreeState
set_root root none = none
set_root root (some s) = some (record s { root_hash = root })

-- INSERT INTO tree_state … ON CONFLICT (tree_id) DO NOTHING
abbrev pub insert_state : Hash → Option TreeState → Option TreeState
insert_state root none =
    some (record {
      root_hash = root;
      next_available_index = 0;
      tree_height = 32;
      total_nullifiers = 0;
    })
insert_state root (some s) = some s

unfoldable pub initialize : MerkleTree32 → M (Unit {0})
initialize tree db =
    (ok tt, record db { tree_state = insert_state (zero_at tree tree.height) db.tree_state })

unfoldable pub get_node_hash : ℕ → ℕ → Nodes → Option Hash
get_node_hash level index ns = Option.map to_array (select_node ns level index)

-- The leaf is stored, the parents are stored one by one, and the last one is the root.
unfoldable pub update_leaf_internal : Sha256 → MerkleTree32 → ℕ → Hash → M Hash
update_leaf_internal sha tree leaf_index new_leaf_value db =
    let (root_hash, ns) =
      climb sha (zero_at tree) tree.height 0 leaf_index new_leaf_value
        (upsert db.nodes 0 leaf_index new_leaf_value) in
    (ok root_hash, record db { nodes = ns; tree_state = set_root root_hash db.tree_state })

unfoldable pub update_leaf : Sha256 → MerkleTree32 → ℕ → Hash → M Hash
update_leaf sha tree leaf_index new_leaf_value =
    if leb (2 ^ tree.height) leaf_index
    then raise invalid_tree_parameter
    else transaction (update_leaf_internal sha tree leaf_index new_leaf_value)

unfoldable pub generate_proof : MerkleTree32 → ℕ → M MerkleProof32
generate_proof tree leaf_index db =
    if leb (2 ^ tree.height) leaf_index then (err invalid_tree_parameter, db) else (
      ok (record {
        leaf_index = leaf_index;
        proof_hashes = siblings (zero_at tree) tree.height 0 leaf_index db.nodes;
        leaf_hash = unwrap_or (get_node_hash 0 leaf_index db.nodes) (zero_at tree 0);
      }),
      db,
    )

unfoldable pub get_root : M Hash
get_root db = elim db.tree_state [
  | none ↦ (err (database row_not_found), db)
  | some state ↦ (ok (to_array state.root_hash), db)
]

module _ (sha : Sha256) where
  unfoldable pub verify : MerkleProof32 → Hash → Bool
  verify proof root =
      if length proof.proof_hashes == 32
      then bytes_eq (fold_proof sha proof.leaf_index proof.leaf_hash proof.proof_hashes) root
      else false

  unfoldable pub verify_with_leaf : MerkleProof32 → Hash → Hash → Bool
  verify_with_leaf proof custom_leaf_hash root =
      bytes_eq (fold_proof sha proof.leaf_index custom_leaf_hash proof.proof_hashes) root
