-- ===== src/IndexedMerkleTree/Tree.antt =====
-- `update_leaf`, `generate_merkle_proof` and `verify_merkle_proof` of db/src/merkle_tree.rs.
use mathlib.Core.Path.{ap₂}
use mathlib.Core.Bool.{false≢true}
use demo_vapp.Prelude.{
  ℕ, zero, suc, ◌/◌, ◌^◌, ◌<◌, ◌≡◌, inl, inr, refl, sym, ap, ◌∙◌, true, some, arith, ◌==◌, List, [],
  ◌∷◌, if◌then◌else◌, length, is_some, Option-cases, bytes_eq_refl,
}
use demo_vapp.Hashing.{Hash, Sha256, to_array}
use demo_vapp.Nodes.{Nodes, select_node, upsert}
use demo_vapp.Paths.{node, climb, parent_hash, siblings, fold_proof}
use demo_vapp.Paths.Consistency.{node-upsert}
use demo_vapp.Paths.Climb.{climb-root, climb-below, length-climb}
use demo_vapp.Paths.Digest.{ancestor-root}
use demo_vapp.Paths.Fold.{length-siblings}
use demo_vapp.Paths.Recorded.{
  is_stored, is_stored-upsert, PathStored, IsRecorded, IsRecordedBut-upsert, climb-IsRecorded,
  climb-is_stored, climb-PathStored, PathStored-climb, PathStored-upsert, fold_proof-PathStored,
}
use demo_vapp.Error.{ok}
use demo_vapp.Db.{Db, TreeState}
use demo_vapp.MerkleTreeDb.{upsert_node, update_root}
use demo_vapp.IndexedMerkleTree.{
  MerkleProof, tree_height, zero_node, update_leaf, generate_merkle_proof, path_indices, fold_path,
  verify_merkle_proof,
}

-- A leaf that can be proved: it and all nodes above it are stored.
pub record IsProvable (db : Db) (k : ℕ) : Type 0 where
  pub leaf : is_stored db.nodes 0 k ≡ true
  pub path : PathStored db.nodes tree_height 0 k

module _ (sha : Sha256) (db : Db) (s : TreeState) (k : ℕ) (v : Hash) where
  abbrev pub written : Nodes
  written = upsert db.nodes 0 k v

  abbrev pub climbed : Hash × Nodes
  climbed = climb sha zero_node tree_height 0 k v written

  -- The state after a leaf has been written.
  abbrev pub leaf_db : Db
  leaf_db = record db { nodes = climbed.1; tree_state = some (record s { root_hash = climbed.0 }) }

  module _ (state : db.tree_state ≡ some s) (size : length v ≡ 32) where
    -- With the state row in place, writing a leaf succeeds.
    pub update_leaf_runs : update_leaf sha k v db ≡ (ok tt, leaf_db)
    unfolding update_leaf upsert_node update_root
    update_leaf_runs =
        ground (arith, size, state, length-climb sha zero_node tree_height 0 k written v size)

    current : v ≡ node zero_node written 0 k
    current = ground (arith, node-upsert zero_node db.nodes 0 k v 0 k size)

    -- Every stored parent stays the hash of its children.
    pub leaf_db-IsRecorded :
        IsRecorded sha zero_node tree_height db.nodes
        → IsRecorded sha zero_node tree_height leaf_db.nodes
    leaf_db-IsRecorded rec =
        climb-IsRecorded sha zero_node tree_height 0 k written v tree_height (omega arith) current
          (IsRecordedBut-upsert sha zero_node tree_height k db.nodes v size rec)

    -- The recorded root is the top node.
    pub leaf_db-root : k < 2 ^ tree_height → climbed.0 ≡ node zero_node leaf_db.nodes tree_height 0
    leaf_db-root range =
        climb-root sha zero_node tree_height 0 k written v current
        ∙ ap₂ (node zero_node climbed.1) (omega arith) (ancestor-root tree_height k range)

    -- The written leaf holds `v`, and the others what they held.
    pub node-leaf_db :
        (j : ℕ)
        → node zero_node leaf_db.nodes 0 j ≡ (if k == j then v else node zero_node db.nodes 0 j)
    node-leaf_db j =
        climb-below sha zero_node tree_height 0 k written v 0 j (omega arith)
        ∙ node-upsert zero_node db.nodes 0 k v 0 j size

    pub leaf_db_self : IsProvable leaf_db k
    leaf_db_self = record {
      leaf =
          climb-is_stored sha zero_node tree_height 0 k written v 0 k
            (ground (arith, is_stored-upsert db.nodes 0 k v 0 k));
      path = climb-PathStored sha zero_node tree_height 0 k written v;
    }

    pub leaf_db_other : (j : ℕ) → IsProvable db j → IsProvable leaf_db j
    leaf_db_other j p = record {
      leaf =
          climb-is_stored sha zero_node tree_height 0 k written v 0 j
            (ground (arith, is_stored-upsert db.nodes 0 k v 0 j, p.leaf));
      path =
          PathStored-climb sha zero_node tree_height 0 k tree_height 0 j written v
            (PathStored-upsert sha zero_node tree_height 0 j 0 k db.nodes v p.path);
    }

-- Folding along the recorded directions is folding along the index.
fold_path-path_indices :
    (sha : Sha256) (n i : ℕ) (current : Hash) (ss : List Hash)
    → length ss ≡ n
    → fold_path sha current ss (path_indices n i) ≡ fold_proof sha i current ss
unfolding fold_path path_indices fold_proof parent_hash
fold_path-path_indices sha zero i current [] h = refl
fold_path-path_indices sha zero i current (s ∷ ss) h = absurd (omega arith)
fold_path-path_indices sha (suc n) i current [] h = absurd (omega arith)
fold_path-path_indices sha (suc n) i current (s ∷ ss) h =
    fold_path-path_indices sha n (i / 2) _ ss (omega arith)

module _ (sha : Sha256) (db : Db) (k : ℕ) (root : Hash) where
  -- In a tree whose recorded parents are right, the proof of a provable leaf below 2 ^ 32 is generated,
  -- names that leaf, leaves the state alone and is accepted against the top node.
  pub generate_merkle_proof-verifies :
      IsRecorded sha zero_node tree_height db.nodes
      → IsProvable db k
      → k < 2 ^ tree_height
      → root ≡ node zero_node db.nodes tree_height 0
      → (p : MerkleProof) × (generate_merkle_proof k db ≡ (ok p, db))
        × (p.leaf_index ≡ k)
        × (p.leaf_hash ≡ node zero_node db.nodes 0 k)
        × (verify_merkle_proof sha p root ≡ true)
  unfolding generate_merkle_proof verify_merkle_proof is_stored node
  generate_merkle_proof-verifies rec provable range top =
      elim (Option-cases (select_node db.nodes 0 k)) [
        | inl gone ↦ absurd (false≢true (sym (ap is_some gone) ∙ provable.leaf))
        | inr (leaf, found) ↦
            let here : to_array leaf ≡ node zero_node db.nodes 0 k = ground arith in
            let folds =
              fold_path-path_indices sha tree_height k (to_array leaf)
                (siblings zero_node tree_height 0 k db.nodes)
                (length-siblings zero_node tree_height 0 k db.nodes)
              ∙ fold_proof-PathStored sha zero_node tree_height db.nodes rec tree_height 0 k
                  (to_array leaf) here (omega arith) provable.path
              ∙ ap₂ (node zero_node db.nodes) (omega arith) (ancestor-root tree_height k range)
              ∙ sym top in
            (
              record {
                leaf_index = k;
                leaf_hash = to_array leaf;
                siblings = siblings zero_node tree_height 0 k db.nodes;
                path_indices = path_indices tree_height k;
              },
              ground arith,
              refl,
              here,
              rw folds (bytes_eq_refl root),
            )
      ]

pub length-climbed :
    (sha : Sha256) (db : Db) (s : TreeState) (k : ℕ) (v : Hash)
    → length v ≡ 32
    → length (climbed sha db s k v).0 ≡ 32
length-climbed sha db s k v size =
    length-climb sha zero_node tree_height 0 k (written sha db s k v) v size
