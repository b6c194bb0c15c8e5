-- ===== src/Nodes.antt =====
-- The table `merkle_nodes` of db/migrations/012_restore_imt_schema.sql, keyed by level and index, with
-- the statements that both Merkle trees run on it.
use demo_vapp.Prelude.{
  ℕ, ◌≡◌, refl, Option, none, some, List, [], ◌∷◌, ◌&&◌, arith, ◌==◌, if◌then◌else◌,
}
use demo_vapp.Hashing.{Hash}

pub record MerkleNode : Type 0 where
  pub tree_level : ℕ
  pub node_index : ℕ
  pub hash_value : Hash

abbrev pub Nodes : Type 0
Nodes = List MerkleNode

-- SELECT hash_value FROM merkle_nodes WHERE tree_level = $1 AND node_index = $2
unfoldable pub select_node : Nodes → ℕ → ℕ → Option Hash
select_node [] level index = none
select_node (n ∷ ns) level index =
    if n.tree_level == level && n.node_index == index
    then some n.hash_value
    else select_node ns level index

-- INSERT INTO merkle_nodes … ON CONFLICT (tree_level, node_index) DO UPDATE SET hash_value = $3
unfoldable pub upsert : Nodes → ℕ → ℕ → Hash → Nodes
upsert [] level index hash =
    record { tree_level = level; node_index = index; hash_value = hash } ∷ []
upsert (n ∷ ns) level index hash =
    if n.tree_level == level && n.node_index == index
    then record n { hash_value = hash } ∷ ns
    else n ∷ upsert ns level index hash

pub select_node-upsert :
    (ns : Nodes) (l i : ℕ) (h : Hash) (m j : ℕ)
    → select_node (upsert ns l i h) m j ≡ (if l == m && i == j then some h else select_node ns m j)
unfolding select_node upsert
select_node-upsert [] l i h m j = refl
select_node-upsert (n ∷ ns) l i h m j = ground (arith, select_node-upsert ns l i h m j)
