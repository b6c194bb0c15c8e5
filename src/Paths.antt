-- ===== src/Paths.antt =====
-- The walk from a leaf to the root that both Merkle trees make over `merkle_nodes`
-- (`update_leaf_internal` of db/src/merkle_tree_32.rs, `update_leaf` of db/src/merkle_tree.rs).
-- `missing` is the hash that stands in for a node that is not stored, by level.
pub mod Consistency
pub mod Digest
pub mod Climb
pub mod Fold
pub mod Recorded
use demo_vapp.Prelude.{
  ℕ, zero, suc, ◌+◌, ◌-◌, ◌*◌, ◌/◌, ◌%◌, ◌≡◌, Bool, true, false, Option, none, some, List, [], ◌∷◌,
  ◌++◌, ◌==◌, if◌then◌else◌, unwrap_or,
}
use mathlib.Core.Option
use demo_vapp.Hashing.{Hash, Sha256, hash_pair, to_array}
use demo_vapp.Nodes.{Nodes, select_node, upsert}

abbrev pub is_right_child : ℕ → Bool
is_right_child index = index % 2 == 1

abbrev pub sibling_index : ℕ → ℕ
sibling_index index = if is_right_child index then index - 1 else index + 1

-- A node read from the table, or what stands in for it.
unfoldable pub node : (ℕ → Hash) → Nodes → ℕ → ℕ → Hash
node missing ns level index =
    unwrap_or (Option.map to_array (select_node ns level index)) (missing level)

-- The hash of the parent of `current`, at `index`, and its sibling.
unfoldable pub parent_hash : Sha256 → ℕ → Hash → Hash → Hash
parent_hash sha index current sibling =
    if is_right_child index then hash_pair sha sibling current else hash_pair sha current sibling

-- `levels` rounds of the loop, from the node at `level` and `index`: each stores a parent.
unfoldable pub climb : Sha256 → (ℕ → Hash) → ℕ → ℕ → ℕ → Hash → Nodes → Hash × Nodes
climb sha missing zero level index current ns = (current, ns)
climb sha missing (suc levels) level index current ns =
    let parent = parent_hash sha index current (node missing ns level (sibling_index index)) in
    climb sha missing levels (level + 1) (index / 2) parent
      (upsert ns (level + 1) (index / 2) parent)

-- The siblings on the way up, from `level` on, without a change.
unfoldable pub siblings : (ℕ → Hash) → ℕ → ℕ → ℕ → Nodes → List Hash
siblings missing zero level index ns = []
siblings missing (suc levels) level index ns =
    node missing ns level (sibling_index index) ∷ siblings missing levels (level + 1) (index / 2) ns

-- What a verifier computes from a leaf and its siblings.
unfoldable pub fold_proof : Sha256 → ℕ → Hash → List Hash → Hash
fold_proof sha index current [] = current
fold_proof sha index current (sibling ∷ rest) =
    fold_proof sha (index / 2) (parent_hash sha index current sibling) rest
