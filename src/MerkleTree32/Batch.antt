-- ===== src/MerkleTree32/Batch.antt =====
-- `batch_update` of db/src/merkle_tree_32.rs: all leaves are written first, then the parents above them
-- are recomputed level by level. The affected nodes are the keys of a `HashMap`, which the standard
-- library hands out in an order of its own: `KeyOrder`.
pub mod Keys
pub mod Recompute
pub mod Result
mod Tests
use mathlib.Core.Option
use demo_vapp.Prelude.{
  ℕ, zero, suc, ◌+◌, ◌*◌, ◌/◌, ◌^◌, ◌≡◌, Bool, true, false, ◌&&◌, ◌||◌, Option, none, some, List,
  [], ◌∷◌, ◌==◌, leb, if◌then◌else◌,
}
use demo_vapp.Hashing.{Hash, Sha256, hash_pair}
use demo_vapp.Nodes.{Nodes, upsert}
use demo_vapp.Paths.{node}
use demo_vapp.Error.{DbError, ok, err, not_found, invalid_tree_parameter}
use demo_vapp.Db.{Db, M, ◌>>=◌, ◌>>◌, pure, raise, ok_or, transaction}
use demo_vapp.MerkleTree32.{MerkleTree32, zero_at, set_root, get_root, get_node_hash}

pub record BatchUpdate : Type 0 where
  pub leaf_index : ℕ
  pub new_value : Hash

-- `(level, index)`
abbrev pub Key : Type 0
Key = ℕ × ℕ

unfoldable pub has_key : List Key → ℕ → ℕ → Bool
has_key [] level index = false
has_key (k ∷ ks) level index = (k.0 == level && k.1 == index) || has_key ks level index

-- The order in which the keys of a map come back: the same keys.
pub record KeyOrder : Type 0 where
  pub keys : List Key → List Key
  pub same :
      (ks : List Key) (level index : ℕ) → has_key (keys ks) level index ≡ has_key ks level index

-- HashMap::insert
abbrev pub insert_key : ℕ → ℕ → List Key → List Key
insert_key level index ks = if has_key ks level index then ks else (level, index) ∷ ks

-- `levels` rounds of the inner loop, of which the first is at `level`.
unfoldable pub mark_parents : ℕ → ℕ → ℕ → List Key → List Key
mark_parents zero level current_index affected = affected
mark_parents (suc levels) level current_index affected =
    mark_parents levels (level + 1) (current_index / 2)
      (insert_key level (current_index / 2) affected)

unfoldable pub mark_updates : ℕ → List BatchUpdate → List Key → List Key
mark_updates height [] affected = affected
mark_updates height (u ∷ us) affected =
    mark_updates height us (mark_parents height 1 u.leaf_index affected)

abbrev pub collect_affected_paths : MerkleTree32 → List BatchUpdate → List Key
collect_affected_paths tree updates = mark_updates tree.height updates []

unfoldable pub level_nodes : ℕ → List Key → List ℕ
level_nodes level [] = []
level_nodes level (k ∷ ks) =
    if k.0 == level then k.1 ∷ level_nodes level ks else level_nodes level ks

module _ (sha : Sha256) (missing : ℕ → Hash) (height : ℕ) where
  -- The nodes of the level `below + 1`; the root ends the function.
  unfoldable pub recompute_level : ℕ → List ℕ → Nodes → Option Hash × Nodes
  recompute_level below [] ns = (none, ns)
  recompute_level below (node_index ∷ rest) ns =
      let parent_hash =
        hash_pair sha (node missing ns below (node_index * 2))
          (node missing ns below (node_index * 2 + 1)) in
      let ns' = upsert ns (below + 1) node_index parent_hash in
      let others = recompute_level below rest ns' in
      if (below + 1) == height && node_index == 0 then (some parent_hash, ns') else others

  abbrev pub next_level : (Nodes → Option Hash × Nodes) → Option Hash × Nodes → Option Hash × Nodes
  next_level f (some root, ns) = (some root, ns)
  next_level f (none, ns) = f ns

  -- `levels` rounds of the outer loop, of which the first is at `below + 1`.
  unfoldable pub recompute_levels : List Key → ℕ → ℕ → Nodes → Option Hash × Nodes
  recompute_levels ks zero below ns = (none, ns)
  recompute_levels ks (suc levels) below ns =
      next_level (recompute_levels ks levels (below + 1))
        (recompute_level below (level_nodes (below + 1) ks) ns)

  unfoldable pub recompute_affected_paths : List Key → M Hash
  recompute_affected_paths ks db =
      let (root, ns) = recompute_levels ks height 0 db.nodes in
      elim root [
        | some h ↦ (ok h, record db { nodes = ns })
        | none ↦ ok_or (get_node_hash height 0 ns) not_found (record db { nodes = ns })
      ]

-- The leaves are stored in the order of the updates.
unfoldable pub write_leaves : List BatchUpdate → Nodes → Nodes
write_leaves [] ns = ns
write_leaves (u ∷ us) ns = write_leaves us (upsert ns 0 u.leaf_index u.new_value)

unfoldable pub any_outside : ℕ → List BatchUpdate → Bool
any_outside capacity [] = false
any_outside capacity (u ∷ us) = leb capacity u.leaf_index || any_outside capacity us

abbrev pub write_all : List BatchUpdate → M (Unit {0})
write_all updates db = (ok tt, record db { nodes = write_leaves updates db.nodes })

abbrev pub batch_body : Sha256 → KeyOrder → MerkleTree32 → List BatchUpdate → M Hash
batch_body sha order tree updates = do
  write_all updates
  final_root ←
      recompute_affected_paths sha (zero_at tree) tree.height
        (order.keys (collect_affected_paths tree updates))
  λ db. (ok final_root, record db { tree_state = set_root final_root db.tree_state })

unfoldable pub batch_update : Sha256 → KeyOrder → MerkleTree32 → List BatchUpdate → M Hash
batch_update sha order tree [] db = get_root db
batch_update sha order tree (u ∷ us) db =
    if any_outside (2 ^ tree.height) (u ∷ us)
    then (err invalid_tree_parameter, db)
    else transaction (batch_body sha order tree (u ∷ us)) db
