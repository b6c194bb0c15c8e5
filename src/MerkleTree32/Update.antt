-- ===== src/MerkleTree32/Update.antt =====
-- `update_leaf` of db/src/merkle_tree_32.rs against the ideal tree.
use demo_vapp.Prelude.{
  ℕ, ◌^◌, ◌≤◌, ◌<◌, ◌≡◌, ap, ◌∙◌, arith, length, ◌==◌, leb, if◌then◌else◌, true, false, inl, inr,
  Bool-cases,
}
use mathlib.Core.Path.{ap₂}
use demo_vapp.Hashing.{Hash, Sha256, to_array_id}
use demo_vapp.Nodes.{Nodes, upsert}
use demo_vapp.Paths.{node, climb}
use demo_vapp.Paths.Consistency.{IsConsistent, IsStaleAbove-upsert, node-upsert}
use demo_vapp.Paths.Digest.{digest, digest-cong, node-eq-digest, ancestor-root}
use demo_vapp.Paths.Climb.{climb-IsConsistent, climb-root, climb-below, length-climb}
use demo_vapp.Error.{ok, err, invalid_tree_parameter}
use demo_vapp.Db.{Db}
use demo_vapp.MerkleTree32.{
  MerkleTree32, zero_at, set_root, update_leaf, update_leaf_internal, get_root,
}
use demo_vapp.MerkleTree32.ZeroHashes.{IsValid}

-- The leaves of the stored tree.
abbrev pub leaf_of : MerkleTree32 → Db → ℕ → Hash
leaf_of tree db = node (zero_at tree) db.nodes 0

module _ (sha : Sha256) (tree : MerkleTree32) (db : Db) (k : ℕ) (v : Hash) where
  abbrev written : Nodes
  written = upsert db.nodes 0 k v

  abbrev climbed : Hash × Nodes
  climbed = climb sha (zero_at tree) tree.height 0 k v written

  module _ (valid : IsValid sha tree db) (range : k < 2 ^ tree.height) (size : length v ≡ 32) where
    current : v ≡ node (zero_at tree) written 0 k
    current = ground (arith, node-upsert (zero_at tree) db.nodes 0 k v 0 k size)

    internal-IsConsistent : IsConsistent sha (zero_at tree) tree.height climbed.1
    internal-IsConsistent =
        climb-IsConsistent sha (zero_at tree) tree.height 0 k written v tree.height (omega arith)
          current
          (IsStaleAbove-upsert sha (zero_at tree) tree.height k db.nodes v size valid.consistent)

    internal-root : climbed.0 ≡ node (zero_at tree) climbed.1 tree.height 0
    internal-root =
        climb-root sha (zero_at tree) tree.height 0 k written v current
        ∙ ap₂ (node (zero_at tree) climbed.1) (omega arith) (ancestor-root tree.height k range)

    internal-leaf :
        (j : ℕ) → node (zero_at tree) climbed.1 0 j ≡ (if k == j then v else leaf_of tree db j)
    internal-leaf j =
        climb-below sha (zero_at tree) tree.height 0 k written v 0 j (omega arith)
        ∙ node-upsert (zero_at tree) db.nodes 0 k v 0 j size

    result : update_leaf sha tree k v db ≡ (
      ok climbed.0,
      record db { nodes = climbed.1; tree_state = set_root climbed.0 db.tree_state },
    )
    unfolding update_leaf update_leaf_internal
    result = let inside : leb (2 ^ tree.height) k ≡ false = ground arith in rw inside

    -- Below 2 ^ height the tree stays well formed.
    inside-IsValid : IsValid sha tree (update_leaf sha tree k v db).1
    inside-IsValid = rw result (record {
      zeros = valid.zeros;
      consistent = internal-IsConsistent;
      state = record valid.state { root_hash = climbed.0 };
      stored = ap (set_root climbed.0) valid.stored;
      root = internal-root;
      root_size = length-climb sha (zero_at tree) tree.height 0 k written v size;
    })

    -- In a well formed tree, for an index below 2 ^ height and a value of 32 bytes, exactly the
    -- written leaf changes.
    pub leaf_of-update_leaf :
        (j : ℕ)
        → leaf_of tree (update_leaf sha tree k v db).1 j ≡ (if k == j then v else leaf_of tree db j)
    leaf_of-update_leaf j = rw result (internal-leaf j)

    -- For a well formed tree, an index below 2 ^ height and a value of 32 bytes, the returned root is
    -- that of the ideal tree whose leaf `k` is replaced by `v`.
    pub update_leaf-digest :
        (update_leaf sha tree k v db).0
        ≡ ok (digest sha (λ j. if k == j then v else leaf_of tree db j) tree.height 0)
    update_leaf-digest = rw result (
        ap ok (
          internal-root
          ∙ node-eq-digest sha (zero_at tree) tree.height climbed.1 internal-IsConsistent
              tree.height 0 (omega arith)
          ∙ digest-cong sha _ _ tree.height 0 internal-leaf))

    -- In a well formed tree, for an index below 2 ^ height and a value of 32 bytes, the root that is
    -- returned is the one that `get_root` reads afterwards.
    pub get_root-update_leaf :
        (get_root (update_leaf sha tree k v db).1).0 ≡ (update_leaf sha tree k v db).0
    unfolding get_root
    get_root-update_leaf =
        rw (result, valid.stored)
          (ap ok (
            to_array_id climbed.0 (length-climb sha (zero_at tree) tree.height 0 k written v size)))

  -- An index past the capacity is an error that writes nothing.
  update_leaf_outside :
      2 ^ tree.height ≤ k → update_leaf sha tree k v db ≡ (err invalid_tree_parameter, db)
  unfolding update_leaf
  update_leaf_outside h = let outside : leb (2 ^ tree.height) k ≡ true = ground arith in rw outside

  -- Whatever the index, inside the capacity or past it, `update_leaf` with a value of 32 bytes leaves a
  -- well formed tree well formed.
  pub update_leaf-IsValid :
      IsValid sha tree db → length v ≡ 32 → IsValid sha tree (update_leaf sha tree k v db).1
  update_leaf-IsValid valid size = elim (Bool-cases (leb (2 ^ tree.height) k)) [
    | inl past ↦ rw (update_leaf_outside (ground arith)) valid
    | inr below ↦ inside-IsValid valid (ground arith) size
  ]
