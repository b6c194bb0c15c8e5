-- ===== src/MerkleTree32/Batch/Result.antt =====
-- `batch_update` against the ideal tree.
use demo_vapp.Prelude.{
  ℕ, zero, suc, ◌+◌, ◌*◌, ◌-◌, ◌/◌, ◌^◌, ◌≤◌, ◌<◌, ◌≡◌, inl, inr, refl, sym, ap, ◌∙◌, true, false,
  Option, List, [], ◌∷◌, ◌==◌, if◌then◌else◌, arith, Bool-cases, Option-cases, length,
}
use demo_vapp.Hashing.{Hash, Sha256}
use demo_vapp.Nodes.{Nodes}
use demo_vapp.Paths.{node}
use demo_vapp.Paths.Digest.{digest, digest-cong, node-eq-digest}
use demo_vapp.Paths.Consistency.{node-upsert}
use demo_vapp.Error.{ok, err, invalid_tree_parameter}
use demo_vapp.Db.{Db}
use demo_vapp.MerkleTree32.{MerkleTree32, zero_at, set_root, get_root}
use demo_vapp.MerkleTree32.ZeroHashes.{IsValid}
use demo_vapp.MerkleTree32.Update.{leaf_of}
use demo_vapp.MerkleTree32.Batch.{
  BatchUpdate, Key, KeyOrder, has_key, level_nodes, recompute_levels, recompute_affected_paths,
  write_leaves, any_outside, collect_affected_paths, batch_update,
}
use demo_vapp.MerkleTree32.Batch.Keys.{
  IsClosed, AllMarked, has_index-level_nodes, mark_updates-IsClosed, none-IsClosed,
  mark_updates-AllMarked,
}
use demo_vapp.MerkleTree32.Batch.Recompute.{IsPending, IsRecomputed, recompute_levels-IsRecomputed}

abbrev pub AllSized : List BatchUpdate → Type 0
AllSized [] = Unit {0}
AllSized (u ∷ us) = (length u.new_value ≡ 32) × AllSized us

-- The leaves after the updates: for an index that is named twice, the later value.
abbrev pub updated_leaves : List BatchUpdate → (ℕ → Hash) → ℕ → Hash
updated_leaves [] leaf j = leaf j
updated_leaves (u ∷ us) leaf j =
    updated_leaves us (λ i. if u.leaf_index == i then u.new_value else leaf i) j

updated_leaves-cong :
    (us : List BatchUpdate) (f g : ℕ → Hash)
    → ((i : ℕ) → f i ≡ g i)
    → (j : ℕ) → updated_leaves us f j ≡ updated_leaves us g j
updated_leaves-cong [] f g h j = h j
updated_leaves-cong (u ∷ us) f g h j =
    updated_leaves-cong us _ _ (λ i. ap (λ v. if u.leaf_index == i then u.new_value else v) (h i)) j

node-write_leaves :
    (missing : ℕ → Hash) (us : List BatchUpdate) (ns : Nodes) (j : ℕ)
    → AllSized us
    → node missing (write_leaves us ns) 0 j ≡ updated_leaves us (node missing ns 0) j
unfolding write_leaves
node-write_leaves missing [] ns j sized = refl
node-write_leaves missing (u ∷ us) ns j sized =
    node-write_leaves missing us _ j sized.1
    ∙ updated_leaves-cong us _ _
        (λ i. node-upsert missing ns 0 u.leaf_index u.new_value 0 i sized.0) j

module _ (sha : Sha256) (missing : ℕ → Hash) (height : ℕ) (ks : List Key)
    (closed : IsClosed height ks) where
  write_leaves-IsPending :
      (us : List BatchUpdate) (ns : Nodes)
      → AllMarked ks us
      → AllSized us
      → IsPending sha missing height ks closed 0 (level_nodes 1 ks) ns
      → IsPending sha missing height ks closed 0 (level_nodes 1 ks) (write_leaves us ns)
  unfolding write_leaves
  write_leaves-IsPending [] ns marked sized p = p
  write_leaves-IsPending (u ∷ us) ns marked sized p =
      write_leaves-IsPending us _ marked.1 sized.1 (record {
        at = λ m j inside now later. ground (
          arith,
          p.at m j inside now later,
          marked.0,
          now,
          has_index-level_nodes 1 ks j,
          node-upsert missing ns 0 u.leaf_index u.new_value (m + 1) j sized.0,
          node-upsert missing ns 0 u.leaf_index u.new_value m (2 * j) sized.0,
          node-upsert missing ns 0 u.leaf_index u.new_value m (2 * j + 1) sized.0,
        );
      })

-- The keys in another order are as closed, and mark the same updates.
IsClosed-keys :
    (order : KeyOrder) (height : ℕ) (ks : List Key)
    → IsClosed height ks
    → IsClosed height (order.keys ks)
IsClosed-keys order height ks c = record {
  up = λ l i h below. order.same ks (l + 1) (i / 2) ∙ c.up l i (sym (order.same ks l i) ∙ h) below;
  top = λ i h. c.top i (sym (order.same ks height i) ∙ h);
}

AllMarked-keys :
    (order : KeyOrder) (ks : List Key) (us : List BatchUpdate)
    → AllMarked ks us
    → AllMarked (order.keys ks) us
AllMarked-keys order ks [] m = tt
AllMarked-keys order ks (u ∷ us) m =
    (order.same ks 1 (u.leaf_index / 2) ∙ m.0, AllMarked-keys order ks us m.1)

-- A closed set of marks with one on level 1 has the root.
IsClosed-root :
    (height n l i : ℕ) (ks : List Key)
    → IsClosed height ks
    → l + n ≡ height
    → has_key ks l i ≡ true
    → has_key ks height 0 ≡ true
IsClosed-root height zero l i ks c e h =
    let sl : l ≡ height = omega arith in
    let there : has_key ks height i ≡ true = rw sl at h in
    let si : i ≡ 0 = c.top i there in rw si at there
IsClosed-root height (suc n) l i ks c e h =
    IsClosed-root height n (l + 1) (i / 2) ks c (omega arith) (c.up l i h (omega arith))

root_marked :
    (height l i : ℕ) (ks : List Key)
    → IsClosed height ks
    → l ≤ height
    → has_key ks l i ≡ true
    → has_key ks height 0 ≡ true
root_marked height l i ks c below h = IsClosed-root height (height - l) l i ks c (omega arith) h

module _ (sha : Sha256) (order : KeyOrder) (tree : MerkleTree32) (u : BatchUpdate)
    (us : List BatchUpdate) (db : Db) (valid : IsValid sha tree db) (tall : 0 < tree.height)
    (inside : any_outside (2 ^ tree.height) (u ∷ us) ≡ false) (sized : AllSized (u ∷ us)) where
  abbrev marks : List Key
  marks = order.keys (collect_affected_paths tree (u ∷ us))

  closed : IsClosed tree.height marks
  closed =
      IsClosed-keys order tree.height _
        (mark_updates-IsClosed tree.height (u ∷ us) [] inside (none-IsClosed tree.height))

  marked : AllMarked marks (u ∷ us)
  marked =
      AllMarked-keys order (collect_affected_paths tree (u ∷ us)) (u ∷ us)
        (mark_updates-AllMarked tree.height (u ∷ us) [] tall)

  abbrev leaves_written : Nodes
  leaves_written = write_leaves (u ∷ us) db.nodes

  pending :
      IsPending sha (zero_at tree) tree.height marks closed 0 (level_nodes 1 marks) leaves_written
  pending =
      write_leaves-IsPending sha (zero_at tree) tree.height marks closed (u ∷ us) db.nodes marked
        sized (record { at = λ m j below now later. valid.consistent.at m j below })

  abbrev recomputed : Option Hash × Nodes
  recomputed = recompute_levels sha (zero_at tree) tree.height marks tree.height 0 leaves_written

  done : IsRecomputed sha (zero_at tree) tree.height marks closed leaves_written recomputed
  done =
      recompute_levels-IsRecomputed sha (zero_at tree) tree.height marks closed tree.height 0
        leaves_written tall (omega arith)
        (root_marked tree.height 1 (u.leaf_index / 2) marks closed (omega arith) marked.0) pending

  leaves_after :
      (j : ℕ) → node (zero_at tree) recomputed.1 0 j ≡ updated_leaves (u ∷ us) (leaf_of tree db) j
  leaves_after j = done.leaves j ∙ node-write_leaves (zero_at tree) (u ∷ us) db.nodes j sized

  runs : batch_update sha order tree (u ∷ us) db ≡ (
    ok done.root,
    record db { nodes = recomputed.1; tree_state = set_root done.root db.tree_state },
  )
  unfolding batch_update recompute_affected_paths
  runs = ground (arith, inside, done.returned)

  -- For a well formed tree of at least one level and updates inside the capacity with values of 32
  -- bytes, whatever the order of the map's keys: the returned root is that of the ideal tree with the
  -- updated leaves, the tree stays well formed, and its leaves are the updated ones.
  pub batch_update-digest :
      ((batch_update sha order tree (u ∷ us) db).0
        ≡ ok (digest sha (updated_leaves (u ∷ us) (leaf_of tree db)) tree.height 0))
      × IsValid sha tree (batch_update sha order tree (u ∷ us) db).1
      × ((j : ℕ)
          → leaf_of tree (batch_update sha order tree (u ∷ us) db).1 j
            ≡ updated_leaves (u ∷ us) (leaf_of tree db) j)
  batch_update-digest = rw runs (
    ap ok (
        done.top
        ∙ node-eq-digest sha (zero_at tree) tree.height recomputed.1 done.consistent tree.height 0
            (omega arith)
        ∙ digest-cong sha _ _ tree.height 0 leaves_after),
    record {
      zeros = valid.zeros;
      consistent = done.consistent;
      state = record valid.state { root_hash = done.root };
      stored = ap (set_root done.root) valid.stored;
      root = done.top;
      root_size = done.size;
    },
    leaves_after,
  )

batch_update_outside :
    (sha : Sha256) (order : KeyOrder) (tree : MerkleTree32) (us : List BatchUpdate) (db : Db)
    → any_outside (2 ^ tree.height) us ≡ true
    → batch_update sha order tree us db ≡ (err invalid_tree_parameter, db)
unfolding batch_update any_outside
batch_update_outside sha order tree [] db h = absurd (ground arith)
batch_update_outside sha order tree (u ∷ us) db h = ground arith

get_root_same : (db : Db) → (get_root db).1 ≡ db
unfolding get_root
get_root_same db = elim (Option-cases db.tree_state) [ inl e ↦ rw e refl | inr (s, e) ↦ rw e refl ]

-- Any batch of values of 32 bytes leaves a well formed tree of at least one level well formed: the empty
-- batch, one inside the capacity, and one that is refused for an index past it.
pub batch_update-IsValid :
    (sha : Sha256) (order : KeyOrder) (tree : MerkleTree32) (us : List BatchUpdate) (db : Db)
    → IsValid sha tree db
    → 0 < tree.height
    → AllSized us
    → IsValid sha tree (batch_update sha order tree us db).1
unfolding batch_update
batch_update-IsValid sha order tree [] db valid tall sized = rw (get_root_same db) valid
batch_update-IsValid sha order tree (u ∷ us) db valid tall sized =
    elim (Bool-cases (any_outside (2 ^ tree.height) (u ∷ us))) [
      | inl past ↦ rw (batch_update_outside sha order tree (u ∷ us) db past) valid
      | inr inside ↦ (batch_update-digest sha order tree u us db valid tall inside sized).1
    ]
