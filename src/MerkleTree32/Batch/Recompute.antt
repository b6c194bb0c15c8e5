-- ===== src/MerkleTree32/Batch/Recompute.antt =====
-- `recompute_affected_paths`: the levels below the one that is recomputed are hashed, and those above it
-- are stale only where a node is marked.
use demo_vapp.Prelude.{
  ℕ, zero, suc, ◌+◌, ◌*◌, ◌/◌, ◌<◌, ◌≡◌, inl, inr, refl, sym, ◌∙◌, true, false, ◌&&◌, Option, none,
  some, List, [], ◌∷◌, ◌==◌, if◌then◌else◌, arith, Bool-cases, length,
}
use demo_vapp.Hashing.{Hash, Sha256, hash_pair, length-hash_pair}
use demo_vapp.Nodes.{Nodes, upsert}
use demo_vapp.Paths.{node}
use demo_vapp.Paths.Consistency.{IsConsistent, IsHashed, node-upsert}
use demo_vapp.MerkleTree32.Batch.{
  Key, has_key, level_nodes, recompute_level, recompute_levels, next_level,
}
use demo_vapp.MerkleTree32.Batch.Keys.{IsClosed, has_index, has_index-level_nodes}

module _ (sha : Sha256) (missing : ℕ → Hash) (height : ℕ) (ks : List Key)
    (closed : IsClosed height ks) where
  -- The parents above level `below` are hashed but for the `pending` ones, and higher up but for marks.
  pub record IsPending (below : ℕ) (pending : List ℕ) (ns : Nodes) : Type 0 where
    pub at :
        (m j : ℕ)
        → m < height
        → (m ≡ below → has_index pending j ≡ false)
        → (below < m → has_key ks (m + 1) j ≡ false)
        → IsHashed sha missing ns m j

  abbrev children_hash : ℕ → ℕ → Nodes → Hash
  children_hash below i ns =
      hash_pair sha (node missing ns below (i * 2)) (node missing ns below (i * 2 + 1))

  abbrev stored : ℕ → ℕ → Nodes → Nodes
  stored below i ns = upsert ns (below + 1) i (children_hash below i ns)

  node-stored :
      (below i : ℕ) (ns : Nodes) (m j : ℕ)
      → node missing (stored below i ns) m j
        ≡ (if (below + 1) == m && i == j then children_hash below i ns else node missing ns m j)
  node-stored below i ns m j =
      node-upsert missing ns (below + 1) i (children_hash below i ns) m j (length-hash_pair sha _ _)

  twice : (j : ℕ) → j * 2 ≡ 2 * j
  twice j = omega arith

  store-IsHashed : (below i : ℕ) (ns : Nodes) → IsHashed sha missing (stored below i ns) below i
  store-IsHashed below i ns = ground (
    arith,
    twice i,
    node-stored below i ns (below + 1) i,
    node-stored below i ns below (2 * i),
    node-stored below i ns below (2 * i + 1),
  )

  store-IsPending :
      (below i : ℕ) (rest : List ℕ) (ns : Nodes)
      → has_key ks (below + 1) i ≡ true
      → IsPending below (i ∷ rest) ns
      → IsPending below rest (stored below i ns)
  store-IsPending below i rest ns marked p = record {
    at = λ m j inside now later. elim (Bool-cases (m == below && j == i)) [
      | inl here ↦
          let sm : m ≡ below = ground arith in
          let sj : j ≡ i = ground arith in rw (sm, sj) (store-IsHashed below i ns)
      | inr other ↦ elim (Bool-cases (m == (below + 1) && j == (i / 2))) [
        | inl above ↦ absurd (ground (arith, closed.up (below + 1) i marked, later))
        | inr far ↦ ground (
          arith,
          p.at m j inside,
          node-stored below i ns (m + 1) j,
          node-stored below i ns m (2 * j),
          node-stored below i ns m (2 * j + 1),
        )
      ]
    ];
  }

  -- A level below the root is worked off, and the leaves stay.
  recompute_level-IsPending :
      (below : ℕ) (pending : List ℕ) (ns : Nodes)
      → below + 1 < height
      → ((i : ℕ) → has_index pending i ≡ true → has_key ks (below + 1) i ≡ true)
      → IsPending below pending ns
      → ((recompute_level sha missing height below pending ns).0 ≡ none)
        × IsPending below [] (recompute_level sha missing height below pending ns).1
        × ((j : ℕ)
            → node missing (recompute_level sha missing height below pending ns).1 0 j
              ≡ node missing ns 0 j)
  unfolding recompute_level
  recompute_level-IsPending below [] ns low marked p = (refl, p, λ j. refl)
  recompute_level-IsPending below (i ∷ rest) ns low marked p =
      let ih =
        recompute_level-IsPending below rest (stored below i ns) low
          (λ j there. marked j (ground arith))
          (store-IsPending below i rest ns (marked i (ground arith)) p) in
      let inner : ((below + 1) == height && i == 0) ≡ false = ground arith in
      rw inner (ih.0, ih.1, λ j. ih.2 j ∙ ground (arith, node-stored below i ns 0 j))

  next_level-IsPending :
      (below : ℕ) (ns : Nodes)
      → IsPending below [] ns
      → IsPending (below + 1) (level_nodes (below + 1 + 1) ks) ns
  next_level-IsPending below ns p = record {
    at = λ m j inside now later.
        p.at m j inside (λ e. refl)
          (λ above. elim (Bool-cases (m == (below + 1))) [
            | inl next ↦
                let sm : m ≡ below + 1 = ground arith in
                rw sm (sym (has_index-level_nodes (below + 1 + 1) ks j) ∙ now sm)
            | inr up ↦ later (ground arith)
          ]);
  }

  -- What the recomputation leaves: the root that it returns is the top node of a consistent table.
  pub record IsRecomputed (before : Nodes) (result : Option Hash × Nodes) : Type 0 where
    pub root : Hash
    pub returned : result.0 ≡ some root
    pub top : root ≡ node missing result.1 height 0
    pub size : length root ≡ 32
    pub consistent : IsConsistent sha missing height result.1
    pub leaves : (j : ℕ) → node missing result.1 0 j ≡ node missing before 0 j

  top_level-IsRecomputed :
      (below : ℕ) (pending : List ℕ) (ns : Nodes)
      → below + 1 ≡ height
      → ((i : ℕ) → has_index pending i ≡ true → has_key ks (below + 1) i ≡ true)
      → has_index pending 0 ≡ true
      → IsPending below pending ns
      → IsRecomputed ns (recompute_level sha missing height below pending ns)
  unfolding recompute_level
  top_level-IsRecomputed below [] ns e marked there p = absurd (ground arith)
  top_level-IsRecomputed below (i ∷ rest) ns e marked there p =
      let only : (j : ℕ) → has_index (i ∷ rest) j ≡ true → j ≡ 0 =
        λ j h. closed.top j (rw (← e) (marked j h)) in
      let zero_index : i ≡ 0 = only i (ground arith) in
      let p' = store-IsPending below i rest ns (marked i (ground arith)) p in
      let last : ((below + 1) == height && i == 0) ≡ true = ground arith in
      rw last (record {
        root = children_hash below i ns;
        returned = refl;
        top = rw (← e, ← zero_index) (ground (arith, node-stored below i ns (below + 1) i));
        size = length-hash_pair sha _ _;
        consistent = record {
          at = λ m j inside. elim (Bool-cases (j == 0 && m == below)) [
            | inl here ↦
                let sm : m ≡ below = ground arith in
                let sj : j ≡ i = ground arith in rw (sm, sj) (store-IsHashed below i ns)
            | inr other ↦
                p'.at m j inside (λ now. ground (arith, only j)) (λ above. absurd (omega arith))
          ];
        };
        leaves = λ j. ground (arith, node-stored below i ns 0 j);
      })

  next_level-some :
      (f : Nodes → Option Hash × Nodes) (r : Option Hash × Nodes) (h : Hash)
      → r.0 ≡ some h
      → next_level sha missing height f r ≡ r
  next_level-some f (none, ns) h e = cc
  next_level-some f (some root, ns) h e = refl

  next_level-none :
      (f : Nodes → Option Hash × Nodes) (r : Option Hash × Nodes)
      → r.0 ≡ none
      → next_level sha missing height f r ≡ f r.1
  next_level-none f (none, ns) e = refl
  next_level-none f (some root, ns) e = cc

  recompute_levels-suc :
      (n below : ℕ) (ns : Nodes)
      → below + suc n ≡ height
      → has_key ks height 0 ≡ true
      → IsPending below (level_nodes (below + 1) ks) ns
      → IsRecomputed ns (recompute_levels sha missing height ks (suc n) below ns)
  unfolding recompute_levels
  recompute_levels-suc zero below ns e there p =
      let e' : below + 1 ≡ height = omega arith in
      let done =
        top_level-IsRecomputed below (level_nodes (below + 1) ks) ns e'
          (λ i h. sym (has_index-level_nodes (below + 1) ks i) ∙ h)
          (has_index-level_nodes (below + 1) ks 0 ∙ rw e' there) p in
      rw
        (next_level-some (recompute_levels sha missing height ks zero (below + 1))
          (recompute_level sha missing height below (level_nodes (below + 1) ks) ns) done.root
          done.returned)
        done
  recompute_levels-suc (suc n) below ns e there p =
      let level =
        recompute_level-IsPending below (level_nodes (below + 1) ks) ns (omega arith)
          (λ i h. sym (has_index-level_nodes (below + 1) ks i) ∙ h) p in
      let done =
        recompute_levels-suc n (below + 1) _ (omega arith) there
          (next_level-IsPending below _ level.1) in
      rw
        (next_level-none (recompute_levels sha missing height ks (suc n) (below + 1))
          (recompute_level sha missing height below (level_nodes (below + 1) ks) ns) level.0)
        (record {
          root = done.root;
          returned = done.returned;
          top = done.top;
          size = done.size;
          consistent = done.consistent;
          leaves = λ j. done.leaves j ∙ level.2 j;
        })

  -- From one level below the root or more, the recomputation ends with the root.
  pub recompute_levels-IsRecomputed :
      (levels below : ℕ) (ns : Nodes)
      → 0 < levels
      → below + levels ≡ height
      → has_key ks height 0 ≡ true
      → IsPending below (level_nodes (below + 1) ks) ns
      → IsRecomputed ns (recompute_levels sha missing height ks levels below ns)
  recompute_levels-IsRecomputed zero below ns some_level e there p = absurd (omega arith)
  recompute_levels-IsRecomputed (suc n) below ns some_level e there p =
      recompute_levels-suc n below ns e there p
