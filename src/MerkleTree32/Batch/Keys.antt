-- ===== src/MerkleTree32/Batch/Keys.antt =====
-- `collect_affected_paths`: which nodes are marked.
use demo_vapp.Prelude.{
  ℕ, zero, suc, ◌+◌, ◌/◌, ◌^◌, ◌<◌, ◌≡◌, ◌⊎◌, inl, inr, refl, Bool, true, false, ◌&&◌, ◌||◌, List,
  [], ◌∷◌, ◌==◌, arith, Bool-cases,
}
use demo_vapp.Paths.Digest.{ancestor, ancestor-root}
use demo_vapp.MerkleTree32.Batch.{
  BatchUpdate, Key, has_key, insert_key, mark_parents, mark_updates, level_nodes, any_outside,
}

-- What is marked has its parent marked, and the level `height` has the one node 0.
pub record IsClosed (height : ℕ) (ks : List Key) : Type 0 where
  pub up : (l i : ℕ) → has_key ks l i ≡ true → l < height → has_key ks (l + 1) (i / 2) ≡ true
  pub top : (i : ℕ) → has_key ks height i ≡ true → i ≡ 0

pub has_key-insert_key :
    (l i : ℕ) (ks : List Key) (m j : ℕ)
    → has_key (insert_key l i ks) m j ≡ ((l == m && i == j) || has_key ks m j)
unfolding has_key
has_key-insert_key l i ks m j = elim (Bool-cases (has_key ks l i)) [
  | inl there ↦ elim (Bool-cases (l == m && i == j)) [
    | inl hit ↦
        let sl : l ≡ m = ground arith in
        let si : i ≡ j = ground arith in ground (arith, rw (sl, si) at there)
    | inr miss ↦ ground arith
  ]
  | inr fresh ↦ ground arith
]

-- What was marked before stays marked.
mark_parents-keeps :
    (n l i : ℕ) (ks : List Key) (m j : ℕ)
    → has_key ks m j ≡ true
    → has_key (mark_parents n l i ks) m j ≡ true
unfolding mark_parents
mark_parents-keeps zero l i ks m j h = h
mark_parents-keeps (suc n) l i ks m j h =
    mark_parents-keeps n (l + 1) (i / 2) (insert_key l (i / 2) ks) m j
      (ground (arith, has_key-insert_key l (i / 2) ks m j))

pub mark_updates-keeps :
    (height : ℕ) (us : List BatchUpdate) (ks : List Key) (m j : ℕ)
    → has_key ks m j ≡ true
    → has_key (mark_updates height us ks) m j ≡ true
unfolding mark_updates
mark_updates-keeps height [] ks m j h = h
mark_updates-keeps height (u ∷ us) ks m j h =
    mark_updates-keeps height us _ m j (mark_parents-keeps height 1 u.leaf_index ks m j h)

-- The walk keeps the marks closed but for the node that it is about to mark.
IsClosedBut : ℕ → ℕ → ℕ → List Key → Type 0
IsClosedBut height l i ks =
    ((m j : ℕ)
      → has_key ks m j ≡ true
      → m < height
      → (has_key ks (m + 1) (j / 2) ≡ true) ⊎ ((m + 1 ≡ l) × (j / 2 ≡ i / 2)))
    × ((j : ℕ) → has_key ks height j ≡ true → j ≡ 0)

mark_parents-IsClosed :
    (height n l i : ℕ) (ks : List Key)
    → l + n ≡ height + 1
    → ancestor n i ≡ 0
    → IsClosedBut height l i ks
    → IsClosed height (mark_parents n l i ks)
unfolding mark_parents IsClosedBut
mark_parents-IsClosed height zero l i ks e a c = record {
  up = λ m j h below. elim (c.0 m j h below) [
    | inl done ↦ done
    | inr (past, _) ↦ absurd (omega arith)
  ];
  top = c.1;
}
mark_parents-IsClosed height (suc n) l i ks e a c =
    mark_parents-IsClosed height n (l + 1) (i / 2) (insert_key l (i / 2) ks) (omega arith) a (
      λ m j h below. ground (
        arith,
        has_key-insert_key l (i / 2) ks m j,
        has_key-insert_key l (i / 2) ks (m + 1) (j / 2),
        c.0 m j,
      ),
      λ j h. elim (Bool-cases (l == height && i / 2 == j)) [
        | inl hit ↦
            let last : n ≡ 0 = ground arith in let root : i / 2 ≡ 0 = rw last at a in ground arith
        | inr miss ↦ c.1 j (ground (arith, has_key-insert_key l (i / 2) ks height j))
      ],
    )

-- Every update marks its own parent.
abbrev pub AllMarked : List Key → List BatchUpdate → Type 0
AllMarked ks [] = Unit {0}
AllMarked ks (u ∷ us) = (has_key ks 1 (u.leaf_index / 2) ≡ true) × AllMarked ks us

mark_parents-first :
    (n l i : ℕ) (ks : List Key) → has_key (mark_parents (suc n) l i ks) l (i / 2) ≡ true
unfolding mark_parents
mark_parents-first n l i ks =
    mark_parents-keeps n (l + 1) (i / 2) (insert_key l (i / 2) ks) l (i / 2)
      (ground (arith, has_key-insert_key l (i / 2) ks l (i / 2)))

mark_updates-suc :
    (height : ℕ) (us : List BatchUpdate) (ks : List Key)
    → AllMarked (mark_updates (suc height) us ks) us
unfolding mark_updates
mark_updates-suc height [] ks = tt
mark_updates-suc height (u ∷ us) ks = (
  mark_updates-keeps (suc height) us _ 1 (u.leaf_index / 2)
      (mark_parents-first height 1 u.leaf_index ks),
  mark_updates-suc height us (mark_parents (suc height) 1 u.leaf_index ks),
)

pub mark_updates-AllMarked :
    (height : ℕ) (us : List BatchUpdate) (ks : List Key)
    → 0 < height
    → AllMarked (mark_updates height us ks) us
mark_updates-AllMarked zero us ks tall = absurd (omega arith)
mark_updates-AllMarked (suc height) us ks tall = mark_updates-suc height us ks

-- The marks of leaves inside the tree are closed.
pub mark_updates-IsClosed :
    (height : ℕ) (us : List BatchUpdate) (ks : List Key)
    → any_outside (2 ^ height) us ≡ false
    → IsClosed height ks
    → IsClosed height (mark_updates height us ks)
unfolding mark_updates any_outside
mark_updates-IsClosed height [] ks inside c = c
mark_updates-IsClosed height (u ∷ us) ks inside c =
    mark_updates-IsClosed height us _ (ground arith) (
      mark_parents-IsClosed height height 1 u.leaf_index ks (omega arith)
        (ancestor-root height u.leaf_index (ground arith))
        (unfold IsClosedBut in (λ m j h below. inl (c.up m j h below), c.top)))

pub none-IsClosed : (height : ℕ) → IsClosed height []
unfolding has_key
none-IsClosed height = record {
  up = λ l i h below. absurd (ground arith);
  top = λ i h. absurd (ground arith);
}

-- The nodes of a level are those that are marked there.
abbrev pub has_index : List ℕ → ℕ → Bool
has_index [] i = false
has_index (j ∷ js) i = (j == i) || has_index js i

pub has_index-level_nodes :
    (level : ℕ) (ks : List Key) (i : ℕ) → has_index (level_nodes level ks) i ≡ has_key ks level i
unfolding level_nodes has_key
has_index-level_nodes level [] i = refl
has_index-level_nodes level (k ∷ ks) i = ground (arith, has_index-level_nodes level ks i)
