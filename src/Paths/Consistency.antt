-- ===== src/Paths/Consistency.antt =====
-- When every stored parent is the hash of its children, and what one write does to that.
use demo_vapp.Prelude.{
  ℕ, ◌+◌, ◌*◌, ◌/◌, ◌%◌, ◌<◌, ◌≡◌, ◌≢◌, ◌⊎◌, inl, inr, ◌&&◌, arith, ◌==◌, if◌then◌else◌, length,
  Bool-cases, ==_iff, sym, ◌∙◌,
}
use mathlib.Core.Path.{ap₂}
use mathlib.Core.Bool.{false≢true}
use demo_vapp.Hashing.{Hash, Sha256, hash_pair, length-hash_pair, to_array_id}
use demo_vapp.Nodes.{Nodes, upsert, select_node-upsert}
use demo_vapp.Paths.{node, parent_hash, sibling_index, is_right_child}

-- A write shows at its own place and nowhere else.
pub node-upsert :
    (missing : ℕ → Hash) (ns : Nodes) (l i : ℕ) (h : Hash) (m j : ℕ)
    → length h ≡ 32
    → node missing (upsert ns l i h) m j ≡ (if l == m && i == j then h else node missing ns m j)
unfolding node
node-upsert missing ns l i h m j size =
    ground (arith, select_node-upsert ns l i h m j, to_array_id h size)

module _ (sha : Sha256) (missing : ℕ → Hash) where
  -- The node above level `m` at index `j` is the hash of its two children.
  abbrev pub IsHashed : Nodes → ℕ → ℕ → Type 0
  IsHashed ns m j =
      node missing ns (m + 1) j
      ≡ hash_pair sha (node missing ns m (2 * j)) (node missing ns m (2 * j + 1))

  pub record IsConsistent (height : ℕ) (ns : Nodes) : Type 0 where
    pub at : (m j : ℕ) → m < height → IsHashed ns m j

  -- Consistent but for the parent of one node, whose hash has just changed.
  pub record IsStaleAbove (height l i : ℕ) (ns : Nodes) : Type 0 where
    pub at : (m j : ℕ) → m < height → (m ≢ l) ⊎ (j ≢ i / 2) → IsHashed ns m j

  pub IsStaleAbove-upsert :
      (height i : ℕ) (ns : Nodes) (h : Hash)
      → length h ≡ 32
      → IsConsistent height ns
      → IsStaleAbove height 0 i (upsert ns 0 i h)
  IsStaleAbove-upsert height i ns h size c = record {
    at = λ m j below other. ground (
      arith,
      c.at m j,
      node-upsert missing ns 0 i h (m + 1) j size,
      node-upsert missing ns 0 i h m (2 * j) size,
      node-upsert missing ns 0 i h m (2 * j + 1) size,
    );
  }

  -- The two orders of hashing are one: left child first.
  pub parent_hash-children :
      (l i : ℕ) (ns : Nodes)
      → parent_hash sha i (node missing ns l i) (node missing ns l (sibling_index i))
        ≡ hash_pair sha (node missing ns l (2 * (i / 2))) (node missing ns l (2 * (i / 2) + 1))
  unfolding parent_hash
  parent_hash-children l i ns = elim (Bool-cases (is_right_child i)) [
    | inl right ↦
        let odd : i % 2 ≡ 1 = (==_iff (i % 2) 1).0 right in
        rw right (
          ap₂ (λ a b. hash_pair sha (node missing ns l a) (node missing ns l b)) (omega arith)
            (omega arith))
    | inr left ↦
        let even : i % 2 ≢ 1 = λ e. false≢true (sym left ∙ (==_iff (i % 2) 1).1 e) in
        rw left (
          ap₂ (λ a b. hash_pair sha (node missing ns l a) (node missing ns l b)) (omega arith)
            (omega arith))
  ]

  pub length-parent_hash : (i : ℕ) (h s : Hash) → length (parent_hash sha i h s) ≡ 32
  unfolding parent_hash
  length-parent_hash i h s = ground (arith, length-hash_pair sha s h, length-hash_pair sha h s)

  -- Storing the right hash above the stale node moves the gap up by one level.
  pub IsStaleAbove-step :
      (height l i : ℕ) (ns : Nodes) (p : Hash)
      → length p ≡ 32
      → p ≡ hash_pair sha (node missing ns l (2 * (i / 2))) (node missing ns l (2 * (i / 2) + 1))
      → IsStaleAbove height l i ns
      → IsStaleAbove height (l + 1) (i / 2) (upsert ns (l + 1) (i / 2) p)
  IsStaleAbove-step height l i ns p size e c = record {
    at = λ m j below other. ground (
      arith,
      c.at m j,
      node-upsert missing ns (l + 1) (i / 2) p (m + 1) j size,
      node-upsert missing ns (l + 1) (i / 2) p m (2 * j) size,
      node-upsert missing ns (l + 1) (i / 2) p m (2 * j + 1) size,
    );
  }
