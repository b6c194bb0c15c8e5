-- ===== src/Paths/Climb.antt =====
-- What the walk to the root does: it restores consistency and returns the root.
use demo_vapp.Prelude.{ℕ, zero, suc, ◌+◌, ◌/◌, ◌≤◌, ◌≡◌, refl, sym, ap, ◌∙◌, inl, arith, length}
use demo_vapp.Hashing.{Hash, Sha256}
use demo_vapp.Nodes.{Nodes, upsert}
use demo_vapp.Paths.{node, climb, parent_hash, sibling_index}
use demo_vapp.Paths.Consistency.{
  IsConsistent, IsStaleAbove, IsStaleAbove-step, node-upsert, parent_hash-children,
  length-parent_hash,
}
use demo_vapp.Paths.Digest.{ancestor}

module _ (sha : Sha256) (missing : ℕ → Hash) where
  -- The node that the next round reads as `current`.
  pub stored :
      (ns : Nodes) (l i : ℕ) (h : Hash) → length h ≡ 32 → node missing (upsert ns l i h) l i ≡ h
  stored ns l i h size = ground (arith, node-upsert missing ns l i h l i size)

  pub climb-IsConsistent :
      (n l i : ℕ) (ns : Nodes) (current : Hash) (height : ℕ)
      → l + n ≡ height
      → current ≡ node missing ns l i
      → IsStaleAbove sha missing height l i ns
      → IsConsistent sha missing height (climb sha missing n l i current ns).1
  unfolding climb
  climb-IsConsistent zero l i ns current height e c s = record {
    at = λ m j below. s.at m j below (inl (omega arith));
  }
  climb-IsConsistent (suc n) l i ns current height e c s =
      climb-IsConsistent n (l + 1) (i / 2)
        (upsert ns (l + 1) (i / 2)
          (parent_hash sha i current (node missing ns l (sibling_index i))))
        _ height (omega arith)
        (sym (stored ns (l + 1) (i / 2) _ (length-parent_hash sha missing i _ _)))
        (IsStaleAbove-step sha missing height l i ns _ (length-parent_hash sha missing i _ _)
          (ap (λ h. parent_hash sha i h (node missing ns l (sibling_index i))) c
            ∙ parent_hash-children sha missing l i ns)
          s)

  -- The hash that the walk returns is the one that it stored at the top.
  pub climb-root :
      (n l i : ℕ) (ns : Nodes) (current : Hash)
      → current ≡ node missing ns l i
      → (climb sha missing n l i current ns).0
        ≡ node missing (climb sha missing n l i current ns).1 (l + n) (ancestor n i)
  unfolding climb
  climb-root zero l i ns current c = c ∙ ap (λ m. node missing ns m i) (omega arith)
  climb-root (suc n) l i ns current c =
      let p = parent_hash sha i current (node missing ns l (sibling_index i)) in
      let ns' = upsert ns (l + 1) (i / 2) p in
      climb-root n (l + 1) (i / 2) ns' p
        (sym (stored ns (l + 1) (i / 2) p (length-parent_hash sha missing i _ _)))
      ∙ ap (λ m. node missing (climb sha missing n (l + 1) (i / 2) p ns').1 m (ancestor n (i / 2)))
          (omega arith)

  -- It leaves the levels from which it starts, and those below, alone.
  pub climb-below :
      (n l i : ℕ) (ns : Nodes) (current : Hash) (m j : ℕ)
      → m ≤ l
      → node missing (climb sha missing n l i current ns).1 m j ≡ node missing ns m j
  unfolding climb
  climb-below zero l i ns current m j h = refl
  climb-below (suc n) l i ns current m j h =
      let p = parent_hash sha i current (node missing ns l (sibling_index i)) in
      climb-below n (l + 1) (i / 2) _ p m j (omega arith)
      ∙ ground (
        arith,
        node-upsert missing ns (l + 1) (i / 2) p m j (length-parent_hash sha missing i _ _),
      )

  pub length-climb :
      (n l i : ℕ) (ns : Nodes) (current : Hash)
      → length current ≡ 32
      → length (climb sha missing n l i current ns).0 ≡ 32
  unfolding climb
  length-climb zero l i ns current h = h
  length-climb (suc n) l i ns current h =
      length-climb n (l + 1) (i / 2) _ _ (length-parent_hash sha missing i _ _)
