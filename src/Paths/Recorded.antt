-- ===== src/Paths/Recorded.antt =====
-- Trees whose empty subtrees have no hashes of their own: only the stored parents are hashes of their
-- children, and a path is provable once its nodes are stored.
use demo_vapp.Prelude.{
  ℕ, zero, suc, ◌+◌, ◌*◌, ◌/◌, ◌≤◌, ◌<◌, ◌≡◌, ◌≢◌, ◌⊎◌, inl, sym, ap, ◌∙◌, Bool, true, ◌&&◌, arith,
  ◌==◌, if◌then◌else◌, length, is_some,
}
use demo_vapp.Hashing.{Hash, Sha256, hash_pair}
use demo_vapp.Nodes.{Nodes, select_node, upsert, select_node-upsert}
use demo_vapp.Paths.{node, climb, parent_hash, sibling_index, siblings, fold_proof}
use demo_vapp.Paths.Consistency.{node-upsert, IsHashed, parent_hash-children, length-parent_hash}
use demo_vapp.Paths.Climb.{stored}
use demo_vapp.Paths.Digest.{ancestor}

unfoldable pub is_stored : Nodes → ℕ → ℕ → Bool
is_stored ns m j = is_some (select_node ns m j)

pub is_stored-upsert :
    (ns : Nodes) (l i : ℕ) (h : Hash) (m j : ℕ)
    → is_stored (upsert ns l i h) m j ≡ (if l == m && i == j then true else is_stored ns m j)
unfolding is_stored
is_stored-upsert ns l i h m j = ground (arith, select_node-upsert ns l i h m j)

-- The nodes above (l, i), `n` levels up, are stored.
abbrev pub PathStored : Nodes → ℕ → ℕ → ℕ → Type 0
PathStored ns zero l i = Unit {0}
PathStored ns (suc n) l i = (is_stored ns (l + 1) (i / 2) ≡ true) × PathStored ns n (l + 1) (i / 2)

module _ (sha : Sha256) (missing : ℕ → Hash) where
  pub climb-is_stored :
      (n l i : ℕ) (ns : Nodes) (current : Hash) (m j : ℕ)
      → is_stored ns m j ≡ true
      → is_stored (climb sha missing n l i current ns).1 m j ≡ true
  unfolding climb
  climb-is_stored zero l i ns current m j h = h
  climb-is_stored (suc n) l i ns current m j h =
      let p = parent_hash sha i current (node missing ns l (sibling_index i)) in
      climb-is_stored n (l + 1) (i / 2) _ p m j
        (ground (arith, is_stored-upsert ns (l + 1) (i / 2) p m j))

  -- The walk stores the path that it takes, and keeps those that are stored.
  pub climb-PathStored :
      (n l i : ℕ) (ns : Nodes) (current : Hash)
      → PathStored (climb sha missing n l i current ns).1 n l i
  unfolding climb
  climb-PathStored zero l i ns current = tt
  climb-PathStored (suc n) l i ns current =
      let p = parent_hash sha i current (node missing ns l (sibling_index i)) in
      (
        climb-is_stored n (l + 1) (i / 2) _ p (l + 1) (i / 2)
            (ground (arith, is_stored-upsert ns (l + 1) (i / 2) p (l + 1) (i / 2))),
        climb-PathStored n (l + 1) (i / 2) _ p,
      )

  pub PathStored-climb :
      (n l i k h j : ℕ) (ns : Nodes) (current : Hash)
      → PathStored ns k h j
      → PathStored (climb sha missing n l i current ns).1 k h j
  PathStored-climb n l i zero h j ns current s = tt
  PathStored-climb n l i (suc k) h j ns current s = (
    climb-is_stored n l i ns current (h + 1) (j / 2) s.0,
    PathStored-climb n l i k (h + 1) (j / 2) ns current s.1,
  )

  pub PathStored-upsert :
      (n l i m j : ℕ) (ns : Nodes) (h : Hash)
      → PathStored ns n l i
      → PathStored (upsert ns m j h) n l i
  PathStored-upsert zero l i m j ns h s = tt
  PathStored-upsert (suc n) l i m j ns h s = (
    ground (arith, is_stored-upsert ns m j h (l + 1) (i / 2), s.0),
    PathStored-upsert n (l + 1) (i / 2) m j ns h s.1,
  )

  -- Every stored parent is the hash of its children.
  pub record IsRecorded (height : ℕ) (ns : Nodes) : Type 0 where
    pub at : (m j : ℕ) → m < height → is_stored ns (m + 1) j ≡ true → IsHashed sha missing ns m j

  -- The same but for the parent of one node.
  pub record IsRecordedBut (height l i : ℕ) (ns : Nodes) : Type 0 where
    pub at :
        (m j : ℕ)
        → m < height
        → (m ≢ l) ⊎ (j ≢ i / 2)
        → is_stored ns (m + 1) j ≡ true
        → IsHashed sha missing ns m j

  pub IsRecordedBut-upsert :
      (height i : ℕ) (ns : Nodes) (h : Hash)
      → length h ≡ 32
      → IsRecorded height ns
      → IsRecordedBut height 0 i (upsert ns 0 i h)
  IsRecordedBut-upsert height i ns h size c = record {
    at = λ m j below other there. ground (
      arith,
      c.at m j,
      is_stored-upsert ns 0 i h (m + 1) j,
      node-upsert missing ns 0 i h (m + 1) j size,
      node-upsert missing ns 0 i h m (2 * j) size,
      node-upsert missing ns 0 i h m (2 * j + 1) size,
    );
  }

  IsRecordedBut-step :
      (height l i : ℕ) (ns : Nodes) (p : Hash)
      → length p ≡ 32
      → p ≡ hash_pair sha (node missing ns l (2 * (i / 2))) (node missing ns l (2 * (i / 2) + 1))
      → IsRecordedBut height l i ns
      → IsRecordedBut height (l + 1) (i / 2) (upsert ns (l + 1) (i / 2) p)
  IsRecordedBut-step height l i ns p size e c = record {
    at = λ m j below other there. ground (
      arith,
      c.at m j,
      is_stored-upsert ns (l + 1) (i / 2) p (m + 1) j,
      node-upsert missing ns (l + 1) (i / 2) p (m + 1) j size,
      node-upsert missing ns (l + 1) (i / 2) p m (2 * j) size,
      node-upsert missing ns (l + 1) (i / 2) p m (2 * j + 1) size,
    );
  }

  pub climb-IsRecorded :
      (n l i : ℕ) (ns : Nodes) (current : Hash) (height : ℕ)
      → l + n ≡ height
      → current ≡ node missing ns l i
      → IsRecordedBut height l i ns
      → IsRecorded height (climb sha missing n l i current ns).1
  unfolding climb
  climb-IsRecorded zero l i ns current height e c s = record {
    at = λ m j below there. s.at m j below (inl (omega arith)) there;
  }
  climb-IsRecorded (suc n) l i ns current height e c s =
      climb-IsRecorded n (l + 1) (i / 2)
        (upsert ns (l + 1) (i / 2)
          (parent_hash sha i current (node missing ns l (sibling_index i))))
        _ height (omega arith)
        (sym (stored sha missing ns (l + 1) (i / 2) _ (length-parent_hash sha missing i _ _)))
        (IsRecordedBut-step height l i ns _ (length-parent_hash sha missing i _ _)
          (ap (λ h. parent_hash sha i h (node missing ns l (sibling_index i))) c
            ∙ parent_hash-children sha missing l i ns)
          s)

  -- A stored path folds to its top node.
  pub fold_proof-PathStored :
      (height : ℕ) (ns : Nodes)
      → IsRecorded height ns
      → (n l i : ℕ) (current : Hash) → current ≡ node missing ns l i
      → l + n ≤ height
      → PathStored ns n l i
      → fold_proof sha i current (siblings missing n l i ns)
        ≡ node missing ns (l + n) (ancestor n i)
  unfolding fold_proof siblings
  fold_proof-PathStored height ns c zero l i current e h s =
      e ∙ ap (λ m. node missing ns m i) (omega arith)
  fold_proof-PathStored height ns c (suc n) l i current e h s =
      fold_proof-PathStored height ns c n (l + 1) (i / 2) _
        (ap (λ x. parent_hash sha i x (node missing ns l (sibling_index i))) e
          ∙ parent_hash-children sha missing l i ns
          ∙ sym (c.at l (i / 2) (omega arith) s.0))
        (omega arith) s.1
      ∙ ap (λ m. node missing ns m (ancestor n (i / 2))) (omega arith)
