-- ===== src/Nullifiers/Chain.antt =====
-- The linked list that the rows of `nullifiers` form: each active row names the next higher active
-- value, and the highest names 0. What linking a new value behind a low nullifier does to it.
use mathlib.Core.Option.{none-ne-some}
use mathlib.Core.Bool.{false≢true}
use demo_vapp.Prelude.{
  ℕ, ◌≤◌, ◌<◌, ◌≡◌, ◌≢◌, ◌⊎◌, inl, inr, refl, sym, ◌∙◌, false, Option, none, some, [], ◌∷◌, ◌++◌,
  ◌==◌, if◌then◌else◌, arith, Bool-cases, Option-cases,
}
use demo_vapp.Db.{NullifierRow}
use demo_vapp.Nullifiers.{Rows, row_at, link, value_taken, new_row}
use demo_vapp.Nullifiers.Rows.{
  AreDistinct, AreDistinct-append, AreDistinct-link, value_taken-link, row_at-append, row_at-link,
  row_at-taken, linked_to,
}

-- Where the chain goes from the active value `v`, whose row names `n`.
pub record Next (rows : Rows) (v n : ℕ) : Type 0 where
  pub above : n ≢ 0 → (v < n) × ((s : NullifierRow) × (row_at n rows ≡ some s))
  pub nearest : (w : ℕ) (s : NullifierRow) → row_at w rows ≡ some s → (w ≤ v) ⊎ ((n ≢ 0) × (n ≤ w))

pub record IsChain (rows : Rows) : Type 0 where
  pub distinct : AreDistinct rows
  pub next :
      (v : ℕ) (r : NullifierRow)
      → row_at v rows ≡ some r
      → (n : ℕ) × (r.next_value ≡ some n) × Next rows v n

-- `x` fits behind the row `r` of `l`, which names `n`.
pub record Fits (rows : Rows) (l x n : ℕ) (r : NullifierRow) : Type 0 where
  pub found : row_at l rows ≡ some r
  pub names : r.next_value ≡ some n
  pub after : l < x
  pub before : (n ≡ 0) ⊎ (x < n)

-- The rows once `x` is linked behind `l`.
abbrev pub linked : ℕ → ℕ → Option ℕ → ℕ → ℕ → ℕ → Rows → Rows
linked id x next_index n index l rows =
    link l index x rows ++ new_row id x next_index (some n) index ∷ []

module _ (rows : Rows) (l x n id index : ℕ) (next_index : Option ℕ) (r : NullifierRow)
    (chain : IsChain rows) (fits : Fits rows l x n r) (fresh : value_taken x rows ≡ false) where
  abbrev after_rows : Rows
  after_rows = linked id x next_index n index l rows

  absent : row_at x rows ≡ none
  absent = elim (Option-cases (row_at x rows)) [
    | inl e ↦ e
    | inr (s, e) ↦ absurd (false≢true (sym fresh ∙ row_at-taken x rows s e))
  ]

  -- The active rows afterwards: the old ones, that of `l` relinked, and the new one.
  pub row_at-linked :
      (v : ℕ)
      → row_at v after_rows ≡ (
          if x == v
          then some (new_row id x next_index (some n) index)
          else if v == l
          then some (linked_to index x r)
          else row_at v rows)
  row_at-linked v = ground (
    arith,
    row_at-append v (link l index x rows) (new_row id x next_index (some n) index) refl,
    row_at-link v l index x rows,
    absent,
    fits.found,
  )

  -- A value is active afterwards if it is `x` or was active before.
  was_active :
      (w : ℕ) (s : NullifierRow)
      → row_at w after_rows ≡ some s
      → (w ≡ x) ⊎ ((t : NullifierRow) × (row_at w rows ≡ some t))
  was_active w s e = elim (Option-cases (row_at w rows)) [
    | inl gone ↦ inl (ground (arith, row_at-linked w, fits.found))
    | inr (t, there) ↦ inr (t, there)
  ]

  still_active :
      (w : ℕ) (s : NullifierRow)
      → row_at w rows ≡ some s
      → (t : NullifierRow) × (row_at w after_rows ≡ some t)
  still_active w s e = elim (Bool-cases (x == w)) [
    | inl same ↦ absurd (none-ne-some s (sym absent ∙ ground arith))
    | inr other ↦ elim (Bool-cases (w == l)) [
      | inl low ↦ (linked_to index x r, ground (arith, row_at-linked w))
      | inr rest ↦ (s, ground (arith, row_at-linked w))
    ]
  ]

  old_next : Next rows l n
  old_next =
      let facts = chain.next l r fits.found in
      let same : facts.0 ≡ n = cc (facts.1, fits.names) in rw same at facts.2

  next_of_new : Next after_rows x n
  next_of_new = record {
    above = λ ne.
        let up = old_next.above ne in (ground (arith, fits.before), still_active n up.1.0 up.1.1);
    nearest = λ w s e. elim (was_active w s e) [
      | inl same ↦ inl (omega arith)
      | inr (t, there) ↦ ground (arith, old_next.nearest w t there, fits.after)
    ];
  }

  next_of_low : Next after_rows l x
  next_of_low = record {
    above = λ ne.
        (fits.after, (new_row id x next_index (some n) index, ground (arith, row_at-linked x)));
    nearest = λ w s e. elim (was_active w s e) [
      | inl same ↦ inr (omega (arith, fits.after), omega arith)
      | inr (t, there) ↦ ground (arith, old_next.nearest w t there, fits.after, fits.before)
    ];
  }

  next_of_other :
      (v m : ℕ) (s : NullifierRow)
      → v ≢ l
      → row_at v rows ≡ some s
      → Next rows v m
      → Next after_rows v m
  next_of_other v m s other there before = record {
    above = λ ne. let up = before.above ne in (up.0, still_active m up.1.0 up.1.1);
    nearest = λ w t e. elim (was_active w t e) [
      | inl same ↦ ground (
        arith,
        before.nearest l r fits.found,
        old_next.nearest v s there,
        fits.after,
        fits.before,
      )
      | inr (u, here) ↦ before.nearest w u here
    ];
  }

  -- Linking a fresh value behind the low nullifier that it fits keeps the chain.
  pub linked-IsChain : IsChain after_rows
  linked-IsChain = record {
    distinct =
        AreDistinct-append (link l index x rows) (new_row id x next_index (some n) index)
          (AreDistinct-link l index x rows chain.distinct)
          (value_taken-link x l index x rows ∙ fresh);
    next = λ v s e. elim (Bool-cases (x == v)) [
      | inl new ↦
          let same : v ≡ x = ground arith in
          (n, ground (arith, row_at-linked v), rw same next_of_new)
      | inr old ↦ elim (Bool-cases (v == l)) [
        | inl low ↦
            let same : v ≡ l = ground arith in
            (x, ground (arith, row_at-linked v), rw same next_of_low)
        | inr rest ↦
            let there : row_at v rows ≡ some s = ground (arith, row_at-linked v) in
            let facts = chain.next v s there in
            (facts.0, facts.1, next_of_other v facts.0 s (ground arith) there facts.2)
      ]
    ];
  }
