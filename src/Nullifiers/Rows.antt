-- ===== src/Nullifiers/Rows.antt =====
-- How the lookups of `nullifiers` answer after each statement.
use mathlib.Core.Option
use demo_vapp.Prelude.{
  ℕ, suc, ◌≤◌, ◌<◌, ◌≡◌, ◌≢◌, inl, inr, refl, Bool, true, false, ◌&&◌, ◌||◌, Option, none, some, [],
  ◌∷◌, ◌++◌, ◌==◌, leb, if◌then◌else◌, arith, Bool-cases, Option-cases, is_some,
}
use demo_vapp.Error.{ok}
use demo_vapp.Db.{Db, NullifierRow}
use demo_vapp.Nullifiers.{
  Rows, row_at, count_rows, exists, link, highest, value_taken, index_taken, row_at_index, or_else,
  accepts_row, insert_row, new_row, update_low,
}

pub row_at-value :
    (v : ℕ) (rows : Rows) (r : NullifierRow)
    → row_at v rows ≡ some r
    → (r.value ≡ v) × (r.is_active ≡ true)
unfolding row_at
row_at-value v [] r h = cc
row_at-value v (s ∷ rows) r h = ground (arith, row_at-value v rows r)

pub row_at-append :
    (v : ℕ) (rows : Rows) (new : NullifierRow)
    → new.is_active ≡ true
    → row_at v (rows ++ new ∷ [])
      ≡ or_else (row_at v rows) (if new.value == v then some new else none)
unfolding row_at
row_at-append v [] new active = ground arith
row_at-append v (r ∷ rows) new active = ground (arith, row_at-append v rows new active)

abbrev pub linked_to : ℕ → ℕ → NullifierRow → NullifierRow
linked_to index x r = record r { next_index = some index; next_value = some x }

pub row_at-link :
    (v low index x : ℕ) (rows : Rows)
    → row_at v (link low index x rows)
      ≡ (if v == low then Option.map (linked_to index x) (row_at v rows) else row_at v rows)
unfolding row_at link
row_at-link v low index x [] = ground arith
row_at-link v low index x (r ∷ rows) = ground (arith, row_at-link v low index x rows)

pub value_taken-link :
    (v low index x : ℕ) (rows : Rows) → value_taken v (link low index x rows) ≡ value_taken v rows
unfolding value_taken link
value_taken-link v low index x [] = refl
value_taken-link v low index x (r ∷ rows) = ground (arith, value_taken-link v low index x rows)

pub value_taken-append :
    (v : ℕ) (rows : Rows) (new : NullifierRow)
    → value_taken v (rows ++ new ∷ []) ≡ (value_taken v rows || (new.value == v))
unfolding value_taken
value_taken-append v [] new = ground arith
value_taken-append v (r ∷ rows) new = ground (arith, value_taken-append v rows new)

pub row_at-taken :
    (v : ℕ) (rows : Rows) (r : NullifierRow) → row_at v rows ≡ some r → value_taken v rows ≡ true
unfolding row_at value_taken
row_at-taken v [] r h = cc
row_at-taken v (s ∷ rows) r h = ground (arith, row_at-taken v rows r)

-- `exists` answers whether the lookup finds a row.
pub exists-row_at : (v : ℕ) (rows : Rows) → exists v rows ≡ is_some (row_at v rows)
unfolding exists row_at count_rows
exists-row_at v [] = refl
exists-row_at v (r ∷ rows) = ground (arith, exists-row_at v rows)

-- The values of the table differ: its UNIQUE constraint.
abbrev pub AreDistinct : Rows → Type 0
AreDistinct [] = Unit {0}
AreDistinct (r ∷ rows) = (value_taken r.value rows ≡ false) × AreDistinct rows

pub AreDistinct-append :
    (rows : Rows) (new : NullifierRow)
    → AreDistinct rows
    → value_taken new.value rows ≡ false
    → AreDistinct (rows ++ new ∷ [])
unfolding value_taken
AreDistinct-append [] new d h = (refl, tt)
AreDistinct-append (r ∷ rows) new d h = (
  ground (arith, value_taken-append r.value rows new),
  AreDistinct-append rows new d.1 (ground arith),
)

pub AreDistinct-link :
    (low index x : ℕ) (rows : Rows) → AreDistinct rows → AreDistinct (link low index x rows)
unfolding link
AreDistinct-link low index x [] d = tt
AreDistinct-link low index x (r ∷ rows) d = (
  ground (arith, value_taken-link r.value low index x rows),
  AreDistinct-link low index x rows d.1,
)

module _ (p : NullifierRow → Bool)
    (active : (r : NullifierRow) → p r ≡ true → r.is_active ≡ true) where
  -- What the query returns satisfies its condition, and is the active row of its value.
  pub highest_sound :
      (rows : Rows) (r : NullifierRow)
      → AreDistinct rows
      → highest p rows ≡ some r
      → (p r ≡ true) × (row_at r.value rows ≡ some r)
  unfolding highest row_at
  highest_sound [] r d h = cc
  highest_sound (s ∷ rows) r d h = elim (Option-cases (highest p rows)) [
    | inl e ↦ ground (arith, active s)
    | inr (t, e) ↦
        let below = highest_sound rows t d.1 e in
        ground (arith, active s, row_at-taken t.value rows t below.1)
  ]

  -- And no row that satisfies the condition is higher.
  pub highest-max :
      (rows : Rows) (v : ℕ) (s : NullifierRow)
      → row_at v rows ≡ some s
      → p s ≡ true
      → (r : NullifierRow) × (highest p rows ≡ some r) × (s.value ≤ r.value)
  unfolding highest row_at
  highest-max [] v s h ps = cc
  highest-max (t ∷ rows) v s h ps = elim (Bool-cases (t.value == v && t.is_active)) [
    | inl here ↦
        let same : t ≡ s = ground arith in
        elim (Option-cases (highest p rows)) [
          | inl e ↦ (t, ground arith, ground arith)
          | inr (u, e) ↦ elim (Bool-cases (leb u.value t.value)) [
            | inl le ↦ (t, ground arith, ground arith)
            | inr gt ↦ (u, ground arith, ground arith)
          ]
        ]
    | inr later ↦
        let rest = highest-max rows v s (ground arith) ps in
        elim (Bool-cases (p t && leb rest.0.value t.value)) [
          | inl top ↦ (t, ground arith, ground arith)
          | inr under ↦ (rest.0, ground arith, ground arith)
        ]
  ]

pub link-append_new :
    (low index x : ℕ) (rows : Rows) (new : NullifierRow)
    → new.value ≢ low
    → link low index x (rows ++ new ∷ []) ≡ link low index x rows ++ new ∷ []
unfolding link
link-append_new low index x [] new h = ground arith
link-append_new low index x (r ∷ rows) new h =
    ground (arith, link-append_new low index x rows new h)

-- A row under a fresh index is the one found at that index.
pub row_at_index-linked :
    (i low index x : ℕ) (rows : Rows) (new : NullifierRow)
    → new.tree_index ≡ i
    → new.is_active ≡ true
    → index_taken i rows ≡ false
    → row_at_index i (link low index x rows ++ new ∷ []) ≡ some new
unfolding row_at_index index_taken link
row_at_index-linked i low index x [] new at active fresh = ground arith
row_at_index-linked i low index x (r ∷ rows) new at active fresh =
    ground (arith, row_at_index-linked i low index x rows new)

pub absent-row_at : (v : ℕ) (rows : Rows) → value_taken v rows ≡ false → row_at v rows ≡ none
unfolding row_at value_taken
absent-row_at v [] h = refl
absent-row_at v (r ∷ rows) h = ground (arith, absent-row_at v rows)

-- The statements where they succeed.
pub insert_row_ok :
    (value : ℕ) (next_index next_value : Option ℕ) (tree_index : ℕ) (db : Db)
    → accepts_row value next_value tree_index db.nullifiers ≡ true
    → insert_row value next_index next_value tree_index db ≡ (
      ok (new_row db.next_id value next_index next_value tree_index),
      record db {
        nullifiers =
            db.nullifiers ++ new_row db.next_id value next_index next_value tree_index ∷ [];
        next_id = suc db.next_id;
      },
    )
unfolding insert_row
insert_row_ok value next_index next_value tree_index db h = rw h

pub update_low_ok :
    (low index x : ℕ) (db : Db) (r : NullifierRow)
    → row_at low db.nullifiers ≡ some r
    → low < x
    → update_low low index x db ≡ (ok tt, record db { nullifiers = link low index x db.nullifiers })
unfolding update_low
update_low_ok low index x db r found h = ground arith

pub tree_index-fresh :
    (v i : ℕ) (rows : Rows) (r : NullifierRow)
    → row_at v rows ≡ some r
    → index_taken i rows ≡ false
    → r.tree_index ≢ i
unfolding row_at index_taken
tree_index-fresh v i [] r found fresh = cc
tree_index-fresh v i (s ∷ rows) r found fresh = ground (arith, tree_index-fresh v i rows r)

pub index_taken-link :
    (i low index x : ℕ) (rows : Rows) → index_taken i (link low index x rows) ≡ index_taken i rows
unfolding index_taken link
index_taken-link i low index x [] = refl
index_taken-link i low index x (r ∷ rows) = ground (arith, index_taken-link i low index x rows)
