-- ===== src/Nullifiers.antt =====
-- `NullifierDb` of db/src/merkle_tree.rs, and the SQL functions of
-- db/migrations/012_restore_imt_schema.sql that it calls. Values are the naturals of the i64 range: the
-- table's CHECK refuses negative ones. The column `created_at` is left out.
pub mod Rows
pub mod Chain
pub mod Search
use mathlib.Core.Option
use demo_vapp.Prelude.{
  ℕ, zero, suc, ◌+◌, ◌^◌, Bool, true, false, ◌&&◌, ◌||◌, Option, none, some, List, [], ◌∷◌, ◌++◌,
  ◌==◌, ltb, leb, if◌then◌else◌, unwrap_or,
}
use mathlib.Core.Bool.{not}
use demo_vapp.Error.{
  DbError, Result, ok, err, database, SqlxError, nullifier_exists, insertion_failed, not_found,
}
use demo_vapp.Db.{
  Db, NullifierRow, TreeState, M, ◌>>=◌, ◌>>◌, pure, raise, ok_or, continue, rollback, transaction,
}

pub record Nullifier : Type 0 where
  pub id : ℕ
  pub value : ℕ
  pub next_index : Option ℕ
  pub next_value : ℕ
  pub tree_index : ℕ
  pub is_active : Bool

pub record LowNullifier : Type 0 where
  pub value : ℕ
  pub next_index : Option ℕ
  pub next_value : ℕ
  pub tree_index : ℕ

pub record InsertionResult : Type 0 where
  pub nullifier : Nullifier
  pub low_nullifier : LowNullifier
  pub tree_index : ℕ

abbrev pub Rows : Type 0
Rows = List NullifierRow

-- … FROM nullifiers WHERE value = $1 AND is_active = true
unfoldable pub row_at : ℕ → Rows → Option NullifierRow
row_at v [] = none
row_at v (r ∷ rs) = if r.value == v && r.is_active then some r else row_at v rs

-- … FROM nullifiers WHERE tree_index = $1 AND is_active = true
unfoldable pub row_at_index : ℕ → Rows → Option NullifierRow
row_at_index i [] = none
row_at_index i (r ∷ rs) = if r.tree_index == i && r.is_active then some r else row_at_index i rs

-- SELECT COUNT(*) FROM nullifiers WHERE …
unfoldable pub count_rows : (NullifierRow → Bool) → Rows → ℕ
count_rows p [] = 0
count_rows p (r ∷ rs) = if p r then suc (count_rows p rs) else count_rows p rs

abbrev pub higher : NullifierRow → Option NullifierRow → Option NullifierRow
higher r none = some r
higher r (some s) = if leb s.value r.value then some r else some s

-- … WHERE p ORDER BY value DESC LIMIT 1
unfoldable pub highest : (NullifierRow → Bool) → Rows → Option NullifierRow
highest p [] = none
highest p (r ∷ rs) = let rest = highest p rs in if p r then higher r rest else rest

abbrev pub next_fits : ℕ → Option ℕ → Bool
next_fits x none = false
next_fits x (some n) = ltb x n || (n == 0)

-- The WHERE clause of the first query of `find_low_nullifier`.
abbrev pub is_candidate : ℕ → NullifierRow → Bool
is_candidate x r = r.is_active && (ltb r.value x && next_fits x r.next_value)

abbrev pub or_else {ℓ} : {A : Type ℓ} → Option A → Option A → Option A
or_else none b = b
or_else (some a) b = some a

-- The SQL function: the highest candidate, and failing that the highest active row.
unfoldable pub find_low_row : ℕ → Rows → Option NullifierRow
find_low_row x rows = or_else (highest (is_candidate x) rows) (highest (λ r. r.is_active) rows)

-- A row as the query macros hand it over; a NULL `next_value` cannot be decoded.
abbrev pub decode_row : NullifierRow → M Nullifier
decode_row r = do
  next ← ok_or r.next_value (database SqlxError.other)
  pure (record {
    id = r.id;
    value = r.value;
    next_index = r.next_index;
    next_value = next;
    tree_index = r.tree_index;
    is_active = r.is_active;
  })

abbrev pub low_of : NullifierRow → LowNullifier
low_of r = record {
  value = r.value;
  next_index = r.next_index;
  next_value = unwrap_or r.next_value 0;
  tree_index = r.tree_index;
}

-- The low nullifier of a table with no active row.
abbrev pub virtual_low_nullifier : LowNullifier
virtual_low_nullifier = record { value = 0; next_index = none; next_value = 0; tree_index = 0 }

unfoldable pub find_low_nullifier : ℕ → Rows → Option LowNullifier
find_low_nullifier new_value rows = elim (find_low_row new_value rows) [
  | some row ↦ some (low_of row)
  | none ↦ if count_rows (λ r. r.is_active) rows == 0 then some virtual_low_nullifier else none
]

unfoldable pub exists : ℕ → Rows → Bool
exists value rows = ltb 0 (count_rows (λ r. r.value == value && r.is_active) rows)

unfoldable pub get_by_tree_index : ℕ → M (Option Nullifier)
get_by_tree_index tree_index db = elim (row_at_index tree_index db.nullifiers) [
  | none ↦ (ok none, db)
  | some r ↦ (do n ← decode_row r; pure (some n)) db
]

unfoldable pub get_by_value : ℕ → M (Option Nullifier)
get_by_value value db = elim (row_at value db.nullifiers) [
  | none ↦ (ok none, db)
  | some r ↦ (do n ← decode_row r; pure (some n)) db
]

-- The CHECK `next_value = 0 OR next_value > value`, which NULL passes.
abbrev pub next_is_valid : ℕ → Option ℕ → Bool
next_is_valid v none = true
next_is_valid v (some n) = (n == 0) || ltb v n

unfoldable pub value_taken : ℕ → Rows → Bool
value_taken v [] = false
value_taken v (r ∷ rs) = (r.value == v) || value_taken v rs

unfoldable pub index_taken : ℕ → Rows → Bool
index_taken i [] = false
index_taken i (r ∷ rs) = (r.tree_index == i) || index_taken i rs

-- UPDATE nullifiers SET next_index = $1, next_value = $2 WHERE value = $3 AND is_active = true
unfoldable pub link : ℕ → ℕ → ℕ → Rows → Rows
link low index x [] = []
link low index x (r ∷ rs) =
    (if r.value == low && r.is_active
      then record r { next_index = some index; next_value = some x }
      else r)
    ∷ link low index x rs

-- That statement with the CHECK on the rows that it changes.
unfoldable pub update_low : ℕ → ℕ → ℕ → M (Unit {0})
update_low low index x db = elim (row_at low db.nullifiers) [
  | none ↦ (ok tt, db)
  | some r ↦
      if next_is_valid low (some x)
      then (ok tt, record db { nullifiers = link low index x db.nullifiers })
      else (err (database SqlxError.constraint_violation), db)
]

abbrev pub new_row : ℕ → ℕ → Option ℕ → Option ℕ → ℕ → NullifierRow
new_row id value next_index next_value tree_index = record {
  id = id;
  value = value;
  next_index = next_index;
  next_value = next_value;
  tree_index = tree_index;
  is_active = true;
}

-- The constraints of the table on a new row: UNIQUE (also against inactive rows) and CHECK.
unfoldable pub accepts_row : ℕ → Option ℕ → ℕ → Rows → Bool
accepts_row value next_value tree_index rows =
    not (value_taken value rows)
    && (not (index_taken tree_index rows)
        && (next_is_valid value next_value && ltb tree_index (2 ^ 32)))

-- INSERT INTO nullifiers (value, next_index, next_value, tree_index) VALUES … RETURNING …
unfoldable pub insert_row : ℕ → Option ℕ → Option ℕ → ℕ → M NullifierRow
insert_row value next_index next_value tree_index db =
    if accepts_row value next_value tree_index db.nullifiers
    then (
      ok (new_row db.next_id value next_index next_value tree_index),
      record db {
        nullifiers =
            db.nullifiers ++ new_row db.next_id value next_index next_value tree_index ∷ [];
        next_id = suc db.next_id;
      },
    )
    else (err (database SqlxError.constraint_violation), db)

abbrev pub is_empty_tree : LowNullifier → Bool
is_empty_tree low = low.value == 0 && low.tree_index == 0

unfoldable pub insert_with_update : ℕ → ℕ → LowNullifier → M Nullifier
insert_with_update new_value new_tree_index low = transaction (do
  if is_empty_tree low then pure tt else update_low low.value new_tree_index new_value
  row ←
      insert_row new_value (if is_empty_tree low then none else low.next_index)
        (some (if is_empty_tree low then 0 else low.next_value)) new_tree_index
  decode_row row)

unfoldable pub deactivate_rows : ℕ → Rows → Rows
deactivate_rows value [] = []
deactivate_rows value (r ∷ rs) =
    (if r.value == value && r.is_active then record r { is_active = false } else r)
    ∷ deactivate_rows value rs

unfoldable pub deactivate : ℕ → M Bool
deactivate value db = (
  ok (exists value db.nullifiers),
  record db { nullifiers = deactivate_rows value db.nullifiers },
)
