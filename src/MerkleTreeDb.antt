-- ===== src/MerkleTreeDb.antt =====
-- `MerkleNodeDb`, `TreeStateDb` and `MerkleTreeDb` of db/src/merkle_tree.rs, `NullifierDb::atomic_insert`
-- and `validate_chain`, with the SQL functions of db/migrations/012_restore_imt_schema.sql behind them.
pub mod Atomic
pub mod Validation
use mathlib.Core.Bool.{not}
use demo_vapp.Prelude.{
  ℕ, zero, suc, ◌+◌, Bool, true, false, ◌&&◌, ◌||◌, Option, none, some, List, [], ◌∷◌, ◌++◌, ◌==◌,
  if◌then◌else◌, unwrap_or, length,
}
use demo_vapp.Hashing.{Hash}
use demo_vapp.Nodes.{upsert}
use demo_vapp.Error.{
  DbError, Result, ok, err, database, SqlxError, nullifier_exists, insertion_failed, not_found,
  invalid_hash_length, chain_validation_failed,
}
use demo_vapp.Db.{
  Db, NullifierRow, TreeState, M, ◌>>=◌, ◌>>◌, pure, raise, ok_or, continue, rollback, transaction,
}
use demo_vapp.Nullifiers.{
  Rows, Nullifier, LowNullifier, InsertionResult, row_at, find_low_row, find_low_nullifier, exists,
  get_by_tree_index, link, update_low, insert_row,
}

unfoldable pub upsert_node : ℕ → ℕ → Hash → M (Unit {0})
upsert_node tree_level node_index hash_value db =
    if length hash_value == 32
    then (ok tt, record db { nodes = upsert db.nodes tree_level node_index hash_value })
    else (err (invalid_hash_length (length hash_value)), db)

abbrev pub change_state : (TreeState → TreeState) → Option TreeState → Option TreeState
change_state f none = none
change_state f (some s) = some (f s)

abbrev pub map_state : (TreeState → TreeState) → Db → Db
map_state f db = record db { tree_state = change_state f db.tree_state }

-- UPDATE tree_state … RETURNING …, which `fetch_one` wants to return a row.
abbrev pub update_state : (TreeState → TreeState) → M TreeState
update_state f db = elim db.tree_state [
  | none ↦ (err (database SqlxError.row_not_found), db)
  | some s ↦ (ok (f s), record db { tree_state = some (f s) })
]

unfoldable pub update_root : Hash → M TreeState
update_root root_hash db =
    if length root_hash == 32
    then update_state (λ s. record s { root_hash = root_hash }) db
    else (err (invalid_hash_length (length root_hash)), db)

unfoldable pub increment_nullifier_count : M TreeState
increment_nullifier_count =
    update_state (λ s. record s { total_nullifiers = s.total_nullifiers + 1 })

abbrev pub next_index_of : Option TreeState → ℕ
next_index_of none = 0
next_index_of (some s) = s.next_available_index

-- The SQL function `get_next_tree_index`.
unfoldable pub get_next_index : M ℕ
get_next_index db =
    let next_idx = next_index_of db.tree_state in
    (ok next_idx, map_state (λ s. record s { next_available_index = next_idx + 1 }) db)

-- A row whose `next_value` is neither NULL nor 0 and names no active row.
abbrev pub is_dangling : Rows → NullifierRow → Bool
is_dangling rows r = elim r.next_value [
  | none ↦ false
  | some n ↦ r.is_active && (not (n == 0) && elim (row_at n rows) [ none ↦ true | some _ ↦ false ])
]

unfoldable pub none_dangling : Rows → Rows → Bool
none_dangling all [] = true
none_dangling all (r ∷ rs) = not (is_dangling all r) && none_dangling all rs

-- The SQL function `validate_nullifier_chain`.
unfoldable pub validate_chain : Rows → Bool
validate_chain rows = none_dangling rows rows

pub record AtomicOutcome : Type 0 where
  pub inserted_tree_index : Option ℕ
  pub low_nullifier_value : Option ℕ
  pub low_nullifier_next_value : Option ℕ
  pub success : Bool

abbrev pub refused : Option ℕ → AtomicOutcome
refused index = record {
  inserted_tree_index = index;
  low_nullifier_value = none;
  low_nullifier_next_value = none;
  success = false;
}

abbrev pub link_row : Option NullifierRow → ℕ → ℕ → M (Unit {0})
link_row none index x db = (ok tt, db)
link_row (some low) index x db = update_low low.value index x db

-- The fields of the record `low_null`, which are NULL where no row was found.
abbrev pub low_value : Option NullifierRow → Option ℕ
low_value none = none
low_value (some r) = some r.value

abbrev pub low_next_index : Option NullifierRow → Option ℕ
low_next_index none = none
low_next_index (some r) = r.next_index

abbrev pub low_next_value : Option NullifierRow → Option ℕ
low_next_value none = none
low_next_value (some r) = r.next_value

-- Steps 4 to 7: any error undoes them and is reported as no success.
unfoldable pub atomic_block : ℕ → ℕ → Option NullifierRow → Db → Result AtomicOutcome × Db
atomic_block new_value index low = transaction (do
  insert_row new_value (low_next_index low) (low_next_value low) index
  link_row low index new_value
  λ db. (
    ok (record {
      inserted_tree_index = some index;
      low_nullifier_value = low_value low;
      low_nullifier_next_value = low_next_value low;
      success = true;
    }),
    map_state (λ s. record s { total_nullifiers = s.total_nullifiers + 1 }) db,
  ))

abbrev pub caught : ℕ → Result AtomicOutcome × Db → AtomicOutcome × Db
caught index (ok outcome, db) = (outcome, db)
caught index (err e, db) = (refused (some index), db)

-- The SQL function `insert_nullifier_atomic`.
unfoldable pub insert_nullifier_atomic : ℕ → Db → AtomicOutcome × Db
insert_nullifier_atomic new_value db =
    if exists new_value db.nullifiers
    then (refused none, db)
    else let index = next_index_of db.tree_state in
      let low = find_low_row new_value db.nullifiers in
      caught index (atomic_block new_value index low (get_next_index db).1)

abbrev pub finish_atomic : ℕ → AtomicOutcome → M InsertionResult
finish_atomic new_value outcome =
    if outcome.success
    then (do
      let tree_index = unwrap_or outcome.inserted_tree_index 0
      found ← get_by_tree_index tree_index
      nullifier ← ok_or found not_found
      pure (record {
        nullifier = nullifier;
        low_nullifier = record {
          value = unwrap_or outcome.low_nullifier_value 0;
          next_index = none;
          next_value = unwrap_or outcome.low_nullifier_next_value 0;
          tree_index = 0;
        };
        tree_index = tree_index;
      }))
    else raise (insertion_failed new_value)

unfoldable pub atomic_insert : ℕ → M InsertionResult
atomic_insert new_value db =
    if exists new_value db.nullifiers
    then (err (nullifier_exists new_value), db)
    else let (outcome, db') = insert_nullifier_atomic new_value db in
      finish_atomic new_value outcome db'

unfoldable pub insert_nullifier_complete : ℕ → M InsertionResult
insert_nullifier_complete value = do
  result ← atomic_insert value
  increment_nullifier_count
  λ db. if validate_chain db.nullifiers then (ok result, db) else (err chain_validation_failed, db)

unfoldable pub get_membership_proof : ℕ → Rows → Bool
get_membership_proof value rows = exists value rows

unfoldable pub get_non_membership_proof : ℕ → Rows → Option LowNullifier
get_non_membership_proof value rows =
    if exists value rows then none else find_low_nullifier value rows

pub record TreeStats : Type 0 where
  pub total_nullifiers : ℕ
  pub tree_height : ℕ
  pub next_index : ℕ
  pub chain_valid : Bool

-- The SQL function `get_tree_stats`, of which `fetch_one` wants a row.
unfoldable pub get_stats : M TreeStats
get_stats db = elim db.tree_state [
  | none ↦ (err (database SqlxError.row_not_found), db)
  | some s ↦ (
    ok (record {
      total_nullifiers = s.total_nullifiers;
      tree_height = s.tree_height;
      next_index = s.next_available_index;
      chain_valid = validate_chain db.nullifiers;
    }),
    db,
  )
]
