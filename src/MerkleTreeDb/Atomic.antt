-- ===== src/MerkleTreeDb/Atomic.antt =====
-- The insertion by the SQL function `insert_nullifier_atomic`, and `NullifierDb::atomic_insert` and
-- `MerkleTreeDb::insert_nullifier_complete` over it (db/src/merkle_tree.rs).
use demo_vapp.Prelude.{
  ℕ, suc, ◌+◌, ◌^◌, ◌<◌, ◌≡◌, ◌⊎◌, refl, ap, ◌∙◌, true, false, none, some, [], ◌∷◌, ◌++◌, arith,
  is_some,
}
use demo_vapp.Error.{ok}
use demo_vapp.Db.{Db, NullifierRow, TreeState}
use demo_vapp.Nullifiers.{
  Rows, Nullifier, InsertionResult, row_at, exists, value_taken, index_taken, accepts_row, new_row,
  insert_row, find_low_row, get_by_tree_index,
}
use demo_vapp.Nullifiers.Rows.{
  row_at-append, link-append_new, row_at_index-linked, absent-row_at, exists-row_at, insert_row_ok,
  update_low_ok,
}
use demo_vapp.Nullifiers.Chain.{IsChain, Fits, linked, linked-IsChain}
use demo_vapp.Nullifiers.Search.{find_low_row-Fits}
use demo_vapp.MerkleTreeDb.{
  AtomicOutcome, atomic_block, insert_nullifier_atomic, atomic_insert, get_next_index,
}

-- A value and a tree index that the table has room for.
pub record IsFree (db : Db) (s : TreeState) (x : ℕ) : Type 0 where
  pub state : db.tree_state ≡ some s
  pub positive : 0 < x
  pub value : value_taken x db.nullifiers ≡ false
  pub index : index_taken s.next_available_index db.nullifiers ≡ false
  pub in_range : s.next_available_index < 2 ^ 32

pub accepts_row-fits :
    (rows : Rows) (x n index : ℕ)
    → (n ≡ 0) ⊎ (x < n)
    → value_taken x rows ≡ false
    → index_taken index rows ≡ false
    → index < 2 ^ 32
    → accepts_row x (some n) index rows ≡ true
unfolding accepts_row
accepts_row-fits rows x n index before value free range = ground arith

module _ (x : ℕ) (db : Db) (s : TreeState) (free : IsFree db s x) where
  -- The state that a successful atomic insertion leaves.
  abbrev pub inserted_db : NullifierRow → ℕ → Db
  inserted_db r n = record db {
    nullifiers = linked db.next_id x r.next_index n s.next_available_index r.value db.nullifiers;
    next_id = suc db.next_id;
    tree_state = some (record s {
      next_available_index = s.next_available_index + 1;
      total_nullifiers = s.total_nullifiers + 1;
    });
  }

  abbrev inserted_row : NullifierRow → ℕ → NullifierRow
  inserted_row r n = new_row db.next_id x r.next_index (some n) s.next_available_index

  abbrev indexed_db : Db
  indexed_db = record db {
    tree_state = some (record s { next_available_index = s.next_available_index + 1 });
  }

  indexed : (get_next_index db) ≡ (ok s.next_available_index, indexed_db)
  unfolding get_next_index
  indexed = rw free.state

  abbrev outcome_of : NullifierRow → ℕ → AtomicOutcome
  outcome_of r n = record {
    inserted_tree_index = some s.next_available_index;
    low_nullifier_value = some r.value;
    low_nullifier_next_value = some n;
    success = true;
  }

  module _ (r : NullifierRow) (n : ℕ) (fits : Fits db.nullifiers r.value x n r) where
    still_low : row_at r.value (db.nullifiers ++ inserted_row r n ∷ []) ≡ some r
    still_low = ground (arith, row_at-append r.value db.nullifiers (inserted_row r n), fits.found)

    abbrev extended_db : Db
    extended_db = record indexed_db {
      nullifiers = db.nullifiers ++ inserted_row r n ∷ [];
      next_id = suc db.next_id;
    }

    inserts :
        insert_row x r.next_index r.next_value s.next_available_index indexed_db
        ≡ (ok (inserted_row r n), extended_db)
    inserts =
        insert_row_ok x r.next_index r.next_value s.next_available_index indexed_db (
          rw fits.names (
            accepts_row-fits db.nullifiers x n s.next_available_index fits.before free.value
              free.index free.in_range))
        ∙ rw fits.names

    block-runs :
        atomic_block x s.next_available_index (some r) indexed_db
        ≡ (ok (outcome_of r n), inserted_db r n)
    unfolding atomic_block
    block-runs = ground (
      arith,
      inserts,
      update_low_ok r.value s.next_available_index x extended_db r still_low fits.after,
      fits.names,
      fits.after,
      link-append_new r.value s.next_available_index x db.nullifiers (inserted_row r n),
    )

    runs :
        find_low_row x db.nullifiers ≡ some r
        → insert_nullifier_atomic x db ≡ (outcome_of r n, inserted_db r n)
    unfolding insert_nullifier_atomic
    runs found =
        let new : exists x db.nullifiers ≡ false =
          exists-row_at x db.nullifiers ∙ ap is_some (absent-row_at x db.nullifiers free.value) in
        ground (arith, new, found, indexed, block-runs, free.state)

    abbrev pub inserted_nullifier : Nullifier
    inserted_nullifier = record {
      id = db.next_id;
      value = x;
      next_index = r.next_index;
      next_value = n;
      tree_index = s.next_available_index;
      is_active = true;
    }

    abbrev pub insertion_result : InsertionResult
    insertion_result = record {
      nullifier = inserted_nullifier;
      low_nullifier = record { value = r.value; next_index = none; next_value = n; tree_index = 0 };
      tree_index = s.next_available_index;
    }

    atomic-runs :
        find_low_row x db.nullifiers ≡ some r
        → atomic_insert x db ≡ (ok insertion_result, inserted_db r n)
    unfolding atomic_insert get_by_tree_index
    atomic-runs found =
        let new : exists x db.nullifiers ≡ false =
          exists-row_at x db.nullifiers ∙ ap is_some (absent-row_at x db.nullifiers free.value) in
        let at =
          row_at_index-linked s.next_available_index r.value s.next_available_index x db.nullifiers
            (inserted_row r n) refl refl free.index in
        ground (arith, new, runs found, at)

  module _ (g : NullifierRow) (genesis : row_at 0 db.nullifiers ≡ some g)
      (chain : IsChain db.nullifiers) where
    -- On a chain with the genesis row active, `atomic_insert` of a free value succeeds. The new row
    -- takes the next tree index and the low nullifier's successor, the low nullifier is relinked, the
    -- counters go up by one, and the rows are a chain again.
    pub atomic_insert-IsChain :
        (r : NullifierRow) × (n : ℕ) × (fits : Fits db.nullifiers r.value x n r) × (atomic_insert x
            db
          ≡ (ok (insertion_result r n fits), inserted_db r n))
        × IsChain (inserted_db r n).nullifiers
    atomic_insert-IsChain =
        let low =
          find_low_row-Fits db.nullifiers x chain g genesis free.positive
            (absent-row_at x db.nullifiers free.value) in
        let fits = low.2.1 in
        (
          low.0,
          low.2.0,
          fits,
          atomic-runs low.0 low.2.0 fits low.1,
          linked-IsChain db.nullifiers low.0.value x low.2.0 db.next_id s.next_available_index
              low.0.next_index low.0 chain fits free.value,
        )
