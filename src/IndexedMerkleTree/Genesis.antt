-- ===== src/IndexedMerkleTree/Genesis.antt =====
-- `insert_nullifier` and `insert_with_update` of db/src/merkle_tree.rs take a low nullifier with value 0
-- and tree index 0 for the sign of an empty tree. The genesis row of
-- db/migrations/012_restore_imt_schema.sql is such a row.
use demo_vapp.Prelude.{
  ℕ, suc, ◌<◌, ◌≡◌, ◌⊎◌, inl, inr, refl, true, none, some, arith, [], ◌∷◌, ◌++◌, Option-cases,
}
use demo_vapp.Error.{ok}
use demo_vapp.Db.{Db, NullifierRow, TreeState}
use demo_vapp.Nullifiers.{
  Nullifier, row_at, find_low_row, low_of, insert_with_update, new_row, is_candidate,
}
use demo_vapp.Nullifiers.Rows.{
  insert_row_ok, row_at-append, row_at-value, absent-row_at, AreDistinct, AreDistinct-append,
  highest_sound, highest-max,
}
use demo_vapp.Nullifiers.Chain.{IsChain, Fits}
use demo_vapp.MerkleTreeDb.Atomic.{IsFree, accepts_row-fits}

candidate_next :
    {x : ℕ} (r : NullifierRow)
    → is_candidate x r ≡ true
    → (m : ℕ) × (r.next_value ≡ some m) × (r.value < x) × ((m ≡ 0) ⊎ (x < m))
candidate_next r h = elim (Option-cases r.next_value) [
  | inl gone ↦ absurd (ground arith)
  | inr (m, e) ↦ (m, e, ground arith, ground arith)
]

module _ (x : ℕ) (db : Db) (s : TreeState) (g : NullifierRow) (n : ℕ) (free : IsFree db s x)
    (fits : Fits db.nullifiers 0 x n g) (chain : IsChain db.nullifiers) (value : g.value ≡ 0)
    (first : g.tree_index ≡ 0) where
  abbrev pub entry_row : NullifierRow
  entry_row = new_row db.next_id x none (some 0) s.next_available_index

  -- The state that the insertion behind the genesis row leaves: a row of its own, and no link to it.
  abbrev pub unlinked_db : Db
  unlinked_db = record db { nullifiers = db.nullifiers ++ entry_row ∷ []; next_id = suc db.next_id }

  genesis_after : row_at 0 unlinked_db.nullifiers ≡ some g
  genesis_after = ground (arith, row_at-append 0 db.nullifiers entry_row refl, fits.found)

  member_after : row_at x unlinked_db.nullifiers ≡ some entry_row
  member_after = ground (
    arith,
    row_at-append x db.nullifiers entry_row refl,
    absent-row_at x db.nullifiers free.value,
  )

  distinct_after : AreDistinct unlinked_db.nullifiers
  distinct_after = AreDistinct-append db.nullifiers entry_row chain.distinct free.value

  -- On a chain, the insertion of a free value whose low nullifier is the genesis row (value 0 and tree
  -- index 0) succeeds and breaks the chain: the genesis row still names its old successor, though the
  -- new value lies before that.
  pub insert_with_update-breaks_chain :
      (e : Nullifier) × (insert_with_update x s.next_available_index (low_of g) db
        ≡ (ok e, unlinked_db))
      × (e.value ≡ x)
      × ¬ IsChain unlinked_db.nullifiers
  unfolding insert_with_update
  insert_with_update-breaks_chain = (
    record {
      id = db.next_id;
      value = x;
      next_index = none;
      next_value = 0;
      tree_index = s.next_available_index;
      is_active = true;
    },
    ground (
      arith,
      value,
      first,
      insert_row_ok x none (some 0) s.next_available_index db (
          accepts_row-fits db.nullifiers x 0 s.next_available_index (inl refl) free.value free.index
            free.in_range),
    ),
    refl,
    λ after.
        let facts = after.next 0 g genesis_after in
        ground (
          arith,
          facts.1,
          fits.names,
          facts.2.nearest x entry_row member_after,
          fits.before,
          fits.after,
        ),
  )

  -- On a chain, after the insertion of a free value whose low nullifier is the genesis row, the search
  -- finds a low nullifier for the value that was just inserted, with the value strictly inside its
  -- range: what a proof of non-membership shows.
  pub find_low_row-of_member :
      (r : NullifierRow) × (m : ℕ) × (find_low_row x unlinked_db.nullifiers ≡ some r)
      × (row_at x unlinked_db.nullifiers ≡ some entry_row)
      × (r.next_value ≡ some m)
      × (r.value < x)
      × ((m ≡ 0) ⊎ (x < m))
  unfolding find_low_row
  find_low_row-of_member =
      let best =
        highest-max (is_candidate x) (λ t h. ground arith) unlinked_db.nullifiers 0 g genesis_after
          (ground (
            arith,
            row_at-value 0 db.nullifiers g fits.found,
            fits.names,
            fits.before,
            fits.after,
          )) in
      let sound =
        highest_sound (is_candidate x) (λ t h. ground arith) unlinked_db.nullifiers best.0
          distinct_after best.1 in
      let named = candidate_next best.0 sound.0 in
      (best.0, named.0, rw best.1, member_after, named.1, named.2, named.3)
