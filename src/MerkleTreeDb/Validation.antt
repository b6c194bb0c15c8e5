-- ===== src/MerkleTreeDb/Validation.antt =====
-- `validate_chain` and `insert_nullifier_complete` of db/src/merkle_tree.rs.
use demo_vapp.Prelude.{
  ℕ, ◌+◌, ◌≡◌, inl, inr, refl, true, false, some, [], ◌∷◌, ◌==◌, arith, Option-cases, Bool-cases,
}
use demo_vapp.Error.{ok}
use demo_vapp.Db.{Db, NullifierRow, TreeState}
use demo_vapp.Nullifiers.{Rows, row_at, value_taken}
use demo_vapp.Nullifiers.Rows.{AreDistinct, row_at-taken}
use demo_vapp.Nullifiers.Chain.{IsChain, Fits}
use demo_vapp.MerkleTreeDb.{
  none_dangling, validate_chain, increment_nullifier_count, insert_nullifier_complete,
}
use demo_vapp.MerkleTreeDb.Atomic.{IsFree, inserted_db, insertion_result, atomic_insert-IsChain}

-- Each active row of the list is what the table finds under its value.
abbrev AllFound : Rows → Rows → Type 0
AllFound all [] = Unit {0}
AllFound all (r ∷ rs) = (r.is_active ≡ true → row_at r.value all ≡ some r) × AllFound all rs

AllFound-cons :
    (s : NullifierRow) (all rs : Rows)
    → value_taken s.value all ≡ false
    → AllFound all rs
    → AllFound (s ∷ all) rs
unfolding row_at
AllFound-cons s all [] fresh f = tt
AllFound-cons s all (r ∷ rs) fresh f = (
  λ active. ground (arith, f.0 active, row_at-taken r.value all r (f.0 active)),
  AllFound-cons s all rs fresh f.1,
)

AllFound-self : (rows : Rows) → AreDistinct rows → AllFound rows rows
unfolding row_at
AllFound-self [] d = tt
AllFound-self (s ∷ rows) d =
    (λ active. ground arith, AllFound-cons s rows rows d.0 (AllFound-self rows d.1))

none_dangling-chain : (all rs : Rows) → IsChain all → AllFound all rs → none_dangling all rs ≡ true
unfolding none_dangling
none_dangling-chain all [] chain f = refl
none_dangling-chain all (r ∷ rs) chain f = elim (Bool-cases r.is_active) [
  | inl active ↦
      let facts = chain.next r.value r (f.0 active) in
      elim (Bool-cases (facts.0 == 0)) [
        | inl last ↦ ground (arith, facts.1, none_dangling-chain all rs chain f.1)
        | inr inner ↦
            let up = facts.2.above (ground arith) in
            ground (arith, facts.1, up.1.1, none_dangling-chain all rs chain f.1)
      ]
  | inr inactive ↦ elim (Option-cases r.next_value) [
    | inl none_named ↦ ground (arith, none_dangling-chain all rs chain f.1)
    | inr (m, e) ↦ ground (arith, none_dangling-chain all rs chain f.1)
  ]
]

-- The validation accepts every chain.
pub validate_chain-IsChain : (rows : Rows) → IsChain rows → validate_chain rows ≡ true
unfolding validate_chain
validate_chain-IsChain rows chain =
    none_dangling-chain rows rows chain (AllFound-self rows chain.distinct)

module _ (x : ℕ) (db : Db) (s : TreeState) (free : IsFree db s x) (g : NullifierRow)
    (genesis : row_at 0 db.nullifiers ≡ some g) (chain : IsChain db.nullifiers) where
  -- On a chain with the genesis row active the complete insertion of a free value succeeds, its
  -- validation passes, and the count of nullifiers goes up by two: once in the SQL function and once
  -- more in `increment_nullifier_count`.
  pub insert_nullifier_complete_counts_twice :
      (r : NullifierRow) × (n : ℕ) × (fits : Fits db.nullifiers r.value x n r)
      × (insert_nullifier_complete x db ≡ (
        ok (insertion_result x db s free r n fits),
        record (inserted_db x db s free r n) {
          tree_state = some (record s {
            next_available_index = s.next_available_index + 1;
            total_nullifiers = s.total_nullifiers + 1 + 1;
          });
        },
      ))
  unfolding insert_nullifier_complete increment_nullifier_count
  insert_nullifier_complete_counts_twice =
      let done = atomic_insert-IsChain x db s free g genesis chain in
      (
        done.0,
        done.1,
        done.2,
        ground (
          arith,
          done.3,
          validate_chain-IsChain (inserted_db x db s free done.0 done.1).nullifiers done.4,
        ),
      )
