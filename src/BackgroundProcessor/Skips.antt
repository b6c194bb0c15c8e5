-- ===== src/BackgroundProcessor/Skips.antt =====
-- What the processor of db/src/background_processor.rs passes over: a transaction that fails before one that succeeds.
use demo_vapp.Prelude.{
  ℕ, zero, suc, ◌<◌, ◌≤◌, ◌≡◌, ◌∙◌, refl, ap, inl, inr, false, Option, none, some, List, [], ◌∷◌,
  take, arith, Option-cases,
}
use demo_vapp.Hashing.{Hash, Sha256}
use demo_vapp.Error.{DbError, Result, ok, err}
use demo_vapp.Db.{Db}
use demo_vapp.Batches.{IncomingTransaction, unbatched, ids_of, is_any}
use demo_vapp.IndexedMerkleTree.{AlgorithmInsertionResult, insert_nullifier}
use demo_vapp.BackgroundProcessor.{
  BackgroundProcessor, after_id, fetch_new_transactions, update_last_processed_id, nullifier_for,
  process_single_transaction, process_each, finish_batch_of, process_new_transactions,
  table_missing,
}

module _ (sha : Sha256) (blake3 : List ℕ → Hash) where
  later_ids :
      (last i : ℕ) (ts : List IncomingTransaction)
      → i ≤ last
      → is_any (ids_of (after_id (some last) ts)) i ≡ false
  later_ids last i [] below = refl
  later_ids last i (t ∷ ts) below = ground (arith, later_ids last i ts below)

  take_ids :
      (n i : ℕ) (ts : List IncomingTransaction)
      → is_any (ids_of ts) i ≡ false
      → is_any (ids_of (take n ts)) i ≡ false
  take_ids zero i ts h = refl
  take_ids (suc n) i [] h = refl
  take_ids (suc n) i (t ∷ ts) h = ground (arith, take_ids n i ts)

  not_fetched :
      (p : BackgroundProcessor) (last i : ℕ)
      → p.last_processed_id ≡ some last
      → i ≤ last
      → is_any (ids_of (fetch_new_transactions p)) i ≡ false
  unfolding fetch_new_transactions
  not_fetched p last i got below =
      ap
        (λ l.
          is_any (ids_of (take p.config.batch_size (after_id l (unbatched p.store.transactions))))
            i)
        got
      ∙ take_ids p.config.batch_size i (after_id (some last) (unbatched p.store.transactions))
          (later_ids last i (unbatched p.store.transactions) below)

  second_counts :
      (t u : IncomingTransaction) (p : BackgroundProcessor) (e : DbError)
      (r : AlgorithmInsertionResult) (db db' : Db)
      → insert_nullifier sha (nullifier_for sha blake3 t) p.db ≡ (err e, db)
      → insert_nullifier sha (nullifier_for sha blake3 u) db ≡ (ok r, db')
      → process_each sha blake3 (t ∷ u ∷ []) p
        ≡ (1, record p { db = db'; last_processed_id = some u.id })
  unfolding process_single_transaction
  second_counts t u p e r db db' first second = ground (arith, first, second)

  -- What is reported of one transaction that has been inserted.
  abbrev pub reported : Option (Option ℕ) → Result ℕ
  reported none = err table_missing
  reported (some stored) = ok 1

  one_reported :
      (p : BackgroundProcessor) (id : ℕ)
      → p.last_processed_id ≡ some id
      → ((finish_batch_of sha blake3 (1, p)).0 ≡ reported p.processor_state)
        × ((finish_batch_of sha blake3 (1, p)).1.last_processed_id ≡ some id)
  unfolding update_last_processed_id
  one_reported p id got = elim (Option-cases p.processor_state) [
    | inl gone ↦ ground (arith, got, gone)
    | inr (stored, there) ↦ ground (arith, got, there)
  ]

  -- Where the first of two fetched transactions fails to be inserted and the second, of a larger id, is
  -- inserted, the batch counts one where the table processor_state is there and is an error where it is not, and
  -- in both cases the first is not fetched again.
  pub process_new_transactions-skips :
      (t u : IncomingTransaction) (p : BackgroundProcessor) (e : DbError)
      (r : AlgorithmInsertionResult) (db db' : Db)
      → fetch_new_transactions p ≡ t ∷ u ∷ []
      → insert_nullifier sha (nullifier_for sha blake3 t) p.db ≡ (err e, db)
      → insert_nullifier sha (nullifier_for sha blake3 u) db ≡ (ok r, db')
      → t.id < u.id
      → let (count, q) = process_new_transactions sha blake3 p in
        (count ≡ reported p.processor_state)
        × (is_any (ids_of (fetch_new_transactions q)) t.id ≡ false)
  unfolding process_new_transactions
  process_new_transactions-skips t u p e r db db' fetched first second later =
      let p' : BackgroundProcessor = record p { db = db'; last_processed_id = some u.id } in
      let processed =
        ap (λ ts. process_each sha blake3 ts p) fetched
        ∙ second_counts t u p e r db db' first second in
      let one = one_reported p' u.id refl in
      (
        ap (λ o. (finish_batch_of sha blake3 o).0) processed ∙ one.0,
        ap (λ o. is_any (ids_of (fetch_new_transactions (finish_batch_of sha blake3 o).1)) t.id)
              processed
            ∙ not_fetched (finish_batch_of sha blake3 (1, p')).1 u.id t.id one.1 (omega arith),
      )
