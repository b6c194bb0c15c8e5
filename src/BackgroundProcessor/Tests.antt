-- ===== src/BackgroundProcessor/Tests.antt =====
-- Two transactions whose nullifiers are 20, which is there already, and 30.
use demo_vapp.Prelude.{
  ℕ, ◌≡◌, ◌∙◌, ap, refl, true, false, none, some, List, [], ◌∷◌, replicate, pos, arith,
}
use demo_vapp.Hashing.{Hash}
use demo_vapp.Error.{ok, err, invalid_nullifier_value}
use demo_vapp.Db.{Db}
use demo_vapp.Samples.{toy_sha}
use demo_vapp.Samples.Chains.{
  two_db, second_state, row_20, two-IsFree, two_fits, proper, two-IsChain, search_30,
  empty-IsRecorded,
}
use demo_vapp.Samples.Queue.{empty}
use demo_vapp.Batches.{IncomingTransaction, ids_of, is_any, unbatched}
use demo_vapp.IndexedMerkleTree.{AlgorithmInsertionResult, get_root, insert_nullifier}
use demo_vapp.IndexedMerkleTree.Insertion.{insert_nullifier-succeeds, outcome_of, final_db}
use demo_vapp.Nullifiers.{find_low_nullifier, find_low_row, highest, link, exists, count_rows}
use demo_vapp.BackgroundProcessor.{
  BackgroundProcessor, process_new_transactions, fetch_new_transactions, nullifier_for,
}
use demo_vapp.BackgroundProcessor.Skips.{process_new_transactions-skips}

-- The first byte of the message.
abbrev first_byte : List ℕ → Hash
first_byte [] = replicate 32 0
first_byte (b ∷ bs) = b ∷ replicate 31 0

abbrev taken : IncomingTransaction
taken = record { id = 1; amount = pos 19; included_in_batch_id = none }

abbrev free : IncomingTransaction
free = record { id = 2; amount = pos 29; included_in_batch_id = none }

abbrev processor : BackgroundProcessor
processor = record {
  config = record { batch_size = 100; continuous = true };
  last_processed_id = none;
  processor_state = some none;
  store = record empty { transactions = taken ∷ free ∷ []; next_transaction = 3 };
  db = two_db;
}

taken_fails :
    insert_nullifier toy_sha (nullifier_for toy_sha first_byte taken) two_db
    ≡ (err invalid_nullifier_value, two_db)
unfolding insert_nullifier nullifier_for get_root find_low_nullifier find_low_row highest link
    exists count_rows
taken_fails = refl

abbrev succeeds_30 :
    (r : AlgorithmInsertionResult) × (db : Db) × (insert_nullifier toy_sha 30 two_db ≡ (ok r, db))
succeeds_30 =
    let made =
      insert_nullifier-succeeds toy_sha 30 two_db second_state row_20 0 two-IsFree two_fits proper
        two-IsChain search_30 empty-IsRecorded (omega arith) in
    (
      outcome_of toy_sha 30 two_db second_state row_20 0 two-IsFree two_fits proper two-IsChain
          search_30 empty-IsRecorded (omega arith) made.0 made.1,
      final_db toy_sha 30 two_db second_state row_20 0 two-IsFree two_fits,
      made.2,
    )

free_value : nullifier_for toy_sha first_byte free ≡ 30
unfolding nullifier_for
free_value = refl

free_succeeds :
    insert_nullifier toy_sha (nullifier_for toy_sha first_byte free) two_db
    ≡ (ok succeeds_30.0, succeeds_30.1)
free_succeeds = ap (λ n. insert_nullifier toy_sha n two_db) free_value ∙ succeeds_30.2

both_fetched : fetch_new_transactions processor ≡ taken ∷ free ∷ []
unfolding fetch_new_transactions unbatched
both_fetched = refl

process_new_transactions-skips_example :
    let (count, q) = process_new_transactions toy_sha first_byte processor in
    (count ≡ ok 1) × (is_any (ids_of (fetch_new_transactions q)) 1 ≡ false)
process_new_transactions-skips_example =
    process_new_transactions-skips toy_sha first_byte taken free processor invalid_nullifier_value
      succeeds_30.0 two_db succeeds_30.1 both_fetched taken_fails free_succeeds (omega arith)
