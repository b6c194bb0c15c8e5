-- ===== src/BackgroundProcessor.antt =====
-- db/src/background_processor.rs: transactions that are in no batch go into the indexed Merkle tree, in the order
-- of their ids. The blake3 crate is the parameter `blake3`; the polling timer is an iteration. The table
-- processor_state may be missing: migration 004 creates it, and 009 drops it.
pub mod Progress
pub mod Skips
mod Tests
use mathlib.Core.Bool.{not}
use demo_vapp.Prelude.{
  ℕ, zero, suc, ◌+◌, ◌%◌, Bool, true, false, ◌&&◌, Option, none, some, List, [], ◌∷◌, ◌++◌, ltb,
  if◌then◌else◌, take, to_u32,
}
use demo_vapp.Hashing.{Hash, Sha256}
use demo_vapp.Error.{DbError, Result, ok, err, database, SqlxError}
use demo_vapp.Db.{Db}
use demo_vapp.Batches.{IncomingTransaction, Store, unbatched}
use demo_vapp.IndexedMerkleTree.{AlgorithmInsertionResult, insert_nullifier}
use demo_vapp.UnifiedBatchService.{le_bytes, from_le_bytes}

pub record ProcessorConfig : Type 0 where
  pub batch_size : ℕ
  pub continuous : Bool

-- The processor and the tables that it reads and writes: none where processor_state is missing, otherwise the id
-- in its row, if any.
pub record BackgroundProcessor : Type 0 where
  pub config : ProcessorConfig
  pub last_processed_id : Option ℕ
  pub processor_state : Option (Option ℕ)
  pub store : Store
  pub db : Db

-- How `start` stands: it has returned an error or not, or its loop is running.
pub data Run : Type 0 where
  failed : DbError → Run
  finished running : Run

abbrev pub is_after : Option ℕ → ℕ → Bool
is_after none id = true
is_after (some last) id = ltb last id

abbrev pub after_id : Option ℕ → List IncomingTransaction → List IncomingTransaction
after_id last [] = []
after_id last (t ∷ ts) = if is_after last t.id then t ∷ after_id last ts else after_id last ts

-- WHERE id > … AND included_in_batch_id IS NULL ORDER BY id ASC LIMIT …
unfoldable pub fetch_new_transactions : BackgroundProcessor → List IncomingTransaction
fetch_new_transactions p =
    take p.config.batch_size (after_id p.last_processed_id (unbatched p.store.transactions))

abbrev pub table_missing : DbError
table_missing = database SqlxError.other

unfoldable pub get_last_processed_id : BackgroundProcessor → Result (Option ℕ)
get_last_processed_id p = elim p.processor_state [
  | none ↦ err table_missing
  | some stored ↦ ok stored
]

-- INSERT … ON CONFLICT (processor_id) DO UPDATE
abbrev pub store_id :
    ℕ → Option (Option ℕ) → BackgroundProcessor → Result (Unit {0}) × BackgroundProcessor
store_id id none p = (err table_missing, p)
store_id id (some stored) p = (ok tt, record p { processor_state = some (some id) })

unfoldable pub update_last_processed_id :
    BackgroundProcessor → Result (Unit {0}) × BackgroundProcessor
update_last_processed_id p = elim p.last_processed_id [
  | none ↦ (ok tt, p)
  | some id ↦ store_id id p.processor_state p
]

module _ (sha : Sha256) (blake3 : List ℕ → Hash) where
  unfoldable pub nullifier_for : IncomingTransaction → ℕ
  nullifier_for t =
      from_le_bytes (take 8 (blake3 (le_bytes 4 (to_u32 t.amount) ++ le_bytes 4 t.id)))
        % 9223372036854775807
      + 1

  -- An insertion that fails is skipped; of one that succeeds the id is kept.
  abbrev pub after_insertion_of :
      ℕ → BackgroundProcessor → Result AlgorithmInsertionResult × Db → Bool × BackgroundProcessor
  after_insertion_of id p (ok r, db) = (true, record p { db = db; last_processed_id = some id })
  after_insertion_of id p (err e, db) = (false, record p { db = db })

  unfoldable pub process_single_transaction :
      IncomingTransaction → BackgroundProcessor → Bool × BackgroundProcessor
  process_single_transaction t p =
      after_insertion_of t.id p (insert_nullifier sha (nullifier_for t) p.db)

  abbrev pub process_each : List IncomingTransaction → BackgroundProcessor → ℕ × BackgroundProcessor
  process_each [] p = (0, p)
  process_each (t ∷ ts) p =
      let (good, p') = process_single_transaction t p in
      let (count, p'') = process_each ts p' in ((if good then suc count else count), p'')

  abbrev pub after_update_of :
      ℕ → Result (Unit {0}) × BackgroundProcessor → Result ℕ × BackgroundProcessor
  after_update_of count (ok u, p) = (ok count, p)
  after_update_of count (err e, p) = (err e, p)

  abbrev pub finish_batch_of : ℕ × BackgroundProcessor → Result ℕ × BackgroundProcessor
  finish_batch_of (count, p) =
      if ltb 0 count then after_update_of count (update_last_processed_id p) else (ok count, p)

  -- `process_batch`
  unfoldable pub process_new_transactions : BackgroundProcessor → Result ℕ × BackgroundProcessor
  process_new_transactions p = finish_batch_of (process_each (fetch_new_transactions p) p)

  -- A tick's error is logged, and the loop goes on.
  abbrev pub run_continuous : (ticks : ℕ) → BackgroundProcessor → BackgroundProcessor
  run_continuous zero p = p
  run_continuous (suc ticks) p = run_continuous ticks (process_new_transactions p).1

  abbrev pub returned : Result ℕ × BackgroundProcessor → Run × BackgroundProcessor
  returned (ok count, p) = (finished, p)
  returned (err e, p) = (failed e, p)

  abbrev pub start_from :
      (ticks : ℕ) → Result (Option ℕ) → BackgroundProcessor → Run × BackgroundProcessor
  start_from ticks (err e) p = (failed e, p)
  start_from ticks (ok stored) p =
      let p' = record p { last_processed_id = stored } in
      if p.config.continuous
      then (running, run_continuous ticks p')
      else returned (process_new_transactions p')

  -- The id that was stored, then one batch, or one for every tick of a loop that does not return.
  unfoldable pub start : (ticks : ℕ) → BackgroundProcessor → Run × BackgroundProcessor
  start ticks p = start_from ticks (get_last_processed_id p) p
