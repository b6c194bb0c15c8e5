-- ===== src/UnifiedBatchService.antt =====
-- api/src/unified_batch_service.rs: one batch from the queue's tables through the service over the tree.
-- Every statement runs on the pool, as in the source, and none inside the transaction that is opened, so
-- a rollback undoes nothing. The blake3 crate is the parameter `blake3`, the hash of the concatenated parts;
-- `timestamp` is the `created_at` column of a transaction in seconds. Texts of errors are constructors.
pub mod Slice
pub mod Creation
pub mod Growth
mod Tests
use demo_vapp.Prelude.{
  to_u32, ℕ, zero, suc, ◌+◌, ◌-◌, ◌*◌, ◌/◌, ◌%◌, Bool, Option, none, some, List, [], ◌∷◌, ◌++◌, leb,
  if◌then◌else◌, length, take, ℤ, pos, negsuc, unwrap_or,
}
use demo_vapp.Hashing.{Hash, Sha256}
use demo_vapp.Error.{DbError, Result, ok, err}
use demo_vapp.Batches.{
  IncomingTransaction, ProofBatch, AdsStateCommit, Store, get_pending_transactions, create_batch,
}
use demo_vapp.Batches.Contract.{store_ads_state_commit}
use demo_vapp.AdsService.{
  AdsError, AdsResult, done, failed, AdsConfig, StateCommitment, StateTransition, Ads, batch_insert,
}

pub record BatchCreationResult : Type 0 where
  pub batch_id : ℕ
  pub previous_counter_value : ℤ
  pub final_counter_value : ℤ
  pub transaction_count : ℕ
  pub merkle_root : Hash
  pub nullifier_count : ℕ

pub data BatchError : Type 0 where
  pending_failed entry_failed store_failed : DbError → BatchError
  ads_failed : AdsError → BatchError
  no_transitions : BatchError

-- The tables of the queue, and the service behind its lock.
pub record World : Type 0 where
  pub store : Store
  pub ads : Ads

pub data Outcome : Type 0 where
  created : BatchCreationResult → Outcome
  nothing_created : Outcome
  refused : BatchError → Outcome

abbrev pub to_u64 : ℤ → ℕ
to_u64 (pos n) = n % 18446744073709551616
to_u64 (negsuc n) = 18446744073709551615 - n % 18446744073709551616

-- `s as usize` on an i32, on 64 bits.
abbrev pub as_usize : ℤ → ℕ
as_usize a = to_u64 a

abbrev pub min : ℕ → ℕ → ℕ
min a b = if leb a b then a else b

-- `to_le_bytes` on `k` bytes, and `from_le_bytes`.
abbrev pub le_bytes : ℕ → ℕ → List ℕ
le_bytes zero n = []
le_bytes (suc k) n = n % 256 ∷ le_bytes k (n / 256)

abbrev pub from_le_bytes : List ℕ → ℕ
from_le_bytes [] = 0
from_le_bytes (b ∷ bs) = b + 256 * from_le_bytes bs

abbrev pub last_transition : List StateTransition → Option StateTransition
last_transition [] = none
last_transition (t ∷ []) = some t
last_transition (t ∷ u ∷ ts) = last_transition (u ∷ ts)

unfoldable pub batch_size_for : ℕ → Option ℤ → ℕ → ℕ
batch_size_for max_batch_size none pending = min (min pending max_batch_size) pending
batch_size_for max_batch_size (some s) pending = min (min (as_usize s) max_batch_size) pending

abbrev pub create_batch_entry :
    List IncomingTransaction → Store → Result (Option ProofBatch) × Store
create_batch_entry ts s = create_batch (some (length ts)) s

module _ (blake3 : List ℕ → Hash) (timestamp : ℕ → ℤ) where
  abbrev pub transaction_bytes : IncomingTransaction → List ℕ
  transaction_bytes t =
      le_bytes 4 t.id ++ (le_bytes 4 (to_u32 t.amount) ++ le_bytes 8 (to_u64 (timestamp t.id)))

  unfoldable pub transaction_to_nullifier : IncomingTransaction → ℕ
  transaction_to_nullifier t =
      from_le_bytes (take 8 (blake3 (transaction_bytes t))) % 9223372036854775807 + 1

  abbrev pub nullifiers_of : List IncomingTransaction → List ℕ
  nullifiers_of [] = []
  nullifiers_of (t ∷ ts) = transaction_to_nullifier t ∷ nullifiers_of ts

module _ (sha : Sha256) (order : List StateCommitment → List Hash) (config : AdsConfig)
    (blake3 : List ℕ → Hash) (timestamp : ℕ → ℤ) (max_batch_size : ℕ) where
  abbrev pub result_of : ProofBatch → List IncomingTransaction → Hash → BatchCreationResult
  result_of batch ts root = record {
    batch_id = batch.id;
    previous_counter_value = batch.previous_counter_value;
    final_counter_value = batch.final_counter_value;
    transaction_count = length ts;
    merkle_root = root;
    nullifier_count = length (nullifiers_of blake3 timestamp ts);
  }

  -- Step 7 and 8: the root is stored under the batch.
  abbrev pub finish_root :
      ProofBatch
      → List IncomingTransaction
      → Hash
      → Ads
      → Result AdsStateCommit × Store
      → Outcome × World
  finish_root batch ts root a (ok c, s) =
      (created (result_of batch ts root), record { store = s; ads = a })
  finish_root batch ts root a (err e, s) = (refused (store_failed e), record { store = s; ads = a })

  -- Step 6: the root is that of the last transition.
  abbrev pub store_root :
      ProofBatch → List IncomingTransaction → Option StateTransition → World → Outcome × World
  store_root batch ts none w = (refused no_transitions, w)
  store_root batch ts (some t) w =
      finish_root batch ts t.new_root w.ads (store_ads_state_commit batch.id t.new_root w.store)

  -- Step 5: the nullifiers go into the tree.
  abbrev pub finish_insert :
      ProofBatch
      → List IncomingTransaction
      → Store
      → AdsResult (List StateTransition) × Ads
      → Outcome × World
  finish_insert batch ts s (done transitions, a) =
      store_root batch ts (last_transition transitions) (record { store = s; ads = a })
  finish_insert batch ts s (failed e, a) = (refused (ads_failed e), record { store = s; ads = a })

  -- Step 4 has made the batch's row, or not.
  abbrev pub with_entry :
      List IncomingTransaction → Ads → Result (Option ProofBatch) × Store → Outcome × World
  with_entry ts a (err e, s) = (refused (entry_failed e), record { store = s; ads = a })
  with_entry ts a (ok none, s) = (nothing_created, record { store = s; ads = a })
  with_entry ts a (ok (some batch), s) =
      finish_insert batch ts s (batch_insert sha order config (nullifiers_of blake3 timestamp ts) a)

  -- Step 2: the part of the pending transactions that makes the batch.
  abbrev pub with_pending :
      Option ℤ → Ads → Result (List IncomingTransaction) × Store → Outcome × World
  with_pending requested a (err e, s) = (refused (pending_failed e), record { store = s; ads = a })
  with_pending requested a (ok [], s) = (nothing_created, record { store = s; ads = a })
  with_pending requested a (ok (t ∷ ts), s) =
      let slice = take (batch_size_for max_batch_size requested (length (t ∷ ts))) (t ∷ ts) in
      with_entry slice a (create_batch_entry slice s)

  unfoldable pub create_batch_with_ads : Option ℤ → World → Outcome × World
  create_batch_with_ads requested w =
      with_pending requested w.ads (get_pending_transactions w.store)
