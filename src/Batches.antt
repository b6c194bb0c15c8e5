-- ===== src/Batches.antt =====
-- db/src/db.rs over the tables of db/migrations/009 to 011: the queue of transactions, the batches with
-- their proofs, and the Merkle roots. Rows stand in the order in which they were inserted; as ids are
-- serial, `ORDER BY id` is that order. Clock columns are left out. Statuses are the three of the schema.
pub mod Queue
pub mod Linked
pub mod Counter
pub mod Contract
pub mod Posting
mod Tests
use mathlib.Core.Option
use mathlib.Core.Bool.{not}
use Prim.Native.String.{String}
use demo_vapp.Prelude.{
  ℕ, zero, suc, ◌+◌, Bool, true, false, ◌&&◌, ◌||◌, Option, none, some, List, [], ◌∷◌, ◌++◌, ◌==◌,
  if◌then◌else◌, map, unwrap_or, is_some, take, ℤ, pos, ◌+ℤ◌, is_i64, replicate,
}
use demo_vapp.Hashing.{Hash, zero_hash}
use demo_vapp.Error.{
  Result, ok, err, database, SqlxError, row_not_found, constraint_violation, other,
}

pub record IncomingTransaction : Type 0 where
  pub id : ℕ
  pub amount : ℤ
  pub included_in_batch_id : Option ℕ

pub data ProofStatus : Type 0 where
  pending proven failed : ProofStatus

pub record ProofBatch : Type 0 where
  pub id : ℕ
  pub previous_counter_value : ℤ
  pub final_counter_value : ℤ
  pub transaction_ids : List ℕ
  pub sindri_proof_id : Option String
  pub proof_status : ProofStatus
  pub posted_to_contract : Bool

pub record AdsStateCommit : Type 0 where
  pub id : ℕ
  pub batch_id : ℕ
  pub merkle_root : Hash

-- The three tables, and the next ids of their sequences.
pub record Store : Type 0 where
  pub transactions : List IncomingTransaction
  pub batches : List ProofBatch
  pub commits : List AdsStateCommit
  pub next_transaction : ℕ
  pub next_batch : ℕ
  pub next_commit : ℕ

-- A result and the state that the statement leaves; one that fails changes nothing.
abbrev pub S {ℓ} : Type ℓ → Type ℓ
S A = Store → Result A × Store

unfoldable pub submit_transaction : ℤ → S IncomingTransaction
submit_transaction amount s =
    let row : IncomingTransaction = record {
      id = s.next_transaction;
      amount = amount;
      included_in_batch_id = none;
    } in
    (
      ok row,
      record s {
        transactions = s.transactions ++ row ∷ [];
        next_transaction = suc s.next_transaction;
      },
    )

abbrev pub is_unbatched : IncomingTransaction → Bool
is_unbatched t = not (is_some t.included_in_batch_id)

-- … WHERE included_in_batch_id IS NULL ORDER BY id ASC
unfoldable pub unbatched : List IncomingTransaction → List IncomingTransaction
unbatched [] = []
unbatched (t ∷ ts) = if is_unbatched t then t ∷ unbatched ts else unbatched ts

unfoldable pub get_pending_transactions : S (List IncomingTransaction)
get_pending_transactions s = (ok (take 1000 (unbatched s.transactions)), s)

abbrev pub last_batch : List ProofBatch → Option ProofBatch
last_batch [] = none
last_batch (b ∷ []) = some b
last_batch (b ∷ c ∷ bs) = last_batch (c ∷ bs)

-- The SQL function: the final value of the latest batch, whatever its status.
unfoldable pub get_current_counter_value : Store → ℤ
get_current_counter_value s = elim (last_batch s.batches) [
  | none ↦ pos 0
  | some b ↦ b.final_counter_value
]

unfoldable pub sum_amounts : List IncomingTransaction → ℤ
sum_amounts [] = pos 0
sum_amounts (t ∷ ts) = t.amount +ℤ sum_amounts ts

abbrev pub ids_of : List IncomingTransaction → List ℕ
ids_of [] = []
ids_of (t ∷ ts) = t.id ∷ ids_of ts

-- id = ANY($1)
abbrev pub is_any : List ℕ → ℕ → Bool
is_any [] id = false
is_any (i ∷ is) id = (i == id) || is_any is id

-- UPDATE incoming_transactions SET included_in_batch_id = … WHERE id = ANY(…)
unfoldable pub include_in : ℕ → List ℕ → List IncomingTransaction → List IncomingTransaction
include_in batch ids [] = []
include_in batch ids (t ∷ ts) =
    (if is_any ids t.id then record t { included_in_batch_id = some batch } else t)
    ∷ include_in batch ids ts

abbrev pub find_batch : ℕ → List ProofBatch → Option ProofBatch
find_batch id [] = none
find_batch id (b ∷ bs) = if b.id == id then some b else find_batch id bs

unfoldable pub get_batch_by_id : ℕ → S ProofBatch
get_batch_by_id batch_id s = elim (find_batch batch_id s.batches) [
  | none ↦ (err (database row_not_found), s)
  | some b ↦ (ok b, s)
]

abbrev pub new_batch : Store → List IncomingTransaction → ProofBatch
new_batch s claimed = record {
  id = s.next_batch;
  previous_counter_value = get_current_counter_value s;
  final_counter_value = get_current_counter_value s +ℤ sum_amounts claimed;
  transaction_ids = ids_of claimed;
  sindri_proof_id = none;
  proof_status = pending;
  posted_to_contract = false;
}

-- The SQL function on the rows that it claims; a BIGINT that overflows is an error.
abbrev pub insert_batch : List IncomingTransaction → Store → Option Store
insert_batch claimed s =
    if is_i64 (get_current_counter_value s +ℤ sum_amounts claimed)
    then some (record s {
      batches = s.batches ++ new_batch s claimed ∷ [];
      next_batch = suc s.next_batch;
      transactions = include_in s.next_batch (ids_of claimed) s.transactions;
    })
    else none

abbrev pub finish_batch : ℕ → Store → Option Store → Result (Option ProofBatch) × Store
finish_batch id s none = (err (database other), s)
finish_batch id s (some s') = elim (find_batch id s'.batches) [
  | none ↦ (err (database row_not_found), s')
  | some b ↦ (ok (some b), s')
]

abbrev pub claim_batch : List IncomingTransaction → S (Option ProofBatch)
claim_batch [] s = (ok none, s)
claim_batch (t ∷ ts) s = finish_batch s.next_batch s (insert_batch (t ∷ ts) s)

-- Sizes are the naturals of the i32 range.
unfoldable pub create_batch : Option ℕ → S (Option ProofBatch)
create_batch batch_size s =
    claim_batch (take (unwrap_or batch_size 10) (unbatched s.transactions)) s
