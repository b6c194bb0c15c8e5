-- ===== src/Rest.antt =====
-- The handlers of api/src/rest.rs, and the state that they share. The hex crate is the parameter `decode`. The task
-- that makes a new batch's proof is left in a list; commands to the batch processor are in its queue.
pub mod Endpoints
pub mod Requests
mod Tests
use Prim.Native.String
use Prim.Native.String.{String}
use Prim.Native.Char.{Char, code}
use text.Mathlib.Text.{◌==◌}
use demo_vapp.Prelude.{
  ℕ, zero, suc, ◌+◌, Bool, true, false, ◌&&◌, ◌||◌, Option, none, some, List, [], ◌∷◌, ◌++◌, ltb,
  leb, length, if◌then◌else◌, unwrap_or, ℤ, pos, negsuc, wrap_i32,
}
use demo_vapp.Hashing.{Hash, Sha256}
use demo_vapp.Error.{DbError, Result, ok, err, database, row_not_found}
use demo_vapp.Batches.{
  IncomingTransaction, ProofBatch, ProofStatus, AdsStateCommit, Store, submit_transaction,
  get_pending_transactions, get_batch_by_id,
}
use demo_vapp.Batches.Contract.{
  ContractSubmissionData, get_all_batches, update_batch_proof, store_ads_state_commit,
  get_contract_submission_data,
}
use demo_vapp.AdsService.{AdsConfig, StateCommitment}
use demo_vapp.Proof.{sum_i32}
use demo_vapp.UnifiedBatchService.{
  World, Outcome, created, nothing_created, refused, create_batch_with_ads,
}
use demo_vapp.BatchProcessor.{BatchProcessorCommand, trigger_batch, BatchProcessorStats}

pub record ApiConfig : Type 0 where
  pub server_name : String
  pub version : String
  pub max_batch_size : ℕ

pub record BatchProcessorHandle : Type 0 where
  pub commands : List BatchProcessorCommand
  pub stats : BatchProcessorStats

pub record ApiState : Type 0 where
  pub config : ApiConfig
  pub world : World
  pub batch_processor : Option BatchProcessorHandle
  pub proof_tasks : List ℕ

pub data StatusCode : Type 0 where
  bad_request not_found internal_server_error service_unavailable : StatusCode

pub data Reply (A : Type 0) : Type 0 where
  json : A → Reply A
  error : StatusCode → Reply A

abbrev pub E : Type 0 → Type 0
E A = ApiState → Reply A × ApiState

pub record TransactionInfo : Type 0 where
  pub id : ℕ
  pub amount : ℤ

pub record PendingTransactionsResponse : Type 0 where
  pub transactions : List TransactionInfo
  pub total_count : ℕ
  pub total_amount : ℤ

pub record CreateBatchResponse : Type 0 where
  pub batch_id : ℕ
  pub previous_counter_value : ℤ
  pub final_counter_value : ℤ
  pub transaction_count : ℕ

pub record BatchInfo : Type 0 where
  pub id : ℕ
  pub previous_counter_value : ℤ
  pub final_counter_value : ℤ
  pub transaction_count : ℕ
  pub proof_status : ProofStatus
  pub sindri_proof_id : Option String

pub record BatchListResponse : Type 0 where
  pub batches : List BatchInfo
  pub total_count : ℕ

pub record UpdateBatchProofRequest : Type 0 where
  pub sindri_proof_id : String
  pub status : String
  pub merkle_root : Option String

abbrev pub with_store : Store → ApiState → ApiState
with_store s a = record a { world = record a.world { store = s } }

abbrev pub info_of : IncomingTransaction → TransactionInfo
info_of t = record { id = t.id; amount = t.amount }

abbrev pub infos : List IncomingTransaction → List TransactionInfo
infos [] = []
infos (t ∷ ts) = info_of t ∷ infos ts

abbrev pub amounts_in : List IncomingTransaction → List ℤ
amounts_in [] = []
amounts_in (t ∷ ts) = t.amount ∷ amounts_in ts

abbrev pub submitted_reply :
    Result IncomingTransaction × Store → ApiState → Reply TransactionInfo × ApiState
submitted_reply (ok t, s) a = (json (info_of t), with_store s a)
submitted_reply (err e, s) a = (error internal_server_error, with_store s a)

unfoldable pub submit_transaction_endpoint : ℤ → E TransactionInfo
submit_transaction_endpoint amount a = submitted_reply (submit_transaction amount a.world.store) a

abbrev pub pending_reply : Result (List IncomingTransaction) → Reply PendingTransactionsResponse
pending_reply (err e) = error internal_server_error
pending_reply (ok ts) = json (record {
  transactions = infos ts;
  total_count = length (infos ts);
  total_amount = sum_i32 (pos 0) (amounts_in ts);
})

unfoldable pub get_pending_transactions_endpoint : E PendingTransactionsResponse
get_pending_transactions_endpoint a = (pending_reply (get_pending_transactions a.world.store).0, a)

abbrev pub le_ℤ : ℤ → ℤ → Bool
le_ℤ (pos n) (pos m) = leb n m
le_ℤ (pos n) (negsuc m) = false
le_ℤ (negsuc n) (pos m) = true
le_ℤ (negsuc n) (negsuc m) = leb m n

abbrev pub max_ℤ : ℤ → ℤ → ℤ
max_ℤ a b = if le_ℤ a b then b else a

abbrev pub min_ℤ : ℤ → ℤ → ℤ
min_ℤ a b = if le_ℤ a b then a else b

-- The size that is asked for, or the maximum, brought between 1 and the maximum.
unfoldable pub clamped_size : Option ℤ → ℕ → ℤ
clamped_size batch_size max_batch_size =
    let maximum = wrap_i32 (pos max_batch_size) in
    min_ℤ (max_ℤ (unwrap_or batch_size maximum) (pos 1)) maximum

abbrev pub created_reply : Outcome × World → ApiState → Reply CreateBatchResponse × ApiState
created_reply (created r, w) a = (
  json (record {
    batch_id = r.batch_id;
    previous_counter_value = r.previous_counter_value;
    final_counter_value = r.final_counter_value;
    transaction_count = r.transaction_count;
  }),
  record a {
    world = w;
    proof_tasks = elim a.batch_processor [
      | none ↦ a.proof_tasks
      | some handle ↦ a.proof_tasks ++ r.batch_id ∷ []
    ];
  },
)
created_reply (nothing_created, w) a = (error bad_request, record a { world = w })
created_reply (refused e, w) a = (error internal_server_error, record a { world = w })

module _ (sha : Sha256) (order : List StateCommitment → List Hash) (config : AdsConfig)
    (blake3 : List ℕ → Hash) (timestamp : ℕ → ℤ) where
  unfoldable pub create_batch_endpoint : Option ℤ → E CreateBatchResponse
  create_batch_endpoint batch_size a =
      created_reply
        (create_batch_with_ads sha order config blake3 timestamp a.config.max_batch_size
          (some (clamped_size batch_size a.config.max_batch_size)) a.world)
        a

abbrev pub batch_info : ProofBatch → BatchInfo
batch_info b = record {
  id = b.id;
  previous_counter_value = b.previous_counter_value;
  final_counter_value = b.final_counter_value;
  transaction_count = length b.transaction_ids;
  proof_status = b.proof_status;
  sindri_proof_id = b.sindri_proof_id;
}

abbrev pub batch_infos : List ProofBatch → List BatchInfo
batch_infos [] = []
batch_infos (b ∷ bs) = batch_info b ∷ batch_infos bs

abbrev pub list_reply : Result (List ProofBatch) → Reply BatchListResponse
list_reply (err e) = error internal_server_error
list_reply (ok bs) =
    json (record { batches = batch_infos bs; total_count = length (batch_infos bs) })

unfoldable pub get_batches_endpoint : Option ℕ → E BatchListResponse
get_batches_endpoint limit a =
    (list_reply (get_all_batches (some (unwrap_or limit 20)) a.world.store).0, a)

-- A missing row is told apart from other errors.
abbrev pub lookup_code : DbError → StatusCode
lookup_code (database row_not_found) = not_found
lookup_code _ = internal_server_error

abbrev pub lookup_reply : {A : Type 0} → Result A → Reply A
lookup_reply (ok r) = json r
lookup_reply (err e) = error (lookup_code e)

abbrev pub info_reply : Result ProofBatch → Reply BatchInfo
info_reply (ok b) = json (batch_info b)
info_reply (err e) = error (lookup_code e)

unfoldable pub get_batch_endpoint : ℕ → E BatchInfo
get_batch_endpoint batch_id a = (info_reply (get_batch_by_id batch_id a.world.store).0, a)

unfoldable pub get_contract_data_endpoint : ℕ → E ContractSubmissionData
get_contract_data_endpoint batch_id a =
    (lookup_reply (get_contract_submission_data batch_id a.world.store).0, a)

abbrev pub parse_status : String → Option ProofStatus
parse_status s =
    if s == "pending"
    then some ProofStatus.pending
    else if s == "proven"
    then some ProofStatus.proven
    else if s == "failed"
    then some ProofStatus.failed
    else none

abbrev is_char : ℕ → Char → Bool
is_char n c = leb n (code c) && leb (code c) n

-- `trim_start_matches("0x")`, which takes off every leading "0x".
abbrev pub trim_0x : String → String
trim_0x String.[] = ""
trim_0x (String.◌∷◌ c String.[]) = String.◌∷◌ c ""
trim_0x (String.◌∷◌ c (String.◌∷◌ d s)) =
    let rest = trim_0x s in
    if is_char 48 c && is_char 120 d then rest else String.◌∷◌ c (String.◌∷◌ d s)

module _ (decode : String → Option (List ℕ)) where
  -- none where the text is no hexadecimal of 32 bytes.
  abbrev pub of_32_bytes : Option (List ℕ) → Option (Option Hash)
  of_32_bytes none = none
  of_32_bytes (some bytes) =
      if leb 32 (length bytes) && leb (length bytes) 32 then some (some bytes) else none

  -- The root to be stored, if any; none where the request is refused.
  abbrev pub validated_root : ProofStatus → Option String → Option (Option Hash)
  validated_root ProofStatus.proven none = none
  validated_root status (some hex) = of_32_bytes (decode (trim_0x hex))
  validated_root status none = some none

  -- What comes last: the row as it is now.
  abbrev pub updated_reply : Result ProofBatch → Reply BatchInfo
  updated_reply (ok b) = json (batch_info b)
  updated_reply (err e) = error internal_server_error

  abbrev pub after_commit :
      ℕ → Result AdsStateCommit × Store → ApiState → Reply BatchInfo × ApiState
  after_commit batch_id (err e, s) a = (error internal_server_error, with_store s a)
  after_commit batch_id (ok c, s) a = (updated_reply (get_batch_by_id batch_id s).0, with_store s a)

  abbrev pub after_update :
      ℕ → Option Hash → Result (Unit {0}) × Store → ApiState → Reply BatchInfo × ApiState
  after_update batch_id root (err e, s) a = (error internal_server_error, with_store s a)
  after_update batch_id none (ok u, s) a =
      (updated_reply (get_batch_by_id batch_id s).0, with_store s a)
  after_update batch_id (some root) (ok u, s) a =
      after_commit batch_id (store_ads_state_commit batch_id root s) a

  abbrev pub with_root :
      ℕ → String → ProofStatus → Option (Option Hash) → ApiState → Reply BatchInfo × ApiState
  with_root batch_id proof_id status none a = (error bad_request, a)
  with_root batch_id proof_id status (some root) a =
      after_update batch_id root (update_batch_proof batch_id proof_id status a.world.store) a

  abbrev pub with_status :
      ℕ → UpdateBatchProofRequest → Option ProofStatus → ApiState → Reply BatchInfo × ApiState
  with_status batch_id request none a = (error bad_request, a)
  with_status batch_id request (some status) a =
      with_root batch_id request.sindri_proof_id status (validated_root status request.merkle_root)
        a

  unfoldable pub update_batch_proof_endpoint : ℕ → UpdateBatchProofRequest → E BatchInfo
  update_batch_proof_endpoint batch_id request a =
      with_status batch_id request (parse_status request.status) a

-- The command is put into the processor's queue.
unfoldable pub trigger_batch_endpoint : E Bool
trigger_batch_endpoint a = elim a.batch_processor [
  | none ↦ (error service_unavailable, a)
  | some handle ↦ (
    json true,
    record a {
      batch_processor = some (record handle { commands = handle.commands ++ trigger_batch ∷ [] });
    },
  )
]

unfoldable pub get_batch_processor_stats_endpoint : E BatchProcessorStats
get_batch_processor_stats_endpoint a = elim a.batch_processor [
  | none ↦ (error service_unavailable, a)
  | some handle ↦ (json handle.stats, a)
]
