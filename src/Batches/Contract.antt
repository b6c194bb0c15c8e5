-- ===== src/Batches/Contract.antt =====
-- The part of db/src/db.rs behind the proofs: their results, the Merkle roots, and the submission of proven
-- batches to the contract. Roots stand here as their bytes; the source prints them in hexadecimal.
use mathlib.Core.Option
use mathlib.Core.Bool.{not}
use Prim.Native.String.{String}
use demo_vapp.Prelude.{
  ℕ, suc, Bool, true, false, ◌&&◌, ◌||◌, Option, none, some, List, [], ◌∷◌, ◌++◌, ◌==◌,
  if◌then◌else◌, unwrap_or, is_some, take, ℤ, pos, negsuc,
}
use demo_vapp.Hashing.{Hash, zero_hash}
use demo_vapp.Error.{ok, err, database, row_not_found, constraint_violation}
use demo_vapp.Batches.{
  IncomingTransaction, ProofStatus, ProofBatch, AdsStateCommit, Store, S, find_batch, is_any,
}

pub record ContractPublicData : Type 0 where
  pub prev_merkle_root : Hash
  pub new_merkle_root : Hash
  pub zk_proof : String

pub record ContractPrivateData : Type 0 where
  pub prev_counter_value : ℤ
  pub new_counter_value : ℤ
  pub transactions : List ℤ

pub record ContractSubmissionData : Type 0 where
  pub public_data : ContractPublicData
  pub private_data : ContractPrivateData

abbrev reverse_onto : List ProofBatch → List ProofBatch → List ProofBatch
reverse_onto [] acc = acc
reverse_onto (b ∷ bs) acc = reverse_onto bs (b ∷ acc)

-- ORDER BY id DESC LIMIT $1
unfoldable pub get_all_batches : Option ℕ → S (List ProofBatch)
get_all_batches limit s = (ok (take (unwrap_or limit 50) (reverse_onto s.batches [])), s)

-- UPDATE proof_batches SET … WHERE id = …
abbrev pub update_batch : (ProofBatch → ProofBatch) → ℕ → List ProofBatch → List ProofBatch
update_batch f id [] = []
update_batch f id (b ∷ bs) = (if b.id == id then f b else b) ∷ update_batch f id bs

unfoldable pub update_batch_proof : ℕ → String → ProofStatus → S (Unit {0})
update_batch_proof batch_id proof_id status s = (
  ok tt,
  record s {
    batches =
        update_batch (λ b. record b { sindri_proof_id = some proof_id; proof_status = status })
          batch_id s.batches;
  },
)

abbrev pub is_proven : ProofBatch → Bool
is_proven b = elim b.proof_status [ ProofStatus.proven ↦ true | _ ↦ false ]

abbrev pub commit_of : ℕ → List AdsStateCommit → Option AdsStateCommit
commit_of batch_id [] = none
commit_of batch_id (c ∷ cs) = if c.batch_id == batch_id then some c else commit_of batch_id cs

-- The foreign key wants the batch to be there.
unfoldable pub store_ads_state_commit : ℕ → Hash → S AdsStateCommit
store_ads_state_commit batch_id merkle_root s =
    if is_some (find_batch batch_id s.batches)
    then (let row : AdsStateCommit = record {
      id = s.next_commit;
      batch_id = batch_id;
      merkle_root = merkle_root;
    } in
        (ok row, record s { commits = s.commits ++ row ∷ []; next_commit = suc s.next_commit }))
    else (err (database constraint_violation), s)

-- SELECT amount … WHERE id = ANY($1) ORDER BY id
unfoldable pub amounts_of : List ℕ → List IncomingTransaction → List ℤ
amounts_of ids [] = []
amounts_of ids (t ∷ ts) =
    if is_any ids t.id then t.amount ∷ amounts_of ids ts else amounts_of ids ts

abbrev pub eq_ℤ : ℤ → ℤ → Bool
eq_ℤ (pos n) (pos m) = n == m
eq_ℤ (negsuc n) (negsuc m) = n == m
eq_ℤ _ _ = false

abbrev pub or_later : Option Hash → Option Hash → Option Hash
or_later earlier none = earlier
or_later earlier (some h) = some h

-- The root of the latest proven batch that ends at `counter` and has a commit.
unfoldable pub root_at : ℤ → List AdsStateCommit → List ProofBatch → Option Hash
root_at counter cs [] = none
root_at counter cs (b ∷ bs) =
    or_later
      (if is_proven b && eq_ℤ b.final_counter_value counter
        then Option.map (λ (c : AdsStateCommit). c.merkle_root) (commit_of b.id cs)
        else none)
      (root_at counter cs bs)

abbrev pub prev_root : ProofBatch → Store → Hash
prev_root b s =
    if eq_ℤ b.previous_counter_value (pos 0)
    then zero_hash
    else unwrap_or (root_at b.previous_counter_value s.commits s.batches) zero_hash

abbrev pub submission_for : ProofBatch → Store → AdsStateCommit → ContractSubmissionData
submission_for b s c = record {
  public_data = record {
    prev_merkle_root = prev_root b s;
    new_merkle_root = c.merkle_root;
    zk_proof = unwrap_or b.sindri_proof_id "pending";
  };
  private_data = record {
    prev_counter_value = b.previous_counter_value;
    new_counter_value = b.final_counter_value;
    transactions = amounts_of b.transaction_ids s.transactions;
  };
}

unfoldable pub get_contract_submission_data : ℕ → S ContractSubmissionData
get_contract_submission_data batch_id s = elim (find_batch batch_id s.batches) [
  | none ↦ (err (database row_not_found), s)
  | some b ↦ elim (commit_of batch_id s.commits) [
    | none ↦ (err (database row_not_found), s)
    | some c ↦ (ok (submission_for b s c), s)
  ]
]

abbrev pub is_unposted : ProofBatch → Bool
is_unposted b = is_proven b && (not b.posted_to_contract && is_some b.sindri_proof_id)

unfoldable pub unposted : List ProofBatch → List ProofBatch
unposted [] = []
unposted (b ∷ bs) = if is_unposted b then b ∷ unposted bs else unposted bs

unfoldable pub get_proven_unposted_batches : Option ℕ → S (List ProofBatch)
get_proven_unposted_batches limit s = (ok (take (unwrap_or limit 10) (unposted s.batches)), s)

abbrev pub is_postable : ℕ → List ProofBatch → Bool
is_postable id [] = false
is_postable id (b ∷ bs) = (b.id == id && not b.posted_to_contract) || is_postable id bs

unfoldable pub mark_batch_posted_to_contract : ℕ → S (Unit {0})
mark_batch_posted_to_contract batch_id s =
    if is_postable batch_id s.batches
    then (
      ok tt,
      record s {
        batches = update_batch (λ b. record b { posted_to_contract = true }) batch_id s.batches;
      },
    )
    else (err (database row_not_found), s)
