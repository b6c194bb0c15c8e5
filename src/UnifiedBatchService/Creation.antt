-- ===== src/UnifiedBatchService/Creation.antt =====
-- create_batch_with_ads of api/src/unified_batch_service.rs: what it leaves in the tables when the tree
-- takes the nullifiers, and when it does not.
use demo_vapp.Prelude.{
  ℕ, zero, suc, ◌≤◌, ◌≡◌, ◌∙◌, refl, sym, ap, inl, inr, true, Option, none, some, List, [], ◌∷◌,
  ◌++◌, length, take, map, ℤ, ◌+ℤ◌, is_i64, is_some, arith, Bool-cases,
}
use demo_vapp.Hashing.{Hash, Sha256}
use demo_vapp.Error.{Result, ok, err, database, row_not_found}
use demo_vapp.Batches.{
  IncomingTransaction, ProofBatch, AdsStateCommit, Store, unbatched, get_pending_transactions,
  create_batch, new_batch, sum_amounts, get_current_counter_value, find_batch, ids_of,
}
use demo_vapp.Batches.Contract.{
  ContractSubmissionData, store_ads_state_commit, commit_of, get_contract_submission_data,
  submission_for, amounts_of,
}
use demo_vapp.Batches.Queue.{Transactions, drop, amounts}
use demo_vapp.Batches.Counter.{
  IsValid, batched, batched_store, create_batch-IsValid, create_batch-keeps, found,
}
use demo_vapp.AdsService.{
  AdsError, AdsResult, done, failed, AdsConfig, StateCommitment, StateTransition, Ads, batch_insert,
  insert_each,
}
use demo_vapp.UnifiedBatchService.{
  ads_failed, World, created, refused, create_batch_with_ads, batch_size_for,
  transaction_to_nullifier, nullifiers_of, create_batch_entry, last_transition, result_of,
  finish_root, store_root, finish_insert, with_entry, with_pending,
}
use demo_vapp.UnifiedBatchService.Slice.{IsOldest, slice-IsOldest, nullifiers_of-map}

take-take-length {ℓ} :
    {A : Type ℓ} (k m : ℕ) (xs : List A)
    → take (length (take k (take m xs))) xs ≡ take k (take m xs)
take-take-length zero m xs = refl
take-take-length (suc k) zero xs = refl
take-take-length (suc k) (suc m) [] = refl
take-take-length (suc k) (suc m) (x ∷ xs) = ap (◌∷◌ x) (take-take-length k m xs)

nil-ne-cons : (k : ℕ) (t : IncomingTransaction) (ts : Transactions) → take k [] ≡ t ∷ ts → ⊥
nil-ne-cons zero t ts e = cc
nil-ne-cons (suc k) t ts e = cc

pub commit_of-append :
    (id : ℕ) (cs : List AdsStateCommit) (c : AdsStateCommit)
    → commit_of id cs ≡ none
    → c.batch_id ≡ id
    → commit_of id (cs ++ c ∷ []) ≡ some c
commit_of-append id [] c none_yet same = ground arith
commit_of-append id (d ∷ cs) c none_yet same = ground (arith, commit_of-append id cs c)

pub submission_made :
    (s : Store) (b : ProofBatch) (c : AdsStateCommit)
    → find_batch b.id s.batches ≡ some b
    → commit_of b.id s.commits ≡ some c
    → (get_contract_submission_data b.id s).0 ≡ ok (submission_for b s c)
unfolding get_contract_submission_data
submission_made s b c there made = ground (arith, there, made)

submission_missing :
    (s : Store) (b : ProofBatch)
    → find_batch b.id s.batches ≡ some b
    → commit_of b.id s.commits ≡ none
    → (get_contract_submission_data b.id s).0 ≡ err (database row_not_found)
unfolding get_contract_submission_data
submission_missing s b there unused = ground (arith, there, unused)

-- A commit leaves the queue and the batches as they are.
pub commit-keeps :
    (s : Store) → IsValid s → (b : ℕ) (root : Hash) → IsValid (store_ads_state_commit b root s).1
unfolding store_ads_state_commit get_current_counter_value
commit-keeps s valid b root = elim (Bool-cases (is_some (find_batch b s.batches))) [
  | inl there ↦ rw there (record {
    distinct = valid.distinct;
    ids_below = valid.ids_below;
    batches_below = valid.batches_below;
    linked = valid.linked;
    counter = valid.counter;
  })
  | inr gone ↦ rw gone valid
]

-- Whatever blake3 returns, a transaction's nullifier is positive and fits an i64, as the nullifier table
-- wants.
pub transaction_to_nullifier-fits :
    (blake3 : List ℕ → Hash) (timestamp : ℕ → ℤ) (t : IncomingTransaction)
    → (1 ≤ transaction_to_nullifier blake3 timestamp t)
      × (transaction_to_nullifier blake3 timestamp t ≤ 9223372036854775807)
unfolding transaction_to_nullifier
transaction_to_nullifier-fits blake3 timestamp t = (omega arith, omega arith)

module _ (sha : Sha256) (order : List StateCommitment → List Hash) (config : AdsConfig) where
  last_cons :
      (t : StateTransition) (ts : List StateTransition)
      → (u : StateTransition) × (last_transition (t ∷ ts) ≡ some u)
  last_cons t [] = (t, refl)
  last_cons t (v ∷ ts) = last_cons v ts

  -- A batch insertion of at least one value that succeeds has a last transition.
  batch_insert-last :
      (v : ℕ) (vs : List ℕ) (a b : Ads) (ts : List StateTransition)
      → batch_insert sha order config (v ∷ vs) a ≡ (done ts, b)
      → (u : StateTransition) × (last_transition ts ≡ some u)
  unfolding batch_insert insert_each
  batch_insert-last v vs a b [] e = ground arith
  batch_insert-last v vs a b (t ∷ ts) e = last_cons t ts

  pending-slice :
      (blake3 : List ℕ → Hash) (timestamp : ℕ → ℤ) (max_batch_size : ℕ) (requested : Option ℤ)
      (a : Ads) (s : Store) (xs : Transactions) (t : IncomingTransaction) (ts : Transactions)
      → take (batch_size_for max_batch_size requested (length xs)) xs ≡ t ∷ ts
      → with_pending sha order config blake3 timestamp max_batch_size requested a (ok xs, s)
        ≡ with_entry sha order config blake3 timestamp max_batch_size
            (take (batch_size_for max_batch_size requested (length xs)) xs)
            a
            (create_batch_entry (take (batch_size_for max_batch_size requested (length xs)) xs) s)
  pending-slice blake3 timestamp max_batch_size requested a s [] t ts e =
      absurd (nil-ne-cons (batch_size_for max_batch_size requested 0) t ts e)
  pending-slice blake3 timestamp max_batch_size requested a s (x ∷ xs) t ts e = refl

  module _ (blake3 : List ℕ → Hash) (timestamp : ℕ → ℤ) (max_batch_size : ℕ) (requested : Option ℤ)
      (w : World) (valid : IsValid w.store) where
    abbrev pub pending : Transactions
    pending = take 1000 (unbatched w.store.transactions)

    abbrev pub slice : Transactions
    slice = take (batch_size_for max_batch_size requested (length pending)) pending

    abbrev pub size : Option ℕ
    size = some (length slice)

    abbrev pub nullifiers : List ℕ
    nullifiers = nullifiers_of blake3 timestamp slice

    -- The batch's row claims the slice and nothing else.
    claims_slice : batched w.store valid size ≡ slice
    claims_slice =
        take-take-length (batch_size_for max_batch_size requested (length pending)) 1000
          (unbatched w.store.transactions)

    module _ (t : IncomingTransaction) (ts : Transactions) (some_claimed : slice ≡ t ∷ ts)
        (fits : is_i64 (get_current_counter_value w.store +ℤ sum_amounts slice) ≡ true) where
      abbrev pub batch : ProofBatch
      batch = new_batch w.store slice

      abbrev pub entered : Store
      entered = batched_store w.store valid size

      entry :
          (create_batch size w.store ≡ (ok (some batch), entered))
          × (unbatched entered.transactions ≡ drop (length slice) (unbatched w.store.transactions))
          × (amounts_of batch.transaction_ids entered.transactions ≡ amounts slice)
          × IsValid entered
      entry =
          let made = create_batch-IsValid w.store valid size t ts (claims_slice ∙ some_claimed) (
            ap (λ c. is_i64 (get_current_counter_value w.store +ℤ sum_amounts c)) claims_slice
            ∙ fits) in
          (
            made.0 ∙ ap (λ c. (ok (some (new_batch w.store c)), entered)) claims_slice,
            made.2,
            ap (λ c. amounts_of (ids_of c) entered.transactions) (sym claims_slice)
                ∙ made.3
                ∙ ap amounts claims_slice,
            made.4,
          )

      runs :
          create_batch_with_ads sha order config blake3 timestamp max_batch_size requested w
          ≡ finish_insert sha order config blake3 timestamp max_batch_size batch slice entered
              (batch_insert sha order config nullifiers w.ads)
      unfolding create_batch_with_ads get_pending_transactions
      runs =
          pending-slice blake3 timestamp max_batch_size requested w.ads w.store pending t ts
            some_claimed
          ∙ ap (with_entry sha order config blake3 timestamp max_batch_size slice w.ads) entry.0

      abbrev pub row : Hash → AdsStateCommit
      row root = record { id = entered.next_commit; batch_id = batch.id; merkle_root = root }

      abbrev pub committed : Hash → Store
      committed root = record entered {
        commits = w.store.commits ++ row root ∷ [];
        next_commit = suc entered.next_commit;
      }

      there : find_batch batch.id entered.batches ≡ some batch
      there = found w.store valid size ∙ ap (λ c. some (new_batch w.store c)) claims_slice

      commits :
          (root : Hash)
          → store_ads_state_commit batch.id root entered ≡ (ok (row root), committed root)
      unfolding store_ads_state_commit
      commits root = rw there refl

      -- On a valid state with transactions to take, where the batch's final value fits an i64, no root is
      -- stored under the batch's id yet and the service takes the nullifiers, a batch is created. It takes
      -- the oldest of the at most 1000 transactions that are fetched as pending, at most the maximum and
      -- the number requested, and as many as that allows; exactly these leave the queue. The nullifiers
      -- inserted are one of each, in their order, and the contract's data names the root after the last
      -- insertion, their amounts, and the counter before and after them.
      pub create_batch_with_ads-commits :
          (transitions : List StateTransition) (a : Ads)
          → batch_insert sha order config nullifiers w.ads ≡ (done transitions, a)
          → commit_of batch.id w.store.commits ≡ none
          → (u : StateTransition) × (last_transition transitions ≡ some u)
            × IsOldest max_batch_size requested pending slice
            × (nullifiers ≡ map (transaction_to_nullifier blake3 timestamp) slice)
            × (create_batch_with_ads sha order config blake3 timestamp max_batch_size requested w
                ≡ (
                  created (
                      result_of sha order config blake3 timestamp max_batch_size batch slice
                        u.new_root),
                  record { store = committed u.new_root; ads = a },
                ))
            × (unbatched (committed u.new_root).transactions
                ≡ drop (length slice) (unbatched w.store.transactions))
            × ((d : ContractSubmissionData) × ((get_contract_submission_data batch.id
                    (committed u.new_root)).0
                  ≡ ok d)
                × (d.public_data.new_merkle_root ≡ u.new_root)
                × (d.private_data.prev_counter_value ≡ get_current_counter_value w.store)
                × (d.private_data.new_counter_value
                    ≡ get_current_counter_value w.store +ℤ sum_amounts slice)
                × (d.private_data.transactions ≡ amounts slice))
      create_batch_with_ads-commits transitions a inserted unused =
          let last =
            batch_insert-last (transaction_to_nullifier blake3 timestamp t)
              (nullifiers_of blake3 timestamp ts) w.ads a transitions
              (ap (λ c. batch_insert sha order config (nullifiers_of blake3 timestamp c) w.ads)
                  (sym some_claimed)
                ∙ inserted) in
          let u = last.0 in
          (
            u,
            last.1,
            slice-IsOldest max_batch_size requested pending,
            nullifiers_of-map blake3 timestamp slice,
            runs
                ∙ ap
                    (finish_insert sha order config blake3 timestamp max_batch_size batch slice
                      entered)
                    inserted
                ∙ ap
                    (λ o.
                      store_root sha order config blake3 timestamp max_batch_size batch slice o
                        (record { store = entered; ads = a }))
                    last.1
                ∙ ap
                    (finish_root sha order config blake3 timestamp max_batch_size batch slice
                      u.new_root a)
                    (commits u.new_root),
            entry.1,
            (
              submission_for batch (committed u.new_root) (row u.new_root),
              submission_made (committed u.new_root) batch (row u.new_root) there
                  (commit_of-append batch.id w.store.commits (row u.new_root) unused refl),
              refl,
              refl,
              refl,
              entry.2,
            ),
          )

      -- On a valid state with transactions to take, where the batch's final value fits an i64 and the
      -- service refuses the nullifiers, the call fails, but the batch is in its table, the transactions
      -- are no longer pending, and the contract's data of the batch is not there.
      pub create_batch_with_ads-strands :
          (e : AdsError) (a : Ads)
          → batch_insert sha order config nullifiers w.ads ≡ (failed e, a)
          → commit_of batch.id w.store.commits ≡ none
          → (create_batch_with_ads sha order config blake3 timestamp max_batch_size requested w
              ≡ (refused (ads_failed e), record { store = entered; ads = a }))
            × (find_batch batch.id entered.batches ≡ some batch)
            × (unbatched entered.transactions
                ≡ drop (length slice) (unbatched w.store.transactions))
            × ((get_contract_submission_data batch.id entered).0 ≡ err (database row_not_found))
      create_batch_with_ads-strands e a refuses unused = (
        runs
            ∙ ap
                (finish_insert sha order config blake3 timestamp max_batch_size batch slice entered)
                refuses,
        there,
        entry.1,
        submission_missing entered batch there unused,
      )

    finish-keeps :
        (b : ProofBatch) (xs : Transactions) (root : Hash) (a : Ads)
        (r : Result AdsStateCommit × Store)
        → IsValid r.1
        → IsValid
            (finish_root sha order config blake3 timestamp max_batch_size b xs root a r).1.store
    finish-keeps b xs root a (ok c, s) v = v
    finish-keeps b xs root a (err e, s) v = v

    store-keeps :
        (b : ProofBatch) (xs : Transactions) (o : Option StateTransition) (s : Store) (a : Ads)
        → IsValid s
        → IsValid
            (store_root sha order config blake3 timestamp max_batch_size b xs o
              (record { store = s; ads = a })).1.store
    store-keeps b xs none s a v = v
    store-keeps b xs (some u) s a v =
        finish-keeps b xs u.new_root a (store_ads_state_commit b.id u.new_root s)
          (commit-keeps s v b.id u.new_root)

    insert-keeps :
        (b : ProofBatch) (xs : Transactions) (s : Store)
        (r : AdsResult (List StateTransition) × Ads)
        → IsValid s
        → IsValid (finish_insert sha order config blake3 timestamp max_batch_size b xs s r).1.store
    insert-keeps b xs s (done us, a) v = store-keeps b xs (last_transition us) s a v
    insert-keeps b xs s (failed e, a) v = v

    entry-keeps :
        (xs : Transactions) (a : Ads) (r : Result (Option ProofBatch) × Store)
        → IsValid r.1
        → IsValid (with_entry sha order config blake3 timestamp max_batch_size xs a r).1.store
    entry-keeps xs a (err e, s) v = v
    entry-keeps xs a (ok none, s) v = v
    entry-keeps xs a (ok (some b), s) v =
        insert-keeps b xs s (batch_insert sha order config (nullifiers_of blake3 timestamp xs) a) v

    pending-keeps :
        (r : Option ℤ) (xs : Transactions)
        → IsValid
            (with_pending sha order config blake3 timestamp max_batch_size r w.ads
              (ok xs, w.store)).1.store
    pending-keeps r [] = valid
    pending-keeps r (x ∷ xs) =
        let xs' = take (batch_size_for max_batch_size r (length (x ∷ xs))) (x ∷ xs) in
        entry-keeps xs' w.ads (create_batch_entry xs' w.store)
          (create_batch-keeps w.store valid (some (length xs')))

    -- Whatever is requested, and whether a batch is created, nothing is pending, a statement fails or the
    -- service refuses the nullifiers, the queue and the batches stay valid.
    pub create_batch_with_ads-IsValid :
        IsValid
          (create_batch_with_ads sha order config blake3 timestamp max_batch_size requested
            w).1.store
    unfolding create_batch_with_ads get_pending_transactions
    create_batch_with_ads-IsValid = pending-keeps requested pending
