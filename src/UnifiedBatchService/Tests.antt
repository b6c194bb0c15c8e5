-- ===== src/UnifiedBatchService/Tests.antt =====
-- A queue with one transaction over the chain of 0 and 20: its nullifier is 30, which is free, or 20.
use demo_vapp.Prelude.{
  ℕ, ◌≤◌, ◌≡◌, ◌∙◌, ap, refl, true, none, some, List, [], ◌∷◌, length, take, map, replicate, ℤ, pos,
  is_i64, arith,
}
use demo_vapp.Prelude.Int.{◌+ℤ◌}
use demo_vapp.Hashing.{Hash}
use demo_vapp.Error.{ok, err, database, row_not_found}
use demo_vapp.Samples.{toy_sha}
use demo_vapp.Samples.Chains.{
  second_state, row_20, two-IsFree, two_fits, proper, two-IsChain, search_30, empty-IsRecorded,
}
use demo_vapp.Samples.Queue.{first, queued, queued-IsValid}
use demo_vapp.Samples.Services.{config, roots, service}
use demo_vapp.Nullifiers.{exists, count_rows, link}
use demo_vapp.Batches.{unbatched, find_batch, get_current_counter_value, sum_amounts}
use demo_vapp.Batches.Contract.{ContractSubmissionData, get_contract_submission_data}
use demo_vapp.Batches.Queue.{drop, amounts}
use demo_vapp.AdsService.{
  StateTransition, Ads, done, failed, nullifier_exists, batch_insert, insert_each, insert,
}
use demo_vapp.AdsService.Insertion.{inserts}
use demo_vapp.UnifiedBatchService.Slice.{IsOldest}
use demo_vapp.UnifiedBatchService.{
  World, created, refused, ads_failed, create_batch_with_ads, transaction_to_nullifier,
  batch_size_for, nullifiers_of, result_of, last_transition,
}
use demo_vapp.UnifiedBatchService.Creation.{
  transaction_to_nullifier-fits, create_batch_with_ads-commits, create_batch_with_ads-strands,
  slice, batch, committed, entered,
}

-- 29 in the first byte.
abbrev gives_30 : List ℕ → Hash
gives_30 m = 29 ∷ replicate 31 0

abbrev gives_20 : List ℕ → Hash
gives_20 m = 19 ∷ replicate 31 0

abbrev midnight : ℕ → ℤ
midnight id = pos 0

abbrev world : World
world = record { store = queued; ads = service }

transaction_to_nullifier-fits_example :
    (1 ≤ transaction_to_nullifier gives_30 midnight first)
    × (transaction_to_nullifier gives_30 midnight first ≤ 9223372036854775807)
transaction_to_nullifier-fits_example = transaction_to_nullifier-fits gives_30 midnight first

abbrev inserted_30 :
    (t : StateTransition) × (b : Ads) × (insert toy_sha roots config 30 service ≡ (done t, b))
inserted_30 =
    let made =
      inserts toy_sha roots config 30 service second_state row_20 0 two-IsFree two_fits proper
        two-IsChain search_30 empty-IsRecorded (omega arith) in
    (made.0, made.1, made.2)

one_claimed : slice toy_sha roots config gives_30 midnight 50 none world queued-IsValid ≡ first ∷ []
unfolding unbatched batch_size_for
one_claimed = refl

five_fits :
    is_i64 (
      get_current_counter_value queued
      +ℤ sum_amounts (slice toy_sha roots config gives_30 midnight 50 none world queued-IsValid))
    ≡ true
unfolding unbatched batch_size_for get_current_counter_value sum_amounts ◌+ℤ◌
five_fits = refl

one_value :
    (v : ℕ) (a b : Ads) (t : StateTransition)
    → insert toy_sha roots config v a ≡ (done t, b)
    → batch_insert toy_sha roots config (v ∷ []) a ≡ (done (t ∷ []), b)
unfolding batch_insert insert_each
one_value v a b t e = ground (arith, e)

value_30 :
    nullifiers_of gives_30 midnight
      (slice toy_sha roots config gives_30 midnight 50 none world queued-IsValid)
    ≡ 30 ∷ []
unfolding unbatched batch_size_for transaction_to_nullifier
value_30 = refl

free_30 :
    batch_insert toy_sha roots config
      (nullifiers_of gives_30 midnight
        (slice toy_sha roots config gives_30 midnight 50 none world queued-IsValid))
      service
    ≡ (done (inserted_30.0 ∷ []), inserted_30.1)
free_30 =
    ap (λ vs. batch_insert toy_sha roots config vs service) value_30
    ∙ one_value 30 service inserted_30.1 inserted_30.0 inserted_30.2

exists_20 :
    batch_insert toy_sha roots config
      (nullifiers_of gives_20 midnight
        (slice toy_sha roots config gives_20 midnight 50 none world queued-IsValid))
      service
    ≡ (failed (nullifier_exists 20), service)
unfolding unbatched batch_size_for batch_insert insert_each insert transaction_to_nullifier exists
    count_rows link
exists_20 = refl

create_batch_with_ads-commits_example :
    let some_slice = slice toy_sha roots config gives_30 midnight 50 none world queued-IsValid in
    let new =
      batch toy_sha roots config gives_30 midnight 50 none world queued-IsValid first [] one_claimed
        five_fits in
    let after =
      committed toy_sha roots config gives_30 midnight 50 none world queued-IsValid first []
        one_claimed five_fits in
    (u : StateTransition) × (last_transition (inserted_30.0 ∷ []) ≡ some u)
    × IsOldest 50 none (take 1000 (unbatched queued.transactions)) some_slice
    × (nullifiers_of gives_30 midnight some_slice
        ≡ map (transaction_to_nullifier gives_30 midnight) some_slice)
    × (create_batch_with_ads toy_sha roots config gives_30 midnight 50 none world ≡ (
      created (result_of toy_sha roots config gives_30 midnight 50 new some_slice u.new_root),
      record { store = after u.new_root; ads = inserted_30.1 },
    ))
    × (unbatched (after u.new_root).transactions
        ≡ drop (length some_slice) (unbatched queued.transactions))
    × ((d : ContractSubmissionData) × ((get_contract_submission_data new.id (after u.new_root)).0
          ≡ ok d)
        × (d.public_data.new_merkle_root ≡ u.new_root)
        × (d.private_data.prev_counter_value ≡ get_current_counter_value queued)
        × (d.private_data.new_counter_value
            ≡ get_current_counter_value queued +ℤ sum_amounts some_slice)
        × (d.private_data.transactions ≡ amounts some_slice))
create_batch_with_ads-commits_example =
    create_batch_with_ads-commits toy_sha roots config gives_30 midnight 50 none world
      queued-IsValid first [] one_claimed five_fits (inserted_30.0 ∷ []) inserted_30.1 free_30 refl

create_batch_with_ads-strands_example :
    let after =
      entered toy_sha roots config gives_20 midnight 50 none world queued-IsValid first []
        one_claimed five_fits in
    let new =
      batch toy_sha roots config gives_20 midnight 50 none world queued-IsValid first [] one_claimed
        five_fits in
    (create_batch_with_ads toy_sha roots config gives_20 midnight 50 none world
      ≡ (refused (ads_failed (nullifier_exists 20)), record { store = after; ads = service }))
    × (find_batch new.id after.batches ≡ some new)
    × (unbatched after.transactions
        ≡ drop
            (length (slice toy_sha roots config gives_20 midnight 50 none world queued-IsValid))
            (unbatched queued.transactions))
    × ((get_contract_submission_data new.id after).0 ≡ err (database row_not_found))
create_batch_with_ads-strands_example =
    create_batch_with_ads-strands toy_sha roots config gives_20 midnight 50 none world
      queued-IsValid first [] one_claimed five_fits (nullifier_exists 20) service exists_20 refl
