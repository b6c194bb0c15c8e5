-- ===== src/Batches/Tests.antt =====
-- A queue of two transactions, 5 and -5, and the batches made of them.
use demo_vapp.Prelude.{◌≡◌, refl, true, false, none, some, [], ◌∷◌, pos, arith, is_i64, is_i32}
use demo_vapp.Prelude.Int.{◌+ℤ◌}
use demo_vapp.Error.{ok}
use demo_vapp.Samples.{some_leaf}
use demo_vapp.Batches.{
  IncomingTransaction, ProofBatch, ProofStatus, AdsStateCommit, Store, create_batch, unbatched,
  sum_amounts, new_batch, get_current_counter_value,
}
use demo_vapp.Batches.Contract.{amounts_of}
use demo_vapp.Batches.Queue.{has_id, drop, sum_included, amounts}
use demo_vapp.Batches.Counter.{IsValid, batched, batched_store, create_batch-IsValid}
use demo_vapp.Samples.Queue.{first, queued, queued-IsValid}

claimed_first : batched queued queued-IsValid none ≡ first ∷ []
unfolding unbatched
claimed_first = refl

first_fits :
    is_i64 (get_current_counter_value queued +ℤ sum_amounts (batched queued queued-IsValid none))
    ≡ true
unfolding unbatched get_current_counter_value sum_amounts ◌+ℤ◌
first_fits = refl

create_batch-IsValid_example :
    (create_batch none queued ≡ (
      ok (some (new_batch queued (batched queued queued-IsValid none))),
      batched_store queued queued-IsValid none,
    ))
    × (get_current_counter_value (batched_store queued queued-IsValid none)
        ≡ get_current_counter_value queued +ℤ sum_amounts (batched queued queued-IsValid none))
    × (unbatched (batched_store queued queued-IsValid none).transactions
        ≡ drop 10 (unbatched queued.transactions))
    × (amounts_of
          (new_batch queued (batched queued queued-IsValid none)).transaction_ids
          (batched_store queued queued-IsValid none).transactions
        ≡ amounts (batched queued queued-IsValid none))
    × IsValid (batched_store queued queued-IsValid none)
create_batch-IsValid_example =
    create_batch-IsValid queued queued-IsValid none first [] claimed_first first_fits

-- The counter at the top of the i64 range: 5 more do not fit.
abbrev top_batch : ProofBatch
top_batch = record {
  id = 1;
  previous_counter_value = pos 0;
  final_counter_value = pos 9223372036854775807;
  transaction_ids = 1 ∷ [];
  sindri_proof_id = some "proof";
  proof_status = ProofStatus.proven;
  posted_to_contract = false;
}

abbrev old : IncomingTransaction
old = record { id = 1; amount = pos 9223372036854775807; included_in_batch_id = some 1 }

abbrev next : IncomingTransaction
next = record { id = 2; amount = pos 5; included_in_batch_id = none }

abbrev full : Store
full = record {
  transactions = old ∷ next ∷ [];
  batches = top_batch ∷ [];
  commits = record { id = 1; batch_id = 1; merkle_root = some_leaf } ∷ [];
  next_transaction = 3;
  next_batch = 2;
  next_commit = 2;
}

full-IsValid : IsValid full
unfolding has_id sum_included get_current_counter_value ◌+ℤ◌
full-IsValid = record {
  distinct = (refl, (refl, tt));
  ids_below = λ i there. ground arith;
  batches_below = λ i b there. ground arith;
  linked = (refl, tt);
  counter = refl;
}

-- The counter back at 0 after a batch with a root of its own.
abbrev back : ProofBatch
back = record top_batch { id = 3 }

abbrev returned : Store
returned = record full {
  batches =
      record top_batch { final_counter_value = pos 5 }
      ∷ record top_batch { id = 2; previous_counter_value = pos 5; final_counter_value = pos 0 }
      ∷ back
      ∷ [];
  commits =
      record { id = 1; batch_id = 2; merkle_root = some_leaf }
      ∷ record { id = 2; batch_id = 3; merkle_root = some_leaf }
      ∷ [];
}

abbrev back_commit : AdsStateCommit
back_commit = record { id = 2; batch_id = 3; merkle_root = some_leaf }

five_fits : is_i32 (pos 10 +ℤ sum_amounts (first ∷ [])) ≡ true
unfolding sum_amounts ◌+ℤ◌
five_fits = refl
