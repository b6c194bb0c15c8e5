-- ===== src/Batches/Counter.antt =====
-- The counter of db/src/db.rs: the batches form a chain from 0, and the counter is the sum of what is
-- in them.
use demo_vapp.Prelude.{
  ℕ, suc, ◌<◌, ◌≡◌, ◌∙◌, inl, inr, refl, sym, ap, true, false, ◌||◌, Option, none, some, [], ◌∷◌,
  ◌++◌, ◌==◌, unwrap_or, ℤ, pos, ◌+ℤ◌, +ℤ_comm, is_i64, arith, Bool-cases, Option-cases,
}
use demo_vapp.Error.{ok, err, database, other}
use demo_vapp.Batches.{
  IncomingTransaction, ProofBatch, Store, is_unbatched, unbatched, sum_amounts, ids_of, include_in,
  find_batch, new_batch, create_batch, submit_transaction, get_current_counter_value,
}
use demo_vapp.Batches.Contract.{amounts_of}
use demo_vapp.Batches.Queue.{
  Transactions, has_id, AreDistinct, drop, sum_included, amounts, claimed, has_id-include_in,
  AreDistinct-include_in, unbatched-include_in, sum_included-include_in, amounts_of-claimed,
}
use demo_vapp.Batches.Linked.{
  IsLinked, counter-end_of, last_batch-append, counter_last, IsLinked-append, find_batch-append,
  List-cases,
}

pub record IsValid (s : Store) : Type 0 where
  pub distinct : AreDistinct s.transactions
  pub ids_below : (i : ℕ) → has_id s.transactions i ≡ true → i < s.next_transaction
  pub batches_below : (i : ℕ) (b : ProofBatch) → find_batch i s.batches ≡ some b → i < s.next_batch
  pub linked : IsLinked (pos 0) s.batches
  pub counter : get_current_counter_value s ≡ sum_included s.transactions

module _ (s : Store) (valid : IsValid s) where
  has_id-append :
      (ts : Transactions) (t : IncomingTransaction) (i : ℕ)
      → has_id (ts ++ t ∷ []) i ≡ (has_id ts i || t.id == i)
  unfolding has_id
  has_id-append [] t i = ground arith
  has_id-append (u ∷ ts) t i = ground (arith, has_id-append ts t i)

  AreDistinct-append :
      (ts : Transactions) (t : IncomingTransaction)
      → AreDistinct ts
      → has_id ts t.id ≡ false
      → AreDistinct (ts ++ t ∷ [])
  unfolding has_id
  AreDistinct-append [] t d fresh = (refl, tt)
  AreDistinct-append (u ∷ ts) t d fresh =
      (ground (arith, has_id-append ts t u.id, d.0), AreDistinct-append ts t d.1 (ground arith))

  sum_included-append :
      (ts : Transactions) (t : IncomingTransaction)
      → is_unbatched t ≡ true
      → sum_included (ts ++ t ∷ []) ≡ sum_included ts
  unfolding sum_included
  sum_included-append [] t waits = ground arith
  sum_included-append (u ∷ ts) t waits = ground (arith, sum_included-append ts t waits)

  unbatched-append :
      (ts : Transactions) (t : IncomingTransaction)
      → is_unbatched t ≡ true
      → unbatched (ts ++ t ∷ []) ≡ unbatched ts ++ t ∷ []
  unfolding unbatched
  unbatched-append [] t waits = ground arith
  unbatched-append (u ∷ ts) t waits = ground (arith, unbatched-append ts t waits)

  next_fresh : has_id s.transactions s.next_transaction ≡ false
  next_fresh = elim (Bool-cases (has_id s.transactions s.next_transaction)) [
    | inl there ↦ absurd (omega (arith, valid.ids_below s.next_transaction there))
    | inr fresh ↦ fresh
  ]

  -- On a valid state a submission adds one transaction at the end of the queue, and the state stays
  -- valid.
  pub submit_transaction-IsValid :
      (amount : ℤ)
      → IsValid (submit_transaction amount s).1
        × ((t : IncomingTransaction) × ((submit_transaction amount s).0 ≡ ok t)
            × (t.amount ≡ amount)
            × (unbatched (submit_transaction amount s).1.transactions
                ≡ unbatched s.transactions ++ t ∷ []))
  unfolding submit_transaction
  submit_transaction-IsValid amount =
      let t : IncomingTransaction = record {
        id = s.next_transaction;
        amount = amount;
        included_in_batch_id = none;
      } in
      (
        record {
          distinct = AreDistinct-append s.transactions t valid.distinct next_fresh;
          ids_below =
              λ i there. ground (arith, has_id-append s.transactions t i, valid.ids_below i);
          batches_below = valid.batches_below;
          linked = valid.linked;
          counter =
              unfold get_current_counter_value in
              (valid.counter ∙ sym (sum_included-append s.transactions t refl));
        },
        (t, refl, refl, unbatched-append s.transactions t refl),
      )

  module _ (size : Option ℕ) where
    abbrev pub batched : Transactions
    batched = claimed (unwrap_or size 10) s.transactions

    -- The state that a batch leaves.
    abbrev pub batched_store : Store
    batched_store = record s {
      batches = s.batches ++ new_batch s batched ∷ [];
      next_batch = suc s.next_batch;
      transactions = include_in s.next_batch (ids_of batched) s.transactions;
    }

    batched_counter :
        get_current_counter_value batched_store ≡ get_current_counter_value s +ℤ sum_amounts batched
    batched_counter =
        counter_last batched_store (new_batch s batched)
          (last_batch-append s.batches (new_batch s batched))

    batched_store-IsValid : IsValid batched_store
    batched_store-IsValid = record {
      distinct = AreDistinct-include_in s.next_batch (ids_of batched) s.transactions valid.distinct;
      ids_below = λ i there.
          valid.ids_below i
            (sym (has_id-include_in s.next_batch (ids_of batched) s.transactions i) ∙ there);
      batches_below = λ i b e. elim (Option-cases (find_batch i s.batches)) [
        | inl gone ↦ ground (arith, find_batch-append i s.batches (new_batch s batched))
        | inr (c, old) ↦ ground (arith, valid.batches_below i c old)
      ];
      linked =
          IsLinked-append (pos 0) s.batches (new_batch s batched) valid.linked (counter-end_of s);
      counter =
          batched_counter
          ∙ ap (λ c. c +ℤ sum_amounts batched) valid.counter
          ∙ +ℤ_comm (sum_included s.transactions) (sum_amounts batched)
          ∙ sym (
              sum_included-include_in s.next_batch (unwrap_or size 10) s.transactions
                valid.distinct);
    }

    pub found : find_batch s.next_batch batched_store.batches ≡ some (new_batch s batched)
    found = elim (Option-cases (find_batch s.next_batch s.batches)) [
      | inl gone ↦ ground (arith, find_batch-append s.next_batch s.batches (new_batch s batched))
      | inr (c, old) ↦ absurd (omega (arith, valid.batches_below s.next_batch c old))
    ]

    -- On a valid state with transactions pending, a batch whose final value fits an i64 is created: its
    -- values are the counter before and after its amounts, the oldest `size` (or 10) transactions leave
    -- the queue and the others stay in order, the contract's data sees the batch's own amounts under its
    -- ids, and the state stays valid.
    pub create_batch-IsValid :
        (t : IncomingTransaction) (ts : Transactions)
        → batched ≡ t ∷ ts
        → is_i64 (get_current_counter_value s +ℤ sum_amounts batched) ≡ true
        → (create_batch size s ≡ (ok (some (new_batch s batched)), batched_store))
          × (get_current_counter_value batched_store
              ≡ get_current_counter_value s +ℤ sum_amounts batched)
          × (unbatched batched_store.transactions
              ≡ drop (unwrap_or size 10) (unbatched s.transactions))
          × (amounts_of (new_batch s batched).transaction_ids batched_store.transactions
              ≡ amounts batched)
          × IsValid batched_store
    unfolding create_batch
    create_batch-IsValid t ts some_pending fits = (
      ground (arith, some_pending, fits, found),
      batched_counter,
      unbatched-include_in s.next_batch (unwrap_or size 10) s.transactions valid.distinct,
      amounts_of-claimed s.next_batch (unwrap_or size 10) s.transactions valid.distinct,
      batched_store-IsValid,
    )

    claims_none : batched ≡ [] → (create_batch size s).1 ≡ s
    unfolding create_batch
    claims_none e = ground (arith, e)

    overflows :
        (t : IncomingTransaction) (ts : Transactions)
        → batched ≡ t ∷ ts
        → is_i64 (get_current_counter_value s +ℤ sum_amounts batched) ≡ false
        → create_batch size s ≡ (err (database other), s)
    unfolding create_batch
    overflows t ts e wide = ground (arith, e, wide)

    -- Whether a batch is created, nothing is pending or the final value does not fit an i64, `create_batch`
    -- keeps a valid state valid.
    pub create_batch-keeps : IsValid (create_batch size s).1
    create_batch-keeps = elim (List-cases batched) [
      | inl e ↦ rw (claims_none e) valid
      | inr (t, ts, e) ↦
          elim (Bool-cases (is_i64 (get_current_counter_value s +ℤ sum_amounts batched))) [
            | inl fits ↦
                let done = create_batch-IsValid t ts e fits in rw done.0 batched_store-IsValid
            | inr wide ↦ rw (overflows t ts e wide) valid
          ]
    ]
