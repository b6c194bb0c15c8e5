-- ===== src/UnifiedBatchService/Growth.antt =====
-- How many rows a call of create_batch_with_ads adds to the table of batches.
use mathlib.Core.Path.{subst}
use demo_vapp.Prelude.{
  ℕ, ◌+◌, ◌≤◌, ◌≡◌, ◌∙◌, refl, sym, inl, inr, Option, none, some, List, [], ◌∷◌, length,
  length-append, take, ℤ, is_some, is_i64, ◌+ℤ◌, arith, Bool-cases, Option-cases,
}
use demo_vapp.Hashing.{Hash, Sha256}
use demo_vapp.Error.{Result, ok, err, database, row_not_found}
use demo_vapp.Batches.{
  ProofBatch, AdsStateCommit, Store, create_batch, claim_batch, insert_batch, finish_batch,
  new_batch, find_batch, get_pending_transactions, unbatched, get_current_counter_value,
  sum_amounts,
}
use demo_vapp.Batches.Contract.{store_ads_state_commit}
use demo_vapp.Batches.Queue.{Transactions}
use demo_vapp.AdsService.{
  AdsResult, done, failed, AdsConfig, StateCommitment, StateTransition, Ads, batch_insert,
}
use demo_vapp.UnifiedBatchService.{
  World, Outcome, created, nothing_created, refused, create_batch_with_ads, batch_size_for,
  nullifiers_of, create_batch_entry, last_transition, finish_root, store_root, finish_insert,
  with_entry, with_pending,
}

-- One row where a batch is reported, none where nothing is to do, and at most one in an error.
abbrev pub Grows : Outcome → ℕ → ℕ → Type 0
Grows (created r) n m = m ≡ n + 1
Grows nothing_created n m = m ≡ n
Grows (refused e) n m = (n ≤ m) × (m ≤ n + 1)

abbrev EntryGrows : ℕ → Result (Option ProofBatch) × Store → Type 0
EntryGrows n (ok (some b), s) = length s.batches ≡ n + 1
EntryGrows n (ok none, s) = length s.batches ≡ n
EntryGrows n (err e, s) = (n ≤ length s.batches) × (length s.batches ≤ n + 1)

inserted_rows :
    (ts : Transactions) (s s' : Store)
    → insert_batch ts s ≡ some s'
    → length s'.batches ≡ length s.batches + 1
inserted_rows ts s s' made =
    elim (Bool-cases (is_i64 (get_current_counter_value s +ℤ sum_amounts ts))) [
      | inl fits ↦ ground (arith, fits, length-append s.batches (new_batch s ts ∷ []))
      | inr wide ↦ absurd (ground (arith, wide))
    ]

finish_lost :
    (s s' : Store)
    → find_batch s.next_batch s'.batches ≡ none
    → finish_batch s.next_batch s (some s') ≡ (err (database row_not_found), s')
finish_lost s s' gone = ground (arith, gone)

finish_found :
    (s s' : Store) (b : ProofBatch)
    → find_batch s.next_batch s'.batches ≡ some b
    → finish_batch s.next_batch s (some s') ≡ (ok (some b), s')
finish_found s s' b there = ground (arith, there)

finish_grows :
    (s s' : Store)
    → length s'.batches ≡ length s.batches + 1
    → EntryGrows (length s.batches) (finish_batch s.next_batch s (some s'))
finish_grows s s' more = elim (Option-cases (find_batch s.next_batch s'.batches)) [
  | inl gone ↦
      subst (EntryGrows (length s.batches)) (sym (finish_lost s s' gone)) (omega arith, omega arith)
  | inr (b, there) ↦ subst (EntryGrows (length s.batches)) (sym (finish_found s s' b there)) more
]

claim_grows : (ts : Transactions) (s : Store) → EntryGrows (length s.batches) (claim_batch ts s)
claim_grows [] s = refl
claim_grows (t ∷ ts) s = elim (Option-cases (insert_batch (t ∷ ts) s)) [
  | inl wide ↦
      subst (λ o. EntryGrows (length s.batches) (finish_batch s.next_batch s o)) (sym wide)
        (omega arith, omega arith)
  | inr (s', made) ↦
      subst (λ o. EntryGrows (length s.batches) (finish_batch s.next_batch s o)) (sym made)
        (finish_grows s s' (inserted_rows (t ∷ ts) s s' made))
]

entry_grows :
    (ts : Transactions) (s : Store) → EntryGrows (length s.batches) (create_batch_entry ts s)
unfolding create_batch
entry_grows ts s = claim_grows (take (length ts) (unbatched s.transactions)) s

commit_rows :
    (s : Store) (b : ℕ) (root : Hash)
    → length (store_ads_state_commit b root s).1.batches ≡ length s.batches
unfolding store_ads_state_commit
commit_rows s b root = elim (Bool-cases (is_some (find_batch b s.batches))) [
  | inl there ↦ rw there refl
  | inr gone ↦ rw gone refl
]

module _ (sha : Sha256) (order : List StateCommitment → List Hash) (config : AdsConfig)
    (blake3 : List ℕ → Hash) (timestamp : ℕ → ℤ) (max_batch_size : ℕ) where
  root-Grows :
      (b : ProofBatch) (ts : Transactions) (root : Hash) (a : Ads) (n : ℕ)
      (r : Result AdsStateCommit × Store)
      → length r.1.batches ≡ n + 1
      → let o = finish_root sha order config blake3 timestamp max_batch_size b ts root a r in
        Grows o.0 n (length o.1.store.batches)
  root-Grows b ts root a n (ok c, s) more = more
  root-Grows b ts root a n (err e, s) more = (omega arith, omega arith)

  transition-Grows :
      (b : ProofBatch) (ts : Transactions) (u : Option StateTransition) (s : Store) (a : Ads)
      (n : ℕ)
      → length s.batches ≡ n + 1
      → let w : World = record { store = s; ads = a } in
        let o = store_root sha order config blake3 timestamp max_batch_size b ts u w in
        Grows o.0 n (length o.1.store.batches)
  transition-Grows b ts none s a n more = (omega arith, omega arith)
  transition-Grows b ts (some u) s a n more =
      root-Grows b ts u.new_root a n (store_ads_state_commit b.id u.new_root s)
        (commit_rows s b.id u.new_root ∙ more)

  insert-Grows :
      (b : ProofBatch) (ts : Transactions) (s : Store) (r : AdsResult (List StateTransition) × Ads)
      (n : ℕ)
      → length s.batches ≡ n + 1
      → let o = finish_insert sha order config blake3 timestamp max_batch_size b ts s r in
        Grows o.0 n (length o.1.store.batches)
  insert-Grows b ts s (done us, a) n more = transition-Grows b ts (last_transition us) s a n more
  insert-Grows b ts s (failed e, a) n more = (omega arith, omega arith)

  with_entry-Grows :
      (ts : Transactions) (a : Ads) (r : Result (Option ProofBatch) × Store) (n : ℕ)
      → EntryGrows n r
      → let o = with_entry sha order config blake3 timestamp max_batch_size ts a r in
        Grows o.0 n (length o.1.store.batches)
  with_entry-Grows ts a (err e, s) n g = g
  with_entry-Grows ts a (ok none, s) n g = g
  with_entry-Grows ts a (ok (some b), s) n g =
      insert-Grows b ts s (batch_insert sha order config (nullifiers_of blake3 timestamp ts) a) n g

  pending-Grows :
      (requested : Option ℤ) (xs : Transactions) (w : World)
      → let o =
          with_pending sha order config blake3 timestamp max_batch_size requested w.ads
            (ok xs, w.store) in
        Grows o.0 (length w.store.batches) (length o.1.store.batches)
  pending-Grows requested [] w = refl
  pending-Grows requested (x ∷ xs) w =
      let slice = take (batch_size_for max_batch_size requested (length (x ∷ xs))) (x ∷ xs) in
      with_entry-Grows slice w.ads (create_batch_entry slice w.store) (length w.store.batches)
        (entry_grows slice w.store)

  pub create_batch_with_ads-Grows :
      (requested : Option ℤ) (w : World)
      → let o =
          create_batch_with_ads sha order config blake3 timestamp max_batch_size requested w in
        Grows o.0 (length w.store.batches) (length o.1.store.batches)
  unfolding create_batch_with_ads get_pending_transactions
  create_batch_with_ads-Grows requested w =
      pending-Grows requested (take 1000 (unbatched w.store.transactions)) w
