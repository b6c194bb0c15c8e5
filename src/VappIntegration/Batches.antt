-- ===== src/VappIntegration/Batches.antt =====
-- What a batch of insertions of db/src/vapp_integration.rs answers.
use mathlib.Core.Path.{subst}
use demo_vapp.Prelude.{
  ℕ, suc, ◌≡◌, ◌⊎◌, refl, sym, ap, inl, inr, true, none, List, [], ◌∷◌, length, ltb, map, arith,
  if_cases, false,
}
use demo_vapp.Hashing.{Hash, Sha256}
use demo_vapp.AdsService.{
  AdsError, AdsResult, done, StateCommitment, StateTransition, Ads, insert, batch_insert,
  insert_each, collect, invalid_range,
}
use demo_vapp.UnifiedBatchService.{last_transition}
use demo_vapp.VappIntegration.{
  VappServices, VappConfig, Vapp, configuration_error, VappResult, completed, aborted,
  VappBatchResponse, ads_config, failures, finish_batch_insertions, process_batch_insertions,
}

module _ (sha : Sha256) (order : List StateCommitment → List Hash) (services : VappServices)
    (config : VappConfig) where
  failures-map :
      (e : AdsError) (ns : List ℕ)
      → failures sha order services config e ns ≡ map (λ n. record { nullifier = n; error = e }) ns
  failures-map e [] = refl
  failures-map e (n ∷ ns) = ap (◌∷◌ record { nullifier = n; error = e }) (failures-map e ns)

  -- The nullifiers of a batch all count as successful, or are all listed as failed with the tree's error.
  abbrev pub IsAccounted : List ℕ → Vapp → VappResult VappBatchResponse × Vapp → Type 0
  IsAccounted ns s (aborted e, s') =
      (config.batch_processing_enabled ≡ false) × (e ≡ configuration_error) × (s' ≡ s)
  IsAccounted ns s (completed r, s') =
      (r.total_operations ≡ length ns)
      × (((r.successful_operations ≡ length ns)
            × (r.failed_operations ≡ [])
            × ((ts : List StateTransition) × ((batch_insert sha order
                    (ads_config sha order services config) ns s.ads).0
                  ≡ done ts)
                × (r.combined_state_transition ≡ last_transition ts)))
          ⊎ ((e : AdsError) × (r.successful_operations ≡ 0)
              × (r.failed_operations ≡ map (λ n. record { nullifier = n; error = e }) ns)
              × ((batch_insert sha order (ads_config sha order services config) ns s.ads).0
                  ≡ AdsResult.failed e)))

  abbrev HasAll : List ℕ → AdsResult (List StateTransition) × Ads → Type 0
  HasAll ns (AdsResult.failed e, a) = Unit {0}
  HasAll ns (done ts, a) = length ts ≡ length ns

  result_cases :
      (r : AdsResult StateTransition)
      → ((e : AdsError) × (r ≡ AdsResult.failed e)) ⊎ ((t : StateTransition) × (r ≡ done t))
  result_cases (AdsResult.failed e) = inl (e, refl)
  result_cases (done t) = inr (t, refl)

  collect-HasAll :
      (n : ℕ) (ns : List ℕ) (t : StateTransition) (r : AdsResult (List StateTransition) × Ads)
      → HasAll ns r
      → HasAll (n ∷ ns) (collect sha order (ads_config sha order services config) t r.0, r.1)
  collect-HasAll n ns t (AdsResult.failed e, a) h = tt
  collect-HasAll n ns t (done ts, a) h = ap suc h

  module _ (n : ℕ) (ns : List ℕ) (a : Ads) where
    abbrev I : ℕ → Ads → AdsResult StateTransition × Ads
    I = insert sha order (ads_config sha order services config)

    abbrev Each : List ℕ → Ads → AdsResult (List StateTransition) × Ads
    Each = insert_each sha order (ads_config sha order services config)

    first_fails :
        (e : AdsError)
        → (I n a).0 ≡ AdsResult.failed e
        → Each (n ∷ ns) a ≡ (AdsResult.failed e, (I n a).1)
    unfolding insert_each
    first_fails e bad = ground (arith, bad)

    first_done :
        (t : StateTransition)
        → (I n a).0 ≡ done t
        → Each (n ∷ ns) a ≡ (
          collect sha order (ads_config sha order services config) t (Each ns (I n a).1).0,
          (Each ns (I n a).1).1,
        )
    unfolding insert_each
    first_done t good = ground (arith, good)

  each-HasAll :
      (ns : List ℕ) (a : Ads)
      → HasAll ns (insert_each sha order (ads_config sha order services config) ns a)
  unfolding insert_each
  each-HasAll [] a = refl
  each-HasAll (n ∷ ns) a =
      let r = insert sha order (ads_config sha order services config) n a in
      elim (result_cases r.0) [
        | inl (e, bad) ↦ subst (HasAll (n ∷ ns)) (sym (first_fails n ns a e bad)) tt
        | inr (t, good) ↦ subst (HasAll (n ∷ ns)) (sym (first_done n ns a t good)) (
            collect-HasAll n ns t
              (insert_each sha order (ads_config sha order services config) ns r.1)
              (each-HasAll ns r.1))
      ]

  finish-IsAccounted :
      (ns : List ℕ) (s : Vapp) (r : AdsResult (List StateTransition) × Ads)
      → HasAll ns r
      → (batch_insert sha order (ads_config sha order services config) ns s.ads).0 ≡ r.0
      → IsAccounted ns s (finish_batch_insertions sha order services config ns s r)
  finish-IsAccounted ns s (AdsResult.failed e, a) h inserted =
      (refl, inr (e, refl, failures-map e ns, inserted))
  finish-IsAccounted ns s (done ts, a) h inserted = (refl, inl (h, refl, (ts, inserted, refl)))

  batch-HasAll :
      (ns : List ℕ) (a : Ads)
      → HasAll ns (batch_insert sha order (ads_config sha order services config) ns a)
  unfolding batch_insert
  batch-HasAll ns a =
      if_cases (HasAll ns) (ltb 1000 (length ns)) (AdsResult.failed invalid_range, a)
        (insert_each sha order (ads_config sha order services config) ns a) (λ over. tt)
        (λ inside. each-HasAll ns a)

  -- Where batches are processed at all, either the tree's service has taken the batch, and the response counts all its
  -- nullifiers as successful, lists none as failed and holds the last transition; or that service has failed,
  -- and the response counts none as successful and lists each nullifier of the batch, in its order, with
  -- that failure. Where they are not processed, there is an error and nothing changes.
  pub process_batch_insertions-IsAccounted :
      (ns : List ℕ) (s : Vapp)
      → IsAccounted ns s (process_batch_insertions sha order services config ns s)
  unfolding process_batch_insertions
  process_batch_insertions-IsAccounted ns s =
      let r = batch_insert sha order (ads_config sha order services config) ns s.ads in
      if_cases (IsAccounted ns s) config.batch_processing_enabled
        (finish_batch_insertions sha order services config ns s r) (aborted configuration_error, s)
        (λ on. finish-IsAccounted ns s r (batch-HasAll ns s.ads) refl) (λ off. (off, refl, refl))

  -- Where batches are processed and the second of two nullifiers cannot be inserted after the first has
  -- been, the response lists both as failed and none as successful, and the tree keeps the first.
  pub process_batch_insertions-keeps_first :
      (n m : ℕ) (s : Vapp) (t : StateTransition) (a b : Ads) (e : AdsError)
      → config.batch_processing_enabled ≡ true
      → insert sha order (ads_config sha order services config) n s.ads ≡ (done t, a)
      → insert sha order (ads_config sha order services config) m a ≡ (AdsResult.failed e, b)
      → process_batch_insertions sha order services config (n ∷ m ∷ []) s ≡ (
        completed record {
          total_operations = 2;
          successful_operations = 0;
          failed_operations = failures sha order services config e (n ∷ m ∷ []);
          combined_state_transition = none;
        },
        record s { ads = b },
      )
  unfolding process_batch_insertions batch_insert insert_each
  process_batch_insertions-keeps_first n m s t a b e on first second =
      ground (arith, on, first, second)
