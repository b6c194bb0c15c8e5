-- ===== src/Rest/Endpoints.antt =====
-- What the handlers of api/src/rest.rs leave in the tables.
use mathlib.Core.Path.{subst}
use Prim.Native.String.{String}
use demo_vapp.Prelude.{
  ℕ, suc, ◌≤◌, ◌<◌, ◌≡◌, refl, sym, Option, some, [], ◌∷◌, ◌++◌, unwrap_or, ℤ, pos, negsuc,
  wrap_i32_id, arith,
}
use demo_vapp.Hashing.{Hash}
use demo_vapp.Error.{ok}
use demo_vapp.Batches.{ProofBatch, ProofStatus, Store, find_batch}
use demo_vapp.Batches.Contract.{update_batch, store_ads_state_commit}
use demo_vapp.BatchProcessor.Phases.{with_proof}
use demo_vapp.UnifiedBatchService.{as_usize}
use demo_vapp.Rest.{clamped_size, max_ℤ, min_ℤ}

clamp_between :
    (x : ℤ) (m : ℕ)
    → 1 ≤ m
    → m < 2147483648
    → (1 ≤ as_usize (min_ℤ (max_ℤ x (pos 1)) (pos m)))
      × (as_usize (min_ℤ (max_ℤ x (pos 1)) (pos m)) ≤ m)
clamp_between (pos n) m positive fits = ground arith
clamp_between (negsuc n) m positive fits = ground arith

-- Where the maximum is a positive i32, every requested size, also a negative one or none, becomes one
-- between 1 and the maximum.
pub clamped_size-bounds :
    (requested : Option ℤ) (max_batch_size : ℕ)
    → 1 ≤ max_batch_size
    → max_batch_size < 2147483648
    → (1 ≤ as_usize (clamped_size requested max_batch_size))
      × (as_usize (clamped_size requested max_batch_size) ≤ max_batch_size)
unfolding clamped_size
clamped_size-bounds requested max_batch_size positive fits =
    subst
      (λ maximum.
        (1 ≤ as_usize (min_ℤ (max_ℤ (unwrap_or requested maximum) (pos 1)) maximum))
        × (as_usize (min_ℤ (max_ℤ (unwrap_or requested maximum) (pos 1)) maximum) ≤ max_batch_size))
      (sym (wrap_i32_id (pos max_batch_size) (ground arith)))
      (clamp_between (unwrap_or requested (pos max_batch_size)) max_batch_size positive fits)

commits :
    (id : ℕ) (root : Hash) (s : Store) (b : ProofBatch)
    → find_batch id s.batches ≡ some b
    → store_ads_state_commit id root s ≡ (
      ok (record { id = s.next_commit; batch_id = id; merkle_root = root }),
      record s {
        commits =
            s.commits ++ record { id = s.next_commit; batch_id = id; merkle_root = root } ∷ [];
        next_commit = suc s.next_commit;
      },
    )
unfolding store_ads_state_commit
commits id root s b there = rw there refl

-- The store after an update with a root.
abbrev updated : ProofBatch → String → Hash → Store → Store
updated b proof_id root s = record s {
  batches = update_batch (with_proof proof_id ProofStatus.proven) b.id s.batches;
  commits = s.commits ++ record { id = s.next_commit; batch_id = b.id; merkle_root = root } ∷ [];
  next_commit = suc s.next_commit;
}
