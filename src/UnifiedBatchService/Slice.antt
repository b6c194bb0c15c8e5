-- ===== src/UnifiedBatchService/Slice.antt =====
-- The part of the pending transactions that create_batch_with_ads of api/src/unified_batch_service.rs takes.
use demo_vapp.Prelude.{
  ℕ, zero, suc, ◌≤◌, ◌≡◌, ◌⊎◌, refl, ap, Option, none, some, List, [], ◌∷◌, length, take, map, ℤ,
  arith,
}
use demo_vapp.Hashing.{Hash}
use demo_vapp.Batches.Queue.{Transactions}
use demo_vapp.UnifiedBatchService.{
  min, as_usize, batch_size_for, transaction_to_nullifier, nullifiers_of,
}

-- How many a caller asks for; all where it names no number.
abbrev pub asked_for : Option ℤ → ℕ → ℕ
asked_for none pending = pending
asked_for (some s) pending = as_usize s

-- The oldest of the pending ones, at most the maximum and at most the number asked for, and as many as that allows.
pub record IsOldest (max_batch_size : ℕ) (requested : Option ℤ) (pending slice : Transactions)
    : Type 0 where
  pub oldest : slice ≡ take (length slice) pending
  pub capped : length slice ≤ max_batch_size
  pub asked : length slice ≤ asked_for requested (length pending)
  pub full :
      (length slice ≡ length pending)
      ⊎ ((length slice ≡ max_batch_size) ⊎ (length slice ≡ asked_for requested (length pending)))

take-take_own {ℓ} : {A : Type ℓ} (k : ℕ) (xs : List A) → take k xs ≡ take (length (take k xs)) xs
take-take_own zero xs = refl
take-take_own (suc k) [] = refl
take-take_own (suc k) (x ∷ xs) = ap (◌∷◌ x) (take-take_own k xs)

length-take_within {ℓ} : {A : Type ℓ} (k : ℕ) (xs : List A) → k ≤ length xs → length (take k xs) ≡ k
length-take_within zero xs h = refl
length-take_within (suc k) [] h = omega arith
length-take_within (suc k) (x ∷ xs) h = omega (arith, length-take_within k xs (omega arith))

pub slice-IsOldest :
    (max_batch_size : ℕ) (requested : Option ℤ) (pending : Transactions)
    → IsOldest max_batch_size requested pending
        (take (batch_size_for max_batch_size requested (length pending)) pending)
unfolding batch_size_for
slice-IsOldest max_batch_size none pending =
    let k = min (min (length pending) max_batch_size) (length pending) in
    let size : length (take k pending) ≡ k = length-take_within k pending (ground arith) in
    record {
      oldest = take-take_own k pending;
      capped = ground (arith, size);
      asked = ground (arith, size);
      full = ground (arith, size);
    }
slice-IsOldest max_batch_size (some s) pending =
    let k = min (min (as_usize s) max_batch_size) (length pending) in
    let size : length (take k pending) ≡ k = length-take_within k pending (ground arith) in
    record {
      oldest = take-take_own k pending;
      capped = ground (arith, size);
      asked = ground (arith, size);
      full = ground (arith, size);
    }

pub nullifiers_of-map :
    (blake3 : List ℕ → Hash) (timestamp : ℕ → ℤ) (ts : Transactions)
    → nullifiers_of blake3 timestamp ts ≡ map (transaction_to_nullifier blake3 timestamp) ts
nullifiers_of-map blake3 timestamp [] = refl
nullifiers_of-map blake3 timestamp (t ∷ ts) =
    ap (◌∷◌ (transaction_to_nullifier blake3 timestamp t)) (nullifiers_of-map blake3 timestamp ts)
