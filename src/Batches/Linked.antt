-- ===== src/Batches/Linked.antt =====
-- Chains of batches, and what a new batch at the end does to the lookups of db/src/db.rs.
use demo_vapp.Prelude.{
  ℕ, ◌≡◌, ◌⊎◌, inl, inr, refl, Option, none, some, List, [], ◌∷◌, ◌++◌, ◌==◌, if◌then◌else◌,
  is_some, ℤ, pos, arith,
}
use demo_vapp.Batches.{
  IncomingTransaction, ProofBatch, Store, last_batch, find_batch, get_current_counter_value,
}
use demo_vapp.Batches.Queue.{Transactions}

-- Each batch starts where the one before it ended.
abbrev pub IsLinked : ℤ → List ProofBatch → Type 0
IsLinked start [] = Unit {0}
IsLinked start (b ∷ bs) = (b.previous_counter_value ≡ start) × IsLinked b.final_counter_value bs

-- Where a chain that starts at `start` ends.
pub end_of : ℤ → List ProofBatch → ℤ
end_of start [] = start
end_of start (b ∷ bs) = end_of b.final_counter_value bs

pub final_or : ℤ → Option ProofBatch → ℤ
final_or d none = d
final_or d (some b) = b.final_counter_value

pub last_batch-end_of :
    (start : ℤ) (bs : List ProofBatch) → final_or start (last_batch bs) ≡ end_of start bs
unfolding final_or end_of
last_batch-end_of start [] = refl
last_batch-end_of start (b ∷ []) = refl
last_batch-end_of start (b ∷ c ∷ bs) = last_batch-end_of start (c ∷ bs)

pub counter-end_of : (s : Store) → get_current_counter_value s ≡ end_of (pos 0) s.batches
unfolding get_current_counter_value final_or
counter-end_of s = ground (arith, last_batch-end_of (pos 0) s.batches)

pub last_batch-append : (bs : List ProofBatch) (b : ProofBatch) → last_batch (bs ++ b ∷ []) ≡ some b
last_batch-append [] b = refl
last_batch-append (c ∷ []) b = refl
last_batch-append (c ∷ d ∷ bs) b = last_batch-append (d ∷ bs) b

pub counter_last :
    (s : Store) (b : ProofBatch)
    → last_batch s.batches ≡ some b
    → get_current_counter_value s ≡ b.final_counter_value
unfolding get_current_counter_value
counter_last s b e = ground (arith, e)

pub IsLinked-append :
    (start : ℤ) (bs : List ProofBatch) (b : ProofBatch)
    → IsLinked start bs
    → b.previous_counter_value ≡ end_of start bs
    → IsLinked start (bs ++ b ∷ [])
unfolding end_of
IsLinked-append start [] b l e = (e, tt)
IsLinked-append start (c ∷ bs) b l e = (l.0, IsLinked-append c.final_counter_value bs b l.1 e)

pub find_batch-append :
    (id : ℕ) (bs : List ProofBatch) (b : ProofBatch)
    → find_batch id (bs ++ b ∷ []) ≡ (
        if is_some (find_batch id bs)
        then find_batch id bs
        else if b.id == id
        then some b
        else none)
find_batch-append id [] b = refl
find_batch-append id (c ∷ bs) b = ground (arith, find_batch-append id bs b)

pub List-cases :
    (ts : Transactions)
    → (ts ≡ []) ⊎ ((t : IncomingTransaction) × (us : Transactions) × (ts ≡ t ∷ us))
List-cases [] = inl refl
List-cases (t ∷ ts) = inr (t, ts, refl)
