-- ===== src/BatchProcessor/Calls.antt =====
-- The calls that the monitor of api/src/batch_processor.rs has sent for a batch, against the marks of the rows.
use mathlib.Core.Bool.{not}
use demo_vapp.Prelude.{
  ℕ, suc, ◌+◌, ◌≤◌, ◌≡◌, refl, inl, inr, true, false, some, List, [], ◌∷◌, ◌++◌, ◌==◌, ◌&&◌,
  if◌then◌else◌, arith, Bool-cases,
}
use demo_vapp.Batches.{ProofBatch, Store, find_batch}
use demo_vapp.Batches.Contract.{
  update_batch, is_unposted, mark_batch_posted_to_contract, is_postable,
}
use demo_vapp.BatchProcessor.Monitor.{Submission, Sent, Monitor, misses_proof, awaits_proof}
use demo_vapp.BatchProcessor.Table.{Rows, AreDistinct, posted_mark}

-- The calls that have been sent for a batch: all, those for which it has been marked, and the others.
abbrev pub calls_of : ℕ → List Sent → ℕ
calls_of j [] = 0
calls_of j (c ∷ cs) = if c.call.batch_id == j then suc (calls_of j cs) else calls_of j cs

abbrev pub settled_of : ℕ → List Sent → ℕ
settled_of j [] = 0
settled_of j (c ∷ cs) =
    if (c.call.batch_id == j) && c.settled then suc (settled_of j cs) else settled_of j cs

abbrev pub lost_of : ℕ → List Sent → ℕ
lost_of j [] = 0
lost_of j (c ∷ cs) =
    if (c.call.batch_id == j) && not c.settled then suc (lost_of j cs) else lost_of j cs

pub calls-split : (j : ℕ) (cs : List Sent) → calls_of j cs ≡ settled_of j cs + lost_of j cs
calls-split j [] = refl
calls-split j (c ∷ cs) = elim (Bool-cases (c.call.batch_id == j)) [
  | inl here ↦ elim (Bool-cases c.settled) [
    | inl good ↦ ground (arith, calls-split j cs)
    | inr bad ↦ ground (arith, calls-split j cs)
  ]
  | inr other ↦ ground (arith, calls-split j cs)
]

pub settled_of-lost :
    (j : ℕ) (cs : List Sent) (c : Submission)
    → settled_of j (cs ++ record { call = c; settled = false } ∷ []) ≡ settled_of j cs
settled_of-lost j [] c = ground arith
settled_of-lost j (d ∷ cs) c = ground (arith, settled_of-lost j cs c)

pub settled_of-append :
    (j : ℕ) (cs : List Sent) (c : Submission)
    → settled_of j (cs ++ record { call = c; settled = true } ∷ [])
      ≡ settled_of j cs + (if c.batch_id == j then 1 else 0)
settled_of-append j [] c = ground arith
settled_of-append j (d ∷ cs) c = ground (arith, settled_of-append j cs c)

-- Rows are marked for the calls that are settled, one for each at most.
abbrev pub AreMarked : Store → List Sent → Type 0
AreMarked s calls = (j : ℕ) → settled_of j calls ≤ posted_mark j s.batches

abbrev pub posted : ProofBatch → ProofBatch
posted b = record b { posted_to_contract = true }

pub postable :
    (id : ℕ) (bs : Rows) (b : ProofBatch)
    → find_batch id bs ≡ some b
    → b.posted_to_contract ≡ false
    → is_postable id bs ≡ true
postable id [] b there open_row = cc
postable id (c ∷ bs) b there open_row = elim (Bool-cases (c.id == id)) [
  | inl here ↦ ground arith
  | inr other ↦ ground (arith, postable id bs b)
]

-- The row found is open.
abbrev pub IsOpen : ℕ → Rows → Type 0
IsOpen id bs = (b : ProofBatch) × (find_batch id bs ≡ some b) × (b.posted_to_contract ≡ false)

pub marks_row :
    (id : ℕ) (s : Store)
    → IsOpen id s.batches
    → (mark_batch_posted_to_contract id s).1
      ≡ record s { batches = update_batch posted id s.batches }
unfolding mark_batch_posted_to_contract
marks_row id s (b, there, open_row) = ground (arith, postable id s.batches b there open_row)

abbrev pub IsSafe : Monitor → Type 0
IsSafe c = AreDistinct c.store.batches × AreMarked c.store c.calls

-- No phase selects the row.
abbrev pub IsStuck : ProofBatch → Type 0
IsStuck b = (misses_proof b ≡ false) × (awaits_proof b ≡ false) × (is_unposted b ≡ false)
