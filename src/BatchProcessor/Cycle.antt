-- ===== src/BatchProcessor/Cycle.antt =====
-- A cycle of the monitor: which rows it changes, and what it sends to the contract.
use mathlib.Core.Path.{subst}
use mathlib.Core.Bool.{false≢true}
use Prim.Native.String.{String}
use demo_vapp.Prelude.{
  ℕ, zero, suc, ◌≡◌, ◌∙◌, refl, sym, ap, ◌⊎◌, inl, inr, true, false, Option, none, some, List, [],
  ◌∷◌, ◌++◌, ◌==◌, if_cases, take, arith, Bool-cases, Option-cases, ℤ,
}
use demo_vapp.Hashing.{Hash}
use demo_vapp.Batches.{ProofBatch, Store, find_batch}
use demo_vapp.Batches.Contract.{
  update_batch, is_unposted, unposted, get_proven_unposted_batches, mark_batch_posted_to_contract,
  is_postable,
}
use demo_vapp.BatchProcessor.Monitor.{
  Services, Submission, UpdateResult, not_sent, unconfirmed, confirmed, Sent, Task, Monitor,
  selected, submit_missing_proofs, update_proof_statuses, sent_call, call_for,
  submit_batch_to_contract, post_each, after_call, task_at, finish_task, finish_tasks,
  post_proven_batches_to_contract, monitor_cycle,
}
use demo_vapp.Proof.{
  ProofResult, returns, fails, ProofError, SindriProofData, get_sindri_proof_data,
}
use demo_vapp.BatchProcessor.Table.{
  Rows, has_row, AreDistinct, find-update_other, find-update_same, AreDistinct-update,
  chosen-AreDistinct, has_row-selected,
}
use demo_vapp.BatchProcessor.Calls.{
  AreMarked, IsSafe, IsOpen, posted, marks_row, settled_of-lost, settled_of-append,
}
use demo_vapp.BatchProcessor.Phases.{task-changes}

pub unposted-selected : (bs : Rows) → unposted bs ≡ selected is_unposted bs
unfolding unposted
unposted-selected [] = refl
unposted-selected (b ∷ bs) = ground (arith, unposted-selected bs)

module _ (decimal : ℤ → String) (decimal_id : ℕ → String) (keccak256 : String → Hash)
    (services : Services) where
  abbrev Call : Type 0
  Call = Option (Submission × UpdateResult)

  sends_own :
      (c : Submission) (u : UpdateResult) (o : Submission × UpdateResult)
      → sent_call decimal decimal_id keccak256 services c u ≡ some o
      → o.0 ≡ c
  sends_own c not_sent o e = ground arith
  sends_own c unconfirmed o e = ground arith
  sends_own c confirmed o e = ground arith

  answer_cases :
      (r : ProofResult SindriProofData)
      → ((e : ProofError) × (r ≡ fails e)) ⊎ ((d : SindriProofData) × (r ≡ returns d))
  answer_cases (fails e) = inl (e, refl)
  answer_cases (returns d) = inr (d, refl)

  submits_own :
      (update_state : Submission → UpdateResult) (b : ProofBatch) (o : Submission × UpdateResult)
      → submit_batch_to_contract decimal decimal_id keccak256 services update_state b ≡ some o
      → o.0.batch_id ≡ b.id
  unfolding submit_batch_to_contract
  submits_own update_state b o e = elim (Option-cases b.sindri_proof_id) [
    | inl gone ↦ absurd (ground (arith, gone, e))
    | inr (proof_id, got) ↦
        elim (answer_cases (get_sindri_proof_data proof_id (services.get_proof proof_id))) [
          | inl (x, bad) ↦ absurd (ground (arith, got, bad, e))
          | inr (d, good) ↦
              let call = call_for decimal decimal_id keccak256 services b d in
              ap (λ (c : Submission). c.batch_id)
                (sends_own call (update_state call) o (ground (arith, got, good, e)))
        ]
  ]

  -- Rows to be posted: found, open, and each once.
  abbrev AreOpen : Rows → Store → Type 0
  AreOpen bs s = (j : ℕ) → has_row j bs ≡ true → IsOpen j s.batches

  marked :
      (b : ProofBatch) (s : Store) (calls : List Sent) (c : Submission)
      → AreMarked s calls
      → IsOpen b.id s.batches
      → c.batch_id ≡ b.id
      → AreMarked
          (record s { batches = update_batch posted b.id s.batches })
          (calls ++ record { call = c; settled = true } ∷ [])
  marked b s calls c m (r, there, open_row) own j = elim (Bool-cases (b.id == j)) [
    | inl here ↦ ground (
      arith,
      m j,
      settled_of-append j calls c,
      find-update_same posted b.id s.batches r (λ x. refl) there,
    )
    | inr other ↦ ground (
      arith,
      m j,
      settled_of-append j calls c,
      find-update_other posted b.id j s.batches (λ x. refl) other,
    )
  ]

  loses :
      (c : Monitor) (call : Submission)
      → IsSafe c
      → IsSafe (record c { calls = c.calls ++ record { call = call; settled = false } ∷ [] })
  loses c call safe = (safe.0, λ j. omega (arith, safe.1 j, settled_of-lost j c.calls call))

  settles :
      (b : ProofBatch) (c : Monitor) (call : Submission)
      → IsSafe c
      → IsOpen b.id c.store.batches
      → call.batch_id ≡ b.id
      → IsSafe (record c {
        store = (mark_batch_posted_to_contract b.id c.store).1;
        calls = c.calls ++ record { call = call; settled = true } ∷ [];
      })
  settles b c call safe open_row own =
      subst
        (λ t.
          IsSafe (record c {
            store = t;
            calls = c.calls ++ record { call = call; settled = true } ∷ [];
          }))
        (sym (marks_row b.id c.store open_row))
        (
          AreDistinct-update posted b.id c.store.batches (λ x. refl) safe.0,
          marked b c.store c.calls call safe.1 open_row own,
        )

  posts_one :
      (b : ProofBatch) (c : Monitor) (o : Call)
      → IsSafe c
      → IsOpen b.id c.store.batches
      → ((p : Submission × UpdateResult) → o ≡ some p → p.0.batch_id ≡ b.id)
      → IsSafe (after_call decimal decimal_id keccak256 services b.id o c)
  posts_one b c none safe open_row own = safe
  posts_one b c (some (call, not_sent)) safe open_row own = loses c call safe
  posts_one b c (some (call, unconfirmed)) safe open_row own = loses c call safe
  posts_one b c (some (call, confirmed)) safe open_row own =
      if_cases IsSafe (services.marks b.id)
        (record c {
          store = (mark_batch_posted_to_contract b.id c.store).1;
          calls = c.calls ++ record { call = call; settled = true } ∷ [];
        })
        (record c { calls = c.calls ++ record { call = call; settled = false } ∷ [] })
        (λ written. settles b c call safe open_row (own (call, confirmed) refl))
        (λ failed. loses c call safe)

  -- The rows other than `id` are found as before.
  marks_other :
      (id j : ℕ) (s : Store)
      → (id == j) ≡ false
      → find_batch j (mark_batch_posted_to_contract id s).1.batches ≡ find_batch j s.batches
  unfolding mark_batch_posted_to_contract
  marks_other id j s other = elim (Bool-cases (is_postable id s.batches)) [
    | inl good ↦ ground (arith, good, find-update_other posted id j s.batches (λ x. refl) other)
    | inr bad ↦ ground (arith, bad)
  ]

  pub others_found :
      (id j : ℕ) (c : Monitor) (o : Call)
      → (id == j) ≡ false
      → find_batch j (after_call decimal decimal_id keccak256 services id o c).store.batches
        ≡ find_batch j c.store.batches
  others_found id j c none other = refl
  others_found id j c (some (call, not_sent)) other = refl
  others_found id j c (some (call, unconfirmed)) other = refl
  others_found id j c (some (call, confirmed)) other =
      if_cases (λ (d : Monitor). find_batch j d.store.batches ≡ find_batch j c.store.batches)
        (services.marks id)
        (record c {
          store = (mark_batch_posted_to_contract id c.store).1;
          calls = c.calls ++ record { call = call; settled = true } ∷ [];
        })
        (record c { calls = c.calls ++ record { call = call; settled = false } ∷ [] })
        (λ written. marks_other id j c.store other) (λ failed. refl)

  posts :
      (update_state : Submission → UpdateResult) (bs : Rows) (c : Monitor)
      → AreDistinct bs
      → AreOpen bs c.store
      → IsSafe c
      → IsSafe (post_each decimal decimal_id keccak256 services update_state bs c)
  posts update_state [] c d all_open safe = safe
  posts update_state (b ∷ bs) c d all_open safe =
      let o = submit_batch_to_contract decimal decimal_id keccak256 services update_state b in
      posts update_state bs (after_call decimal decimal_id keccak256 services b.id o c) d.1
        (λ j there.
          let (r, found, open_row) = all_open j (ground (arith, there)) in
          (r, others_found b.id j c o (ground (arith, d.0, there)) ∙ found, open_row))
        (posts_one b c o safe (all_open b.id (ground arith)) (submits_own update_state b))

  later_row :
      (b : ProofBatch) (bs : Rows) (j : ℕ)
      → (b.id == j) ≡ false
      → has_row j (selected is_unposted (b ∷ bs)) ≡ true
      → has_row j (selected is_unposted bs) ≡ true
  later_row b bs j other there = ground arith

  -- What the SELECT returns is open.
  selected-IsOpen :
      (bs : Rows) (j : ℕ)
      → AreDistinct bs
      → has_row j (selected is_unposted bs) ≡ true
      → IsOpen j bs
  selected-IsOpen [] j d there = absurd (false≢true there)
  selected-IsOpen (b ∷ bs) j d there = elim (Bool-cases (b.id == j)) [
    | inl here ↦ elim (Bool-cases (is_unposted b)) [
      | inl good ↦ (b, rw here refl, ground (arith, good))
      | inr bad ↦ absurd (ground (arith, bad, d.0, has_row-selected is_unposted j bs))
    ]
    | inr other ↦
        let (r, found, open_row) = selected-IsOpen bs j d.1 (later_row b bs j other there) in
        (r, rw other found, open_row)
  ]

  taken : (n j : ℕ) (bs : Rows) → has_row j (take n bs) ≡ true → has_row j bs ≡ true
  taken zero j bs there = absurd (false≢true there)
  taken (suc n) j [] there = there
  taken (suc n) j (b ∷ bs) there = ground (arith, taken n j bs)

  phase_posts :
      (c : Monitor)
      → IsSafe c
      → IsSafe (post_proven_batches_to_contract decimal decimal_id keccak256 services c)
  unfolding post_proven_batches_to_contract get_proven_unposted_batches
  phase_posts c safe = elim (Option-cases services.contract) [
    | inl gone ↦ rw gone safe
    | inr (update_state, got) ↦ rw got (
        rw (unposted-selected c.store.batches) (
          posts update_state (take 5 (selected is_unposted c.store.batches)) c
            (chosen-AreDistinct is_unposted 5 c.store.batches safe.0)
            (λ j there.
              selected-IsOpen c.store.batches j safe.0
                (taken 5 j (selected is_unposted c.store.batches) there))
            safe))
  ]

  finishes_one :
      (n : ℕ) (o : Option Task) (c : Monitor)
      → IsSafe c
      → IsSafe (finish_task decimal_id services n o c)
  finishes_one n none c safe = safe
  finishes_one n (some t) c safe =
      let changes = task-changes decimal_id services t c.store in
      (changes.rows safe.0, λ j. omega (arith, safe.1 j, changes.marks j))

  finishes : (ns : List ℕ) (c : Monitor) → IsSafe c → IsSafe (finish_tasks decimal_id services ns c)
  finishes [] c safe = safe
  finishes (n ∷ ns) c safe =
      finishes ns (finish_task decimal_id services n (task_at n c.tasks) c)
        (finishes_one n (task_at n c.tasks) c safe)

  pub cycle-IsSafe :
      (c : Monitor) → IsSafe c → IsSafe (monitor_cycle decimal decimal_id keccak256 services c)
  unfolding monitor_cycle submit_missing_proofs update_proof_statuses
  cycle-IsSafe c safe =
      let first = finish_tasks decimal_id services services.early (submit_missing_proofs c) in
      phase_posts (finish_tasks decimal_id services services.late (update_proof_statuses first)) (
        finishes services.late (update_proof_statuses first)
          (finishes services.early (submit_missing_proofs c) safe))
