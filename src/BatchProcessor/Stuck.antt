-- ===== src/BatchProcessor/Stuck.antt =====
-- A row that no phase selects and no task is for is left as it is by a cycle of the monitor.
use mathlib.Core.Path.{subst}
use Prim.Native.String.{String}
use demo_vapp.Prelude.{
  ℕ, zero, suc, ◌≡◌, ◌∙◌, refl, sym, inl, inr, false, Option, none, some, List, [], ◌∷◌, ◌++◌, ◌==◌,
  take, ℤ, arith, Option-cases,
}
use demo_vapp.Hashing.{Hash}
use demo_vapp.Batches.{ProofBatch, find_batch}
use demo_vapp.Batches.Contract.{is_unposted, get_proven_unposted_batches}
use demo_vapp.BatchProcessor.Monitor.{
  Services, Submission, UpdateResult, not_sent, unconfirmed, confirmed, Task, Monitor, selected,
  misses_proof, awaits_proof, spawn_submissions, spawn_checks, check_of, submit_missing_proofs,
  update_proof_statuses, task_at, without, finish_task, finish_tasks, submit_batch_to_contract,
  post_each, after_call, post_proven_batches_to_contract, monitor_cycle,
}
use demo_vapp.BatchProcessor.Table.{Rows, has_row, AreDistinct, not_chosen}
use demo_vapp.BatchProcessor.Phases.{row_of, task-changes}
use demo_vapp.BatchProcessor.Calls.{IsStuck}
use demo_vapp.BatchProcessor.Cycle.{others_found, unposted-selected}

-- None of the tasks is for the row `id`.
abbrev pub HasNone : ℕ → List Task → Type 0
HasNone id [] = Unit {0}
HasNone id (t ∷ ts) = ((row_of t == id) ≡ false) × HasNone id ts

HasNone-append :
    (id : ℕ) (ts us : List Task) → HasNone id ts → HasNone id us → HasNone id (ts ++ us)
HasNone-append id [] us h k = k
HasNone-append id (t ∷ ts) us h k = (h.0, HasNone-append id ts us h.1 k)

HasNone-spawn_submissions :
    (id : ℕ) (bs : Rows) → has_row id bs ≡ false → HasNone id (spawn_submissions bs)
HasNone-spawn_submissions id [] h = tt
HasNone-spawn_submissions id (b ∷ bs) h =
    (ground (arith, h), HasNone-spawn_submissions id bs (ground (arith, h)))

HasNone-check_of : (id j : ℕ) (o : Option String) → (j == id) ≡ false → HasNone id (check_of j o)
HasNone-check_of id j none h = tt
HasNone-check_of id j (some p) h = (h, tt)

HasNone-spawn_checks : (id : ℕ) (bs : Rows) → has_row id bs ≡ false → HasNone id (spawn_checks bs)
HasNone-spawn_checks id [] h = tt
HasNone-spawn_checks id (b ∷ bs) h =
    HasNone-append id (check_of b.id b.sindri_proof_id) (spawn_checks bs)
      (HasNone-check_of id b.id b.sindri_proof_id (ground (arith, h)))
      (HasNone-spawn_checks id bs (ground (arith, h)))

HasNone-without : (id n : ℕ) (ts : List Task) → HasNone id ts → HasNone id (without n ts)
HasNone-without id n [] h = tt
HasNone-without id zero (t ∷ ts) h = h.1
HasNone-without id (suc n) (t ∷ ts) h = (h.0, HasNone-without id n ts h.1)

task_at-other :
    (id n : ℕ) (ts : List Task) (t : Task)
    → HasNone id ts
    → task_at n ts ≡ some t
    → (row_of t == id) ≡ false
task_at-other id n [] t h e = ground arith
task_at-other id zero (u ∷ ts) t h e = ground (arith, h.0)
task_at-other id (suc n) (u ∷ ts) t h e = task_at-other id n ts t h.1 e

-- The row is there, and is nobody's task.
pub record IsLeft (id : ℕ) (b : ProofBatch) (c : Monitor) : Type 0 where
  pub rows : AreDistinct c.store.batches
  pub there : find_batch id c.store.batches ≡ some b
  pub no_task : HasNone id c.tasks

module _ (decimal : ℤ → String) (decimal_id : ℕ → String) (keccak256 : String → Hash)
    (services : Services) (id : ℕ) (b : ProofBatch) where
  finish-IsLeft :
      (n : ℕ) (o : Option Task) (c : Monitor)
      → task_at n c.tasks ≡ o
      → IsLeft id b c
      → IsLeft id b (finish_task decimal_id services n o c)
  finish-IsLeft n none c e left = left
  finish-IsLeft n (some t) c e left =
      let changes = task-changes decimal_id services t c.store in
      record {
        rows = changes.rows left.rows;
        there = changes.others id (task_at-other id n c.tasks t left.no_task e) ∙ left.there;
        no_task = HasNone-without id n c.tasks left.no_task;
      }

  finishes-IsLeft :
      (ns : List ℕ) (c : Monitor)
      → IsLeft id b c
      → IsLeft id b (finish_tasks decimal_id services ns c)
  finishes-IsLeft [] c left = left
  finishes-IsLeft (n ∷ ns) c left =
      finishes-IsLeft ns (finish_task decimal_id services n (task_at n c.tasks) c)
        (finish-IsLeft n (task_at n c.tasks) c refl left)

  missing-IsLeft :
      (c : Monitor) → misses_proof b ≡ false → IsLeft id b c → IsLeft id b (submit_missing_proofs c)
  unfolding submit_missing_proofs
  missing-IsLeft c sound left = record {
    rows = left.rows;
    there = left.there;
    no_task =
        HasNone-append id c.tasks
          (spawn_submissions (take 5 (selected misses_proof c.store.batches))) left.no_task
          (HasNone-spawn_submissions id (take 5 (selected misses_proof c.store.batches))
            (not_chosen misses_proof 5 id c.store.batches b left.rows left.there sound));
  }

  awaited-IsLeft :
      (c : Monitor) → awaits_proof b ≡ false → IsLeft id b c → IsLeft id b (update_proof_statuses c)
  unfolding update_proof_statuses
  awaited-IsLeft c over left = record {
    rows = left.rows;
    there = left.there;
    no_task =
        HasNone-append id c.tasks (spawn_checks (take 10 (selected awaits_proof c.store.batches)))
          left.no_task
          (HasNone-spawn_checks id (take 10 (selected awaits_proof c.store.batches))
            (not_chosen awaits_proof 10 id c.store.batches b left.rows left.there over));
  }

  tasks_stay :
      (j : ℕ) (c : Monitor) (o : Option (Submission × UpdateResult))
      → (after_call decimal decimal_id keccak256 services j o c).tasks ≡ c.tasks
  tasks_stay j c none = refl
  tasks_stay j c (some (call, not_sent)) = refl
  tasks_stay j c (some (call, unconfirmed)) = refl
  tasks_stay j c (some (call, confirmed)) = ground arith

  -- The table's rows stay distinct, which a safe cycle shows.
  abbrev Found : Monitor → Type 0
  Found c = (find_batch id c.store.batches ≡ some b) × HasNone id c.tasks

  posts-Found :
      (update_state : Submission → UpdateResult) (bs : Rows) (c : Monitor)
      → has_row id bs ≡ false
      → Found c
      → Found (post_each decimal decimal_id keccak256 services update_state bs c)
  posts-Found update_state [] c other left = left
  posts-Found update_state (x ∷ xs) c other left =
      let o = submit_batch_to_contract decimal decimal_id keccak256 services update_state x in
      posts-Found update_state xs (after_call decimal decimal_id keccak256 services x.id o c)
        (ground (arith, other))
        (
          others_found decimal decimal_id keccak256 services x.id id c o (ground (arith, other))
              ∙ left.0,
          subst (HasNone id) (sym (tasks_stay x.id c o)) left.1,
        )

  phase-Found :
      (c : Monitor)
      → is_unposted b ≡ false
      → IsLeft id b c
      → Found (post_proven_batches_to_contract decimal decimal_id keccak256 services c)
  unfolding post_proven_batches_to_contract get_proven_unposted_batches
  phase-Found c bad left = elim (Option-cases services.contract) [
    | inl gone ↦ rw gone (left.there, left.no_task)
    | inr (update_state, got) ↦ rw got (
        rw (unposted-selected c.store.batches) (
          posts-Found update_state (take 5 (selected is_unposted c.store.batches)) c
            (not_chosen is_unposted 5 id c.store.batches b left.rows left.there bad)
            (left.there, left.no_task)))
  ]

  pub cycle-Found :
      (c : Monitor)
      → IsStuck b
      → IsLeft id b c
      → Found (monitor_cycle decimal decimal_id keccak256 services c)
  unfolding monitor_cycle
  cycle-Found c stuck left =
      let first = finish_tasks decimal_id services services.early (submit_missing_proofs c) in
      let early =
        finishes-IsLeft services.early (submit_missing_proofs c) (missing-IsLeft c stuck.0 left) in
      phase-Found (finish_tasks decimal_id services services.late (update_proof_statuses first))
        stuck.2
        (finishes-IsLeft services.late (update_proof_statuses first)
          (awaited-IsLeft first stuck.1 early))
