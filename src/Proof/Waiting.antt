-- ===== src/Proof/Waiting.antt =====
-- The loops that wait for a proof (wait_for_proof_ready and the fixtures of lib/src/proof.rs).
use demo_vapp.Prelude.{
  ℕ, zero, suc, ◌+◌, ◌/◌, ◌≤◌, ◌<◌, ◌≡◌, ◌∙◌, sym, ap, true, Option, none, some, arith, is_some,
}
use demo_vapp.Proof.{
  JobStatus, ProofInfoResponse, ProofResult, returns, fails, sindri_error, proof_generation_failed,
  wait_loop, wait_for_proof_ready,
}

module _ (answers : ℕ → Option ProofInfoResponse) where
  -- The i-th poll finds a job that is not finished.
  abbrev pub Pending : ℕ → Type 0
  Pending i =
      (info : ProofInfoResponse) × (answers i ≡ some info) × (info.status ≡ JobStatus.unfinished)

  -- The result that the i-th poll decides.
  pub data Decides (i : ℕ) : ProofResult ProofInfoResponse → Type 0 where
    request_failed : answers i ≡ none → Decides i (fails sindri_error)
    job_ready :
        (info : ProofInfoResponse)
        → answers i ≡ some info
        → info.status ≡ JobStatus.ready
        → Decides i (returns info)
    job_failed :
        (info : ProofInfoResponse)
        → answers i ≡ some info
        → info.status ≡ JobStatus.failed
        → Decides i (fails proof_generation_failed)

  step-Pending :
      (fuel a max : ℕ)
      → Pending a
      → a < max
      → wait_loop answers (suc fuel) a max ≡ wait_loop answers fuel (a + 1) max
  unfolding wait_loop
  step-Pending fuel a max p below = ground (arith, p.1, p.2)

  step-Decides :
      (fuel a max : ℕ) (r : ProofResult ProofInfoResponse)
      → Decides a r
      → wait_loop answers (suc fuel) a max ≡ some r
  unfolding wait_loop
  step-Decides fuel a max _ (request_failed e) = ground (arith, e)
  step-Decides fuel a max _ (job_ready info e s) = ground (arith, e, s)
  step-Decides fuel a max _ (job_failed info e s) = ground (arith, e, s)

  step_last :
      (fuel a max : ℕ)
      → Pending a
      → max ≤ a
      → wait_loop answers (suc fuel) a max ≡ some (fails proof_generation_failed)
  unfolding wait_loop
  step_last fuel a max p over = ground (arith, p.1, p.2)

  transported : {m n : ℕ} {r : ProofResult ProofInfoResponse} → Decides n r → n ≡ m → Decides m r
  transported {m} {n} {r} (request_failed e) here = request_failed (ap answers (sym here) ∙ e)
  transported {m} {n} {r} (job_ready info e s) here = job_ready info (ap answers (sym here) ∙ e) s
  transported {m} {n} {r} (job_failed info e s) here = job_failed info (ap answers (sym here) ∙ e) s

  Decides-later :
      (j fuel a n max : ℕ) (r : ProofResult ProofInfoResponse)
      → n ≡ j + a
      → ((i : ℕ) → a ≤ i → i < n → Pending i)
      → n ≤ max
      → Decides n r
      → j < fuel
      → wait_loop answers fuel a max ≡ some r
  Decides-later j zero a n max r here before inside d enough = absurd (omega arith)
  Decides-later zero (suc fuel) a n max r here before inside d enough =
      step-Decides fuel a max r (transported d (here ∙ omega arith))
  Decides-later (suc j) (suc fuel) a n max r here before inside d enough =
      step-Pending fuel a max (before a (omega arith) (omega arith)) (omega arith)
      ∙ Decides-later j fuel (a + 1) n max r (omega arith) (λ i from to. before i (omega arith) to)
          inside d (omega arith)

  times_out :
      (j fuel a max : ℕ)
      → max ≡ j + a
      → ((i : ℕ) → a ≤ i → i ≤ max → Pending i)
      → j < fuel
      → wait_loop answers fuel a max ≡ some (fails proof_generation_failed)
  times_out j zero a max here before enough = absurd (omega arith)
  times_out zero (suc fuel) a max here before enough =
      step_last fuel a max (before a (omega arith) (omega arith)) (omega arith)
  times_out (suc j) (suc fuel) a max here before enough =
      step-Pending fuel a max (before a (omega arith) (omega arith)) (omega arith)
      ∙ times_out j fuel (a + 1) max (omega arith) (λ i from to. before i (omega arith) to)
          (omega arith)

  returns_result :
      (fuel a max : ℕ) → max < a + fuel → 0 < fuel → is_some (wait_loop answers fuel a max) ≡ true
  unfolding wait_loop
  returns_result zero a max enough some_fuel = absurd (omega arith)
  returns_result (suc zero) a max enough some_fuel = ground arith
  returns_result (suc (suc fuel)) a max enough some_fuel =
      ground (arith, returns_result (suc fuel) (a + 1) max)

  -- Whatever the service answers, waiting ends after at most one poll for every 5 seconds of the timeout and
  -- one more.
  pub wait_for_proof_ready-ends :
      (timeout_seconds fuel : ℕ)
      → timeout_seconds / 5 < fuel
      → is_some (wait_for_proof_ready answers fuel timeout_seconds) ≡ true
  unfolding wait_for_proof_ready
  wait_for_proof_ready-ends timeout_seconds fuel enough =
      returns_result fuel 0 (timeout_seconds / 5) (omega arith) (omega arith)

  -- With fuel for one poll per 5 seconds of the timeout and one more: if the n-th poll, made within the
  -- timeout, is the first to find the request failed or the job finished, that decides the result, and a
  -- job that is ready is returned.
  pub wait_for_proof_ready-Decides :
      (timeout_seconds fuel n : ℕ) (r : ProofResult ProofInfoResponse)
      → timeout_seconds / 5 < fuel
      → n ≤ timeout_seconds / 5
      → ((i : ℕ) → i < n → Pending i)
      → Decides n r
      → wait_for_proof_ready answers fuel timeout_seconds ≡ some r
  unfolding wait_for_proof_ready
  wait_for_proof_ready-Decides timeout_seconds fuel n r enough inside before d =
      Decides-later n fuel 0 n (timeout_seconds / 5) r (omega arith) (λ i from to. before i to)
        inside d (omega arith)

  -- With that fuel, if all polls within the timeout find the job unfinished, waiting fails.
  pub wait_for_proof_ready-times_out :
      (timeout_seconds fuel : ℕ)
      → timeout_seconds / 5 < fuel
      → ((i : ℕ) → i ≤ timeout_seconds / 5 → Pending i)
      → wait_for_proof_ready answers fuel timeout_seconds ≡ some (fails proof_generation_failed)
  unfolding wait_for_proof_ready
  wait_for_proof_ready-times_out timeout_seconds fuel enough before =
      times_out (timeout_seconds / 5) fuel 0 (timeout_seconds / 5) (omega arith)
        (λ i from to. before i to) enough
