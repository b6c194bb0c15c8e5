-- ===== src/Proof/Fixtures.antt =====
-- The fixtures of lib/src/proof.rs: which answer of the service they are made of.
use mathlib.Core.Path.{subst}
use demo_vapp.Prelude.{
  ℕ, zero, suc, ◌+◌, ◌≤◌, ◌<◌, ◌≡◌, ◌⊎◌, inl, inr, refl, Option, none, some, arith, ℤ, Bool-cases,
  Option-cases, ap, ◌∙◌, sym,
}
use demo_vapp.Proof.{
  JobStatus, ProofInfoResponse, ProofResult, returns, fails, sindri_error, is_ready,
  poll_until_ready, create_evm_fixture, Sp1ArithmeticProofFixture, Sp1Proof, extracted, fixture_of,
}
use demo_vapp.Proof.Verification.{ready_status}

status_cases :
    (s : JobStatus) → (s ≡ JobStatus.ready) ⊎ ((s ≡ JobStatus.failed) ⊎ (s ≡ JobStatus.unfinished))
status_cases JobStatus.ready = inl refl
status_cases JobStatus.failed = inr (inl refl)
status_cases JobStatus.unfinished = inr (inr refl)

module _ (answers : ℕ → Option ProofInfoResponse) where
  -- The answer was known at the start, or is that of a poll below `bound`.
  abbrev pub Seen : ProofInfoResponse → ℕ → ℕ → ProofInfoResponse → Type 0
  Seen start from bound info =
      (start ≡ info) ⊎ ((i : ℕ) × (from ≤ i) × (i < bound) × (answers i ≡ some info))

  abbrev Good : ProofInfoResponse → ℕ → ℕ → ProofResult ProofInfoResponse → Type 0
  Good start from bound (fails e) = Unit {0}
  Good start from bound (returns info) =
      (info.status ≡ JobStatus.ready) × Seen start from bound info

  later :
      (start info : ProofInfoResponse) (a bound : ℕ) (r : ProofResult ProofInfoResponse)
      → answers a ≡ some info
      → a < bound
      → Good info (a + 1) bound r
      → Good start a bound r
  later start info a bound (fails e) here inside g = tt
  later start info a bound (returns r) here inside g = (
    g.0,
    elim g.1 [
      | inl same ↦ inr (a, omega arith, inside, here ∙ ap some same)
      | inr (i, from, to, e) ↦ inr (i, omega arith, to, e)
    ],
  )

  no_answer :
      (left a : ℕ) (start : ProofInfoResponse)
      → start.status ≡ JobStatus.unfinished
      → answers a ≡ none
      → poll_until_ready answers (suc left) a start ≡ fails sindri_error
  unfolding poll_until_ready
  no_answer left a start open_job gone = ground (arith, open_job, gone)

  next_answer :
      (left a : ℕ) (start info : ProofInfoResponse)
      → start.status ≡ JobStatus.unfinished
      → answers a ≡ some info
      → poll_until_ready answers (suc left) a start ≡ poll_until_ready answers left (a + 1) info
  unfolding poll_until_ready
  next_answer left a start info open_job got = ground (arith, open_job, got)

  polled :
      (left a bound : ℕ) (start : ProofInfoResponse)
      → bound ≡ left + a
      → Good start a bound (poll_until_ready answers left a start)
  unfolding poll_until_ready
  polled zero a bound start here = elim (Bool-cases (is_ready start.status)) [
    | inl good ↦ rw good (ready_status start.status good, inl refl)
    | inr bad ↦ rw bad tt
  ]
  polled (suc left) a bound start here = elim (status_cases start.status) [
    | inl done ↦ rw done (refl, inl refl)
    | inr (inl broken) ↦ rw broken tt
    | inr (inr open_job) ↦ elim (Option-cases (answers a)) [
      | inl gone ↦ subst (Good start a bound) (sym (no_answer left a start open_job gone)) tt
      | inr (info, got) ↦
          subst (Good start a bound) (sym (next_answer left a start info open_job got)) (
            later start info a bound (poll_until_ready answers left (a + 1) info) got (omega arith)
              (polled left (a + 1) bound info (omega arith)))
    ]
  ]

  module _ (start : ProofInfoResponse) (initial final : ℤ) where
    pub record IsMadeFrom (f : Sp1ArithmeticProofFixture) : Type 0 where
      pub info : ProofInfoResponse
      pub source : Sp1Proof
      pub ready : info.status ≡ JobStatus.ready
      pub seen : Seen start 0 60 info
      pub has_proof : info.sp1_proof ≡ some source
      pub has_key : info.sp1_verifying_key ≡ some f.vkey
      pub values : f.public_values ≡ source.public_values
      pub bytes : f.proof ≡ source.bytes
      pub from_balance : f.initial_balance ≡ initial
      pub to_balance : f.final_balance ≡ final

    abbrev Made : ProofResult Sp1ArithmeticProofFixture → Type 0
    Made (fails e) = Unit {0}
    Made (returns f) = IsMadeFrom f

    extracts :
        (info : ProofInfoResponse)
        → info.status ≡ JobStatus.ready
        → Seen start 0 60 info
        → Made (extracted answers initial final info)
    extracts info done seen = elim (Option-cases info.sp1_proof) [
      | inl gone ↦ rw gone tt
      | inr (proof, has_proof) ↦ elim (Option-cases info.sp1_verifying_key) [
        | inl gone ↦ rw has_proof (rw gone tt)
        | inr (key, has_key) ↦ rw has_proof (
            rw has_key (record {
              info = info;
              source = proof;
              ready = done;
              seen = seen;
              has_proof = has_proof;
              has_key = has_key;
              values = refl;
              bytes = refl;
              from_balance = refl;
              to_balance = refl;
            }))
      ]
    ]

    from_poll :
        (r : ProofResult ProofInfoResponse)
        → Good start 0 60 r
        → Made (fixture_of answers initial final r)
    from_poll (fails e) g = tt
    from_poll (returns info) g = extracts info g.0 g.1

    made : Made (create_evm_fixture answers start initial final)
    unfolding create_evm_fixture
    made = from_poll (poll_until_ready answers 60 0 start) (polled 60 0 60 start refl)

    -- A fixture that is made holds the proof and the key of an answer in which the job is ready, and which is
    -- the one at the start or one of the first 60 polls, with the balances that the caller names.
    pub create_evm_fixture-IsMadeFrom :
        (f : Sp1ArithmeticProofFixture)
        → create_evm_fixture answers start initial final ≡ returns f
        → IsMadeFrom f
    create_evm_fixture-IsMadeFrom f e = subst Made e made
