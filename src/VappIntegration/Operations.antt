-- ===== src/VappIntegration/Operations.antt =====
-- What the operations of db/src/vapp_integration.rs promise, on every branch.
use mathlib.Core.Bool.{false≢true}
use demo_vapp.Prelude.{
  ℕ, ◌≡◌, ◌∙◌, ◌⊎◌, refl, sym, ap, inl, inr, true, Option, none, some, List, [], ◌∷◌, ◌++◌, arith,
  if_cases, Bool-cases, false,
}
use demo_vapp.Hashing.{Hash, Sha256}
use demo_vapp.Nullifiers.{row_at}
use demo_vapp.Nullifiers.Chain.{IsChain}
use demo_vapp.AdsService.{
  AdsResult, done, StateCommitment, StateTransition, NonMembershipProof, Ads, insert,
}
use demo_vapp.AdsService.Queries.{get_state_commitment, prove_non_membership}
use demo_vapp.AdsService.Proofs.{prove_non_membership-absent}
use demo_vapp.VappIntegration.{
  VappServices, VappConfig, Vapp, ads_error, compliance_error, invalid_nullifier,
  configuration_error, VappResult, completed, aborted, VappInsertionResponse, VappProofResponse,
  ComplianceResult, ads_config, compliance_for, respond, settle, with_insertion, with_compliance,
  process_nullifier_insertion, absence_of, verify_nullifier_absence,
}

module _ (sha : Sha256) (order : List StateCommitment → List Hash) (services : VappServices)
    (config : VappConfig) where
  -- Where checks are on, what the compliance service has said of the nullifier; otherwise a result that says none was made.
  abbrev pub HasAnswered : ℕ → ComplianceResult → Type 0
  HasAnswered n c =
      ((config.compliance_checks_enabled ≡ true) × (services.validate_nullifier n ≡ some c))
      ⊎ ((config.compliance_checks_enabled ≡ false)
          × (c ≡ record { is_valid = true; jurisdiction = "NONE" }))

  -- What a response or an error of an insertion says.
  abbrev pub IsHandled : ℕ → Vapp → VappResult VappInsertionResponse × Vapp → Type 0
  IsHandled n s (completed r, s') =
      ((insert sha order (ads_config sha order services config) n s.ads).0
        ≡ done r.state_transition)
      × HasAnswered n r.compliance_result
      × (r.compliance_result.is_valid ≡ true)
      × (s'.notifications ≡ s.notifications ++ r.state_transition ∷ [])
  IsHandled n s (aborted (ads_error e), s') = s'.notifications ≡ s.notifications
  IsHandled n s (aborted compliance_error, s') =
      (config.compliance_checks_enabled ≡ true) × (services.validate_nullifier n ≡ none) × (s' ≡ s)
  IsHandled n s (aborted (invalid_nullifier m), s') =
      (config.compliance_checks_enabled ≡ true)
      × ((c : ComplianceResult) × (services.validate_nullifier n ≡ some c) × (c.is_valid ≡ false))
      × (m ≡ n)
      × (s' ≡ s)
  IsHandled n s (aborted configuration_error, s') = ⊥

  module _ (n : ℕ) (s : Vapp) (c : ComplianceResult) (asked : HasAnswered n c)
      (valid : c.is_valid ≡ true) where
    settle-IsHandled :
        (t : StateTransition) (u : Vapp) (r : AdsResult StateCommitment × Ads)
        → (insert sha order (ads_config sha order services config) n s.ads).0 ≡ done t
        → u.notifications ≡ s.notifications
        → IsHandled n s (settle sha order services config n c t u r)
    settle-IsHandled t u (AdsResult.failed e, a) inserted same = same
    settle-IsHandled t u (done k, a) inserted same =
        (inserted, asked, valid, ap (λ ns. ns ++ t ∷ []) same)

    insertion-IsHandled :
        (r : AdsResult StateTransition × Ads)
        → (insert sha order (ads_config sha order services config) n s.ads).0 ≡ r.0
        → IsHandled n s (with_insertion sha order services config n c s r)
    insertion-IsHandled (AdsResult.failed e, a) inserted = refl
    insertion-IsHandled (done t, a) inserted =
        let commitment = get_state_commitment (ads_config sha order services config) sha a in
        if_cases (IsHandled n s) config.settlement_enabled
          (settle sha order services config n c t (record s { ads = a }) commitment)
          (respond sha order services config n c t none (record s { ads = a }))
          (λ on. settle-IsHandled t (record s { ads = a }) commitment inserted refl)
          (λ off. (inserted, asked, valid, refl))

  answers :
      (n : ℕ) (c : ComplianceResult)
      → compliance_for sha order services config n ≡ some c
      → HasAnswered n c
  answers n c asked = elim (Bool-cases config.compliance_checks_enabled) [
    | inl on ↦ inl (on, ground (arith, on, asked))
    | inr off ↦ inr (off, ground (arith, off, asked))
  ]

  fails_to_answer :
      (n : ℕ)
      → compliance_for sha order services config n ≡ none
      → (config.compliance_checks_enabled ≡ true) × (services.validate_nullifier n ≡ none)
  fails_to_answer n asked = elim (Bool-cases config.compliance_checks_enabled) [
    | inl on ↦ (on, ground (arith, on, asked))
    | inr off ↦ absurd (ground (arith, off, asked))
  ]

  refused_by :
      (n : ℕ) (c : ComplianceResult)
      → HasAnswered n c
      → c.is_valid ≡ false
      → (config.compliance_checks_enabled ≡ true)
        × ((d : ComplianceResult) × (services.validate_nullifier n ≡ some d) × (d.is_valid ≡ false))
  refused_by n c (inl (on, asked)) bad = (on, (c, asked, bad))
  refused_by n c (inr (off, same)) bad =
      absurd (false≢true (sym bad ∙ ap (λ (d : ComplianceResult). d.is_valid) same))

  compliance-IsHandled :
      (n : ℕ) (s : Vapp) (o : Option ComplianceResult)
      → compliance_for sha order services config n ≡ o
      → IsHandled n s (with_compliance sha order services config n o s)
  compliance-IsHandled n s none asked =
      let (on, silent) = fails_to_answer n asked in (on, silent, refl)
  compliance-IsHandled n s (some c) asked =
      let r = insert sha order (ads_config sha order services config) n s.ads in
      if_cases (IsHandled n s) c.is_valid (with_insertion sha order services config n c s r)
        (aborted (invalid_nullifier n), s)
        (λ valid. insertion-IsHandled n s c (answers n c asked) valid r refl)
        (λ bad. let (on, said) = refused_by n c (answers n c asked) bad in (on, said, refl, refl))

  -- A nullifier that is answered with a response has been called valid by the compliance service where checks are
  -- on, the response holds that answer and the transition of the nullifier's insertion, and exactly that is notified.
  -- An error of compliance means that checks are on and the service fails on the nullifier or calls it
  -- invalid, and then nothing has changed at all; in an error of the tree nothing is notified.
  pub process_nullifier_insertion-IsHandled :
      (n : ℕ) (s : Vapp) → IsHandled n s (process_nullifier_insertion sha order services config n s)
  unfolding process_nullifier_insertion
  process_nullifier_insertion-IsHandled n s =
      compliance-IsHandled n s (compliance_for sha order services config n) refl

  absence-inverts :
      (s s' : Vapp) (p : AdsResult NonMembershipProof × Ads) (r : VappProofResponse)
      → absence_of sha order services config s p ≡ (completed r, s')
      → (q : NonMembershipProof) × (p.0 ≡ done q)
  absence-inverts s s' (AdsResult.failed e, a) r made = absurd cc
  absence-inverts s s' (done q, a) r made = (q, refl)

  -- Over a chain of nullifiers, a response that confirms absence is for a value that is not in the table.
  pub verify_nullifier_absence-absent :
      (n : ℕ) (s s' : Vapp) (r : VappProofResponse)
      → IsChain s.ads.db.nullifiers
      → verify_nullifier_absence sha order services config n s ≡ (completed r, s')
      → row_at n s.ads.db.nullifiers ≡ none
  unfolding verify_nullifier_absence
  verify_nullifier_absence-absent n s s' r chain made =
      let proof =
        absence-inverts s s' (prove_non_membership (ads_config sha order services config) n s.ads) r
          made in
      prove_non_membership-absent (ads_config sha order services config) n s.ads chain proof.0
        proof.1
