-- ===== src/AdsService/Proofs.antt =====
-- Proofs of non-membership: on a chain they exist for absent values only.
use demo_vapp.Prelude.{ℕ, ◌≡◌, inl, inr, ap, none, some, arith, Option-cases}
use demo_vapp.Db.{NullifierRow}
use demo_vapp.Nullifiers.{row_at, find_low_row, find_low_nullifier, highest, is_candidate}
use demo_vapp.Nullifiers.Rows.{highest-max, row_at-value}
use demo_vapp.Nullifiers.Chain.{IsChain}
use demo_vapp.Nullifiers.Search.{find_low_row-member}
use demo_vapp.AdsService.{done, failed, invalid_range, AdsConfig, NonMembershipProof, Ads}
use demo_vapp.AdsService.Queries.{prove_non_membership}

module _ (config : AdsConfig) (x : ℕ) (s : Ads) (chain : IsChain s.db.nullifiers) where
  -- With an active row in the table the search ends with a row.
  search_ends :
      (r : NullifierRow)
      → row_at x s.db.nullifiers ≡ some r
      → (t : NullifierRow) × (find_low_row x s.db.nullifiers ≡ some t)
  unfolding find_low_row
  search_ends r there =
      let active = row_at-value x s.db.nullifiers r there in
      let top = highest-max (λ t. t.is_active) (λ t e. e) s.db.nullifiers x r there active.1 in
      elim (Option-cases (highest (is_candidate x) s.db.nullifiers)) [
        | inl none_fits ↦ (top.0, ground (arith, none_fits, top.1))
        | inr (c, e) ↦ (c, ground (arith, e))
      ]

  -- For a value in the chain no proof of non-membership is made: the range is refused, and nothing changes.
  pub prove_non_membership-member :
      (r : NullifierRow)
      → row_at x s.db.nullifiers ≡ some r
      → prove_non_membership config x s ≡ (failed invalid_range, s)
  unfolding prove_non_membership find_low_nullifier
  prove_non_membership-member r there =
      let t = search_ends r there in
      let above = find_low_row-member s.db.nullifiers x chain r t.0 there t.1 in
      ground (arith, t.1, above)

  -- On a chain, a proof of non-membership that is made is for a value that is absent.
  pub prove_non_membership-absent :
      (p : NonMembershipProof)
      → (prove_non_membership config x s).0 ≡ done p
      → row_at x s.db.nullifiers ≡ none
  prove_non_membership-absent p made = elim (Option-cases (row_at x s.db.nullifiers)) [
    | inl absent ↦ absent
    | inr (r, there) ↦ absurd (cc (made, ap (λ w. w.0) (prove_non_membership-member r there)))
  ]
