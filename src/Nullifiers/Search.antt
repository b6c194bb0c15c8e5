-- ===== src/Nullifiers/Search.antt =====
-- What the SQL function `find_low_nullifier` (db/migrations/012_restore_imt_schema.sql) finds in a chain.
use mathlib.Core.Option.{none-ne-some}
use demo_vapp.Prelude.{
  ℕ, ◌≤◌, ◌<◌, ◌≡◌, ◌≢◌, inl, inr, sym, ap, ◌∙◌, Bool, true, ◌&&◌, none, some, ltb, arith,
  Bool-cases, Option-cases, some_unique,
}
use demo_vapp.Db.{NullifierRow}
use demo_vapp.Nullifiers.{Rows, row_at, highest, is_candidate, next_fits, find_low_row}
use demo_vapp.Nullifiers.Rows.{highest_sound, highest-max, row_at-value}
use demo_vapp.Nullifiers.Chain.{IsChain, Fits}

abbrev is_below : ℕ → NullifierRow → Bool
is_below x r = r.is_active && ltb r.value x

below_active : (x : ℕ) (r : NullifierRow) → is_below x r ≡ true → r.is_active ≡ true
below_active x r h = ground arith

candidate_active : (x : ℕ) (r : NullifierRow) → is_candidate x r ≡ true → r.is_active ≡ true
candidate_active x r h = ground arith

module _ (rows : Rows) (x : ℕ) (chain : IsChain rows) where
  -- A candidate is exactly a low nullifier that `x` fits behind.
  candidate-Fits :
      (r : NullifierRow)
      → row_at r.value rows ≡ some r
      → is_candidate x r ≡ true
      → (n : ℕ) × Fits rows r.value x n r
  candidate-Fits r at c =
      let facts = chain.next r.value r at in
      (
        facts.0,
        record {
          found = at;
          names = facts.1;
          after = ground arith;
          before = ground (arith, facts.1);
        },
      )

  -- The highest active value below an absent `x` is a candidate.
  predecessor-candidate :
      (w : NullifierRow)
      → row_at x rows ≡ none
      → highest (is_below x) rows ≡ some w
      → is_candidate x w ≡ true
  predecessor-candidate w absent top =
      let sound = highest_sound (is_below x) (below_active x) rows w chain.distinct top in
      let facts = chain.next w.value w sound.1 in
      elim (Bool-cases (next_fits x (some facts.0))) [
        | inl fits ↦ ground (arith, facts.1, sound.0)
        | inr short ↦
            let up = facts.2.above (ground arith) in
            let s = up.1.0 in
            let same = row_at-value facts.0 rows s up.1.1 in
            let apart : facts.0 ≢ x = λ e. none-ne-some s (sym absent ∙ rw e at up.1.1) in
            let max =
              highest-max (is_below x) (below_active x) rows facts.0 s up.1.1
                (ground (arith, same, apart)) in
            let one : max.0 ≡ w = some_unique max.1 top in
            absurd (omega (arith, max.2, ap (λ (t : NullifierRow). t.value) one, same.0, up.0))
      ]

  -- On a chain with the genesis row active, an absent positive value has a low nullifier, which it
  -- fits behind.
  pub find_low_row-Fits :
      (g : NullifierRow)
      → row_at 0 rows ≡ some g
      → 0 < x
      → row_at x rows ≡ none
      → (r : NullifierRow) × (find_low_row x rows ≡ some r) × ((n : ℕ) × Fits rows r.value x n r)
  unfolding find_low_row
  find_low_row-Fits g genesis positive absent =
      let low =
        highest-max (is_below x) (below_active x) rows 0 g genesis
          (ground (arith, row_at-value 0 rows g genesis)) in
      let w_at = highest_sound (is_below x) (below_active x) rows low.0 chain.distinct low.1 in
      let best =
        highest-max (is_candidate x) (candidate_active x) rows low.0.value low.0 w_at.1
          (predecessor-candidate low.0 absent low.1) in
      let sound =
        highest_sound (is_candidate x) (candidate_active x) rows best.0 chain.distinct best.1 in
      (best.0, rw best.1, candidate-Fits best.0 sound.1 sound.0)

  -- For a value that is in the chain the function returns a row that is not below it.
  pub find_low_row-member :
      (s r : NullifierRow) → row_at x rows ≡ some s → find_low_row x rows ≡ some r → x ≤ r.value
  unfolding find_low_row
  find_low_row-member s r there found = elim (Option-cases (highest (is_candidate x) rows)) [
    | inl none_fit ↦
        let active = row_at-value x rows s there in
        let max = highest-max (λ t. t.is_active) (λ t e. e) rows x s there active.1 in
        let one : max.0 ≡ r = some_unique max.1 (ground arith) in
        omega (arith, max.2, active.0, ap (λ (t : NullifierRow). t.value) one)
    | inr (t, e) ↦
        let sound = highest_sound (is_candidate x) (candidate_active x) rows t chain.distinct e in
        let fits = (candidate-Fits t sound.1 sound.0).1 in
        let facts = chain.next t.value t sound.1 in
        absurd
          (ground (arith, facts.2.nearest x s there, fits.after, fits.before, fits.names, facts.1))
  ]
