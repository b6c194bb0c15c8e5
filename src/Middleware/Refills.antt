-- ===== src/Middleware/Refills.antt =====
-- The refills of the token buckets of api/src/middleware.rs over any sequence of requests of any clients.
use mathlib.Core.Path.{subst}
use Prim.Native.String.{String}
use text.Mathlib.Text.{◌==◌}
use text.Mathlib.TextEquality.{eq_iff}
use demo_vapp.Prelude.{
  ℕ, ◌+◌, ◌-◌, ◌≤◌, ◌≡◌, ◌∙◌, refl, sym, inl, inr, Bool, true, false, Option, none, some, List, [],
  ◌∷◌, ltb, leb, if◌then◌else◌, if_cases, arith, Bool-cases, Option-cases,
}
use demo_vapp.Middleware.{
  TokenBucket, RateLimiter, find_bucket, refill, try_consume, bucket_for, check_rate_limit,
}
use demo_vapp.Middleware.Buckets.{
  Call, answer, added, taken_by, added_to, tokens_in, tokens_of, serve, find-set_same,
  find-set_other, granted_bound,
}

-- Time does not run backwards.
abbrev pub AreOrdered : ℕ → List Call → Type 0
AreOrdered t [] = Unit {0}
AreOrdered t (r ∷ rs) = (t ≤ r.now) × AreOrdered r.now rs

abbrev pub end_of : ℕ → List Call → ℕ
end_of t [] = t
end_of t (r ∷ rs) = end_of r.now rs

abbrev pub refilled_at : ℕ → Option TokenBucket → ℕ
refilled_at t none = t
refilled_at t (some b) = b.last_refill

-- A bucket of the limiter's capacity, with no more tokens than that, and last refilled before `t`.
abbrev pub IsProper : ℕ → ℕ → Option TokenBucket → Type 0
IsProper capacity t none = Unit {0}
IsProper capacity t (some b) = (b.tokens ≤ capacity) × (b.capacity ≡ capacity) × (b.last_refill ≤ t)

module _ (refilled : ℕ → ℕ → ℕ) where
  -- The time for which a call's refill adds tokens.
  abbrev pub time_added : Call → RateLimiter → ℕ
  time_added r l =
      if ltb 0 (added refilled r l)
      then r.now - (bucket_for refilled r.client r.now l).last_refill
      else 0

  unfoldable pub time_added_to : String → List Call → RateLimiter → ℕ
  time_added_to c [] l = 0
  time_added_to c (r ∷ rs) l =
      (if r.client == c then time_added r l else 0) + time_added_to c rs (answer refilled r l).1

  -- A bucket after a call.
  record IsAfter (now : ℕ) (b b' : TokenBucket) : Type 0 where
    capped : b'.tokens ≤ b.capacity
    same : b'.capacity ≡ b.capacity
    past : b'.last_refill ≤ now
    moved :
        b.last_refill
          + (if ltb 0 (refilled (now - b.last_refill) b.refill_rate_per_minute)
              then now - b.last_refill
              else 0)
        ≤ b'.last_refill

  refill-IsAfter :
      (now : ℕ) (b : TokenBucket)
      → b.tokens ≤ b.capacity
      → b.last_refill ≤ now
      → IsAfter now b (refill refilled now b)
  unfolding refill
  refill-IsAfter now b full past = ground arith

  consume-IsAfter :
      (now cost : ℕ) (b : TokenBucket)
      → b.tokens ≤ b.capacity
      → b.last_refill ≤ now
      → IsAfter now b (try_consume refilled now cost b).1
  unfolding try_consume
  consume-IsAfter now cost b full past =
      let r = refill refilled now b in
      let after = refill-IsAfter now b full past in
      if_cases (λ (o : Bool × TokenBucket). IsAfter now b o.1) (leb cost r.tokens)
        (true, record r { tokens = r.tokens - cost }) (false, r)
        (λ enough. record {
          capped = omega (arith, after.capped);
          same = after.same;
          past = after.past;
          moved = after.moved;
        })
        (λ short. after)

  abbrev of_client : String → RateLimiter → Option TokenBucket
  of_client c l = find_bucket c l.buckets

  same_capacity :
      (r : Call) (l : RateLimiter) → (answer refilled r l).1.bucket_capacity ≡ l.bucket_capacity
  unfolding check_rate_limit
  same_capacity r l = refl

  own_bucket :
      (r : Call) (l : RateLimiter)
      → of_client r.client (answer refilled r l).1
        ≡ some (try_consume refilled r.now r.cost (bucket_for refilled r.client r.now l)).1
  unfolding check_rate_limit
  own_bucket r l =
      find-set_same r.client
        (try_consume refilled r.now r.cost (bucket_for refilled r.client r.now l)).1 l.buckets

  other_bucket :
      (c : String) (r : Call) (l : RateLimiter)
      → (r.client == c) ≡ false
      → of_client c (answer refilled r l).1 ≡ of_client c l
  unfolding check_rate_limit
  other_bucket c r l other =
      find-set_other r.client c
        (try_consume refilled r.now r.cost (bucket_for refilled r.client r.now l)).1 l.buckets other

  -- What holds of a client's bucket after one more call.
  record Goes (c : String) (t : ℕ) (r : Call) (l : RateLimiter) : Type 0 where
    proper : IsProper l.bucket_capacity r.now (of_client c (answer refilled r l).1)
    moved :
        refilled_at t (of_client c l) + (if r.client == c then time_added r l else 0)
        ≤ refilled_at r.now (of_client c (answer refilled r l).1)

  start_bucket :
      (t : ℕ) (r : Call) (l : RateLimiter)
      → t ≤ r.now
      → IsProper l.bucket_capacity t (of_client r.client l)
      → let b = bucket_for refilled r.client r.now l in
        (b.tokens ≤ l.bucket_capacity)
        × (b.capacity ≡ l.bucket_capacity)
        × (b.last_refill ≤ r.now)
        × (refilled_at t (of_client r.client l) ≤ b.last_refill)
  start_bucket t r l on proper = elim (Option-cases (of_client r.client l)) [
    | inl new ↦ rw new (omega arith, refl, omega arith, on)
    | inr (b, known) ↦
        let p : IsProper l.bucket_capacity t (some b) =
          subst (IsProper l.bucket_capacity t) known proper in
        rw known (p.0, p.1, omega (arith, p.2), omega arith)
  ]

  own-Goes :
      (t : ℕ) (r : Call) (l : RateLimiter)
      → t ≤ r.now
      → IsProper l.bucket_capacity t (of_client r.client l)
      → (r.client == r.client) ≡ true
      → Goes r.client t r l
  own-Goes t r l on proper self =
      let b = bucket_for refilled r.client r.now l in
      let s = start_bucket t r l on proper in
      let after = consume-IsAfter r.now r.cost b (omega (arith, s.0, s.1)) s.2 in
      record {
        proper =
            rw (own_bucket r l) (omega (arith, after.capped, s.1), after.same ∙ s.1, after.past);
        moved = rw (own_bucket r l, self) (omega (arith, s.3, after.moved));
      }

  later_proper : (k t t' : ℕ) (o : Option TokenBucket) → t ≤ t' → IsProper k t o → IsProper k t' o
  later_proper k t t' none on p = tt
  later_proper k t t' (some b) on p = (p.0, p.1, omega (arith, p.2))

  later_refill :
      (t t' : ℕ) (o : Option TokenBucket) → t ≤ t' → refilled_at t o + 0 ≤ refilled_at t' o
  later_refill t t' none on = omega arith
  later_refill t t' (some b) on = omega arith

  call-Goes :
      (c : String) (t : ℕ) (r : Call) (l : RateLimiter)
      → t ≤ r.now
      → IsProper l.bucket_capacity t (of_client c l)
      → Goes c t r l
  call-Goes c t r l on proper = elim (Bool-cases (r.client == c)) [
    | inl here ↦
        let same : r.client ≡ c = (eq_iff r.client c).0 here in
        subst (λ k. Goes k t r l) same
          (own-Goes t r l on
            (subst (λ k. IsProper l.bucket_capacity t (of_client k l)) (sym same) proper)
            (subst (λ k. (r.client == k) ≡ true) (sym same) here))
    | inr other ↦ record {
      proper =
          rw (other_bucket c r l other)
            (later_proper l.bucket_capacity t r.now (of_client c l) on proper);
      moved = rw (other_bucket c r l other, other) (later_refill t r.now (of_client c l) on);
    }
  ]

  proper_end : (k t : ℕ) (o : Option TokenBucket) → IsProper k t o → refilled_at t o ≤ t
  proper_end k t none p = omega arith
  proper_end k t (some b) p = p.2

  capped_end : (k t : ℕ) (o : Option TokenBucket) → IsProper k t o → tokens_in k o ≤ k
  capped_end k t none p = omega arith
  capped_end k t (some b) p = p.0

  bounded :
      (c : String) (rs : List Call) (l : RateLimiter) (t : ℕ)
      → IsProper l.bucket_capacity t (of_client c l)
      → AreOrdered t rs
      → (tokens_of c (serve refilled rs l) ≤ l.bucket_capacity)
        × (refilled_at t (of_client c l) + time_added_to c rs l ≤ end_of t rs)
  unfolding time_added_to serve check_rate_limit
  bounded c [] l t proper ordered = (
    capped_end l.bucket_capacity t (of_client c l) proper,
    omega (arith, proper_end l.bucket_capacity t (of_client c l) proper),
  )
  bounded c (r ∷ rs) l t proper ordered =
      let one = call-Goes c t r l ordered.0 proper in
      let rest = bounded c rs (answer refilled r l).1 r.now one.proper ordered.1 in
      (rest.0, omega (arith, one.moved, rest.1))

  -- Where a client has no bucket, or one of the limiter's capacity that holds no more than that and was last refilled
  -- by `t`, and calls come in the order of time: the tokens that its calls have been granted and those left in
  -- its bucket are together at most the tokens that it had (a full bucket for a new client) and those that its
  -- refills have added, whatever other clients call. No more than the capacity is left, and the times for which
  -- its refills have added tokens do not overlap: together with the last refill before, they end by the last call.
  pub taken_by-bound :
      (c : String) (rs : List Call) (l : RateLimiter) (t : ℕ)
      → IsProper l.bucket_capacity t (find_bucket c l.buckets)
      → AreOrdered t rs
      → (taken_by refilled c rs l + tokens_of c (serve refilled rs l)
          ≤ tokens_of c l + added_to refilled c rs l)
        × (tokens_of c (serve refilled rs l) ≤ l.bucket_capacity)
        × (refilled_at t (find_bucket c l.buckets) + time_added_to c rs l ≤ end_of t rs)
  taken_by-bound c rs l t proper ordered =
      let rest = bounded c rs l t proper ordered in (granted_bound refilled c rs l, rest.0, rest.1)
