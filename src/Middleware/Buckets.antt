-- ===== src/Middleware/Buckets.antt =====
-- The token buckets of api/src/middleware.rs over any sequence of requests of any clients.
use Prim.Native.String.{String}
use text.Mathlib.Text.{◌==◌}
use text.Mathlib.TextEquality.{eq_iff}
use text.Mathlib.TextPositions.{eq_refl}
use demo_vapp.Prelude.{
  ℕ, ◌+◌, ◌-◌, ◌≤◌, ◌≡◌, refl, sym, ap, inl, inr, Bool, true, false, Option, none, some, List, [],
  ◌∷◌, leb, if◌then◌else◌, arith, if_cases, Bool-cases,
}
use demo_vapp.Middleware.{
  TokenBucket, RateLimiter, RateLimitError, find_bucket, set_bucket, refill, try_consume,
  bucket_for, check_rate_limit,
}

abbrev pub Table : Type 0
Table = List (String × TokenBucket)

pub find-set_same :
    (c : String) (b : TokenBucket) (bs : Table) → find_bucket c (set_bucket c b bs) ≡ some b
find-set_same c b [] = ground (arith, eq_refl c)
find-set_same c b ((e, d) ∷ bs) = elim (Bool-cases (e == c)) [
  | inl here ↦ ground (arith, here)
  | inr other ↦ ground (arith, other, find-set_same c b bs)
]

same_test : (e d c : String) → (e == d) ≡ true → (e == c) ≡ (d == c)
same_test e d c same = ap (λ x. x == c) ((eq_iff e d).0 same)

pub find-set_other :
    (d c : String) (b : TokenBucket) (bs : Table)
    → (d == c) ≡ false
    → find_bucket c (set_bucket d b bs) ≡ find_bucket c bs
find-set_other d c b [] other = ground (arith, other)
find-set_other d c b ((e, x) ∷ bs) other = elim (Bool-cases (e == d)) [
  | inl here ↦ ground (arith, here, other, same_test e d c here)
  | inr there ↦ ground (arith, there, find-set_other d c b bs other)
]

-- A client without a bucket has a full one.
abbrev pub tokens_in : ℕ → Option TokenBucket → ℕ
tokens_in capacity none = capacity
tokens_in capacity (some b) = b.tokens

abbrev pub tokens_of : String → RateLimiter → ℕ
tokens_of c l = tokens_in l.bucket_capacity (find_bucket c l.buckets)

pub record Call : Type 0 where
  pub client : String
  pub now : ℕ
  pub cost : ℕ

module _ (refilled : ℕ → ℕ → ℕ) where
  abbrev pub answer : Call → RateLimiter → Option RateLimitError × RateLimiter
  answer r l = check_rate_limit refilled r.client r.now r.cost l

  -- What a call takes, and what its refill adds at most.
  abbrev pub taken : Call → RateLimiter → ℕ
  taken r l = elim (answer r l).0 [ none ↦ r.cost | some e ↦ 0 ]

  abbrev pub added : Call → RateLimiter → ℕ
  added r l =
      let b = bucket_for refilled r.client r.now l in
      refilled (r.now - b.last_refill) b.refill_rate_per_minute

  refill_bound :
      (now : ℕ) (b : TokenBucket)
      → (refill refilled now b).tokens
        ≤ b.tokens + refilled (now - b.last_refill) b.refill_rate_per_minute
  unfolding refill
  refill_bound now b = ground arith

  abbrev cost_of : Bool → ℕ → ℕ
  cost_of true cost = cost
  cost_of false cost = 0

  consumed :
      (now cost : ℕ) (b : TokenBucket)
      → cost_of (try_consume refilled now cost b).0 cost
          + (try_consume refilled now cost b).1.tokens
        ≤ b.tokens + refilled (now - b.last_refill) b.refill_rate_per_minute
  unfolding try_consume
  consumed now cost b =
      let r = refill refilled now b in
      if_cases
        (λ (o : Bool × TokenBucket).
          cost_of o.0 cost + o.1.tokens
          ≤ b.tokens + refilled (now - b.last_refill) b.refill_rate_per_minute)
        (leb cost r.tokens) (true, record r { tokens = r.tokens - cost }) (false, r)
        (λ enough. ground (arith, refill_bound now b)) (λ short. omega (arith, refill_bound now b))

  cost_of_test :
      (b : Bool) (cost : ℕ) (e : RateLimitError)
      → elim (if b then none else some e) [ none ↦ cost | some x ↦ 0 ] ≡ cost_of b cost
  cost_of_test true cost e = refl
  cost_of_test false cost e = refl

  taken_cost :
      (r : Call) (l : RateLimiter)
      → taken r l
        ≡ cost_of
            (try_consume refilled r.now r.cost (bucket_for refilled r.client r.now l)).0
            r.cost
  unfolding check_rate_limit
  taken_cost r l =
      cost_of_test (try_consume refilled r.now r.cost (bucket_for refilled r.client r.now l)).0
        r.cost
        (record {
          client_id = r.client;
          limit = l.requests_per_minute;
          window_seconds = 60;
          retry_after_seconds = 60;
        })

  own_tokens :
      (r : Call) (l : RateLimiter)
      → tokens_of r.client (answer r l).1
        ≡ (try_consume refilled r.now r.cost (bucket_for refilled r.client r.now l)).1.tokens
  unfolding check_rate_limit
  own_tokens r l =
      ap (λ o. tokens_in l.bucket_capacity o)
        (find-set_same r.client
          (try_consume refilled r.now r.cost (bucket_for refilled r.client r.now l)).1 l.buckets)

  other_tokens :
      (c : String) (r : Call) (l : RateLimiter)
      → (r.client == c) ≡ false
      → tokens_of c (answer r l).1 ≡ tokens_of c l
  unfolding check_rate_limit
  other_tokens c r l other =
      ap (λ o. tokens_in l.bucket_capacity o)
        (find-set_other r.client c
          (try_consume refilled r.now r.cost (bucket_for refilled r.client r.now l)).1 l.buckets
          other)

  bucket_tokens :
      (r : Call) (l : RateLimiter)
      → (bucket_for refilled r.client r.now l).tokens ≡ tokens_of r.client l
  bucket_tokens r l = ground arith

  own_call :
      (r : Call) (l : RateLimiter)
      → taken r l + tokens_of r.client (answer r l).1 ≤ tokens_of r.client l + added r l
  own_call r l =
      let b = bucket_for refilled r.client r.now l in
      omega (arith, consumed r.now r.cost b, taken_cost r l, own_tokens r l, bucket_tokens r l)

  -- What the calls of one client take, what its refills add, and the limiter after all calls.
  unfoldable pub taken_by : String → List Call → RateLimiter → ℕ
  taken_by c [] l = 0
  taken_by c (r ∷ rs) l = (if r.client == c then taken r l else 0) + taken_by c rs (answer r l).1

  unfoldable pub added_to : String → List Call → RateLimiter → ℕ
  added_to c [] l = 0
  added_to c (r ∷ rs) l = (if r.client == c then added r l else 0) + added_to c rs (answer r l).1

  unfoldable pub serve : List Call → RateLimiter → RateLimiter
  serve [] l = l
  serve (r ∷ rs) l = serve rs (answer r l).1

  one_call :
      (c : String) (r : Call) (l : RateLimiter)
      → (if r.client == c then taken r l else 0) + tokens_of c (answer r l).1
        ≤ tokens_of c l + (if r.client == c then added r l else 0)
  one_call c r l = elim (Bool-cases (r.client == c)) [
    | inl here ↦
        let same : r.client ≡ c = (eq_iff r.client c).0 here in
        rw here (rw (sym same) (own_call r l))
    | inr other ↦ rw other (omega (arith, other_tokens c r l other))
  ]

  -- Whatever clients call and when, the tokens that the calls of one client have been granted and those
  -- left in its bucket are together at most the tokens that it had (a full bucket for a new client) and those
  -- that its refills have added; the calls of other clients take nothing.
  pub granted_bound :
      (c : String) (rs : List Call) (l : RateLimiter)
      → taken_by c rs l + tokens_of c (serve rs l) ≤ tokens_of c l + added_to c rs l
  unfolding taken_by added_to serve
  granted_bound c [] l = omega arith
  granted_bound c (r ∷ rs) l = omega (arith, one_call c r l, granted_bound c rs (answer r l).1)
