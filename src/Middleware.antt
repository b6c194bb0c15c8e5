-- ===== src/Middleware.antt =====
-- api/src/middleware.rs: rate limits, validation and authentication of requests. A moment is a number of
-- nanoseconds. What the floating-point product of elapsed time and rate is as a u32 is the parameter
-- `refilled`; what the regular expression captures in a path is `captured`, read as a number. Header names
-- are in lower case; a value that is no text is none.
pub mod Buckets
pub mod Refills
pub mod Access
mod Tests
use mathlib.Core.Bool.{not}
use Prim.Native.String
use Prim.Native.String.{String, len}
use Prim.Native.Char.{Char, code}
use text.Mathlib.Text.{starts_with, find?, ◌==◌}
use demo_vapp.Prelude.{
  ℕ, zero, suc, ◌+◌, ◌-◌, ◌%◌, Bool, true, false, ◌&&◌, ◌||◌, Option, none, some, List, [], ◌∷◌,
  ltb, leb, if◌then◌else◌, is_some, unwrap_or,
}
use demo_vapp.UnifiedBatchService.{min}

pub record TokenBucket : Type 0 where
  pub tokens : ℕ
  pub last_refill : ℕ
  pub capacity : ℕ
  pub refill_rate_per_minute : ℕ

-- The map of buckets, by client.
pub record RateLimiter : Type 0 where
  pub buckets : List (String × TokenBucket)
  pub requests_per_minute : ℕ
  pub bucket_capacity : ℕ

pub record RateLimitError : Type 0 where
  pub client_id : String
  pub limit : ℕ
  pub window_seconds : ℕ
  pub retry_after_seconds : ℕ

abbrev pub new_bucket : ℕ → ℕ → ℕ → TokenBucket
new_bucket capacity rate now = record {
  tokens = capacity;
  last_refill = now;
  capacity = capacity;
  refill_rate_per_minute = rate;
}

abbrev pub new_limiter : ℕ → RateLimiter
new_limiter requests_per_minute = record {
  buckets = [];
  requests_per_minute = requests_per_minute;
  bucket_capacity = requests_per_minute;
}

abbrev pub find_bucket : String → List (String × TokenBucket) → Option TokenBucket
find_bucket client [] = none
find_bucket client ((c, b) ∷ bs) = if c == client then some b else find_bucket client bs

abbrev pub set_bucket :
    String → TokenBucket → List (String × TokenBucket) → List (String × TokenBucket)
set_bucket client b [] = (client, b) ∷ []
set_bucket client b ((c, d) ∷ bs) =
    if c == client then (c, b) ∷ bs else (c, d) ∷ set_bucket client b bs

module _ (refilled : ℕ → ℕ → ℕ) where
  -- The sum of two u32 numbers wraps around in a release build.
  unfoldable pub refill : ℕ → TokenBucket → TokenBucket
  refill now b =
      let new_tokens = refilled (now - b.last_refill) b.refill_rate_per_minute in
      if ltb 0 new_tokens
      then record b {
        tokens = min ((b.tokens + new_tokens) % 4294967296) b.capacity;
        last_refill = now;
      }
      else b

  unfoldable pub try_consume : ℕ → ℕ → TokenBucket → Bool × TokenBucket
  try_consume now tokens b =
      let r = refill now b in
      if leb tokens r.tokens then (true, record r { tokens = r.tokens - tokens }) else (false, r)

  abbrev pub bucket_for : String → ℕ → RateLimiter → TokenBucket
  bucket_for client now l =
      unwrap_or (find_bucket client l.buckets)
        (new_bucket l.bucket_capacity l.requests_per_minute now)

  unfoldable pub check_rate_limit :
      String → ℕ → ℕ → RateLimiter → Option RateLimitError × RateLimiter
  check_rate_limit client now tokens l =
      let (granted, b) = try_consume now tokens (bucket_for client now l) in
      (
        if granted
            then none
            else some (record {
              client_id = client;
              limit = l.requests_per_minute;
              window_seconds = 60;
              retry_after_seconds = 60;
            }),
        record l { buckets = set_bucket client b l.buckets },
      )

-- What has not been refilled for 5 minutes goes.
abbrev pub retain_recent : ℕ → List (String × TokenBucket) → List (String × TokenBucket)
retain_recent now [] = []
retain_recent now ((c, b) ∷ bs) =
    if ltb (now - b.last_refill) 300000000000
    then (c, b) ∷ retain_recent now bs
    else retain_recent now bs

unfoldable pub cleanup_old_buckets : ℕ → RateLimiter → RateLimiter
cleanup_old_buckets now l = record l { buckets = retain_recent now l.buckets }

pub data Method : Type 0 where
  get post other : Method

pub record Request : Type 0 where
  pub method : Method
  pub path : String
  pub headers : List (String × Option String)

abbrev pub header : String → List (String × Option String) → Option (Option String)
header name [] = none
header name ((n, v) ∷ hs) = if n == name then some v else header name hs

-- `headers().get(…)` and `to_str().ok()`.
abbrev pub text_of : Option (Option String) → Option String
text_of none = none
text_of (some v) = v

abbrev pub header_text : String → Request → Option String
header_text name r = text_of (header name r.headers)

abbrev pub contains : String → String → Bool
contains s part = is_some (find? s part)

-- The rest of a text that starts with "Bearer ".
abbrev pub bearer_token : Option String → Option String
bearer_token none = none
bearer_token (some s) = if starts_with s "Bearer " then some (String.slice s 7 (len s)) else none

abbrev pub first_of : Option String → Option String → Option String
first_of none o = o
first_of (some s) o = some s

abbrev pub prefixed : String → Option String → Option String
prefixed p none = none
prefixed p (some s) = some (String.◌++◌ p s)

-- The first of two headers that is there, whether or not it is text.
abbrev pub or_else : Option (Option String) → Option (Option String) → Option (Option String)
or_else none o = o
or_else (some v) o = some v

unfoldable pub extract_client_id : Request → String
extract_client_id r =
    unwrap_or
      (first_of (prefixed "api_key:" (header_text "x-api-key" r)) (
        first_of (prefixed "bearer:" (bearer_token (header_text "authorization" r))) (
          prefixed "ip:" (
            text_of
              (or_else (header "x-forwarded-for" r.headers) (header "x-real-ip" r.headers))))))
      "unknown"

abbrev pub post_cost : String → ℕ
post_cost path =
    if contains path "batch"
    then 10
    else if contains path "nullifiers"
    then 5
    else if path == "/graphql"
    then 5
    else 1

abbrev pub get_cost : String → ℕ
get_cost path = if contains path "proof" then 3 else if contains path "audit" then 3 else 1

unfoldable pub calculate_token_cost : Request → ℕ
calculate_token_cost r = elim r.method [
  | post ↦ post_cost r.path
  | get ↦ get_cost r.path
  | other ↦ 1
]

-- What a middleware does with a request.
pub data Verdict : Type 0 where
  passed : Verdict
  too_many_requests : RateLimitError → Verdict
  invalid_content_type missing_content_type missing_required_header : Verdict
  invalid_nullifier_value invalid_nullifier_format : Verdict
  authentication_required : Verdict

unfoldable pub rate_limit_middleware :
    (ℕ → ℕ → ℕ) → ℕ → Request → RateLimiter → Verdict × RateLimiter
rate_limit_middleware refilled now r l =
    let (error, l') =
      check_rate_limit refilled (extract_client_id r) now (calculate_token_cost r) l in
    (elim error [ none ↦ passed | some e ↦ too_many_requests e ], l')

pub record ValidationConfig : Type 0 where
  pub max_nullifier_value : ℕ
  pub min_nullifier_value : ℕ
  pub allowed_content_types : List String
  pub required_headers : List String

abbrev pub is_listed : String → List String → Bool
is_listed s [] = false
is_listed s (t ∷ ts) = (t == s) || is_listed s ts

abbrev is_semicolon : Char → Bool
is_semicolon c = ltb 58 (code c) && ltb (code c) 60

-- The text before the first semicolon.
abbrev pub before_semicolon : String → String
before_semicolon String.[] = ""
before_semicolon (String.◌∷◌ c s) = if is_semicolon c then "" else String.◌∷◌ c (before_semicolon s)

abbrev pub default_validation : ValidationConfig
default_validation = record {
  max_nullifier_value = 9223372036854774807;
  min_nullifier_value = 1;
  allowed_content_types = "application/json" ∷ "application/graphql" ∷ [];
  required_headers = [];
}

module _ (captured : String → Option ℕ) where
  abbrev pub number_verdict : ValidationConfig → Option ℕ → Verdict
  number_verdict config none = passed
  number_verdict config (some value) =
      if ltb value 9223372036854775808
      then (if ltb value config.min_nullifier_value || ltb config.max_nullifier_value value
          then invalid_nullifier_value
          else passed)
      else invalid_nullifier_format

  unfoldable pub validate_path_parameters : Request → ValidationConfig → Verdict
  validate_path_parameters r config = number_verdict config (captured r.path)

  abbrev pub misses_header : List String → Request → Bool
  misses_header [] r = false
  misses_header (h ∷ hs) r = not (is_some (header h r.headers)) || misses_header hs r

  abbrev pub after_content_type : Request → ValidationConfig → Verdict
  after_content_type r config =
      if misses_header config.required_headers r
      then missing_required_header
      else validate_path_parameters r config

  abbrev pub content_type_verdict : Option (Option String) → Request → ValidationConfig → Verdict
  content_type_verdict none r config = missing_content_type
  content_type_verdict (some none) r config = after_content_type r config
  content_type_verdict (some (some s)) r config =
      if is_listed (before_semicolon s) config.allowed_content_types
      then after_content_type r config
      else invalid_content_type

  unfoldable pub validation_middleware : Request → ValidationConfig → Verdict
  validation_middleware r config = elim r.method [
    | post ↦ content_type_verdict (header "content-type" r.headers) r config
    | get ↦ after_content_type r config
    | other ↦ after_content_type r config
  ]

pub record AuthConfig : Type 0 where
  pub enabled : Bool
  pub valid_api_keys : List String
  pub jwt_secret : Option String
  pub allow_anonymous_endpoints : List String

abbrev pub default_auth : AuthConfig
default_auth = record {
  enabled = false;
  valid_api_keys = [];
  jwt_secret = none;
  allow_anonymous_endpoints = "/health" ∷ "/" ∷ "/playground" ∷ [];
}

abbrev pub is_anonymous : String → List String → Bool
is_anonymous path [] = false
is_anonymous path (e ∷ es) = starts_with path e || is_anonymous path es

unfoldable pub validate_jwt_token : String → Bool
validate_jwt_token token = not (token == "") && (ltb 20 (len token) && contains token ".")

abbrev pub key_accepted : AuthConfig → Option String → Bool
key_accepted config none = false
key_accepted config (some key) = is_listed key config.valid_api_keys

abbrev pub token_accepted : AuthConfig → Option String → Bool
token_accepted config none = false
token_accepted config (some token) = is_some config.jwt_secret && validate_jwt_token token

unfoldable pub auth_middleware : Request → AuthConfig → Verdict
auth_middleware r config =
    if not config.enabled
    then passed
    else if is_anonymous r.path config.allow_anonymous_endpoints
    then passed
    else if key_accepted config (header_text "x-api-key" r)
    then passed
    else if token_accepted config (bearer_token (header_text "authorization" r))
    then passed
    else authentication_required
