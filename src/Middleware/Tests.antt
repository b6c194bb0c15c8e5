-- ===== src/Middleware/Tests.antt =====
-- A limit of 10 per minute, a batch that takes all of it, and a request without credentials.
use demo_vapp.Prelude.{arith, ℕ, ◌+◌, ◌≤◌, ◌≡◌, refl, true, some, [], ◌∷◌, List}
use demo_vapp.Middleware.{
  new_limiter, Request, get, default_auth, AuthConfig, auth_middleware, passed,
}
use demo_vapp.Middleware.Buckets.{Call, taken_by, added_to, tokens_of, serve}
use demo_vapp.Middleware.Refills.{time_added_to, taken_by-bound}
use demo_vapp.Middleware.Access.{auth_middleware-default_open}

-- Ten a minute: one for every 6 seconds.
abbrev ten_a_minute : ℕ → ℕ → ℕ
ten_a_minute elapsed rate = 1

abbrev calls : List Call
calls =
    record { client = "ip:1"; now = 0; cost = 10 }
    ∷ record { client = "ip:2"; now = 1000; cost = 3 }
    ∷ record { client = "ip:1"; now = 2000; cost = 5 }
    ∷ []

taken_by-bound_example :
    (taken_by ten_a_minute "ip:1" calls (new_limiter 10)
        + tokens_of "ip:1" (serve ten_a_minute calls (new_limiter 10))
      ≤ tokens_of "ip:1" (new_limiter 10) + added_to ten_a_minute "ip:1" calls (new_limiter 10))
    × (tokens_of "ip:1" (serve ten_a_minute calls (new_limiter 10)) ≤ 10)
    × (0 + time_added_to ten_a_minute "ip:1" calls (new_limiter 10) ≤ 2000)
taken_by-bound_example =
    taken_by-bound ten_a_minute "ip:1" calls (new_limiter 10) 0 tt
      (omega arith, (omega arith, (omega arith, tt)))

abbrev request : Request
request = record { method = get; path = "/api/v2/state/current"; headers = [] }

abbrev strict : AuthConfig
strict = record default_auth {
  enabled = true;
  valid_api_keys = "key" ∷ [];
  jwt_secret = some "secret";
}

auth_middleware-default_open_example : auth_middleware request strict ≡ passed
auth_middleware-default_open_example = auth_middleware-default_open request strict refl refl
