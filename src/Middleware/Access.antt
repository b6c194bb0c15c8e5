-- ===== src/Middleware/Access.antt =====
-- What authentication in api/src/middleware.rs lets through.
use Prim.Native.String.{String}
use text.Mathlib.Text.{starts_with}
use demo_vapp.Prelude.{◌≡◌, refl, true, some, arith}
use demo_vapp.Middleware.{Request, AuthConfig, default_auth, auth_middleware, passed}

-- With the default list of anonymous endpoints, every path that starts with a slash passes, whatever keys
-- and tokens the configuration wants and the request has.
pub auth_middleware-default_open :
    (r : Request) (config : AuthConfig)
    → config.allow_anonymous_endpoints ≡ default_auth.allow_anonymous_endpoints
    → starts_with r.path "/" ≡ true
    → auth_middleware r config ≡ passed
unfolding auth_middleware
auth_middleware-default_open r config standard slash = ground (arith, standard, slash)

-- The secret for tokens is only asked whether it is there.
auth_middleware-ignores_secret :
    (r : Request) (config : AuthConfig) (secret other : String)
    → auth_middleware r (record config { jwt_secret = some secret })
      ≡ auth_middleware r (record config { jwt_secret = some other })
unfolding auth_middleware
auth_middleware-ignores_secret r config secret other = refl
