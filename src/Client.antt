-- ===== src/Client.antt =====
-- pipedrive/client.go: the HTTP client of the API. What it keeps between calls is the cache.
pub mod Limiter
pub mod Key
pub mod Exchange
pub mod Fetch
pub mod Invalidation
pub mod Identity
pub mod Requests
mod Freshness
mod Staleness
mod Reuse
pub mod Examples
use mathlib.Core.List.{List, [], ◌∷◌}
use Prim.Native.String.{◌++◌}
use Limiter.{Rate, pipedrive_limiter}
use mcp_pipedrive.Config.{Config, AuthMode, CacheTtls, base_url, resolved_auth_mode}
use mcp_pipedrive.Prelude.{Bool, Option, String, if◌then◌else◌, none, not, some, ◌||◌}
use mcp_pipedrive.Prelude.Int.{ℤ}
use mcp_pipedrive.Prelude.Text.{is_set, trim_right_slash}
use mcp_pipedrive.Query.{Query, empty, set}
use mcp_pipedrive.Query.Encode.{encode}
use mcp_pipedrive.Query.Sort.{has_prefix}
use mcp_pipedrive.Result.{Error, Result, err, message, ok}
use mcp_pipedrive.Value.{Value}

pub data ApiVersion : Type 0 where
  v1 v2 v1_legacy : ApiVersion

-- string(version)
abbrev pub version_name : ApiVersion → String
version_name v1 = "v1"
version_name v2 = "v2"
version_name v1_legacy = "v1-legacy"

-- prefix
abbrev pub version_prefix : ApiVersion → String
version_prefix v2 = "/api/v2"
version_prefix v1_legacy = "/v1"
version_prefix v1 = "/api/v1"

-- `limiter` is empty for a nil limiter. The cache is state, and stands with the world.
pub record Client : Type 0 where
  pub base_url : String
  pub api_token : String
  pub oauth_token : String
  pub auth_mode : AuthMode
  pub timeout : ℤ
  pub limiter : List Rate
  pub ttls : CacheTtls
  pub stale_on_429 : Bool

-- limiterFromConfig
abbrev limiter_from_config : Config → List Rate
limiter_from_config cfg = if cfg.disable_rate_limit then [] else pipedrive_limiter

unfoldable pub new_client : Config → Client
new_client cfg = record {
  base_url = base_url cfg;
  api_token = cfg.api_token;
  oauth_token = cfg.oauth_token;
  auth_mode = resolved_auth_mode cfg;
  timeout = cfg.timeout;
  limiter = limiter_from_config cfg;
  ttls = cfg.ttls;
  stale_on_429 = cfg.cache_stale_on_429;
}

-- An *http.Request: headers are a map to lists of values, as a query is.
pub record Request : Type 0 where
  pub method : String
  pub url : String
  pub body : Option Value
  pub headers : Query

unfoldable pub ensure_leading_slash : String → String
ensure_leading_slash p = if not (is_set p) || has_prefix "/" p then p else "/" ++ p

-- q.Set("api_token", …), on the caller's own map
unfoldable pub with_token : Client → Query → Query
with_token c q = elim c.auth_mode [ AuthMode.api_token ↦ set "api_token" c.api_token q | _ ↦ q ]

query_suffix : Query → String
query_suffix [] = ""
query_suffix (e ∷ q) = "?" ++ encode (e ∷ q)

full_url : Client → ApiVersion → String → Query → String
unfolding ensure_leading_slash query_suffix
full_url c v path q =
    trim_right_slash c.base_url
    ++ (version_prefix v ++ (ensure_leading_slash path ++ query_suffix q))

build_headers : Option Value → Query
build_headers none = set "Accept" "application/json" empty
build_headers (some b) =
    set "Accept" "application/json" (set "Content-Type" "application/json" empty)

-- NewRequest: the request, and what the caller's query has become. `url_error` is the error of
-- http.NewRequest on a method and a URL, a package the source calls.
unfoldable pub new_request :
    (String → String → Option Error)
    → Client
    → ApiVersion
    → String
    → String
    → Query
    → Option Value
    → Result (Request × Query)
unfolding full_url build_headers with_token
new_request url_error c v method path q body = elim c.auth_mode [
  | AuthMode.no_auth ↦
      err (
        message "no credential configured: set PIPEDRIVE_API_TOKEN or PIPEDRIVE_OAUTH_ACCESS_TOKEN")
  | _ ↦
      let q' = with_token c q in
      let url = full_url c v path q' in
      elim (url_error method url) [
        | some e ↦ err e
        | none ↦
            ok
              (record { method = method; url = url; body = body; headers = build_headers body }, q')
      ]
]
