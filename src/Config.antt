-- ===== src/Config.antt =====
-- pipedrive/config.go, with the settings that baseConfig and the two ExtractInfo functions of
-- pipedrive/context.go read. An unset variable reads as "". time.ParseDuration is a parameter: the
-- nanoseconds of a text, or none for its error.
pub mod Env
pub mod Laws
pub mod Examples
use Prim.Native.String.{◌++◌}
use Env.{
  env_bool, env_bool_default, allowed_tools_from_env, timeout_from_env, duration_from_env,
  domain_from_env, cache_path_from_env, strip_scheme, default_domain,
}
use mcp_pipedrive.Prelude.{Bool, List, Option, String, if◌then◌else◌, true, ℕ, ◌*◌, [], false}
use mcp_pipedrive.Prelude.Int.{ℤ, pos}
use mcp_pipedrive.Prelude.Text.{is_set, trim_right_slash, trim_space}

pub data AuthMode : Type 0 where
  no_auth api_token oauth : AuthMode

-- durations in nanoseconds
pub record CacheTtls : Type 0 where
  pub metadata : ℤ
  pub deal : ℤ
  pub person : ℤ
  pub organization : ℤ
  pub activity : ℤ
  pub product : ℤ
  pub follower : ℤ
  pub list : ℤ
  pub search_results : ℤ
  pub stale : ℤ
  pub mail_list : ℤ
  pub mail_message : ℤ

-- `allowed_tools` is the set of a Go map, whose nil and empty values are not told apart.
pub record Config : Type 0 where
  pub debug : Bool
  pub include_arguments_in_spans : Bool
  pub domain : String
  pub api_token : String
  pub oauth_token : String
  pub allow_write : Bool
  pub allow_delete : Bool
  pub allowed_tools : List String
  pub timeout : ℤ
  pub disable_rate_limit : Bool
  pub cache_enabled : Bool
  pub cache_path : String
  pub cache_stale_on_429 : Bool
  pub ttls : CacheTtls
  pub admin_tools_enabled : Bool

-- CacheTTLs{} and Config{}
abbrev pub no_ttls : CacheTtls
no_ttls = record {
  metadata = pos 0;
  deal = pos 0;
  person = pos 0;
  organization = pos 0;
  activity = pos 0;
  product = pos 0;
  follower = pos 0;
  list = pos 0;
  search_results = pos 0;
  stale = pos 0;
  mail_list = pos 0;
  mail_message = pos 0;
}

-- Config{}
abbrev pub zero_config : Config
zero_config = record {
  debug = false;
  include_arguments_in_spans = false;
  domain = "";
  api_token = "";
  oauth_token = "";
  allow_write = false;
  allow_delete = false;
  allowed_tools = [];
  timeout = pos 0;
  disable_rate_limit = false;
  cache_enabled = false;
  cache_path = "";
  cache_stale_on_429 = false;
  ttls = no_ttls;
  admin_tools_enabled = false;
}

unfoldable pub base_url : Config → String
base_url c =
    let d = trim_right_slash c.domain in "https://" ++ (if is_set d then d else default_domain)

unfoldable pub resolved_auth_mode : Config → AuthMode
resolved_auth_mode c =
    if is_set (trim_space c.oauth_token)
    then oauth
    else if is_set (trim_space c.api_token)
    then api_token
    else no_auth

-- os.Getenv and time.ParseDuration
module _ (getenv : String → String) (parse_duration : String → Option ℤ) where
  unfoldable pub ttls_from_env : CacheTtls
  ttls_from_env =
      let duration = λ (name : String) (seconds : ℕ).
        duration_from_env parse_duration (getenv name) (seconds * 1_000_000_000) in
      record {
        metadata = duration "PIPEDRIVE_CACHE_METADATA_TTL" 43200;
        deal = duration "PIPEDRIVE_CACHE_DEAL_TTL" 180;
        person = duration "PIPEDRIVE_CACHE_PERSON_TTL" 600;
        organization = duration "PIPEDRIVE_CACHE_ORGANIZATION_TTL" 600;
        activity = duration "PIPEDRIVE_CACHE_ACTIVITY_TTL" 60;
        product = duration "PIPEDRIVE_CACHE_PRODUCT_TTL" 1800;
        follower = duration "PIPEDRIVE_CACHE_FOLLOWER_TTL" 300;
        list = duration "PIPEDRIVE_CACHE_LIST_TTL" 120;
        search_results = duration "PIPEDRIVE_CACHE_SEARCH_TTL" 45;
        stale = duration "PIPEDRIVE_CACHE_STALE_TTL" 86400;
        mail_list = duration "PIPEDRIVE_CACHE_MAIL_LIST_TTL" 60;
        mail_message = duration "PIPEDRIVE_CACHE_MAIL_MESSAGE_TTL" 86400;
      }

  unfoldable pub base_config : Config → Config
  unfolding ttls_from_env
  base_config cfg = record cfg {
    allow_write = env_bool (getenv "PIPEDRIVE_ALLOW_WRITE");
    allow_delete = env_bool (getenv "PIPEDRIVE_ALLOW_DELETE");
    allowed_tools = allowed_tools_from_env (getenv "PIPEDRIVE_ALLOWED_TOOLS");
    timeout = timeout_from_env (getenv "PIPEDRIVE_TIMEOUT_MS");
    debug = env_bool (getenv "PIPEDRIVE_DEBUG");
    disable_rate_limit = env_bool (getenv "PIPEDRIVE_RATE_LIMIT_DISABLE");
    cache_enabled = env_bool_default (getenv "PIPEDRIVE_CACHE_ENABLED") true;
    cache_path = cache_path_from_env (getenv "PIPEDRIVE_CACHE_PATH");
    cache_stale_on_429 = env_bool_default (getenv "PIPEDRIVE_CACHE_ALLOW_STALE_ON_429") true;
    ttls = ttls_from_env;
    admin_tools_enabled = env_bool (getenv "PIPEDRIVE_ENABLE_ADMIN_TOOLS");
  }

  -- ExtractInfoFromEnv
  unfoldable pub extract_info_from_env : Config → Config
  unfolding base_config
  extract_info_from_env cfg = base_config (record cfg {
    domain = domain_from_env (getenv "PIPEDRIVE_DOMAIN");
    api_token = trim_space (getenv "PIPEDRIVE_API_TOKEN");
    oauth_token = trim_space (getenv "PIPEDRIVE_OAUTH_ACCESS_TOKEN");
  })

  -- a header, or the variable for a request without it
  abbrev header_or : String → String → String
  header_or header fallback = if is_set header then header else fallback

  -- ExtractInfoFromHeaders, with the headers of the request
  unfoldable pub extract_info_from_headers : (String → String) → Config → Config
  unfolding base_config
  extract_info_from_headers header cfg = base_config (record cfg {
    domain = strip_scheme (
        header_or (trim_right_slash (trim_space (header "X-Pipedrive-Domain")))
          (domain_from_env (getenv "PIPEDRIVE_DOMAIN")));
    api_token =
        header_or (trim_space (header "X-Pipedrive-API-Token"))
          (trim_space (getenv "PIPEDRIVE_API_TOKEN"));
    oauth_token =
        header_or (trim_space (header "X-Pipedrive-OAuth-Token"))
          (trim_space (getenv "PIPEDRIVE_OAUTH_ACCESS_TOKEN"));
  })
