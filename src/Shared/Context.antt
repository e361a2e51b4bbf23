-- ===== src/Shared/Context.antt =====
-- The values of a Go context in pipedrive/context.go, and the functions that fill it for a request.
-- In the source the client holds its cache; here the cache stands beside it. The warnings that are
-- logged are left out.
use mathlib.Core.List.{List, [], ◌∷◌}
use mcp_pipedrive.Client.{Client, new_client}
use mcp_pipedrive.Config.{extract_info_from_env, extract_info_from_headers, Config}
use mcp_pipedrive.Config.{zero_config}
use mcp_pipedrive.Prelude.{Option, String, none, some}
use mcp_pipedrive.Prelude.Int.{ℤ}
use mcp_pipedrive.Shared.{SharedCache, ensure_shared_cache}

-- what WithConfig, WithClient and WithCache have put into a context
pub record GoContext (Db : Type 0) : Type 0 where
  pub config : Option Config
  pub client : Option Client
  pub cache : Option Db

-- a function on the context of a request, with the cache that the process shares
abbrev pub ContextFunc : Type 0 → Type 0
ContextFunc Db = GoContext Db → SharedCache Db → GoContext Db × SharedCache Db

-- the loop of ComposeStdioContextFuncs, ComposeSSEContextFuncs and ComposeHTTPContextFuncs
unfoldable pub compose_context_funcs : {Db : Type 0} → List (ContextFunc Db) → ContextFunc Db
compose_context_funcs [] ctx s = (ctx, s)
compose_context_funcs (f ∷ fs) ctx s = let (ctx', s') = f ctx s in compose_context_funcs fs ctx' s'

-- ConfigFromContext, whose missing value is Config{}
abbrev config_or : Option Config → Config
config_or none = zero_config
config_or (some cfg) = cfg

abbrev pub config_from_context : {Db : Type 0} → GoContext Db → Config
config_from_context ctx = config_or ctx.config

module _ {Db : Type 0} (open_cache : String → Option Db) where
  -- ExtractClientFromEnv and ExtractClientFromHeaders
  unfoldable pub extract_client : ContextFunc Db
  unfolding ensure_shared_cache
  extract_client ctx s =
      let cfg = config_from_context ctx in
      let (s', cache) = ensure_shared_cache open_cache cfg s in
      (record ctx { cache = cache; client = some (new_client cfg) }, s')

  module _ (getenv : String → String) (parse_duration : String → Option ℤ) where
    -- WithConfig behind the two ExtractInfo functions
    abbrev pub info_from_env : ContextFunc Db
    unfolding extract_info_from_env
    info_from_env ctx s = (
      record ctx {
        config = some (extract_info_from_env getenv parse_duration (config_from_context ctx));
      },
      s,
    )

    abbrev pub info_from_headers : (String → String) → ContextFunc Db
    unfolding extract_info_from_headers
    info_from_headers header ctx s = (
      record ctx {
        config =
            some (extract_info_from_headers getenv parse_duration header (config_from_context ctx));
      },
      s,
    )

    -- ComposedStdioContextFunc
    unfoldable pub composed_stdio_context_func : ContextFunc Db
    unfolding compose_context_funcs extract_client
    composed_stdio_context_func = compose_context_funcs (info_from_env ∷ extract_client ∷ [])

    -- ComposedSSEContextFunc and ComposedHTTPContextFunc, with the headers of the request
    unfoldable pub composed_http_context_func : (String → String) → ContextFunc Db
    unfolding compose_context_funcs extract_client
    composed_http_context_func header =
        compose_context_funcs (info_from_headers header ∷ extract_client ∷ [])
