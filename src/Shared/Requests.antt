-- ===== src/Shared/Requests.antt =====
-- What a request can change of the server.
use mcp_pipedrive.Client.{new_client}
use mcp_pipedrive.Config.{base_config, extract_info_from_env, extract_info_from_headers}
use mcp_pipedrive.Guard.{GuardKind, ensure_tool_allowed}
use mcp_pipedrive.Prelude.{Option, String, refl, some, ◌≡◌, if◌then◌else◌}
use mcp_pipedrive.Prelude.Int.{ℤ}
use mcp_pipedrive.Shared.{SharedCache}
use mcp_pipedrive.Shared.Context.{
  GoContext, compose_context_funcs, composed_http_context_func, composed_stdio_context_func,
  config_from_context, extract_client,
}
use mcp_pipedrive.Config.Env.{strip_scheme}
use mcp_pipedrive.Prelude.Text.{is_set, trim_right_slash, trim_space}

module _ {Db : Type 0} (open_cache : String → Option Db) (getenv : String → String)
    (parse_duration : String → Option ℤ) where
  -- a header without the spaces around it
  abbrev pub header_text : (String → String) → String → String
  header_text header name = trim_space (header name)

  -- the header if it is there, and else the other value
  abbrev pub text_or : String → String → String
  text_or text other = if is_set text then text else other

  -- Whatever stands in the contexts that requests come with, the client of a request is built of
  -- the configuration in its context. That configuration has the domain and the two credentials of
  -- the request's headers, without the spaces around them and the domain without the slashes at
  -- its end and its scheme, and for a header that is missing or blank what the standard input
  -- has. The guard judges every tool of every kind as it judges it for the standard input: a
  -- request brings no permission.
  pub composed_http_context_func_lem :
      (header : String → String) (ctx ctx' : GoContext Db) (s s' : SharedCache Db) (name : String)
      (kind : GuardKind)
      → let served = (composed_http_context_func open_cache getenv parse_duration header ctx s).0 in
        let local = (composed_stdio_context_func open_cache getenv parse_duration ctx' s').0 in
        let cfg = config_from_context served in
        let own = config_from_context local in
        (served.client ≡ some (new_client cfg))
        × (cfg.domain
            ≡ strip_scheme
                (text_or (trim_right_slash (header_text header "X-Pipedrive-Domain")) own.domain))
        × (cfg.api_token ≡ text_or (header_text header "X-Pipedrive-API-Token") own.api_token)
        × (cfg.oauth_token ≡ text_or (header_text header "X-Pipedrive-OAuth-Token") own.oauth_token)
        × (ensure_tool_allowed cfg name kind ≡ ensure_tool_allowed own name kind)
  unfolding composed_http_context_func composed_stdio_context_func compose_context_funcs
      extract_client extract_info_from_headers extract_info_from_env base_config ensure_tool_allowed
  composed_http_context_func_lem header ctx ctx' s s' name kind = (refl, refl, refl, refl, refl)
