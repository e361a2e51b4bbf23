-- ===== src/Shared/Examples.antt =====
-- Three requests of a process: one without a cache, and two that name different files.
use mcp_pipedrive.Config.{Config, base_config, extract_info_from_env}
use mathlib.Core.List.{[], ◌∷◌}
use mcp_pipedrive.Config.{zero_config}
use mcp_pipedrive.Prelude.{Bool, String, false, none, some, true, ◌≡◌, Option, if◌then◌else◌}
use mcp_pipedrive.Prelude.Text.{trim_space, str_eq, trim_prefix, trim_right_slash}
use mcp_pipedrive.Shared.{caches_of, not_opened}
use mcp_pipedrive.Shared.Laws.{caches_of_lem}
use mcp_pipedrive.Client.{new_client}
use mcp_pipedrive.Guard.{ensure_tool_allowed, guard_delete}
use mcp_pipedrive.Shared.Context.{
  GoContext, composed_http_context_func, composed_stdio_context_func, config_from_context,
  compose_context_funcs, extract_client,
}
use mcp_pipedrive.Shared.Requests.{composed_http_context_func_lem}
use mcp_pipedrive.Prelude.Int.{ℤ}
use mcp_pipedrive.Config.Env.{strip_scheme}

abbrev at_path : Bool → String → Config
at_path enabled path = record zero_config { cache_enabled = enabled; cache_path = path }

caches_of_lem_example :
    caches_of
      (λ path. some path)
      (at_path false "a" ∷ at_path true "b" ∷ at_path true "c" ∷ [])
      (not_opened (λ path. some path))
    ≡ none ∷ some "b" ∷ some "b" ∷ []
unfolding trim_space
caches_of_lem_example =
    caches_of_lem (λ path. some path) (at_path false "a" ∷ at_path true "b" ∷ at_path true "c" ∷ [])

abbrev unset : String → String
unset name = ""

abbrev no_duration : String → Option ℤ
no_duration s = none

abbrev acme_header : String → String
acme_header name =
    if str_eq name "X-Pipedrive-Domain"
    then "https://acme.pipedrive.com/"
    else if str_eq name "X-Pipedrive-API-Token"
    then " abc "
    else ""

composed_http_context_func_lem_example :
    let empty_context : GoContext String = record { config = none; client = none; cache = none } in
    let unopened = not_opened (λ (path : String). some path) in
    let served =
      (composed_http_context_func
        (λ path. some path)
        unset
        no_duration
        acme_header
        empty_context
        unopened).0 in
    let local =
      (composed_stdio_context_func
        (λ path. some path)
        unset
        no_duration
        empty_context
        unopened).0 in
    (served.client ≡ some (new_client (config_from_context served)))
    × ((config_from_context served).domain ≡ "acme.pipedrive.com")
    × ((config_from_context served).api_token ≡ "abc")
    × ((config_from_context served).oauth_token ≡ "")
    × (ensure_tool_allowed (config_from_context served) "pipedrive.deals.delete" guard_delete
        ≡ ensure_tool_allowed (config_from_context local) "pipedrive.deals.delete" guard_delete)
unfolding composed_stdio_context_func compose_context_funcs extract_client extract_info_from_env
    base_config trim_space trim_right_slash strip_scheme trim_prefix
composed_http_context_func_lem_example =
    let empty_context : GoContext String = record { config = none; client = none; cache = none } in
    let unopened = not_opened (λ (path : String). some path) in
    composed_http_context_func_lem (λ path. some path) unset no_duration acme_header empty_context
      empty_context unopened unopened "pipedrive.deals.delete" guard_delete
