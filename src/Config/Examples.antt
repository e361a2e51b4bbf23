-- ===== src/Config/Examples.antt =====
-- The settings of one environment.
use mathlib.Core.List
use mathlib.Core.List.{List}
use mcp_pipedrive.Config.{extract_info_from_headers, zero_config}
use mcp_pipedrive.Config.Env.{allowed_tools_from_env, atoi, timeout_from_env}
use mcp_pipedrive.Config.Laws.{
  allowed_tools_from_env_lem, timeout_from_env-milliseconds, timeout_from_env-overflow,
}
use mcp_pipedrive.Prelude.{Option, String, any, if◌then◌else◌, none, refl, true, ◌&&◌, ◌≡◌, arith}
use mcp_pipedrive.Prelude.Int.{is_negative, pos, ℤ}
use mcp_pipedrive.Prelude.Text.{is_set, split, str_eq, trim_space}

abbrev getenv : String → String
getenv name =
    if str_eq name "PIPEDRIVE_ALLOWED_TOOLS"
    then "pipedrive.deals.get, pipedrive.deals.list"
    else if str_eq name "PIPEDRIVE_ALLOW_WRITE"
    then "yes"
    else ""

abbrev parse : String → Option ℤ
parse s = none

abbrev header : String → String
header name = if str_eq name "X-Pipedrive-API-Token" then "abc" else ""

allowed_tools_from_env_lem_example : any (str_eq "b") (allowed_tools_from_env "a, b") ≡ (
    is_set (trim_space "a, b")
    && (is_set "b" && any (str_eq "b") (List.map trim_space (split b',' "" (trim_space "a, b")))))
allowed_tools_from_env_lem_example = allowed_tools_from_env_lem "a, b" "b"

timeout_from_env-milliseconds_example : timeout_from_env " 1500" ≡ pos 1_500_000_000
unfolding trim_space atoi
timeout_from_env-milliseconds_example =
    timeout_from_env-milliseconds " 1500" 1500 refl (ground arith) (ground arith)

timeout_from_env-overflow_example : is_negative (timeout_from_env "9223372036855") ≡ true
unfolding trim_space atoi
timeout_from_env-overflow_example =
    timeout_from_env-overflow "9223372036855" 9_223_372_036_855 refl (ground arith) (ground arith)

header_wins : (extract_info_from_headers getenv parse header zero_config).api_token ≡ "abc"
unfolding extract_info_from_headers trim_space
header_wins = refl
