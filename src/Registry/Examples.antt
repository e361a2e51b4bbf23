-- ===== src/Registry/Examples.antt =====
-- The default registration: everything but the two destructive cache tools.
use mathlib.Core.List.{[], ◌∷◌}
use mcp_pipedrive.Prelude.{any, false, keep, length, not, refl, ◌+◌, ◌≡◌}
use mcp_pipedrive.Prelude.Text.{str_eq}
use mcp_pipedrive.Registry.{RegistrationConfig, add_all_tools, all_tools}
use mcp_pipedrive.Registry.Laws.{add_all_tools_lem, admits}

abbrev default_config : RegistrationConfig
default_config = record { allowed_tools = []; admin_tools_enabled = false }

registry_runs :
    ((add_all_tools all_tools default_config).registered ≡ 67)
    × ((add_all_tools all_tools default_config).skipped_admin ≡ 2)
unfolding add_all_tools
registry_runs = (refl, refl)

abbrev mistyped : RegistrationConfig
mistyped = record { allowed_tools = "pipedrive.deal.get" ∷ []; admin_tools_enabled = false }

add_all_tools_lem_example :
    ((add_all_tools all_tools mistyped).tools ≡ keep (admits mistyped) all_tools)
    × ((add_all_tools all_tools mistyped).registered ≡ length (keep (admits mistyped) all_tools))
    × ((add_all_tools all_tools mistyped).registered
          + (add_all_tools all_tools mistyped).skipped_admin
          + (add_all_tools all_tools mistyped).skipped_allowlist
        ≡ length all_tools)
    × ((add_all_tools all_tools mistyped).unknown
        ≡ keep (λ name. not (any (str_eq name) all_tools)) mistyped.allowed_tools)
add_all_tools_lem_example = add_all_tools_lem all_tools mistyped
