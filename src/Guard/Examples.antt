-- ===== src/Guard/Examples.antt =====
-- The guards of a configuration that may write, with an allowlist.
use mathlib.Core.List.{[], ◌∷◌}
use mcp_pipedrive.Config.{Config}
use mcp_pipedrive.Config.{zero_config}
use mcp_pipedrive.Guard.{delete_disabled, ensure_tool_allowed, guard_delete, guard_write}
use mcp_pipedrive.Guard.Laws.{Enabled, Listed, ensure_tool_allowed_iff}
use mcp_pipedrive.Prelude.{none, refl, some, true, ◌↔◌, ◌≡◌}
use mcp_pipedrive.Result.{ok}

abbrev writer : Config
writer = record zero_config {
  allow_write = true;
  allowed_tools = "pipedrive.deals.update" ∷ "pipedrive.deals.delete" ∷ [];
}

guard_runs :
    (ensure_tool_allowed writer "pipedrive.deals.update" guard_write ≡ ok none)
    × (ensure_tool_allowed writer "pipedrive.deals.delete" guard_delete ≡ ok (some delete_disabled))
unfolding ensure_tool_allowed
guard_runs = (refl, refl)

ensure_tool_allowed_iff_example :
    (ensure_tool_allowed writer "pipedrive.deals.delete" guard_delete ≡ ok none)
    ↔ (Listed writer "pipedrive.deals.delete" × Enabled writer guard_delete)
ensure_tool_allowed_iff_example =
    ensure_tool_allowed_iff writer "pipedrive.deals.delete" guard_delete
