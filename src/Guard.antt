-- ===== src/Guard.antt =====
-- The guardrails of pipedrive/guardrails.go and tools/common.go, before any tool does its work.
pub mod Laws
mod Examples
use Prim.Native.String.{◌++◌}
use mathlib.Core.List.{List, [], ◌∷◌}
use mcp_pipedrive.Config.{Config}
use mcp_pipedrive.Prelude.{
  Bool, Option, String, any, if◌then◌else◌, is_empty, none, not, some, true,
}
use mcp_pipedrive.Prelude.Text.{str_eq}
use mcp_pipedrive.Result.{Result, err, message, ok}

-- IsToolAllowed
unfoldable pub is_tool_allowed : Config → String → Bool
is_tool_allowed cfg tool_name =
    if is_empty cfg.allowed_tools then true else any (str_eq tool_name) cfg.allowed_tools

pub data GuardKind : Type 0 where
  guard_read guard_write guard_delete guard_admin : GuardKind

-- disabledResult: the payload of a tool whose flag is off
pub record DisabledResult : Type 0 where
  pub error : String
  pub explanation : String

abbrev pub write_disabled : DisabledResult
write_disabled = record {
  error = "write_disabled";
  explanation = "Set PIPEDRIVE_ALLOW_WRITE=true to enable write operations";
}

abbrev pub delete_needs_write : DisabledResult
delete_needs_write = record {
  error = "write_disabled";
  explanation =
      "Delete tools require BOTH PIPEDRIVE_ALLOW_WRITE=true AND PIPEDRIVE_ALLOW_DELETE=true; write is currently disabled";
}

abbrev pub delete_disabled : DisabledResult
delete_disabled = record {
  error = "delete_disabled";
  explanation =
      "Delete tools require BOTH PIPEDRIVE_ALLOW_WRITE=true AND PIPEDRIVE_ALLOW_DELETE=true; delete is currently disabled";
}

abbrev pub admin_tools_disabled : DisabledResult
admin_tools_disabled = record {
  error = "admin_tools_disabled";
  explanation = "Set PIPEDRIVE_ENABLE_ADMIN_TOOLS=true to enable admin tools";
}

-- the switch on the kind
disabled_by : Config → GuardKind → Option DisabledResult
disabled_by cfg guard_read = none
disabled_by cfg guard_write = if not cfg.allow_write then some write_disabled else none
disabled_by cfg guard_delete =
    if not cfg.allow_write
    then some delete_needs_write
    else if not cfg.allow_delete
    then some delete_disabled
    else none
disabled_by cfg guard_admin =
    if not cfg.admin_tools_enabled then some admin_tools_disabled else none

unfoldable pub ensure_tool_allowed : Config → String → GuardKind → Result (Option DisabledResult)
unfolding is_tool_allowed disabled_by
ensure_tool_allowed cfg tool_name kind =
    if not (is_tool_allowed cfg tool_name)
    then err (message ("tool not allowed: " ++ tool_name))
    else ok (disabled_by cfg kind)
