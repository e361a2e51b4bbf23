-- ===== src/Guard/Laws.antt =====
-- Who may call what.
use Prim.Native.String.{◌++◌}
use mcp_pipedrive.Config.{Config}
use mcp_pipedrive.Guard.{
  GuardKind, ensure_tool_allowed, guard_admin, guard_delete, guard_read, guard_write,
  admin_tools_disabled, delete_disabled, delete_needs_write, write_disabled, DisabledResult,
}
use mcp_pipedrive.Prelude.{
  String, any, arith, is_empty, none, some, true, ◌↔◌, ◌≡◌, ◌⊎◌, if◌then◌else◌,
}
use mcp_pipedrive.Prelude.Text.{str_eq}
use mcp_pipedrive.Result.{err, ok, message}

-- The flags that a kind of tool needs.
abbrev pub Enabled : Config → GuardKind → Type 0
Enabled cfg guard_read = Unit
Enabled cfg guard_write = cfg.allow_write ≡ true
Enabled cfg guard_delete = (cfg.allow_write ≡ true) × (cfg.allow_delete ≡ true)
Enabled cfg guard_admin = cfg.admin_tools_enabled ≡ true

-- The allowlist lets the name through: there is none, or the name is in it.
abbrev pub Listed : Config → String → Type 0
Listed cfg name = (is_empty cfg.allowed_tools ≡ true) ⊎ (any (str_eq name) cfg.allowed_tools ≡ true)

-- A call passes the guard exactly if the tool is on the allowlist, where there is one, and the
-- flags of its kind are on: for a delete tool both the write and the delete flag.
pub ensure_tool_allowed_iff :
    (cfg : Config) (name : String) (kind : GuardKind)
    → (ensure_tool_allowed cfg name kind ≡ ok none) ↔ (Listed cfg name × Enabled cfg kind)
unfolding ensure_tool_allowed
ensure_tool_allowed_iff cfg name guard_read = ground arith
ensure_tool_allowed_iff cfg name guard_write = ground arith
ensure_tool_allowed_iff cfg name guard_delete = ground arith
ensure_tool_allowed_iff cfg name guard_admin = ground arith

-- A tool that is not on a configured allowlist is refused with an error, whatever its kind.
ensure_tool_allowed-unlisted :
    (cfg : Config) (name : String) (kind : GuardKind)
    → ¬ Listed cfg name
    → ensure_tool_allowed cfg name kind ≡ err (message ("tool not allowed: " ++ name))
unfolding ensure_tool_allowed
ensure_tool_allowed-unlisted cfg name kind h = ground arith

-- The payload that names the flag which is off: for a delete tool the write flag first.
abbrev refusal : Config → GuardKind → DisabledResult
refusal cfg guard_read = write_disabled
refusal cfg guard_write = write_disabled
refusal cfg guard_delete = if cfg.allow_write then delete_disabled else delete_needs_write
refusal cfg guard_admin = admin_tools_disabled

-- A listed tool whose flags are not all on gets the payload that names a flag which is off: a
-- delete tool that of the write flag if that one is off.
ensure_tool_allowed-disabled :
    (cfg : Config) (name : String) (kind : GuardKind)
    → Listed cfg name
    → ¬ Enabled cfg kind
    → ensure_tool_allowed cfg name kind ≡ ok (some (refusal cfg kind))
unfolding ensure_tool_allowed
ensure_tool_allowed-disabled cfg name guard_read h off = absurd (off tt)
ensure_tool_allowed-disabled cfg name guard_write h off = ground arith
ensure_tool_allowed-disabled cfg name guard_delete h off = ground arith
ensure_tool_allowed-disabled cfg name guard_admin h off = ground arith
