-- ===== src/Tools/Examples.antt =====
-- A context for the handlers on the small world of Client.Examples.
use mcp_pipedrive.Client.{new_client}
use mcp_pipedrive.Tools.Common.{Context, client_or_error}
use mcp_pipedrive.Client.Examples.{test_client}
use mcp_pipedrive.Config.{resolved_auth_mode}
use mcp_pipedrive.Config.{zero_config}
use mcp_pipedrive.Prelude.{Bool, refl, some, ◌≡◌}
use mcp_pipedrive.Prelude.Text.{trim_space}
use mcp_pipedrive.Result.{ok}

-- with the flags for writes and deletes on or off
abbrev pub context_with : Bool → Context
context_with write = record {
  config = record zero_config { allow_write = write; allow_delete = write };
  client = some test_client;
}

pub usable_client : client_or_error (some test_client) ≡ ok test_client
unfolding client_or_error new_client resolved_auth_mode trim_space
usable_client = refl
