-- ===== src/Tools/Admin/Examples.antt =====
-- The cache tools on a small world.
use mcp_pipedrive.Tools.Common.{Context}
use mcp_pipedrive.Client.Examples.{answering, test_client, test_world}
use mcp_pipedrive.Config.{zero_config}
use mcp_pipedrive.Prelude.{none, refl, some, true, ◌≡◌}
use mcp_pipedrive.Tools.Admin.{cache_clear_tool, cache_invalidate_tool, cache_stats_tool}
use mcp_pipedrive.Tools.Admin.Laws.{cache_tools-refused}

abbrev user_context : Context
user_context = record { config = zero_config; client = some test_client }

cache_tools-refused_example :
    ((cache_clear_tool (answering 200) user_context true (test_world 3)).0 ≡ test_world 3)
    × ((cache_invalidate_tool (answering 200) user_context "v2" (test_world 3)).0 ≡ test_world 3)
    × ((cache_stats_tool (answering 200) user_context "c.db" none (test_world 3)).0 ≡ test_world 3)
cache_tools-refused_example =
    cache_tools-refused (answering 200) user_context (test_world 3) true "v2" "c.db" none refl
