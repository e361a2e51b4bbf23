-- ===== src/Tools/Metadata/Examples.antt =====
-- contextGet on a small world.
use mathlib.Core.List.{List, [], ◌∷◌, Permᴰ}
use mcp_pipedrive.Tools.Common.{reply}
use mcp_pipedrive.Cache.{mode_default, valid_cache_mode}
use mcp_pipedrive.Client.{ApiVersion}
use mcp_pipedrive.Client.Examples.{answering, test_client, test_world}
use mcp_pipedrive.Prelude.{false, length, refl, ◌+◌, ◌≡◌, ◌≤◌, drop}
use mcp_pipedrive.Result.{ok}
use mcp_pipedrive.Tools.Examples.{context_with, usable_client}
use mcp_pipedrive.Tools.Metadata.{MetadataCall, MetadataReply, context_get, metadata_calls}
use mcp_pipedrive.Tools.Metadata.Laws.{context_get_lem, names_of}
use mcp_pipedrive.Guard.{ensure_tool_allowed}
use mcp_pipedrive.Prelude.Text.{to_lower, trim_space}

-- the second goroutine asks before the first
abbrev pipelines_first : List MetadataCall
pipelines_first =
    record { slot = 1; version = ApiVersion.v2; path = "/pipelines"; key = "pipelines" }
    ∷ record { slot = 0; version = ApiVersion.v1; path = "/users"; key = "users" }
    ∷ drop 2 metadata_calls

context_get_lem_example :
    let (w', result) =
      context_get (answering 503) pipelines_first (context_with false) "" (test_world 3) in
    (r : MetadataReply) × ((result ≡ ok (reply r))
      × ((names_of r ≡ "users" ∷ "pipelines" ∷ "stages" ∷ "deal_fields" ∷ "activity_types" ∷ [])
          × (length w'.sent ≤ 5 + length (test_world 3).sent)))
unfolding ensure_tool_allowed valid_cache_mode trim_space to_lower
context_get_lem_example =
    context_get_lem (answering 503) pipelines_first (Permᴰ.swap refl refl) (context_with false) ""
      (test_world 3) mode_default test_client refl refl usable_client
