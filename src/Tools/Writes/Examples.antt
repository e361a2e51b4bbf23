-- ===== src/Tools/Writes/Examples.antt =====
-- The laws of the writes on a small world.
use mcp_pipedrive.Tools.Common.{
  client_or_error, gated, on_verdict, reply, request, send_json, extract_item_data,
}
use mcp_pipedrive.Client.{new_client, new_request, ApiVersion}
use mcp_pipedrive.Cache.{cache_get}
use mcp_pipedrive.Cache.Examples.{memory-commits, memory-deletes}
use mcp_pipedrive.Cache.Memory.{memory}
use mcp_pipedrive.Client.Examples.{answering, test_client, test_world}
use mcp_pipedrive.Client.Exchange.{deliver, do_json, do_request, read_json}
use mcp_pipedrive.Client.Fetch.{invalidate_path}
use mcp_pipedrive.Client.Invalidation.{key_of}
use mcp_pipedrive.Client.Limiter.{wait_all}
use mcp_pipedrive.Config.{resolved_auth_mode}
use mcp_pipedrive.Guard.{ensure_tool_allowed}
use mcp_pipedrive.Mask.{mask_sensitive}
use mcp_pipedrive.Normalize.Deal.{normalize_deal}
use mcp_pipedrive.Prelude.{false, length, none, refl, true, ◌≡◌, ◌≤◌}
use mcp_pipedrive.Prelude.Int.{pos}
use mcp_pipedrive.Prelude.Text.{trim_space}
use mcp_pipedrive.Query.{empty}
use mcp_pipedrive.Result.{ok}
use mcp_pipedrive.Tools.Deals.{DealsUpdateParams, deals_outdated}
use mcp_pipedrive.Tools.Deals.Write.{
  deals_delete, deals_delete_write, deals_update, deals_update_body, deals_update_write, saved_deal,
}
use mcp_pipedrive.Tools.Examples.{context_with, usable_client}
use mcp_pipedrive.Tools.Resource.{deleted, invalidate_each, run_write, write_through}
use mcp_pipedrive.Tools.Writes.{delete_lead, handle, update_deal}
use mcp_pipedrive.Tools.Writes.Laws.{handle-IsGone, handle-refused, handle-sent}
use mcp_pipedrive.Value.{end, insert, int64, str}

abbrev deal_change : DealsUpdateParams
deal_change = record {
  id = pos 5;
  title = "Deal";
  value = none;
  currency = "";
  owner_id = pos 0;
  person_id = pos 0;
  organization_id = pos 0;
  pipeline_id = pos 0;
  stage_id = pos 0;
  status = "";
  label_ids = none;
  custom_fields = end;
}

handle-refused_example :
    (handle (answering 200) (context_with false) (delete_lead "a1") (test_world 3)).0 ≡ test_world 3
handle-refused_example =
    handle-refused (answering 200) (context_with false) (test_world 3) (delete_lead "a1") refl

handle-IsGone_example :
    let w' =
      (handle (answering 200) (context_with true) (update_deal deal_change) (test_world 3)).0 in
    cache_get memory w'.cache
      (key_of (answering 200) test_client ApiVersion.v1 "GET" "/deals/5" empty none)
    ≡ none
unfolding handle deals_update deals_update_write run_write gated on_verdict ensure_tool_allowed
    client_or_error new_client request write_through send_json do_json do_request deliver read_json
    wait_all new_request mask_sensitive resolved_auth_mode trim_space extract_item_data
    normalize_deal deals_update_body insert invalidate_each invalidate_path deals_outdated
handle-IsGone_example =
    handle-IsGone (answering 200) memory-deletes memory-commits (context_with true) test_client
      (test_world 3) (update_deal deal_change) ApiVersion.v1 (saved_deal (str "{}")) refl
      usable_client refl "/5" empty none

-- a delete is answered, and sent once
deals_delete_runs :
    let r = deals_delete (answering 200) (context_with true) (pos 5) (test_world 3) in
    (r.1 ≡ ok (reply (deleted (int64 (pos 5)) (str "{}")))) × (length r.0.sent ≡ 1)
unfolding deals_delete deals_delete_write run_write gated on_verdict ensure_tool_allowed
    client_or_error new_client request write_through send_json do_json do_request deliver read_json
    wait_all new_request mask_sensitive resolved_auth_mode trim_space invalidate_each
    invalidate_path deals_outdated
deals_delete_runs = (refl, refl)

handle-sent_example :
    length (handle (answering 503) (context_with true) (delete_lead "a1") (test_world 3)).0.sent ≤ 1
handle-sent_example =
    handle-sent (answering 503) (context_with true) (test_world 3) (delete_lead "a1")
