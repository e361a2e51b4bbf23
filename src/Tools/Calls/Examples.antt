-- ===== src/Tools/Calls/Examples.antt =====
-- A call of deals.delete without a client.
use mcp_pipedrive.Tools.Common.{Context, Tool, Reply, client_or_error, gated, on_verdict}
use mcp_pipedrive.Tools.Resource.{Written, run_write}
use mcp_pipedrive.Client.Examples.{answering, test_world}
use mcp_pipedrive.Guard.{ensure_tool_allowed}
use mcp_pipedrive.Prelude.{none, refl, true, ◌≡◌}
use mcp_pipedrive.Prelude.Int.{pos, ℤ}
use mcp_pipedrive.Result.{err, message, ok}
use mcp_pipedrive.Tools.Calls.{call_tool, failed_call, finish_call}
use mcp_pipedrive.Tools.Calls.Laws.{Reports, call_tool-Reports}
use mcp_pipedrive.Tools.Deals.Write.{deals_delete, deals_delete_write}
use mcp_pipedrive.Tools.Examples.{context_with}
use mcp_pipedrive.Value.{null}
use mcp_pipedrive.Cache.Memory.{Memory}

abbrev no_client : Context
no_client = record (context_with true) { client = none }

abbrev delete_deal_tool : ℤ → Tool Memory (Reply Written)
delete_deal_tool id = deals_delete (answering 200) no_client id

call_tool-Reports_example :
    Reports
      (λ v. ok "{}")
      (λ s. ok (pos 5))
      (λ r. ok "{}")
      (λ r. ("{}", refl))
      (delete_deal_tool (pos 5) (test_world 3))
      (call_tool
        (λ v. ok "{}")
        (λ s. ok (pos 5))
        (λ r. ok "{}")
        delete_deal_tool
        null
        (test_world 3))
call_tool-Reports_example =
    call_tool-Reports (λ v. ok "{}") (λ s. ok (pos 5)) (λ r. ok "{}") (λ r. ("{}", refl))
      delete_deal_tool null "{}" (pos 5) (test_world 3) refl refl

-- the call is a protocol error
missing_client :
    (call_tool
      (λ v. ok "{}")
      (λ s. ok (pos 5))
      (λ r. ok "{}")
      delete_deal_tool
      null
      (test_world 3)).1
    ≡ err (message "pipedrive client not available in context")
unfolding call_tool finish_call failed_call deals_delete deals_delete_write run_write gated
    on_verdict ensure_tool_allowed client_or_error
missing_client = refl
