-- ===== src/Tools/Batch/Examples.antt =====
-- A batch of two activities, one without a subject, against an upstream that knows none.
use mathlib.Core.List.{List, [], ◌∷◌}
use mcp_pipedrive.Tools.Batch.{
  ActivitiesCreateParams, Batch, batch_loop, refused, after_item, count_item, create_unless,
}
use mcp_pipedrive.Client.{new_client, new_request}
use mcp_pipedrive.Client.Examples.{answering, test_client, test_world}
use mcp_pipedrive.Client.Exchange.{deliver, do_json, do_request, read_json}
use mcp_pipedrive.Client.Limiter.{wait_all}
use mcp_pipedrive.Config.{resolved_auth_mode}
use mcp_pipedrive.Prelude.{String, false, length, none, refl, true, ◌≡◌, ◌≤◌}
use mcp_pipedrive.Prelude.Int.{pos}
use mcp_pipedrive.Prelude.Text.{trim_space}
use mcp_pipedrive.Result.{message, wrapped}
use mcp_pipedrive.Tools.Batch.Laws.{batch_loop-IsReport, batch_loop-all, batch_loop-sent, IsReport}
use mcp_pipedrive.Value.Convert.{to_string}
use mcp_pipedrive.Tools.Common.{request, snippet_of, wrap_api_error}

abbrev activity : String → ActivitiesCreateParams
activity subject = record {
  subject = subject;
  type = "";
  due_date = "";
  due_time = "";
  duration = "";
  done = false;
  owner_id = pos 0;
  deal_id = pos 0;
  person_id = pos 0;
  organization_id = pos 0;
  note = "";
}

abbrev two_activities : List ActivitiesCreateParams
two_activities = activity "Call" ∷ activity "" ∷ []

abbrev report : Batch
report = record {
  results =
      record { index = 0; outcome = refused (wrapped 404 "{}") }
      ∷ record { index = 1; outcome = refused (message "subject is required") }
      ∷ [];
  succeeded = 0;
  failed = 2;
}

batch_loop-IsReport_example : IsReport 0 2 report
unfolding batch_loop create_unless after_item count_item request new_request new_client
    resolved_auth_mode trim_space do_json do_request deliver read_json wait_all wrap_api_error
    snippet_of to_string
batch_loop-IsReport_example =
    batch_loop-IsReport (answering 404) (λ now. none) test_client false two_activities 0
      (test_world 3) report refl

batch_loop-all_example : length report.results ≡ 2
unfolding batch_loop create_unless after_item count_item request new_request new_client
    resolved_auth_mode trim_space do_json do_request deliver read_json wait_all wrap_api_error
    snippet_of to_string
batch_loop-all_example =
    batch_loop-all (answering 404) (λ now. none) test_client two_activities 0 (test_world 3) report
      refl

batch_loop-sent_example :
    length
      (batch_loop
        (answering 404)
        (λ now. none)
        test_client
        true
        two_activities
        0
        (test_world 3)).0.sent
    ≤ 2
batch_loop-sent_example =
    batch_loop-sent (answering 404) (λ now. none) test_client true two_activities 0 (test_world 3)
