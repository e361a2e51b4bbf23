-- ===== src/Tools/Batch.antt =====
-- tools/activities_batch.go, with activityCreateBody and invalidateActivitiesCache of
-- tools/activities.go. ctx.Err is a parameter: the error of the context at a time, if it is done.
mod Laws
mod Examples
use mathlib.Core.List.{List, [], ◌∷◌}
use Prim.Native.String.{◌++◌}
use mcp_pipedrive.Client.{Client, ApiVersion}
use mcp_pipedrive.Tools.Common.{
  Tool, Context, Reply, lift, continue_with, ◌>>=◌, ◌>>◌, client_or_error, extract_item_data, gated,
  request, set_if_non_zero, set_if_non_zero_int, wrap_api_error,
}
use mcp_pipedrive.Client.Exchange.{Services, World, do_json}
use mcp_pipedrive.Client.Fetch.{invalidate_path}
use mcp_pipedrive.Guard.{guard_write}
use mcp_pipedrive.Normalize.Activity.{NormalizedActivity, normalize_activity}
use mcp_pipedrive.Prelude.{
  Bool, Option, String, false, if◌then◌else◌, is_empty, length, ltb, none, not, some, suc, true, ℕ,
  ◌+◌,
}
use mcp_pipedrive.Prelude.Int.{format_int, pos, ℤ}
use mcp_pipedrive.Prelude.Text.{is_set}
use mcp_pipedrive.Query.{empty}
use mcp_pipedrive.Result.{Error, Result, err, guard, message, ok}
use mcp_pipedrive.Value.{Fields, Value, bool, end, insert, obj, str}

pub record ActivitiesCreateParams : Type 0 where
  pub subject : String
  pub type : String
  pub due_date : String
  pub due_time : String
  pub duration : String
  pub done : Bool
  pub owner_id : ℤ
  pub deal_id : ℤ
  pub person_id : ℤ
  pub organization_id : ℤ
  pub note : String

-- batchItemResult: `outcome` is the activity, or the error
pub data Outcome : Type 0 where
  created : NormalizedActivity → Outcome
  refused : Error → Outcome

pub record BatchItemResult : Type 0 where
  pub index : ℕ
  pub outcome : Outcome

pub record Batch : Type 0 where
  pub results : List BatchItemResult
  pub succeeded : ℕ
  pub failed : ℕ

abbrev pub batch_create_max : ℕ
batch_create_max = 100

unfoldable pub activity_create_body : ActivitiesCreateParams → Fields
unfolding set_if_non_zero set_if_non_zero_int
activity_create_body args =
    let texts = set_if_non_zero "duration" args.duration (
      set_if_non_zero "due_time" args.due_time (
        set_if_non_zero "due_date" args.due_date
          (set_if_non_zero "type" args.type (Fields.field "subject" (str args.subject) end)))) in
    let flagged = if args.done then insert "done" (bool true) texts else texts in
    set_if_non_zero "note" args.note (
      set_if_non_zero_int "org_id" args.organization_id (
        set_if_non_zero_int "person_id" args.person_id (
          set_if_non_zero_int "deal_id" args.deal_id
            (set_if_non_zero_int "owner_id" args.owner_id flagged))))

-- the counters, and append: the results of the later items come behind
unfoldable pub count_item : ℕ → Outcome → Batch → Batch
count_item i (created a) b = record {
  results = record { index = i; outcome = created a } ∷ b.results;
  succeeded = b.succeeded + 1;
  failed = b.failed;
}
count_item i (refused e) b = record {
  results = record { index = i; outcome = refused e } ∷ b.results;
  succeeded = b.succeeded;
  failed = b.failed + 1;
}

abbrev pub no_results : Batch
no_results = record { results = []; succeeded = 0; failed = 0 }

-- the loop's end or its next round, behind an item
unfoldable pub after_item : {Db : Type 0} → Bool → ℕ → Tool Db Batch → Outcome → Tool Db Batch
unfolding count_item
after_item stop i rest (created a) w =
    continue_with (rest w) (λ b. lift (ok (count_item i (created a) b)))
after_item true i rest (refused e) w = (w, ok (count_item i (refused e) no_results))
after_item false i rest (refused e) w =
    continue_with (rest w) (λ b. lift (ok (count_item i (refused e) b)))

module _ {Db : Type 0} (services : Services Db) (ctx_err : ℕ → Option Error) where
  abbrev pub outcome_of : Result Value → Outcome
  outcome_of (ok payload) = created (normalize_activity (extract_item_data payload).1)
  outcome_of (err e) = refused (wrap_api_error services e)

  -- one item: an error of this step ends the handler
  unfoldable pub create_unless : Client → ActivitiesCreateParams → Option Error → Tool Db Outcome
  unfolding request
  create_unless c item (some e) w = (w, err e)
  create_unless c item none w =
      if not (is_set item.subject)
      then (w, ok (refused (message "subject is required")))
      else continue_with
          (request services c ApiVersion.v2 "POST" "/activities" empty
            (some (obj (activity_create_body item))) w)
          (λ req w'. let (w'', r) = do_json services c req.0 true w' in (w'', ok (outcome_of r)))

  unfoldable pub batch_loop : Client → Bool → List ActivitiesCreateParams → ℕ → Tool Db Batch
  unfolding create_unless after_item
  batch_loop c stop [] i w = (w, ok no_results)
  batch_loop c stop (item ∷ more) i w =
      continue_with (create_unless c item (ctx_err w.now) w)
        (after_item stop i (λ w'. batch_loop c stop more (suc i) w'))

  -- invalidateActivitiesCache(client, 0)
  abbrev forget_activities : Client → World Db → World Db
  forget_activities c w =
      let (w', n) = invalidate_path services c ApiVersion.v2 "GET" "/activities" w in
      (invalidate_path services c ApiVersion.v1 "GET" "/activities" w').0

  unfoldable pub forget_if_created : Client → Batch → Tool Db Batch
  forget_if_created c b w = (if ltb 0 b.succeeded then forget_activities c w else w, ok b)

  -- activitiesBatchCreate
  unfoldable pub activities_batch_create :
      Context → List ActivitiesCreateParams → Bool → Tool Db (Reply Batch)
  unfolding batch_loop forget_if_created
  activities_batch_create ctx activities stop_on_error =
      gated ctx "pipedrive.activities.batch_create" guard_write (do
        lift (
            guard (not (is_empty activities)) (message "activities must contain at least one item"))
        lift (
            guard (not (ltb batch_create_max (length activities))) (
              message (
                "activities is limited to 100 items per call, got "
                ++ format_int (pos (length activities)))))
        c ← lift (client_or_error ctx.client)
        b ← batch_loop c stop_on_error activities 0
        forget_if_created c b)
