-- ===== src/Tools/Activities.antt =====
-- The handlers of tools/activities.go; what creates activities is shared with Tools.Batch.
use mathlib.Core.List.{List, [], ◌∷◌}
use mcp_pipedrive.Client.{ApiVersion}
use mcp_pipedrive.Tools.Common.{
  Tool, Context, Reply, lift, ◌>>=◌, ◌>>◌, client_or_error, gated, set_if_non_zero,
  set_if_non_zero_int,
}
use mcp_pipedrive.Cache.{valid_cache_mode}
use mcp_pipedrive.Client.Exchange.{Services}
use mcp_pipedrive.Guard.{GuardKind, guard_delete, guard_read, guard_write}
use mcp_pipedrive.Normalize.Activity.{
  NormalizedActivity, normalize_activity, normalize_activity_list,
}
use mcp_pipedrive.Pagination.{add_v2_pagination}
use mcp_pipedrive.Prelude.{Bool, Option, String, if◌then◌else◌, none, some}
use mcp_pipedrive.Prelude.Int.{is_positive, pos, ℤ}
use mcp_pipedrive.Query.{Query, empty, set_id, set_text}
use mcp_pipedrive.Result.{Result, ok}
use mcp_pipedrive.Tools.Batch.{ActivitiesCreateParams, activity_create_body}
use mcp_pipedrive.Tools.Resource.{
  ItemReply, ListReply, Write, Written, activity, after_query, cached_read, check_id, deleted_reply,
  got, has_fields, listed, resource_path, run_write, saved_reply, set_bool, set_flag, write_of,
}
use mcp_pipedrive.Validate.{require_id}
use mcp_pipedrive.Value.{Fields, Value, end, int64, obj}

pub record ActivitiesListParams : Type 0 where
  pub limit : ℤ
  pub cursor : String
  pub owner_id : ℤ
  pub deal_id : ℤ
  pub person_id : ℤ
  pub organization_id : ℤ
  pub done : Option Bool
  pub filter_id : ℤ
  pub due_date : String
  pub updated_since : String
  pub updated_until : String
  pub include_raw : Bool
  pub cache_mode : String

pub record ActivitiesGetParams : Type 0 where
  pub id : ℤ
  pub include_raw : Bool
  pub cache_mode : String

pub record ActivitiesUpdateParams : Type 0 where
  pub id : ℤ
  pub subject : String
  pub type : String
  pub due_date : String
  pub due_time : String
  pub duration : String
  pub done : Option Bool
  pub owner_id : ℤ
  pub deal_id : ℤ
  pub person_id : ℤ
  pub organization_id : ℤ
  pub note : String

-- the query of activitiesList
unfoldable pub activities_list_query : ActivitiesListParams → Result Query
activities_list_query args = after_query (add_v2_pagination empty args.limit args.cursor) (λ q. ok (
    set_text "updated_until" args.updated_until (
      set_text "updated_since" args.updated_since (
        set_text "due_date" args.due_date (
          set_id "filter_id" args.filter_id (
            set_bool "done" args.done (
              set_id "org_id" args.organization_id (
                set_id "person_id" args.person_id
                  (set_id "deal_id" args.deal_id (set_id "owner_id" args.owner_id q))))))))))

unfoldable pub activities_update_body : ActivitiesUpdateParams → Fields
unfolding set_if_non_zero set_if_non_zero_int
activities_update_body args = set_if_non_zero "note" args.note (
    set_if_non_zero_int "org_id" args.organization_id (
      set_if_non_zero_int "person_id" args.person_id (
        set_if_non_zero_int "deal_id" args.deal_id (
          set_if_non_zero_int "owner_id" args.owner_id (
            set_flag "done" args.done (
              set_if_non_zero "duration" args.duration (
                set_if_non_zero "due_time" args.due_time (
                  set_if_non_zero "due_date" args.due_date (
                    set_if_non_zero "type" args.type
                      (set_if_non_zero "subject" args.subject end))))))))))

-- the paths that invalidateActivitiesCache drops, in order
unfoldable pub activities_outdated : ℤ → List (ApiVersion × String)
activities_outdated id =
    let lists : List (ApiVersion × String) =
      (ApiVersion.v2, "/activities") ∷ (ApiVersion.v1, "/activities") ∷ [] in
    if is_positive id
    then (ApiVersion.v2, resource_path "/activities" id)
      ∷ (ApiVersion.v1, resource_path "/activities" id)
      ∷ lists
    else lists

abbrev pub activities_write :
    String → GuardKind → Result (Unit {0}) → ℤ → String → String → Option Value → Write
activities_write tool_name kind checked id method path body =
    write_of (activities_outdated id) ApiVersion.v2 tool_name kind checked method path body

unfoldable pub activities_create_write : ActivitiesCreateParams → Write
unfolding activity_create_body
activities_create_write args =
    activities_write "pipedrive.activities.create" guard_write (require_id args.subject "subject")
      (pos 0) "POST" "/activities" (some (obj (activity_create_body args)))

unfoldable pub activities_update_write : ActivitiesUpdateParams → Write
unfolding activities_update_body
activities_update_write args =
    record (activities_write "pipedrive.activities.update" guard_write (check_id args.id) args.id
      "PATCH" (resource_path "/activities" args.id) (some (obj (activities_update_body args)))) {
        body_checked = has_fields (activities_update_body args);
      }

unfoldable pub activities_delete_write : ℤ → Write
activities_delete_write id =
    activities_write "pipedrive.activities.delete" guard_delete (check_id id) id "DELETE"
      (resource_path "/activities" id) none

abbrev pub saved_activity : Value → Written
saved_activity payload = saved_reply (λ m. activity (normalize_activity m)) payload

module _ {Db : Type 0} (services : Services Db) where
  -- activitiesList
  unfoldable pub activities_list :
      Context → ActivitiesListParams → Tool Db (Reply (ListReply NormalizedActivity))
  unfolding activities_list_query cached_read
  activities_list ctx args = gated ctx "pipedrive.activities.list" guard_read (do
    mode ← lift (valid_cache_mode args.cache_mode)
    c ← lift (client_or_error ctx.client)
    q ← lift (activities_list_query args)
    answer ← cached_read services c ApiVersion.v2 "/activities" (some q) c.ttls.activity mode
    lift (ok (listed normalize_activity_list args.include_raw args.limit answer)))

  -- activitiesGet
  unfoldable pub activities_get :
      Context → ActivitiesGetParams → Tool Db (Reply (ItemReply NormalizedActivity))
  unfolding cached_read
  activities_get ctx args = gated ctx "pipedrive.activities.get" guard_read (do
    lift (check_id args.id)
    mode ← lift (valid_cache_mode args.cache_mode)
    c ← lift (client_or_error ctx.client)
    answer ←
        cached_read services c ApiVersion.v2 (resource_path "/activities" args.id) none
          c.ttls.activity mode
    lift (ok (got normalize_activity args.include_raw answer)))

  -- activitiesCreate
  unfoldable pub activities_create : Context → ActivitiesCreateParams → Tool Db (Reply Written)
  unfolding activities_create_write run_write
  activities_create ctx args = run_write services ctx (activities_create_write args) saved_activity

  -- activitiesUpdate
  unfoldable pub activities_update : Context → ActivitiesUpdateParams → Tool Db (Reply Written)
  unfolding activities_update_write run_write
  activities_update ctx args = run_write services ctx (activities_update_write args) saved_activity

  -- activitiesDelete
  unfoldable pub activities_delete : Context → ℤ → Tool Db (Reply Written)
  unfolding activities_delete_write run_write
  activities_delete ctx id =
      run_write services ctx (activities_delete_write id) (deleted_reply (int64 id))
