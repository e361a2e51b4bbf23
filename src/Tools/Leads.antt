-- ===== src/Tools/Leads.antt =====
-- tools/leads.go: leads, which only version 1 of the API has, and whose ids are texts.
use mathlib.Core.List.{List, [], ◌∷◌}
use Prim.Native.String.{◌++◌}
use mcp_pipedrive.Client.{ApiVersion}
use mcp_pipedrive.Tools.Common.{
  Tool, Context, Reply, lift, ◌>>=◌, ◌>>◌, client_or_error, gated, extract_list_data, raw_if,
  set_if_non_zero, set_if_non_zero_int,
}
use mcp_pipedrive.Cache.{CacheMeta, valid_cache_mode}
use mcp_pipedrive.Client.Exchange.{Services}
use mcp_pipedrive.Float64.{Float64, float_is_zero}
use mcp_pipedrive.Guard.{GuardKind, guard_delete, guard_read, guard_write}
use mcp_pipedrive.Normalize.Lead.{NormalizedLead, normalize_lead, normalize_lead_list}
use mcp_pipedrive.Pagination.{add_v1_pagination, effective_limit}
use mcp_pipedrive.Prelude.{Bool, Option, String, if◌then◌else◌, map, none, not, some, ◌&&◌, ◌||◌}
use mcp_pipedrive.Prelude.Int.{is_zero, pos, ℤ}
use mcp_pipedrive.Prelude.Text.{is_set}
use mcp_pipedrive.Query.{Query, empty, set, set_id, set_text}
use mcp_pipedrive.Result.{Result, guard, message, ok}
use mcp_pipedrive.Tools.Resource.{
  FoundReply, ItemReply, Write, Written, after_query, cached_read, check_term, deleted_reply, found,
  got, has_fields, lead, run_write, saved_reply, set_flag, set_list, write_of, and_check,
}
use mcp_pipedrive.Validate.{require_id}
use mcp_pipedrive.Value.{Fields, Value, end, field, insert, num, obj, str}

pub record LeadsListParams : Type 0 where
  pub limit : ℤ
  pub start : ℤ
  pub owner_id : ℤ
  pub archived : Option Bool
  pub filter_id : ℤ
  pub include_raw : Bool
  pub cache_mode : String

pub record LeadsGetParams : Type 0 where
  pub id : String
  pub include_raw : Bool
  pub cache_mode : String

pub record LeadsSearchParams : Type 0 where
  pub term : String
  pub fields : String
  pub exact : Bool
  pub limit : ℤ
  pub cache_mode : String

pub record LeadsCreateParams : Type 0 where
  pub title : String
  pub owner_id : ℤ
  pub person_id : ℤ
  pub organization_id : ℤ
  pub value_amount : Float64
  pub value_currency : String
  pub expected_close_date : String
  pub label_ids : List String

pub record LeadsUpdateParams : Type 0 where
  pub id : String
  pub title : String
  pub owner_id : ℤ
  pub person_id : ℤ
  pub organization_id : ℤ
  pub value_amount : Option Float64
  pub value_currency : String
  pub expected_close_date : String
  pub label_ids : List String
  pub is_archived : Option Bool

pub record LeadsReply : Type 0 where
  pub leads : List NormalizedLead
  pub raw : Option Value
  pub limit : ℤ
  pub start : ℤ
  pub cache : Option CacheMeta

unfoldable pub archived_filter : Bool → String
archived_filter archived = if archived then "archived" else "not_archived"

set_archived : Option Bool → Query → Query
unfolding archived_filter
set_archived none q = q
set_archived (some archived) q = set "archived_status" (archived_filter archived) q

-- the query of leadsList
unfoldable pub leads_list_query : LeadsListParams → Result Query
unfolding set_archived
leads_list_query args = after_query (add_v1_pagination empty args.start args.limit) (λ q. ok (
    set_id "filter_id" args.filter_id
      (set_archived args.archived (set_id "owner_id" args.owner_id q))))

unfoldable pub leads_search_query : LeadsSearchParams → Result Query
leads_search_query args =
    add_v1_pagination
      (set_text "exact_match" (if args.exact then "true" else "")
        (set_text "fields" args.fields (set "term" args.term empty)))
      (pos 0) args.limit

unfoldable pub leads_create_body : LeadsCreateParams → Fields
unfolding set_if_non_zero set_if_non_zero_int
leads_create_body args =
    let linked = set_if_non_zero_int "organization_id" args.organization_id (
      set_if_non_zero_int "person_id" args.person_id
        (set_if_non_zero_int "owner_id" args.owner_id (field "title" (str args.title) end))) in
    let valued =
      if not (float_is_zero args.value_amount) || is_set args.value_currency
      then insert "value"
          (obj (
            field "amount" (num args.value_amount)
              (field "currency" (str args.value_currency) end)))
          linked
      else linked in
    set_list "label_ids" (map str args.label_ids)
      (set_if_non_zero "expected_close_date" args.expected_close_date valued)

-- the new value: what is given of its amount and its currency
new_value : Option Float64 → String → Fields → Fields
unfolding set_if_non_zero
new_value (some amount) currency m =
    insert "value" (obj (set_if_non_zero "currency" currency (field "amount" (num amount) end))) m
new_value none currency m =
    if is_set currency then insert "value" (obj (field "currency" (str currency) end)) m else m

unfoldable pub leads_update_body : LeadsUpdateParams → Fields
unfolding set_if_non_zero set_if_non_zero_int new_value
leads_update_body args = set_flag "is_archived" args.is_archived (
    set_list "label_ids" (map str args.label_ids) (
      set_if_non_zero "expected_close_date" args.expected_close_date (
        new_value args.value_amount args.value_currency (
          set_if_non_zero_int "organization_id" args.organization_id (
            set_if_non_zero_int "person_id" args.person_id (
              set_if_non_zero_int "owner_id" args.owner_id
                (set_if_non_zero "title" args.title end)))))))

-- "/leads/" + id, as it is given
abbrev pub lead_path : String → String
lead_path id = "/leads/" ++ id

-- the paths that invalidateLeadsCache drops, in order
unfoldable pub leads_outdated : String → List (ApiVersion × String)
leads_outdated id =
    let lists : List (ApiVersion × String) =
      (ApiVersion.v1, "/leads") ∷ (ApiVersion.v1, "/leads/search") ∷ [] in
    if is_set id then (ApiVersion.v1, lead_path id) ∷ lists else lists

abbrev pub leads_write :
    String → GuardKind → Result (Unit {0}) → String → String → String → Option Value → Write
leads_write tool_name kind checked id method path body =
    write_of (leads_outdated id) ApiVersion.v1 tool_name kind checked method path body

-- the two checks of leadsCreate
abbrev pub check_lead : LeadsCreateParams → Result (Unit {0})
check_lead args = and_check (require_id args.title "title") (
    guard (not (is_zero args.person_id && is_zero args.organization_id))
      (message "person_id or organization_id is required by Pipedrive to create a lead"))

unfoldable pub leads_create_write : LeadsCreateParams → Write
unfolding leads_create_body
leads_create_write args =
    leads_write "pipedrive.leads.create" guard_write (check_lead args) "" "POST" "/leads"
      (some (obj (leads_create_body args)))

unfoldable pub leads_update_write : LeadsUpdateParams → Write
unfolding leads_update_body
leads_update_write args =
    record (leads_write "pipedrive.leads.update" guard_write (require_id args.id "id") args.id
      "PATCH" (lead_path args.id) (some (obj (leads_update_body args)))) {
        body_checked = has_fields (leads_update_body args);
      }

unfoldable pub leads_delete_write : String → Write
leads_delete_write id =
    leads_write "pipedrive.leads.delete" guard_delete (require_id id "id") id "DELETE"
      (lead_path id) none

abbrev pub saved_lead : Value → Written
saved_lead payload = saved_reply (λ m. lead (normalize_lead m)) payload

module _ {Db : Type 0} (services : Services Db) where
  -- leadsList
  unfoldable pub leads_list : Context → LeadsListParams → Tool Db (Reply LeadsReply)
  unfolding leads_list_query cached_read extract_list_data
  leads_list ctx args = gated ctx "pipedrive.leads.list" guard_read (do
    mode ← lift (valid_cache_mode args.cache_mode)
    c ← lift (client_or_error ctx.client)
    q ← lift (leads_list_query args)
    answer ← cached_read services c ApiVersion.v1 "/leads" (some q) c.ttls.list mode
    let (raw, leads) = extract_list_data answer.1
    lift (
        ok (record {
          leads = normalize_lead_list leads;
          raw = raw_if args.include_raw raw;
          limit = effective_limit args.limit;
          start = args.start;
          cache = answer.0;
        })))

  -- leadsGet
  unfoldable pub leads_get : Context → LeadsGetParams → Tool Db (Reply (ItemReply NormalizedLead))
  unfolding cached_read
  leads_get ctx args = gated ctx "pipedrive.leads.get" guard_read (do
    lift (require_id args.id "id")
    mode ← lift (valid_cache_mode args.cache_mode)
    c ← lift (client_or_error ctx.client)
    answer ← cached_read services c ApiVersion.v1 (lead_path args.id) none c.ttls.deal mode
    lift (ok (got normalize_lead args.include_raw answer)))

  -- leadsSearch
  unfoldable pub leads_search : Context → LeadsSearchParams → Tool Db (Reply FoundReply)
  unfolding leads_search_query check_term cached_read
  leads_search ctx args = gated ctx "pipedrive.leads.search" guard_read (do
    lift (check_term args.term)
    mode ← lift (valid_cache_mode args.cache_mode)
    c ← lift (client_or_error ctx.client)
    q ← lift (leads_search_query args)
    answer ←
        cached_read services c ApiVersion.v1 "/leads/search" (some q) c.ttls.search_results mode
    lift (ok (found args.limit answer)))

  -- leadsCreate
  unfoldable pub leads_create : Context → LeadsCreateParams → Tool Db (Reply Written)
  unfolding leads_create_write run_write
  leads_create ctx args = run_write services ctx (leads_create_write args) saved_lead

  -- leadsUpdate
  unfoldable pub leads_update : Context → LeadsUpdateParams → Tool Db (Reply Written)
  unfolding leads_update_write run_write
  leads_update ctx args = run_write services ctx (leads_update_write args) saved_lead

  -- leadsDelete
  unfoldable pub leads_delete : Context → String → Tool Db (Reply Written)
  unfolding leads_delete_write run_write
  leads_delete ctx id = run_write services ctx (leads_delete_write id) (deleted_reply (str id))
