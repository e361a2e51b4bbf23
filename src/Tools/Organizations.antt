-- ===== src/Tools/Organizations.antt =====
-- tools/organizations.go.
use mathlib.Core.List.{List}
use mcp_pipedrive.Client.{ApiVersion}
use mcp_pipedrive.Tools.Common.{
  Tool, Context, Reply, lift, ◌>>=◌, ◌>>◌, client_or_error, gated, set_if_non_zero,
  set_if_non_zero_int,
}
use mcp_pipedrive.Cache.{valid_cache_mode}
use mcp_pipedrive.Client.Exchange.{Services}
use mcp_pipedrive.Guard.{GuardKind, guard_delete, guard_read, guard_write}
use mcp_pipedrive.Normalize.Person.{
  NormalizedOrganization, normalize_organization, normalize_organization_list,
}
use mcp_pipedrive.Pagination.{add_v2_pagination}
use mcp_pipedrive.Prelude.{Bool, Option, String, if◌then◌else◌, none, some}
use mcp_pipedrive.Prelude.Int.{pos, ℤ}
use mcp_pipedrive.Query.{Query, empty, set, set_id, set_text}
use mcp_pipedrive.Result.{Result, ok}
use mcp_pipedrive.Tools.Resource.{
  FoundReply, ItemReply, ListReply, Write, Written, cached_read, check_id, check_term,
  deleted_reply, found, got, has_fields, listed, organization, resource_path, run_write,
  saved_reply, set_custom_fields, stale_paths, write_of, after_query,
}
use mcp_pipedrive.Validate.{require_id}
use mcp_pipedrive.Value.{Fields, Value, end, field, int64, obj, str}

pub record OrganizationsListParams : Type 0 where
  pub limit : ℤ
  pub cursor : String
  pub owner_id : ℤ
  pub filter_id : ℤ
  pub updated_since : String
  pub updated_until : String
  pub include_raw : Bool
  pub cache_mode : String

pub record OrganizationsGetParams : Type 0 where
  pub id : ℤ
  pub include_raw : Bool
  pub cache_mode : String

pub record OrganizationsSearchParams : Type 0 where
  pub term : String
  pub fields : String
  pub exact : Bool
  pub limit : ℤ
  pub cache_mode : String

pub record OrganizationsCreateParams : Type 0 where
  pub name : String
  pub owner_id : ℤ
  pub address : String
  pub custom_fields : Fields

pub record OrganizationsUpdateParams : Type 0 where
  pub id : ℤ
  pub name : String
  pub owner_id : ℤ
  pub address : String
  pub custom_fields : Fields

-- the query of organizationsList
unfoldable pub organizations_list_query : OrganizationsListParams → Result Query
organizations_list_query args = after_query (add_v2_pagination empty args.limit args.cursor) (λ q.
    ok (
      set_text "updated_until" args.updated_until (
        set_text "updated_since" args.updated_since
          (set_id "filter_id" args.filter_id (set_id "owner_id" args.owner_id q)))))

unfoldable pub organizations_search_query : OrganizationsSearchParams → Result Query
organizations_search_query args =
    add_v2_pagination
      (set_text "exact_match" (if args.exact then "true" else "")
        (set_text "fields" args.fields (set "term" args.term empty)))
      args.limit ""

unfoldable pub organizations_create_body : OrganizationsCreateParams → Fields
unfolding set_if_non_zero set_if_non_zero_int
organizations_create_body args = set_custom_fields args.custom_fields (
    set_if_non_zero "address" args.address
      (set_if_non_zero_int "owner_id" args.owner_id (field "name" (str args.name) end)))

unfoldable pub organizations_update_body : OrganizationsUpdateParams → Fields
unfolding set_if_non_zero set_if_non_zero_int
organizations_update_body args = set_custom_fields args.custom_fields (
    set_if_non_zero "address" args.address
      (set_if_non_zero_int "owner_id" args.owner_id (set_if_non_zero "name" args.name end)))

-- the paths that invalidateOrganizationsCache drops, in order
unfoldable pub organizations_outdated : ℤ → List (ApiVersion × String)
organizations_outdated id = stale_paths "/organizations" id

abbrev pub organizations_write :
    String → GuardKind → Result (Unit {0}) → ℤ → String → String → Option Value → Write
organizations_write tool_name kind checked id method path body =
    write_of (organizations_outdated id) ApiVersion.v2 tool_name kind checked method path body

unfoldable pub organizations_create_write : OrganizationsCreateParams → Write
unfolding organizations_create_body
organizations_create_write args =
    organizations_write "pipedrive.organizations.create" guard_write (require_id args.name "name")
      (pos 0) "POST" "/organizations" (some (obj (organizations_create_body args)))

unfoldable pub organizations_update_write : OrganizationsUpdateParams → Write
unfolding organizations_update_body
organizations_update_write args =
    record (organizations_write "pipedrive.organizations.update" guard_write (check_id args.id)
      args.id "PATCH" (resource_path "/organizations" args.id)
      (some (obj (organizations_update_body args)))) {
        body_checked = has_fields (organizations_update_body args);
      }

unfoldable pub organizations_delete_write : ℤ → Write
organizations_delete_write id =
    organizations_write "pipedrive.organizations.delete" guard_delete (check_id id) id "DELETE"
      (resource_path "/organizations" id) none

abbrev pub saved_organization : Value → Written
saved_organization payload = saved_reply (λ m. organization (normalize_organization m)) payload

module _ {Db : Type 0} (services : Services Db) where
  -- organizationsList
  unfoldable pub organizations_list :
      Context → OrganizationsListParams → Tool Db (Reply (ListReply NormalizedOrganization))
  unfolding organizations_list_query cached_read
  organizations_list ctx args = gated ctx "pipedrive.organizations.list" guard_read (do
    mode ← lift (valid_cache_mode args.cache_mode)
    c ← lift (client_or_error ctx.client)
    q ← lift (organizations_list_query args)
    answer ← cached_read services c ApiVersion.v2 "/organizations" (some q) c.ttls.list mode
    lift (ok (listed normalize_organization_list args.include_raw args.limit answer)))

  -- organizationsGet
  unfoldable pub organizations_get :
      Context → OrganizationsGetParams → Tool Db (Reply (ItemReply NormalizedOrganization))
  unfolding cached_read
  organizations_get ctx args = gated ctx "pipedrive.organizations.get" guard_read (do
    lift (check_id args.id)
    mode ← lift (valid_cache_mode args.cache_mode)
    c ← lift (client_or_error ctx.client)
    answer ←
        cached_read services c ApiVersion.v2 (resource_path "/organizations" args.id) none
          c.ttls.organization mode
    lift (ok (got normalize_organization args.include_raw answer)))

  -- organizationsSearch
  unfoldable pub organizations_search :
      Context → OrganizationsSearchParams → Tool Db (Reply FoundReply)
  unfolding organizations_search_query check_term cached_read
  organizations_search ctx args = gated ctx "pipedrive.organizations.search" guard_read (do
    lift (check_term args.term)
    mode ← lift (valid_cache_mode args.cache_mode)
    c ← lift (client_or_error ctx.client)
    q ← lift (organizations_search_query args)
    answer ←
        cached_read services c ApiVersion.v2 "/organizations/search" (some q) c.ttls.search_results
          mode
    lift (ok (found args.limit answer)))

  -- organizationsCreate
  unfoldable pub organizations_create :
      Context → OrganizationsCreateParams → Tool Db (Reply Written)
  unfolding organizations_create_write run_write
  organizations_create ctx args =
      run_write services ctx (organizations_create_write args) saved_organization

  -- organizationsUpdate
  unfoldable pub organizations_update :
      Context → OrganizationsUpdateParams → Tool Db (Reply Written)
  unfolding organizations_update_write run_write
  organizations_update ctx args =
      run_write services ctx (organizations_update_write args) saved_organization

  -- organizationsDelete
  unfoldable pub organizations_delete : Context → ℤ → Tool Db (Reply Written)
  unfolding organizations_delete_write run_write
  organizations_delete ctx id =
      run_write services ctx (organizations_delete_write id) (deleted_reply (int64 id))
