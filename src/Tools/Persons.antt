-- ===== src/Tools/Persons.antt =====
-- tools/persons.go.
use mathlib.Core.List.{List}
use mcp_pipedrive.Client.{ApiVersion}
use mcp_pipedrive.Tools.Common.{
  Tool, Context, Reply, lift, ◌>>=◌, ◌>>◌, client_or_error, gated, set_if_non_zero,
  set_if_non_zero_int,
}
use mcp_pipedrive.Cache.{valid_cache_mode}
use mcp_pipedrive.Client.Exchange.{Services}
use mcp_pipedrive.Guard.{GuardKind, guard_delete, guard_read, guard_write}
use mcp_pipedrive.Normalize.Person.{
  Contact, NormalizedPerson, normalize_person, normalize_person_list,
}
use mcp_pipedrive.Pagination.{add_v2_pagination}
use mcp_pipedrive.Prelude.{Bool, Option, String, if◌then◌else◌, map, none, some, true}
use mcp_pipedrive.Prelude.Int.{pos, ℤ}
use mcp_pipedrive.Query.{Query, empty, set, set_id, set_text}
use mcp_pipedrive.Result.{Result, ok}
use mcp_pipedrive.Tools.Resource.{
  FoundReply, ItemReply, ListReply, Write, Written, cached_read, check_id, check_term,
  deleted_reply, found, got, has_fields, listed, person, resource_path, run_write, saved_reply,
  set_custom_fields, set_list, stale_paths, write_of, after_query,
}
use mcp_pipedrive.Validate.{require_id}
use mcp_pipedrive.Value.{Fields, Value, bool, end, field, insert, int64, obj, str}

pub record PersonsListParams : Type 0 where
  pub limit : ℤ
  pub cursor : String
  pub owner_id : ℤ
  pub organization_id : ℤ
  pub filter_id : ℤ
  pub updated_since : String
  pub updated_until : String
  pub include_raw : Bool
  pub cache_mode : String

pub record PersonsGetParams : Type 0 where
  pub id : ℤ
  pub include_raw : Bool
  pub cache_mode : String

pub record PersonsSearchParams : Type 0 where
  pub term : String
  pub fields : String
  pub exact : Bool
  pub organization_id : ℤ
  pub limit : ℤ
  pub cache_mode : String

pub record PersonsCreateParams : Type 0 where
  pub name : String
  pub emails : List Contact
  pub phones : List Contact
  pub owner_id : ℤ
  pub organization_id : ℤ
  pub custom_fields : Fields

pub record PersonsUpdateParams : Type 0 where
  pub id : ℤ
  pub name : String
  pub emails : List Contact
  pub phones : List Contact
  pub owner_id : ℤ
  pub organization_id : ℤ
  pub custom_fields : Fields

-- the JSON of a Contact; an empty label and a false flag are left out
contact_value : Contact → Value
unfolding set_if_non_zero
contact_value contact =
    let texts = set_if_non_zero "label" contact.label (field "value" (str contact.value) end) in
    obj (if contact.primary then insert "primary" (bool true) texts else texts)

-- the query of personsList
unfoldable pub persons_list_query : PersonsListParams → Result Query
persons_list_query args = after_query (add_v2_pagination empty args.limit args.cursor) (λ q. ok (
    set_text "updated_until" args.updated_until (
      set_text "updated_since" args.updated_since (
        set_id "filter_id" args.filter_id
          (set_id "org_id" args.organization_id (set_id "owner_id" args.owner_id q))))))

unfoldable pub persons_search_query : PersonsSearchParams → Result Query
persons_search_query args =
    add_v2_pagination
      (set_id "organization_id" args.organization_id (
        set_text "exact_match" (if args.exact then "true" else "")
          (set_text "fields" args.fields (set "term" args.term empty))))
      args.limit ""

unfoldable pub persons_create_body : PersonsCreateParams → Fields
unfolding set_if_non_zero set_if_non_zero_int contact_value
persons_create_body args = set_custom_fields args.custom_fields (
    set_if_non_zero_int "org_id" args.organization_id (
      set_if_non_zero_int "owner_id" args.owner_id (
        set_list "phones" (map contact_value args.phones)
          (set_list "emails" (map contact_value args.emails) (field "name" (str args.name) end)))))

unfoldable pub persons_update_body : PersonsUpdateParams → Fields
unfolding set_if_non_zero set_if_non_zero_int contact_value
persons_update_body args = set_custom_fields args.custom_fields (
    set_if_non_zero_int "org_id" args.organization_id (
      set_if_non_zero_int "owner_id" args.owner_id (
        set_list "phones" (map contact_value args.phones) (
          set_list "emails" (map contact_value args.emails)
            (set_if_non_zero "name" args.name end)))))

-- the paths that invalidatePersonsCache drops, in order
unfoldable pub persons_outdated : ℤ → List (ApiVersion × String)
persons_outdated id = stale_paths "/persons" id

abbrev pub persons_write :
    String → GuardKind → Result (Unit {0}) → ℤ → String → String → Option Value → Write
persons_write tool_name kind checked id method path body =
    write_of (persons_outdated id) ApiVersion.v2 tool_name kind checked method path body

unfoldable pub persons_create_write : PersonsCreateParams → Write
unfolding persons_create_body
persons_create_write args =
    persons_write "pipedrive.persons.create" guard_write (require_id args.name "name") (pos 0)
      "POST" "/persons" (some (obj (persons_create_body args)))

unfoldable pub persons_update_write : PersonsUpdateParams → Write
unfolding persons_update_body
persons_update_write args =
    record (persons_write "pipedrive.persons.update" guard_write (check_id args.id) args.id "PATCH"
      (resource_path "/persons" args.id) (some (obj (persons_update_body args)))) {
        body_checked = has_fields (persons_update_body args);
      }

unfoldable pub persons_delete_write : ℤ → Write
persons_delete_write id =
    persons_write "pipedrive.persons.delete" guard_delete (check_id id) id "DELETE"
      (resource_path "/persons" id) none

abbrev pub saved_person : Value → Written
saved_person payload = saved_reply (λ m. person (normalize_person m)) payload

module _ {Db : Type 0} (services : Services Db) where
  -- personsList
  unfoldable pub persons_list :
      Context → PersonsListParams → Tool Db (Reply (ListReply NormalizedPerson))
  unfolding persons_list_query cached_read
  persons_list ctx args = gated ctx "pipedrive.persons.list" guard_read (do
    mode ← lift (valid_cache_mode args.cache_mode)
    c ← lift (client_or_error ctx.client)
    q ← lift (persons_list_query args)
    answer ← cached_read services c ApiVersion.v2 "/persons" (some q) c.ttls.list mode
    lift (ok (listed normalize_person_list args.include_raw args.limit answer)))

  -- personsGet
  unfoldable pub persons_get :
      Context → PersonsGetParams → Tool Db (Reply (ItemReply NormalizedPerson))
  unfolding cached_read
  persons_get ctx args = gated ctx "pipedrive.persons.get" guard_read (do
    lift (check_id args.id)
    mode ← lift (valid_cache_mode args.cache_mode)
    c ← lift (client_or_error ctx.client)
    answer ←
        cached_read services c ApiVersion.v2 (resource_path "/persons" args.id) none c.ttls.person
          mode
    lift (ok (got normalize_person args.include_raw answer)))

  -- personsSearch
  unfoldable pub persons_search : Context → PersonsSearchParams → Tool Db (Reply FoundReply)
  unfolding persons_search_query check_term cached_read
  persons_search ctx args = gated ctx "pipedrive.persons.search" guard_read (do
    lift (check_term args.term)
    mode ← lift (valid_cache_mode args.cache_mode)
    c ← lift (client_or_error ctx.client)
    q ← lift (persons_search_query args)
    answer ←
        cached_read services c ApiVersion.v2 "/persons/search" (some q) c.ttls.search_results mode
    lift (ok (found args.limit answer)))

  -- personsCreate
  unfoldable pub persons_create : Context → PersonsCreateParams → Tool Db (Reply Written)
  unfolding persons_create_write run_write
  persons_create ctx args = run_write services ctx (persons_create_write args) saved_person

  -- personsUpdate
  unfoldable pub persons_update : Context → PersonsUpdateParams → Tool Db (Reply Written)
  unfolding persons_update_write run_write
  persons_update ctx args = run_write services ctx (persons_update_write args) saved_person

  -- personsDelete
  unfoldable pub persons_delete : Context → ℤ → Tool Db (Reply Written)
  unfolding persons_delete_write run_write
  persons_delete ctx id =
      run_write services ctx (persons_delete_write id) (deleted_reply (int64 id))
