-- ===== src/Tools/Deals/Write.antt =====
-- dealsCreate, dealsUpdate, dealsDelete and dealsSetArchived of tools/deals.go.
use mathlib.Core.List.{List}
use mcp_pipedrive.Client.{ApiVersion}
use mcp_pipedrive.Tools.Common.{
  Tool, Context, Reply, set_if_non_zero, set_if_non_zero_float, set_if_non_zero_int,
}
use mcp_pipedrive.Tools.Deals.{DealsCreateParams, DealsUpdateParams, deal_path, deals_outdated}
use mcp_pipedrive.Client.Exchange.{Services}
use mcp_pipedrive.Float64.{Float64}
use mcp_pipedrive.Guard.{guard_delete, guard_write, GuardKind}
use mcp_pipedrive.Normalize.Deal.{normalize_deal}
use mcp_pipedrive.Prelude.{Bool, Option, String, false, map, none, some, true}
use mcp_pipedrive.Prelude.Int.{pos, ℤ}
use mcp_pipedrive.Result.{Result}
use mcp_pipedrive.Validate.{require_id}
use mcp_pipedrive.Value.{
  Fields, Value, arr, bool, end, field, insert, int64, num, obj, of_list, str,
}
use mcp_pipedrive.Tools.Resource.{
  set_custom_fields, Write, Written, deal, deleted_reply, has_fields, run_write, saved_reply,
  check_id, write_of,
}

abbrev set_value : Option Float64 → Fields → Fields
set_value none m = m
set_value (some v) m = insert "value" (num v) m

abbrev set_label_ids : Option (List ℤ) → Fields → Fields
set_label_ids none m = m
set_label_ids (some ids) m = insert "label_ids" (arr (of_list (map int64 ids))) m

unfoldable pub deals_create_body : DealsCreateParams → Fields
unfolding set_if_non_zero set_if_non_zero_int set_if_non_zero_float
deals_create_body args = set_custom_fields args.custom_fields (
    set_if_non_zero "status" args.status (
      set_if_non_zero_int "stage_id" args.stage_id (
        set_if_non_zero_int "pipeline_id" args.pipeline_id (
          set_if_non_zero_int "org_id" args.organization_id (
            set_if_non_zero_int "person_id" args.person_id (
              set_if_non_zero_int "owner_id" args.owner_id (
                set_if_non_zero "currency" args.currency (
                  set_if_non_zero_float "value" args.value
                    (field "title" (str args.title) end)))))))))

unfoldable pub deals_update_body : DealsUpdateParams → Fields
unfolding set_if_non_zero set_if_non_zero_int
deals_update_body args = set_label_ids args.label_ids (
    set_custom_fields args.custom_fields (
      set_if_non_zero "status" args.status (
        set_if_non_zero_int "stage_id" args.stage_id (
          set_if_non_zero_int "pipeline_id" args.pipeline_id (
            set_if_non_zero_int "org_id" args.organization_id (
              set_if_non_zero_int "person_id" args.person_id (
                set_if_non_zero_int "owner_id" args.owner_id (
                  set_if_non_zero "currency" args.currency
                    (set_value args.value (set_if_non_zero "title" args.title end))))))))))

abbrev pub deals_write :
    String → GuardKind → Result (Unit {0}) → ℤ → String → String → Option Value → Write
deals_write tool_name kind checked id method path body =
    write_of (deals_outdated id) ApiVersion.v2 tool_name kind checked method path body

unfoldable pub archive_write : String → ℤ → Bool → Write
archive_write name id archived =
    deals_write name guard_write (check_id id) id "PATCH" (deal_path id)
      (some (obj (field "is_archived" (bool archived) end)))

unfoldable pub deals_create_write : DealsCreateParams → Write
unfolding deals_create_body
deals_create_write args =
    deals_write "pipedrive.deals.create" guard_write (require_id args.title "title") (pos 0) "POST"
      "/deals" (some (obj (deals_create_body args)))

unfoldable pub deals_update_write : DealsUpdateParams → Write
unfolding deals_update_body
deals_update_write args =
    record (deals_write "pipedrive.deals.update" guard_write (check_id args.id) args.id "PATCH"
      (deal_path args.id) (some (obj (deals_update_body args)))) {
        body_checked = has_fields (deals_update_body args);
      }

unfoldable pub deals_delete_write : ℤ → Write
deals_delete_write id =
    deals_write "pipedrive.deals.delete" guard_delete (check_id id) id "DELETE" (deal_path id) none

abbrev pub saved_deal : Value → Written
saved_deal payload = saved_reply (λ m. deal (normalize_deal m)) payload

module _ {Db : Type 0} (services : Services Db) where
  -- dealsCreate
  unfoldable pub deals_create : Context → DealsCreateParams → Tool Db (Reply Written)
  unfolding deals_create_write run_write
  deals_create ctx args = run_write services ctx (deals_create_write args) saved_deal

  -- dealsUpdate
  unfoldable pub deals_update : Context → DealsUpdateParams → Tool Db (Reply Written)
  unfolding deals_update_write run_write
  deals_update ctx args = run_write services ctx (deals_update_write args) saved_deal

  -- dealsDelete
  unfoldable pub deals_delete : Context → ℤ → Tool Db (Reply Written)
  unfolding deals_delete_write run_write
  deals_delete ctx id = run_write services ctx (deals_delete_write id) (deleted_reply (int64 id))

  -- dealsSetArchived
  unfoldable pub deals_set_archived : Context → String → ℤ → Bool → Tool Db (Reply Written)
  unfolding archive_write run_write
  deals_set_archived ctx tool_name id archived =
      run_write services ctx (archive_write tool_name id archived) saved_deal

  -- dealsArchive, dealsUnarchive
  unfoldable pub deals_archive : Context → ℤ → Tool Db (Reply Written)
  unfolding deals_set_archived
  deals_archive ctx id = deals_set_archived ctx "pipedrive.deals.archive" id true

  unfoldable pub deals_unarchive : Context → ℤ → Tool Db (Reply Written)
  unfolding deals_set_archived
  deals_unarchive ctx id = deals_set_archived ctx "pipedrive.deals.unarchive" id false
