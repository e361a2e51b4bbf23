-- ===== src/Tools/Filters.antt =====
-- tools/filters.go: saved filters, of version 1 of the API.
use mathlib.Core.List.{List, [], ◌∷◌}
use mcp_pipedrive.Client.{ApiVersion}
use mcp_pipedrive.Tools.Common.{
  Tool, Context, Reply, lift, ◌>>=◌, client_or_error, gated, set_if_non_zero,
}
use mcp_pipedrive.Cache.{valid_cache_mode}
use mcp_pipedrive.Client.Exchange.{Services}
use mcp_pipedrive.Guard.{guard_read, guard_write}
use mcp_pipedrive.Normalize.Activity.{NormalizedFilter, normalize_filter, normalize_filter_list}
use mcp_pipedrive.Prelude.{Bool, String, ltb, some}
use mcp_pipedrive.Prelude.Int.{ℤ}
use mcp_pipedrive.Query.{empty, set_text}
use mcp_pipedrive.Result.{Result, guard, message, ok}
use mcp_pipedrive.Tools.Resource.{
  ShortReply, Write, Written, and_check, cached_read, check_id, filter_of, listed_short,
  resource_path, run_write, saved_reply, write_of,
}
use mcp_pipedrive.Validate.{require_id, require_one_of}
use mcp_pipedrive.Value.{Fields, Value, end, field, obj, size, str}

pub record FiltersListParams : Type 0 where
  pub type : String
  pub include_raw : Bool
  pub cache_mode : String

pub record FiltersCreateParams : Type 0 where
  pub name : String
  pub type : String
  pub conditions : Fields

pub record FiltersUpdateParams : Type 0 where
  pub id : ℤ
  pub name : String
  pub conditions : Fields

abbrev pub filter_types : List String
filter_types = "deals" ∷ "leads" ∷ "org" ∷ "people" ∷ "products" ∷ "activity" ∷ "projects" ∷ []

-- the three checks of filtersCreate
unfoldable pub check_filter : FiltersCreateParams → Result (Unit {0})
check_filter args = and_check (require_id args.name "name") (
    and_check (require_one_of args.type "type" filter_types) (
      guard (ltb 0 (size args.conditions))
        (message "conditions is required (Pipedrive glue tree, see tool description)")))

-- the two checks of filtersUpdate
unfoldable pub check_filter_update : FiltersUpdateParams → Result (Unit {0})
check_filter_update args = and_check (check_id args.id) (
    guard (ltb 0 (size args.conditions))
      (message ("conditions is required — the v1 PUT replaces the whole tree on every update")))

abbrev pub filters_outdated : List (ApiVersion × String)
filters_outdated = (ApiVersion.v1, "/filters") ∷ []

unfoldable pub filters_create_write : FiltersCreateParams → Write
unfolding check_filter
filters_create_write args =
    write_of filters_outdated ApiVersion.v1 "pipedrive.filters.create" guard_write
      (check_filter args) "POST" "/filters"
      (some (
        obj (
          field "name" (str args.name)
            (field "type" (str args.type) (field "conditions" (obj args.conditions) end)))))

unfoldable pub filters_update_write : FiltersUpdateParams → Write
unfolding check_filter_update set_if_non_zero
filters_update_write args =
    write_of filters_outdated ApiVersion.v1 "pipedrive.filters.update" guard_write
      (check_filter_update args) "PUT" (resource_path "/filters" args.id)
      (some (obj (set_if_non_zero "name" args.name (field "conditions" (obj args.conditions) end))))

abbrev pub saved_filter : Value → Written
saved_filter payload = saved_reply (λ m. filter_of (normalize_filter m)) payload

module _ {Db : Type 0} (services : Services Db) where
  -- filtersList
  unfoldable pub filters_list :
      Context → FiltersListParams → Tool Db (Reply (ShortReply NormalizedFilter))
  unfolding cached_read
  filters_list ctx args = gated ctx "pipedrive.filters.list" guard_read (do
    mode ← lift (valid_cache_mode args.cache_mode)
    c ← lift (client_or_error ctx.client)
    answer ←
        cached_read services c ApiVersion.v1 "/filters" (some (set_text "type" args.type empty))
          c.ttls.metadata mode
    lift (ok (listed_short normalize_filter_list args.include_raw answer)))

  -- filtersCreate
  unfoldable pub filters_create : Context → FiltersCreateParams → Tool Db (Reply Written)
  unfolding filters_create_write run_write
  filters_create ctx args = run_write services ctx (filters_create_write args) saved_filter

  -- filtersUpdate
  unfoldable pub filters_update : Context → FiltersUpdateParams → Tool Db (Reply Written)
  unfolding filters_update_write run_write
  filters_update ctx args = run_write services ctx (filters_update_write args) saved_filter
