-- ===== src/Tools/Deals/Read.antt =====
-- dealsList, dealsGet and dealsSearch of tools/deals.go.
use mathlib.Core.List.{List, [], ◌∷◌}
use mcp_pipedrive.Client.{Client, ApiVersion}
use mcp_pipedrive.Tools.Common.{
  Tool, Context, Reply, lift, ◌>>=◌, ◌>>◌, client_or_error, extract_item_data, extract_list_data,
  extract_next_cursor, gated, get_cached, raw_if, request,
}
use mcp_pipedrive.Tools.Deals.{DealsListParams, DealsGetParams, DealsSearchParams, deal_path}
use mcp_pipedrive.Cache.{CacheMeta, valid_cache_mode}
use mcp_pipedrive.Client.Exchange.{Services}
use mcp_pipedrive.Client.Key.{cache_key}
use mcp_pipedrive.Guard.{guard_read}
use mcp_pipedrive.Mask.{mask_sensitive}
use mcp_pipedrive.Normalize.Deal.{NormalizedDeal, normalize_deal, normalize_deal_list}
use mcp_pipedrive.Pagination.{add_v2_pagination, effective_limit}
use mcp_pipedrive.Prelude.{Option, String, if◌then◌else◌, none, not, some}
use mcp_pipedrive.Prelude.Int.{is_positive, ℤ}
use mcp_pipedrive.Prelude.Text.{is_set}
use mcp_pipedrive.Query.{Query, empty, set, set_id, set_text}
use mcp_pipedrive.Result.{Result, err, guard, ok}
use mcp_pipedrive.Validate.{require_one_of}
use mcp_pipedrive.Value.{Value}
use mcp_pipedrive.Tools.Resource.{check_term, id_required, after_query}

pub record DealReply : Type 0 where
  pub deal : NormalizedDeal
  pub raw : Option Value
  pub cache : Option CacheMeta

pub record DealsReply : Type 0 where
  pub deals : List NormalizedDeal
  pub raw : Option Value
  pub limit : ℤ
  pub cache : Option CacheMeta
  pub next_cursor : String

pub record SearchReply : Type 0 where
  pub results : Value
  pub cache : Option CacheMeta
  pub limit : ℤ

abbrev allowed_value : Result (Unit {0}) → Query → Result Query
allowed_value (err e) q = err e
allowed_value (ok u) q = ok q

-- the sort parameters, which must be one of a few
set_one_of : String → String → List String → Query → Result Query
set_one_of k v allowed q =
    if not (is_set v) then ok q else allowed_value (require_one_of v k allowed) (set k v q)

-- the query of dealsList
unfoldable pub deals_list_query : DealsListParams → Result Query
unfolding set_one_of
deals_list_query args = after_query (add_v2_pagination empty args.limit args.cursor) (λ q.
    after_query
      (set_one_of "sort_by" args.sort_by ("id" ∷ "update_time" ∷ "add_time" ∷ []) (
        set_text "updated_until" args.updated_until (
          set_text "updated_since" args.updated_since (
            set_id "filter_id" args.filter_id (
              set_id "stage_id" args.stage_id (
                set_id "pipeline_id" args.pipeline_id
                  (set_id "owner_id" args.owner_id (set_text "status" args.status q))))))))
      (set_one_of "sort_direction" args.sort_direction ("asc" ∷ "desc" ∷ [])))

unfoldable pub deals_path : DealsListParams → String
deals_path args = elim args.is_archived [
  | none ↦ "/deals"
  | some archived ↦ if archived then "/deals/archived" else "/deals"
]

unfoldable pub deals_search_query : DealsSearchParams → Result Query
deals_search_query args =
    add_v2_pagination
      (set_text "exact_match" (if args.exact then "true" else "") (
        set_text "status" args.status (set_text "fields" args.fields (set "term" args.term empty))))
      args.limit ""

module _ {Db : Type 0} (services : Services Db) where
  abbrev key_for : Client → String → Query → String
  key_for c path q =
      cache_key services.sha256_hex services.marshal c ApiVersion.v2 "GET" path q none

  unfoldable pub deals_list : Context → DealsListParams → Tool Db (Reply DealsReply)
  unfolding deals_list_query deals_path request get_cached
  deals_list ctx args = gated ctx "pipedrive.deals.list" guard_read (do
    mode ← lift (valid_cache_mode args.cache_mode)
    c ← lift (client_or_error ctx.client)
    q ← lift (deals_list_query args)
    req ← request services c ApiVersion.v2 "GET" (deals_path args) q none
    answer ← get_cached services c req.0 (key_for c (deals_path args) req.1) c.ttls.list mode
    let (raw, deals) = extract_list_data answer.1
    lift (
        ok (record {
          deals = normalize_deal_list deals;
          raw = raw_if args.include_raw raw;
          limit = effective_limit args.limit;
          cache = answer.0;
          next_cursor = extract_next_cursor raw;
        })))

  unfoldable pub deals_get : Context → DealsGetParams → Tool Db (Reply DealReply)
  unfolding request get_cached
  deals_get ctx args = gated ctx "pipedrive.deals.get" guard_read (do
    lift (guard (is_positive args.id) id_required)
    mode ← lift (valid_cache_mode args.cache_mode)
    c ← lift (client_or_error ctx.client)
    req ← request services c ApiVersion.v2 "GET" (deal_path args.id) empty none
    answer ← get_cached services c req.0 (key_for c (deal_path args.id) empty) c.ttls.deal mode
    let (raw, deal) = extract_item_data answer.1
    lift (
        ok (record {
          deal = normalize_deal deal;
          raw = raw_if args.include_raw raw;
          cache = answer.0;
        })))

  unfoldable pub deals_search : Context → DealsSearchParams → Tool Db (Reply SearchReply)
  unfolding deals_search_query check_term request get_cached
  deals_search ctx args = gated ctx "pipedrive.deals.search" guard_read (do
    lift (check_term args.term)
    mode ← lift (valid_cache_mode args.cache_mode)
    c ← lift (client_or_error ctx.client)
    q ← lift (deals_search_query args)
    req ← request services c ApiVersion.v2 "GET" "/deals/search" q none
    answer ←
        get_cached services c req.0 (key_for c "/deals/search" req.1) c.ttls.search_results mode
    lift (
        ok (record {
          results = mask_sensitive answer.1;
          cache = answer.0;
          limit = effective_limit args.limit;
        })))
