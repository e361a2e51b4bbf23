-- ===== src/Tools/Products.antt =====
-- tools/products.go.
use mathlib.Core.List.{List}
use mcp_pipedrive.Client.{ApiVersion}
use mcp_pipedrive.Tools.Common.{
  Tool, Context, Reply, lift, ◌>>=◌, ◌>>◌, client_or_error, gated, set_if_non_zero,
  set_if_non_zero_float, set_if_non_zero_int,
}
use mcp_pipedrive.Cache.{valid_cache_mode}
use mcp_pipedrive.Client.Exchange.{Services}
use mcp_pipedrive.Guard.{GuardKind, guard_delete, guard_read, guard_write}
use mcp_pipedrive.Normalize.Product.{
  NormalizedProduct, ProductPrice, normalize_product, normalize_product_list,
}
use mcp_pipedrive.Pagination.{add_v2_pagination}
use mcp_pipedrive.Prelude.{Bool, Option, String, if◌then◌else◌, map, none, some}
use mcp_pipedrive.Prelude.Int.{pos, ℤ}
use mcp_pipedrive.Query.{Query, empty, set, set_id, set_text}
use mcp_pipedrive.Result.{Result, ok}
use mcp_pipedrive.Tools.Resource.{
  FoundReply, ItemReply, ListReply, Write, Written, cached_read, check_id, check_term,
  deleted_reply, found, got, has_fields, listed, product, resource_path, run_write, saved_reply,
  set_custom_fields, set_flag, set_list, stale_paths, write_of, after_query, set_bool,
}
use mcp_pipedrive.Validate.{require_id}
use mcp_pipedrive.Value.{Fields, Value, end, field, int64, num, obj, str}

pub record ProductsListParams : Type 0 where
  pub limit : ℤ
  pub cursor : String
  pub owner_id : ℤ
  pub active : Option Bool
  pub filter_id : ℤ
  pub updated_since : String
  pub updated_until : String
  pub include_raw : Bool
  pub cache_mode : String

pub record ProductsGetParams : Type 0 where
  pub id : ℤ
  pub include_raw : Bool
  pub cache_mode : String

pub record ProductsSearchParams : Type 0 where
  pub term : String
  pub fields : String
  pub exact : Bool
  pub limit : ℤ
  pub cache_mode : String

pub record ProductsCreateParams : Type 0 where
  pub name : String
  pub code : String
  pub unit : String
  pub active : Option Bool
  pub owner_id : ℤ
  pub prices : List ProductPrice
  pub custom_fields : Fields

pub record ProductsUpdateParams : Type 0 where
  pub id : ℤ
  pub name : String
  pub code : String
  pub unit : String
  pub active : Option Bool
  pub owner_id : ℤ
  pub prices : List ProductPrice
  pub custom_fields : Fields

-- the JSON of a ProductPrice; a cost of zero is left out
price_value : ProductPrice → Value
unfolding set_if_non_zero_float
price_value p = obj (
    set_if_non_zero_float "overhead_cost" p.overhead_cost (
      set_if_non_zero_float "direct_cost" p.direct_cost (
        set_if_non_zero_float "cost_price" p.cost_price
          (field "currency" (str p.currency) (field "price" (num p.price) end)))))

-- the query of productsList
unfoldable pub products_list_query : ProductsListParams → Result Query
products_list_query args = after_query (add_v2_pagination empty args.limit args.cursor) (λ q. ok (
    set_text "updated_until" args.updated_until (
      set_text "updated_since" args.updated_since (
        set_id "filter_id" args.filter_id
          (set_bool "active" args.active (set_id "owner_id" args.owner_id q))))))

unfoldable pub products_search_query : ProductsSearchParams → Result Query
products_search_query args =
    add_v2_pagination
      (set_text "exact_match" (if args.exact then "true" else "")
        (set_text "fields" args.fields (set "term" args.term empty)))
      args.limit ""

unfoldable pub products_create_body : ProductsCreateParams → Fields
unfolding set_if_non_zero set_if_non_zero_int price_value
products_create_body args = set_custom_fields args.custom_fields (
    set_list "prices" (map price_value args.prices) (
      set_if_non_zero_int "owner_id" args.owner_id (
        set_flag "active" args.active (
          set_if_non_zero "unit" args.unit
            (set_if_non_zero "code" args.code (field "name" (str args.name) end))))))

unfoldable pub products_update_body : ProductsUpdateParams → Fields
unfolding set_if_non_zero set_if_non_zero_int price_value
products_update_body args = set_custom_fields args.custom_fields (
    set_list "prices" (map price_value args.prices) (
      set_if_non_zero_int "owner_id" args.owner_id (
        set_flag "active" args.active (
          set_if_non_zero "unit" args.unit
            (set_if_non_zero "code" args.code (set_if_non_zero "name" args.name end))))))

-- the paths that invalidateProductsCache drops, in order
unfoldable pub products_outdated : ℤ → List (ApiVersion × String)
products_outdated id = stale_paths "/products" id

abbrev pub products_write :
    String → GuardKind → Result (Unit {0}) → ℤ → String → String → Option Value → Write
products_write tool_name kind checked id method path body =
    write_of (products_outdated id) ApiVersion.v2 tool_name kind checked method path body

unfoldable pub products_create_write : ProductsCreateParams → Write
unfolding products_create_body
products_create_write args =
    products_write "pipedrive.products.create" guard_write (require_id args.name "name") (pos 0)
      "POST" "/products" (some (obj (products_create_body args)))

unfoldable pub products_update_write : ProductsUpdateParams → Write
unfolding products_update_body
products_update_write args =
    record (products_write "pipedrive.products.update" guard_write (check_id args.id) args.id
      "PATCH" (resource_path "/products" args.id) (some (obj (products_update_body args)))) {
        body_checked = has_fields (products_update_body args);
      }

unfoldable pub products_delete_write : ℤ → Write
products_delete_write id =
    products_write "pipedrive.products.delete" guard_delete (check_id id) id "DELETE"
      (resource_path "/products" id) none

abbrev pub saved_product : Value → Written
saved_product payload = saved_reply (λ m. product (normalize_product m)) payload

module _ {Db : Type 0} (services : Services Db) where
  -- productsList
  unfoldable pub products_list :
      Context → ProductsListParams → Tool Db (Reply (ListReply NormalizedProduct))
  unfolding products_list_query cached_read
  products_list ctx args = gated ctx "pipedrive.products.list" guard_read (do
    mode ← lift (valid_cache_mode args.cache_mode)
    c ← lift (client_or_error ctx.client)
    q ← lift (products_list_query args)
    answer ← cached_read services c ApiVersion.v2 "/products" (some q) c.ttls.product mode
    lift (ok (listed normalize_product_list args.include_raw args.limit answer)))

  -- productsGet
  unfoldable pub products_get :
      Context → ProductsGetParams → Tool Db (Reply (ItemReply NormalizedProduct))
  unfolding cached_read
  products_get ctx args = gated ctx "pipedrive.products.get" guard_read (do
    lift (check_id args.id)
    mode ← lift (valid_cache_mode args.cache_mode)
    c ← lift (client_or_error ctx.client)
    answer ←
        cached_read services c ApiVersion.v2 (resource_path "/products" args.id) none c.ttls.product
          mode
    lift (ok (got normalize_product args.include_raw answer)))

  -- productsSearch
  unfoldable pub products_search : Context → ProductsSearchParams → Tool Db (Reply FoundReply)
  unfolding products_search_query check_term cached_read
  products_search ctx args = gated ctx "pipedrive.products.search" guard_read (do
    lift (check_term args.term)
    mode ← lift (valid_cache_mode args.cache_mode)
    c ← lift (client_or_error ctx.client)
    q ← lift (products_search_query args)
    answer ←
        cached_read services c ApiVersion.v2 "/products/search" (some q) c.ttls.search_results mode
    lift (ok (found args.limit answer)))

  -- productsCreate
  unfoldable pub products_create : Context → ProductsCreateParams → Tool Db (Reply Written)
  unfolding products_create_write run_write
  products_create ctx args = run_write services ctx (products_create_write args) saved_product

  -- productsUpdate
  unfoldable pub products_update : Context → ProductsUpdateParams → Tool Db (Reply Written)
  unfolding products_update_write run_write
  products_update ctx args = run_write services ctx (products_update_write args) saved_product

  -- productsDelete
  unfoldable pub products_delete : Context → ℤ → Tool Db (Reply Written)
  unfolding products_delete_write run_write
  products_delete ctx id =
      run_write services ctx (products_delete_write id) (deleted_reply (int64 id))
