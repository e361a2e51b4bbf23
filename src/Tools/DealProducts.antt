-- ===== src/Tools/DealProducts.antt =====
-- tools/deal_products.go: the products attached to a deal.
use mathlib.Core.List.{List, [], ◌∷◌}
use Prim.Native.String.{◌++◌}
use mcp_pipedrive.Client.{ApiVersion}
use mcp_pipedrive.Tools.Common.{
  Tool, Context, Reply, lift, ◌>>=◌, ◌>>◌, client_or_error, gated, set_if_non_zero,
  set_if_non_zero_float,
}
use mcp_pipedrive.Cache.{valid_cache_mode}
use mcp_pipedrive.Client.Exchange.{Services}
use mcp_pipedrive.Float64.{Float64, float_is_positive}
use mcp_pipedrive.Guard.{guard_read, guard_write}
use mcp_pipedrive.Mask.{mask_sensitive}
use mcp_pipedrive.Normalize.Product.{
  NormalizedDealProduct, normalize_deal_product, normalize_deal_product_list,
}
use mcp_pipedrive.Pagination.{add_v2_pagination}
use mcp_pipedrive.Prelude.{Bool, Option, String, if◌then◌else◌, none, some, ◌&&◌}
use mcp_pipedrive.Prelude.Int.{format_int, is_positive, ℤ}
use mcp_pipedrive.Query.{empty}
use mcp_pipedrive.Result.{Error, Result, guard, message, ok}
use mcp_pipedrive.Tools.Resource.{
  ListReply, Write, Written, and_check, attachment, cached_read, detached, has_fields, listed,
  resource_path, run_write, saved_reply, write_of,
}
use mcp_pipedrive.Value.{Fields, Value, end, field, insert, int64, num, obj}

pub record DealProductsListParams : Type 0 where
  pub deal_id : ℤ
  pub limit : ℤ
  pub cursor : String
  pub include_raw : Bool
  pub cache_mode : String

pub record DealProductsAttachParams : Type 0 where
  pub deal_id : ℤ
  pub product_id : ℤ
  pub quantity : Float64
  pub item_price : Float64
  pub discount : Float64
  pub discount_type : String
  pub tax : Float64
  pub comments : String

pub record DealProductsUpdateParams : Type 0 where
  pub deal_id : ℤ
  pub attachment_id : ℤ
  pub quantity : Option Float64
  pub item_price : Option Float64
  pub discount : Option Float64
  pub discount_type : String
  pub tax : Option Float64
  pub comments : String

unfoldable pub deal_products_path : ℤ → String
deal_products_path deal_id = "/deals/" ++ (format_int deal_id ++ "/products")

abbrev pub attachment_path : ℤ → ℤ → String
unfolding deal_products_path
attachment_path deal_id id = deal_products_path deal_id ++ ("/" ++ format_int id)

abbrev deal_id_required : Error
deal_id_required = message "deal_id is required and must be > 0"

unfoldable pub attach_body : DealProductsAttachParams → Fields
unfolding set_if_non_zero set_if_non_zero_float
attach_body args = set_if_non_zero "comments" args.comments (
    set_if_non_zero_float "tax" args.tax (
      set_if_non_zero "discount_type" args.discount_type (
        set_if_non_zero_float "discount" args.discount (
          set_if_non_zero_float "item_price" args.item_price (
            field "product_id" (int64 args.product_id)
              (field "quantity" (num args.quantity) end))))))

-- body[k] = *p if p != nil
abbrev set_number : String → Option Float64 → Fields → Fields
set_number k none m = m
set_number k (some v) m = insert k (num v) m

unfoldable pub attachment_update_body : DealProductsUpdateParams → Fields
unfolding set_if_non_zero
attachment_update_body args = set_if_non_zero "comments" args.comments (
    set_number "tax" args.tax (
      set_if_non_zero "discount_type" args.discount_type (
        set_number "discount" args.discount
          (set_number "item_price" args.item_price (set_number "quantity" args.quantity end)))))

-- the three checks of dealProductsAttach
unfoldable pub check_attach : DealProductsAttachParams → Result (Unit {0})
check_attach args = and_check (guard (is_positive args.deal_id) deal_id_required) (
    and_check
      (guard (is_positive args.product_id) (message "product_id is required and must be > 0"))
      (guard (float_is_positive args.quantity) (message "quantity is required and must be > 0")))

unfoldable pub check_attachment : ℤ → ℤ → Result (Unit {0})
check_attachment deal_id id =
    guard (is_positive deal_id && is_positive id)
      (message "deal_id and attachment_id are required and must be > 0")

-- the paths that invalidateDealProductsCache drops, in order
unfoldable pub deal_products_outdated : ℤ → List (ApiVersion × String)
unfolding deal_products_path
deal_products_outdated deal_id =
    if is_positive deal_id
    then (ApiVersion.v2, deal_products_path deal_id)
      ∷ (ApiVersion.v2, resource_path "/deals" deal_id)
      ∷ []
    else []

abbrev pub deal_products_write :
    String → Result (Unit {0}) → ℤ → String → String → Option Value → Write
deal_products_write tool_name checked deal_id method path body =
    write_of (deal_products_outdated deal_id) ApiVersion.v2 tool_name guard_write checked method
      path body

unfoldable pub attach_write : DealProductsAttachParams → Write
unfolding attach_body check_attach deal_products_path
attach_write args =
    deal_products_write "pipedrive.deals.products.attach" (check_attach args) args.deal_id "POST"
      (deal_products_path args.deal_id) (some (obj (attach_body args)))

unfoldable pub attachment_update_write : DealProductsUpdateParams → Write
unfolding attachment_update_body check_attachment
attachment_update_write args =
    record (deal_products_write "pipedrive.deals.products.update"
      (check_attachment args.deal_id args.attachment_id) args.deal_id "PATCH"
      (attachment_path args.deal_id args.attachment_id)
      (some (obj (attachment_update_body args)))) {
        body_checked = has_fields (attachment_update_body args);
      }

unfoldable pub detach_write : ℤ → ℤ → Write
unfolding check_attachment
detach_write deal_id id =
    deal_products_write "pipedrive.deals.products.detach" (check_attachment deal_id id) deal_id
      "DELETE" (attachment_path deal_id id) none

abbrev pub saved_attachment : Value → Written
saved_attachment payload = saved_reply (λ m. attachment (normalize_deal_product m)) payload

-- the reply to a detach: the ids of the attachment and of the deal
abbrev pub detached_reply : ℤ → ℤ → Value → Written
detached_reply deal_id id payload = detached (int64 id) (int64 deal_id) (mask_sensitive payload)

module _ {Db : Type 0} (services : Services Db) where
  -- dealProductsList
  unfoldable pub deal_products_list :
      Context → DealProductsListParams → Tool Db (Reply (ListReply NormalizedDealProduct × ℤ))
  unfolding deal_products_path cached_read
  deal_products_list ctx args = gated ctx "pipedrive.deals.products.list" guard_read (do
    lift (guard (is_positive args.deal_id) deal_id_required)
    mode ← lift (valid_cache_mode args.cache_mode)
    c ← lift (client_or_error ctx.client)
    q ← lift (add_v2_pagination empty args.limit args.cursor)
    answer ←
        cached_read services c ApiVersion.v2 (deal_products_path args.deal_id) (some q) c.ttls.list
          mode
    lift (ok (listed normalize_deal_product_list args.include_raw args.limit answer, args.deal_id)))

  -- dealProductsAttach
  unfoldable pub deal_products_attach : Context → DealProductsAttachParams → Tool Db (Reply Written)
  unfolding attach_write run_write
  deal_products_attach ctx args = run_write services ctx (attach_write args) saved_attachment

  -- dealProductsUpdate
  unfoldable pub deal_products_update : Context → DealProductsUpdateParams → Tool Db (Reply Written)
  unfolding attachment_update_write run_write
  deal_products_update ctx args =
      run_write services ctx (attachment_update_write args) saved_attachment

  -- dealProductsDetach
  unfoldable pub deal_products_detach : Context → ℤ → ℤ → Tool Db (Reply Written)
  unfolding detach_write run_write
  deal_products_detach ctx deal_id id =
      run_write services ctx (detach_write deal_id id) (detached_reply deal_id id)
