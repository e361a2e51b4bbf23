-- ===== src/Normalize/Product.antt =====
-- NormalizeProduct, NormalizeFollower and NormalizeDealProduct.
use mcp_pipedrive.Float64.{Float64}
use mcp_pipedrive.Normalize.Lists.{normalize_list}
use mcp_pipedrive.Prelude.{Bool, List, Option, String, [], if◌then◌else◌, none, some, ◌∷◌}
use mcp_pipedrive.Prelude.Int.{ℤ}
use mcp_pipedrive.Prelude.Text.{is_set}
use mcp_pipedrive.Value.{Fields, Value, get, obj}
use mcp_pipedrive.Value.Convert.{
  as_list, as_map, first_non_nil, related_id, to_bool, to_float, to_int64, to_string,
}

pub record ProductPrice : Type 0 where
  pub currency : String
  pub price : Float64
  pub cost_price : Float64
  pub direct_cost : Float64
  pub overhead_cost : Float64

price_of : Fields → ProductPrice
price_of m = record {
  currency = to_string (get m "currency");
  price = to_float (get m "price");
  cost_price = to_float (get m "cost_price");
  direct_cost = to_float (get m "direct_cost");
  overhead_cost = to_float (get m "overhead_cost");
}

-- the loop of normalizePrices: an entry with no currency is dropped
prices_of : List Value → List ProductPrice
unfolding price_of
prices_of [] = []
prices_of (obj m ∷ vs) =
    let p = price_of m in let rest = prices_of vs in if is_set p.currency then p ∷ rest else rest
prices_of (_ ∷ vs) = prices_of vs

unfoldable pub normalize_prices : Value → List ProductPrice
unfolding prices_of
normalize_prices v = elim (as_list v) [ none ↦ [] | some vs ↦ prices_of vs ]

pub record NormalizedProduct : Type 0 where
  pub id : ℤ
  pub name : String
  pub code : String
  pub unit : String
  pub active : Bool
  pub owner_id : ℤ
  pub prices : List ProductPrice
  pub add_time : String
  pub update_time : String
  pub custom_fields : Option Fields

unfoldable pub normalize_product : Fields → NormalizedProduct
normalize_product raw = record {
  id = to_int64 (get raw "id");
  name = to_string (get raw "name");
  code = to_string (get raw "code");
  unit = to_string (get raw "unit");
  active = to_bool (first_non_nil raw ("active_flag" ∷ "active" ∷ []));
  owner_id = related_id raw ("owner_id" ∷ "user_id" ∷ []);
  prices = normalize_prices (get raw "prices");
  add_time = to_string (get raw "add_time");
  update_time = to_string (get raw "update_time");
  custom_fields = as_map (get raw "custom_fields");
}

unfoldable pub normalize_product_list : List Value → List NormalizedProduct
normalize_product_list = normalize_list normalize_product

pub record NormalizedFollower : Type 0 where
  pub id : ℤ
  pub user_id : ℤ
  pub add_time : String

unfoldable pub normalize_follower : Fields → NormalizedFollower
normalize_follower raw = record {
  id = to_int64 (get raw "id");
  user_id = related_id raw ("user_id" ∷ []);
  add_time = to_string (get raw "add_time");
}

unfoldable pub normalize_follower_list : List Value → List NormalizedFollower
normalize_follower_list = normalize_list normalize_follower

pub record NormalizedDealProduct : Type 0 where
  pub id : ℤ
  pub deal_id : ℤ
  pub product_id : ℤ
  pub name : String
  pub quantity : Float64
  pub item_price : Float64
  pub discount : Float64
  pub discount_type : String
  pub tax : Float64
  pub currency : String
  pub comments : String
  pub add_time : String

unfoldable pub normalize_deal_product : Fields → NormalizedDealProduct
normalize_deal_product raw = record {
  id = to_int64 (get raw "id");
  deal_id = related_id raw ("deal_id" ∷ []);
  product_id = related_id raw ("product_id" ∷ []);
  name = to_string (get raw "name");
  quantity = to_float (get raw "quantity");
  item_price = to_float (get raw "item_price");
  discount = to_float (get raw "discount");
  discount_type = to_string (get raw "discount_type");
  tax = to_float (get raw "tax");
  currency = to_string (get raw "currency");
  comments = to_string (get raw "comments");
  add_time = to_string (get raw "add_time");
}

unfoldable pub normalize_deal_product_list : List Value → List NormalizedDealProduct
normalize_deal_product_list = normalize_list normalize_deal_product
