-- ===== src/Normalize/Lead.antt =====
-- NormalizeLead.
use mcp_pipedrive.Float64.{Float64, zero_float}
use mcp_pipedrive.Normalize.Lists.{normalize_list}
use mcp_pipedrive.Prelude.{List, Option, String, [], none, some, ◌∷◌}
use mcp_pipedrive.Prelude.Int.{ℤ}
use mcp_pipedrive.Value.{Fields, Value, get, str}
use mcp_pipedrive.Value.Convert.{as_list, as_map, related_id, to_float, to_string}

pub record NormalizedLead : Type 0 where
  pub id : String
  pub title : String
  pub owner_id : ℤ
  pub person_id : ℤ
  pub organization_id : ℤ
  pub value : Float64
  pub currency : String
  pub expected_close_date : String
  pub label_ids : List String
  pub add_time : String
  pub update_time : String
  pub custom_fields : Option Fields

-- the loop over raw["label_ids"]: what is no text is dropped
lead_labels : List Value → List String
lead_labels [] = []
lead_labels (str s ∷ vs) = s ∷ lead_labels vs
lead_labels (_ ∷ vs) = lead_labels vs

labels_of : Option (List Value) → List String
unfolding lead_labels
labels_of none = []
labels_of (some vs) = lead_labels vs

-- the object {amount, currency}
amount_of : Option Fields → Float64
amount_of none = zero_float
amount_of (some v) = to_float (get v "amount")

currency_of : Option Fields → String
currency_of none = ""
currency_of (some v) = to_string (get v "currency")

unfoldable pub normalize_lead : Fields → NormalizedLead
unfolding labels_of amount_of currency_of
normalize_lead raw = record {
  id = to_string (get raw "id");
  title = to_string (get raw "title");
  owner_id = related_id raw ("owner_id" ∷ "user_id" ∷ []);
  person_id = related_id raw ("person_id" ∷ []);
  organization_id = related_id raw ("organization_id" ∷ "org_id" ∷ []);
  value = amount_of (as_map (get raw "value"));
  currency = currency_of (as_map (get raw "value"));
  expected_close_date = to_string (get raw "expected_close_date");
  label_ids = labels_of (as_list (get raw "label_ids"));
  add_time = to_string (get raw "add_time");
  update_time = to_string (get raw "update_time");
  custom_fields = as_map (get raw "custom_fields");
}

unfoldable pub normalize_lead_list : List Value → List NormalizedLead
normalize_lead_list = normalize_list normalize_lead
