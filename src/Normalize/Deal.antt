-- ===== src/Normalize/Deal.antt =====
-- NormalizeDeal.
use mcp_pipedrive.Float64.{Float64}
use mcp_pipedrive.Normalize.Lists.{normalize_list}
use mcp_pipedrive.Prelude.{Bool, List, Option, String, [], if◌then◌else◌, none, some, ◌∷◌}
use mcp_pipedrive.Prelude.Int.{is_zero, ℤ}
use mcp_pipedrive.Value.{Fields, Value, get}
use mcp_pipedrive.Value.Convert.{
  as_list, as_map, related_id, to_bool, to_float, to_int64, to_string,
}

pub record NormalizedDeal : Type 0 where
  pub id : ℤ
  pub title : String
  pub status : String
  pub value : Float64
  pub currency : String
  pub owner_id : ℤ
  pub person_id : ℤ
  pub organization_id : ℤ
  pub pipeline_id : ℤ
  pub stage_id : ℤ
  pub label_ids : List ℤ
  pub is_archived : Bool
  pub add_time : String
  pub update_time : String
  pub custom_fields : Option Fields

-- the loop over raw["label_ids"]
label_ids_of : List Value → List ℤ
label_ids_of [] = []
label_ids_of (v ∷ vs) =
    let id = to_int64 v in let rest = label_ids_of vs in if is_zero id then rest else id ∷ rest

labels_of : Option (List Value) → List ℤ
unfolding label_ids_of
labels_of none = []
labels_of (some vs) = label_ids_of vs

unfoldable pub normalize_deal : Fields → NormalizedDeal
unfolding labels_of
normalize_deal raw = record {
  id = to_int64 (get raw "id");
  title = to_string (get raw "title");
  status = to_string (get raw "status");
  value = to_float (get raw "value");
  currency = to_string (get raw "currency");
  owner_id = related_id raw ("user_id" ∷ "owner_id" ∷ []);
  person_id = related_id raw ("person_id" ∷ []);
  organization_id = related_id raw ("org_id" ∷ "organization_id" ∷ []);
  pipeline_id = related_id raw ("pipeline_id" ∷ []);
  stage_id = related_id raw ("stage_id" ∷ []);
  label_ids = labels_of (as_list (get raw "label_ids"));
  is_archived = to_bool (get raw "is_archived");
  add_time = to_string (get raw "add_time");
  update_time = to_string (get raw "update_time");
  custom_fields = as_map (get raw "custom_fields");
}

unfoldable pub normalize_deal_list : List Value → List NormalizedDeal
normalize_deal_list = normalize_list normalize_deal
