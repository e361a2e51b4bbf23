-- ===== src/Normalize/Activity.antt =====
-- NormalizeActivity, NormalizeNote, NormalizeFilter and NormalizeWebhook.
use mcp_pipedrive.Normalize.Lists.{normalize_list}
use mcp_pipedrive.Prelude.{Bool, List, String, [], ◌∷◌}
use mcp_pipedrive.Prelude.Int.{ℤ}
use mcp_pipedrive.Value.{Fields, Value, get}
use mcp_pipedrive.Value.Convert.{first_non_nil, related_id, to_bool, to_int64, to_string}

pub record NormalizedActivity : Type 0 where
  pub id : ℤ
  pub subject : String
  pub type : String
  pub done : Bool
  pub due_date : String
  pub due_time : String
  pub duration : String
  pub owner_id : ℤ
  pub deal_id : ℤ
  pub person_id : ℤ
  pub organization_id : ℤ
  pub add_time : String
  pub update_time : String

unfoldable pub normalize_activity : Fields → NormalizedActivity
normalize_activity raw = record {
  id = to_int64 (get raw "id");
  subject = to_string (get raw "subject");
  type = to_string (get raw "type");
  done = to_bool (get raw "done");
  due_date = to_string (get raw "due_date");
  due_time = to_string (get raw "due_time");
  duration = to_string (get raw "duration");
  owner_id = related_id raw ("owner_id" ∷ "user_id" ∷ []);
  deal_id = related_id raw ("deal_id" ∷ []);
  person_id = related_id raw ("person_id" ∷ []);
  organization_id = related_id raw ("org_id" ∷ "organization_id" ∷ []);
  add_time = to_string (get raw "add_time");
  update_time = to_string (get raw "update_time");
}

unfoldable pub normalize_activity_list : List Value → List NormalizedActivity
normalize_activity_list = normalize_list normalize_activity

pub record NormalizedNote : Type 0 where
  pub id : ℤ
  pub content : String
  pub deal_id : ℤ
  pub person_id : ℤ
  pub organization_id : ℤ
  pub user_id : ℤ
  pub add_time : String
  pub update_time : String

unfoldable pub normalize_note : Fields → NormalizedNote
normalize_note raw = record {
  id = to_int64 (get raw "id");
  content = to_string (get raw "content");
  deal_id = related_id raw ("deal_id" ∷ []);
  person_id = related_id raw ("person_id" ∷ []);
  organization_id = related_id raw ("org_id" ∷ "organization_id" ∷ []);
  user_id = related_id raw ("user_id" ∷ []);
  add_time = to_string (get raw "add_time");
  update_time = to_string (get raw "update_time");
}

unfoldable pub normalize_note_list : List Value → List NormalizedNote
normalize_note_list = normalize_list normalize_note

pub record NormalizedFilter : Type 0 where
  pub id : ℤ
  pub name : String
  pub type : String
  pub active : Bool
  pub visible_to : String
  pub add_time : String
  pub update_time : String

unfoldable pub normalize_filter : Fields → NormalizedFilter
normalize_filter raw = record {
  id = to_int64 (get raw "id");
  name = to_string (get raw "name");
  type = to_string (get raw "type");
  active = to_bool (first_non_nil raw ("active_flag" ∷ "active" ∷ []));
  visible_to = to_string (get raw "visible_to");
  add_time = to_string (get raw "add_time");
  update_time = to_string (get raw "update_time");
}

unfoldable pub normalize_filter_list : List Value → List NormalizedFilter
normalize_filter_list = normalize_list normalize_filter

pub record NormalizedWebhook : Type 0 where
  pub id : ℤ
  pub name : String
  pub subscription_url : String
  pub event_action : String
  pub event_object : String
  pub user_id : ℤ
  pub is_active : Bool
  pub version : String
  pub add_time : String

unfoldable pub normalize_webhook : Fields → NormalizedWebhook
normalize_webhook raw = record {
  id = to_int64 (get raw "id");
  name = to_string (get raw "name");
  subscription_url = to_string (get raw "subscription_url");
  event_action = to_string (get raw "event_action");
  event_object = to_string (get raw "event_object");
  user_id = related_id raw ("user_id" ∷ []);
  is_active = to_bool (first_non_nil raw ("is_active" ∷ "active_flag" ∷ []));
  version = to_string (get raw "version");
  add_time = to_string (get raw "add_time");
}

unfoldable pub normalize_webhook_list : List Value → List NormalizedWebhook
normalize_webhook_list = normalize_list normalize_webhook
