-- ===== src/Tools/Mail.antt =====
-- The helpers of tools/mailbox.go: the parameters, the request behind every mail handler, and the
-- readers of its payloads.
pub mod Paging
pub mod Threads
pub mod Messages
pub mod Bodies
pub mod DealMail
mod Laws
mod Examples
use mathlib.Core.List.{List, [], ◌∷◌}
use mcp_pipedrive.Client.{Client, ApiVersion}
use mcp_pipedrive.Tools.Common.{
  Tool, Context, Reply, lift, continue_with, ◌>>=◌, ◌>>◌, get_cached, request,
}
use mcp_pipedrive.Cache.{CacheMeta, CacheMode}
use mcp_pipedrive.Client.Exchange.{Services}
use mcp_pipedrive.Client.Key.{cache_key}
use mcp_pipedrive.Float64.{int64_of_float}
use mcp_pipedrive.Prelude.{
  Bool, Option, String, false, if◌then◌else◌, none, not, some, true, ℕ, ◌||◌, ltb, ◌&&◌,
}
use mcp_pipedrive.Prelude.Int.{pos, ℤ, negsuc}
use mcp_pipedrive.Query.{Query, empty}
use mcp_pipedrive.Value.{Fields, Value, bool, get, int, int64, null, num, obj, str}
use mcp_pipedrive.Value.Convert.{as_list, as_map}
use mcp_pipedrive.Prelude.Text.{is_set}
use mcp_pipedrive.Query.Sort.{str_le}
use mcp_pipedrive.Tools.Resource.{cached_read}

pub record MailThreadsListParams : Type 0 where
  pub folder : String
  pub deal_id : ℤ
  pub person_id : ℤ
  pub start : ℤ
  pub limit : ℤ
  pub since : String
  pub unread_only : Bool
  pub fields : String
  pub cache_mode : String

pub record MailThreadsGetParams : Type 0 where
  pub id : ℤ
  pub include_messages : Option Bool
  pub fields : String
  pub cache_mode : String

pub record MailMessagesGetParams : Type 0 where
  pub id : ℤ
  pub include_body : Option Bool
  pub body_format : String
  pub cache_mode : String

pub record DealsMailListParams : Type 0 where
  pub deal_id : ℤ
  pub start : ℤ
  pub limit : ℤ
  pub since : String
  pub include_bodies : Option Bool
  pub max_bodies : ℤ
  pub body_format : String
  pub cache_mode : String

abbrev pub mail_threads_default_limit : ℤ
mail_threads_default_limit = pos 20

abbrev pub mail_deal_default_limit : ℤ
mail_deal_default_limit = pos 50

abbrev pub mail_filtered_page_size : ℕ
mail_filtered_page_size = 100

abbrev pub mail_filtered_hard_cap : ℕ
mail_filtered_hard_cap = 200

-- boolOrDefault
abbrev pub bool_or_default : Option Bool → Bool → Bool
bool_or_default none default_value = default_value
bool_or_default (some b) default_value = b

unfoldable pub to_int64_raw : Value → ℤ
to_int64_raw (num t) = int64_of_float t
to_int64_raw (int64 t) = t
to_int64_raw (int t) = t
to_int64_raw _ = pos 0

unfoldable pub to_string_raw : Value → String
to_string_raw (str s) = s
to_string_raw _ = ""

-- v.(bool), false for another value
abbrev flag : Value → Bool
flag (bool b) = b
flag _ = false

page_of : Option Fields → Bool × ℤ
unfolding to_int64_raw
page_of none = (false, pos 0)
page_of (some p) = (flag (get p "more_items_in_collection"), to_int64_raw (get p "next_start"))

pagination_in : Option Fields → Bool × ℤ
unfolding page_of
pagination_in none = (false, pos 0)
pagination_in (some extra) = page_of (as_map (get extra "pagination"))

-- extractMailPagination: whether there are more items, and where they start
unfoldable pub extract_mail_pagination : Value → Bool × ℤ
unfolding pagination_in
extract_mail_pagination (obj m) = pagination_in (as_map (get m "additional_data"))
extract_mail_pagination payload = (false, pos 0)

-- m["object"] != nil || m["timestamp"] != nil
abbrev is_null : Value → Bool
is_null null = true
is_null _ = false

abbrev is_enveloped : Fields → Bool
is_enveloped m = not (is_null (get m "object")) || not (is_null (get m "timestamp"))

abbrev inner_or : Fields → Option Fields → Fields
inner_or m none = m
inner_or m (some inner) = if is_enveloped m then inner else m

abbrev unwrap_each : List Value → List Fields
unwrap_each [] = []
unwrap_each (obj m ∷ vs) = inner_or m (as_map (get m "data")) ∷ unwrap_each vs
unwrap_each (_ ∷ vs) = unwrap_each vs

-- unwrapDealMailItems; what is no list gives none, as its callers read it
unfoldable pub unwrap_deal_mail_items : Value → List Fields
unwrap_deal_mail_items (obj root) = elim (as_list (get root "data")) [
  | none ↦ []
  | some vs ↦ unwrap_each vs
]
unwrap_deal_mail_items payload = []

-- since != "" && ts != "" && ts < since
abbrev pub is_too_old : String → String → Bool
unfolding str_le
is_too_old since ts = is_set since && is_set ts && not (str_le since ts)

-- a limit as a count, and a count that is at most another
abbrev pub count : ℤ → ℕ
count (pos n) = n
count (negsuc n) = 0

abbrev pub capped : ℤ → ℕ → ℕ
capped limit cap = if ltb cap (count limit) then cap else count limit

-- mailCachedGet
unfoldable pub mail_cached_get :
    {Db : Type 0}
    → Services Db
    → Client
    → ApiVersion
    → String
    → Option Query
    → ℤ
    → CacheMode
    → Tool Db (Option CacheMeta × Value)
unfolding cached_read
mail_cached_get services c v path q ttl mode = cached_read services c v path q ttl mode
