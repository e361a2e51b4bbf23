-- ===== src/Tools/Resource/Replies.antt =====
-- What the handlers reply.
use mathlib.Core.List.{List}
use mcp_pipedrive.Tools.Common.{extract_item_data, extract_list_data, extract_next_cursor, raw_if}
use mcp_pipedrive.Cache.{CacheMeta}
use mcp_pipedrive.Mask.{mask_sensitive}
use mcp_pipedrive.Normalize.Activity.{
  NormalizedActivity, NormalizedFilter, NormalizedNote, NormalizedWebhook,
}
use mcp_pipedrive.Normalize.Deal.{NormalizedDeal}
use mcp_pipedrive.Normalize.Lead.{NormalizedLead}
use mcp_pipedrive.Normalize.Person.{NormalizedOrganization, NormalizedPerson}
use mcp_pipedrive.Normalize.Product.{NormalizedDealProduct, NormalizedProduct}
use mcp_pipedrive.Pagination.{effective_limit}
use mcp_pipedrive.Prelude.{Bool, Option, String}
use mcp_pipedrive.Prelude.Int.{ℤ}
use mcp_pipedrive.Value.{Fields, Value}

pub record ListReply (R : Type 0) : Type 0 where
  pub items : List R
  pub raw : Option Value
  pub limit : ℤ
  pub cache : Option CacheMeta
  pub next_cursor : String

-- a listing without pages
pub record ShortReply (R : Type 0) : Type 0 where
  pub items : List R
  pub raw : Option Value
  pub cache : Option CacheMeta

pub record ItemReply (R : Type 0) : Type 0 where
  pub item : R
  pub raw : Option Value
  pub cache : Option CacheMeta

pub record FoundReply : Type 0 where
  pub results : Value
  pub cache : Option CacheMeta
  pub limit : ℤ

-- what a write has saved, and the reply to it: with the masked payload, or the id of what was
-- deleted
pub data Saved : Type 0 where
  deal : NormalizedDeal → Saved
  person : NormalizedPerson → Saved
  organization : NormalizedOrganization → Saved
  product : NormalizedProduct → Saved
  lead : NormalizedLead → Saved
  activity : NormalizedActivity → Saved
  note : NormalizedNote → Saved
  filter_of : NormalizedFilter → Saved
  webhook : NormalizedWebhook → Saved
  attachment : NormalizedDealProduct → Saved

pub data Written : Type 0 where
  saved : Saved → Value → Written
  deleted : Value → Value → Written
  added : Value → Written
  removed : Value → Value → Written
  detached : Value → Value → Value → Written

abbrev pub listed :
    {R : Type 0} → (List Value → List R) → Bool → ℤ → Option CacheMeta × Value → ListReply R
listed normalize include_raw limit answer =
    let (raw, vs) = extract_list_data answer.1 in
    record {
      items = normalize vs;
      raw = raw_if include_raw raw;
      limit = effective_limit limit;
      cache = answer.0;
      next_cursor = extract_next_cursor raw;
    }

abbrev pub listed_short :
    {R : Type 0} → (List Value → List R) → Bool → Option CacheMeta × Value → ShortReply R
listed_short normalize include_raw answer =
    let (raw, vs) = extract_list_data answer.1 in
    record { items = normalize vs; raw = raw_if include_raw raw; cache = answer.0 }

abbrev pub got : {R : Type 0} → (Fields → R) → Bool → Option CacheMeta × Value → ItemReply R
got normalize include_raw answer =
    let (raw, m) = extract_item_data answer.1 in
    record { item = normalize m; raw = raw_if include_raw raw; cache = answer.0 }

abbrev pub found : ℤ → Option CacheMeta × Value → FoundReply
found limit answer = record {
  results = mask_sensitive answer.1;
  cache = answer.0;
  limit = effective_limit limit;
}

abbrev pub saved_reply : (Fields → Saved) → Value → Written
saved_reply normalize payload =
    let (raw, m) = extract_item_data payload in saved (normalize m) (mask_sensitive raw)

abbrev pub deleted_reply : Value → Value → Written
deleted_reply id payload = deleted id (mask_sensitive payload)
