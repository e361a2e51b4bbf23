-- ===== src/Tools/Mail/DealMail.antt =====
-- dealMailFetch and dealsMailList of tools/mailbox.go. `schedule` is the order in which the
-- goroutines of the backfill run, and the paging loop has the fuel it is given.
use mathlib.Core.List.{List, []}
use Prim.Native.String.{◌++◌}
use mcp_pipedrive.Client.{Client, ApiVersion}
use mcp_pipedrive.Tools.Common.{Tool, Context, Reply, lift, ◌>>=◌, ◌>>◌, client_or_error, gated}
use mcp_pipedrive.Cache.{CacheMode, valid_cache_mode}
use mcp_pipedrive.Client.Exchange.{Services, World}
use mcp_pipedrive.Guard.{guard_read}
use mcp_pipedrive.Normalize.Mail.{
  NormalizedMailMessage, body_format_none, normalize_mail_message_list,
}
use mcp_pipedrive.Prelude.{
  Bool, Option, String, false, if◌then◌else◌, ltb, map, none, not, some, true, ℕ, ◌&&◌,
}
use mcp_pipedrive.Prelude.Int.{format_int, is_positive, pos, ℤ}
use mcp_pipedrive.Prelude.Text.{is_set, str_eq}
use mcp_pipedrive.Query.{Query, empty, set, set_positive}
use mcp_pipedrive.Result.{Error, guard, message, ok}
use mcp_pipedrive.Tools.Mail.{
  DealsMailListParams, bool_or_default, capped, count, is_too_old, mail_cached_get,
  mail_deal_default_limit, mail_filtered_hard_cap, mail_filtered_page_size, to_string_raw,
  unwrap_deal_mail_items,
}
use mcp_pipedrive.Tools.Mail.Bodies.{
  Backfill, Need, ask_each, cap_needs, deliver_each, needs_from, no_backfill,
}
use mcp_pipedrive.Tools.Mail.Messages.{shown_format}
use mcp_pipedrive.Tools.Mail.Paging.{Filter, Paged, iterate_pages, next_if_more, too_old, wanted}
use mcp_pipedrive.Value.{Fields, Value, get, obj}

-- bodies_errors is there if a body could not be fetched
pub record DealMailReply : Type 0 where
  pub messages : List NormalizedMailMessage
  pub more : Bool
  pub next_start : ℤ
  pub bodies_requested : Bool
  pub bodies_fetched : ℕ
  pub bodies_skipped : ℕ
  pub body_errors : Option (ℤ → Option Error)

abbrev pub deal_mail_limit : ℤ → ℤ
deal_mail_limit limit = if is_positive limit then limit else mail_deal_default_limit

-- pageLimit and hardCap
abbrev pub page_limit_of : String → ℤ → ℤ
page_limit_of since limit =
    if is_set since && ltb (count limit) mail_filtered_page_size
    then pos mail_filtered_page_size
    else limit

abbrev pub hard_cap_of : String → ℤ → ℕ
hard_cap_of since limit = if is_set since then capped limit mail_filtered_hard_cap else count limit

unfoldable pub deal_mail_filter : String → ℤ → Filter Fields
unfolding to_string_raw unwrap_deal_mail_items
deal_mail_filter since limit = record {
  items = unwrap_deal_mail_items;
  verdict =
      λ m. if is_too_old since (to_string_raw (get m "message_time")) then too_old else wanted;
  hard_cap = hard_cap_of since limit;
  single_page = not (is_set since);
  at_end = λ page. (page.0, next_if_more page);
}

abbrev pub deal_mail_query : ℤ → ℤ → Query
deal_mail_query cursor page_limit =
    set_positive "limit" page_limit (set_positive "start" cursor empty)

-- the state of the backfill, with the bodies that MaxBodies has left out
abbrev Filled : Type 0
Filled = Backfill × ℕ

abbrev no_errors_or : Backfill → Option (ℤ → Option Error)
no_errors_or b = if ltb 0 b.failures then some b.errors else none

module _ {Db : Type 0} (services : Services Db) where
  -- a page of dealMailFetch
  unfoldable pub deal_mail_page : Client → ℤ → String → ℤ → CacheMode → ℤ → Tool Db Value
  unfolding mail_cached_get
  deal_mail_page c deal_id since limit mode cursor = do
    answer ←
        mail_cached_get services c ApiVersion.v1_legacy
          ("/deals/" ++ (format_int deal_id ++ "/mailMessages"))
          (some (deal_mail_query cursor (page_limit_of since limit))) c.ttls.mail_list mode
    lift (ok answer.1)

  -- the request of a goroutine
  unfoldable pub ask_body : Client → CacheMode → Need → Tool Db Value
  unfolding mail_cached_get
  ask_body c mode n = do
    answer ←
        mail_cached_get services c ApiVersion.v1_legacy
          ("/mailbox/mailMessages/" ++ format_int n.id) (some (set "include_body" "1" empty))
          c.ttls.mail_message mode
    lift (ok answer.1)

  module _ (fuel : ℕ) where
    -- dealMailFetch
    unfoldable pub deal_mail_fetch :
        Client → ℤ → ℤ → ℤ → String → CacheMode → Tool Db (Option (Paged Fields))
    unfolding deal_mail_filter deal_mail_page iterate_pages
    deal_mail_fetch c deal_id start limit since mode =
        iterate_pages (deal_mail_filter since limit) (deal_mail_page c deal_id since limit mode)
          fuel start []

  module _ (schedule : List Need → List Need) where
    -- the backfill, if bodies are asked for
    unfoldable pub backfill_bodies :
        Client → CacheMode → Bool → ℤ → List Fields → World Db → World Db × Filled
    unfolding ask_body ask_each deliver_each cap_needs needs_from
    backfill_bodies c mode false max_bodies ms w = (w, (no_backfill ms, 0))
    backfill_bodies c mode true max_bodies ms w =
        let (needs, skipped) = cap_needs max_bodies (needs_from 0 ms) in
        let (w', answers) = ask_each (ask_body c mode) (schedule needs) w in
        (w', (deliver_each answers (no_backfill ms), skipped))

  module _ (from_string : String → Option String) (fuel : ℕ)
      (schedule : List Need → List Need) where
    -- the end of dealsMailList, behind the messages
    unfoldable pub reply_deal_mail :
        Client
        → CacheMode
        → DealsMailListParams
        → Option (Paged Fields)
        → Tool Db (Option DealMailReply)
    unfolding backfill_bodies
    reply_deal_mail c mode args none w = (w, ok none)
    reply_deal_mail c mode args (some p) w =
        let included = bool_or_default args.include_bodies true in
        let format = shown_format included args.body_format in
        let requested = included && not (str_eq format body_format_none) in
        let (w', filled) =
          backfill_bodies schedule c mode requested args.max_bodies p.collected w in
        (
          w',
          ok (
              some (record {
                messages =
                    normalize_mail_message_list from_string (map obj filled.0.messages) format;
                more = p.more;
                next_start = p.next_start;
                bodies_requested = requested;
                bodies_fetched = filled.0.fetched;
                bodies_skipped = filled.1;
                body_errors = no_errors_or filled.0;
              })),
        )

    -- dealsMailList
    unfoldable pub deals_mail_list :
        Context → DealsMailListParams → Tool Db (Reply (Option DealMailReply))
    unfolding deal_mail_fetch reply_deal_mail
    deals_mail_list ctx args = gated ctx "pipedrive.deals.mail.list" guard_read (do
      lift (guard (is_positive args.deal_id) (message "deal_id is required and must be > 0"))
      mode ← lift (valid_cache_mode args.cache_mode)
      c ← lift (client_or_error ctx.client)
      found ←
          deal_mail_fetch fuel c args.deal_id args.start (deal_mail_limit args.limit) args.since
            mode
      reply_deal_mail c mode args found)
