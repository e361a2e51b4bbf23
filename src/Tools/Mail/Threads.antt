-- ===== src/Tools/Mail/Threads.antt =====
-- mailThreadsList of tools/mailbox.go. The filtered path pages on the fuel it is given.
use mathlib.Core.List.{List, []}
use mcp_pipedrive.Client.{Client, ApiVersion}
use mcp_pipedrive.Tools.Common.{
  Tool, Context, Reply, lift, continue_with, ◌>>=◌, client_or_error, extract_list_data, gated,
}
use mcp_pipedrive.Cache.{CacheMeta, CacheMode, valid_cache_mode}
use mcp_pipedrive.Client.Exchange.{Services}
use mcp_pipedrive.Guard.{guard_read}
use mcp_pipedrive.Normalize.Mail.{
  NormalizedMailThread, normalize_mail_fields, normalize_mail_thread_list,
}
use mcp_pipedrive.Prelude.{
  Bool, Option, String, false, if◌then◌else◌, length, none, not, some, ℕ, ◌&&◌,
}
use mcp_pipedrive.Prelude.Int.{is_positive, is_zero, pos, ℤ}
use mcp_pipedrive.Prelude.Text.{is_set}
use mcp_pipedrive.Query.{Query, empty, set, set_id, set_positive}
use mcp_pipedrive.Query.Sort.{str_le}
use mcp_pipedrive.Result.{ok}
use mcp_pipedrive.Tools.Mail.{
  MailThreadsListParams, extract_mail_pagination, mail_cached_get, mail_filtered_hard_cap,
  mail_filtered_page_size, mail_threads_default_limit, to_int64_raw, to_string_raw, capped,
  is_too_old,
}
use mcp_pipedrive.Tools.Mail.Paging.{
  Filter, Paged, Verdict, iterate_pages, too_old, unwanted, wanted,
}
use mcp_pipedrive.Value.{Fields, Value, get}
use mcp_pipedrive.Value.Convert.{as_map}

-- the meta data of the reply, of a single page and of a filtered listing
pub data ThreadsMeta : Type 0 where
  single : Option CacheMeta → Bool → ℤ → ThreadsMeta
  filtered : Bool → ℤ → String → Bool → ℕ → ThreadsMeta

pub record ThreadsReply : Type 0 where
  pub threads : List NormalizedMailThread
  pub meta : ThreadsMeta

-- the folder, and the limit, that are used
abbrev pub folder_of : MailThreadsListParams → String
folder_of args = if is_set args.folder then args.folder else "inbox"

abbrev pub threads_limit : MailThreadsListParams → ℤ
threads_limit args = if is_positive args.limit then args.limit else mail_threads_default_limit

-- baseQuery
unfoldable pub base_query : MailThreadsListParams → ℤ → ℤ → Query
base_query args start page_limit = set_positive "limit" page_limit (
    set_positive "start" start (
      set_id "person_id" args.person_id
        (set_id "deal_id" args.deal_id (set "folder" (folder_of args) empty))))

thread_verdict : MailThreadsListParams → Fields → Verdict
unfolding to_string_raw to_int64_raw str_le
thread_verdict args m =
    if is_too_old args.since (to_string_raw (get m "last_message_timestamp"))
    then too_old
    else if args.unread_only && not (is_zero (to_int64_raw (get m "read_flag")))
    then unwanted
    else wanted

-- the body of the loop over the items; what is no object is passed over
unfoldable pub threads_filter : MailThreadsListParams → Filter Value
unfolding thread_verdict extract_list_data
threads_filter args = record {
  items = λ payload. (extract_list_data payload).1;
  verdict = λ v. elim (as_map v) [ none ↦ unwanted | some m ↦ thread_verdict args m ];
  hard_cap = capped (threads_limit args) mail_filtered_hard_cap;
  single_page = false;
  at_end = λ page. (false, pos 0);
}

abbrev pub filtered_reply : MailThreadsListParams → Paged Value → ThreadsReply
filtered_reply args p =
    let threads = normalize_mail_thread_list p.collected (normalize_mail_fields args.fields) in
    record {
      threads = threads;
      meta = filtered p.more p.next_start args.since args.unread_only (length threads);
    }

abbrev pub reply_to : MailThreadsListParams → Option (Paged Value) → Option ThreadsReply
reply_to args none = none
reply_to args (some p) = some (filtered_reply args p)

module _ {Db : Type 0} (services : Services Db) where
  abbrev threads_page :
      Client → MailThreadsListParams → CacheMode → ℤ → ℤ → Tool Db (Option CacheMeta × Value)
  threads_page c args mode start page_limit =
      mail_cached_get services c ApiVersion.v1_legacy "/mailbox/mailThreads"
        (some (base_query args start page_limit)) c.ttls.mail_list mode

  -- the fast path
  unfoldable pub single_page_of : Client → MailThreadsListParams → CacheMode → Tool Db ThreadsReply
  unfolding base_query mail_cached_get extract_list_data extract_mail_pagination
  single_page_of c args mode = do
    answer ← threads_page c args mode args.start (threads_limit args)
    let page = extract_mail_pagination answer.1
    lift (
        ok (record {
          threads =
              normalize_mail_thread_list (extract_list_data answer.1).1
                (normalize_mail_fields args.fields);
          meta = single answer.0 page.0 page.1;
        }))

  -- mailCachedGet of a page of the filtered path
  unfoldable pub filtered_page : Client → MailThreadsListParams → CacheMode → ℤ → Tool Db Value
  unfolding base_query mail_cached_get
  filtered_page c args mode cursor = do
    answer ← threads_page c args mode cursor (pos mail_filtered_page_size)
    lift (ok answer.1)

  module _ (fuel : ℕ) where
    -- the filtered path
    unfoldable pub filtered_pages :
        Client → MailThreadsListParams → CacheMode → Tool Db (Option ThreadsReply)
    unfolding threads_filter filtered_page iterate_pages
    filtered_pages c args mode = do
      found ← iterate_pages (threads_filter args) (filtered_page c args mode) fuel args.start []
      lift (ok (reply_to args found))

    -- the fast path or the filtered one
    abbrev pub threads_of :
        Client → MailThreadsListParams → CacheMode → Tool Db (Option ThreadsReply)
    threads_of c args mode w =
        if not (is_set args.since) && not args.unread_only
        then continue_with (single_page_of c args mode w) (λ r. lift (ok (some r)))
        else filtered_pages c args mode w

    -- mailThreadsList
    unfoldable pub mail_threads_list :
        Context → MailThreadsListParams → Tool Db (Reply (Option ThreadsReply))
    unfolding single_page_of filtered_pages
    mail_threads_list ctx args = gated ctx "pipedrive.mail.threads.list" guard_read (do
      mode ← lift (valid_cache_mode args.cache_mode)
      c ← lift (client_or_error ctx.client)
      threads_of c args mode)
