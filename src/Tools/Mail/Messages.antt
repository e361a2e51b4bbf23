-- ===== src/Tools/Mail/Messages.antt =====
-- mailThreadsGet and mailMessagesGet of tools/mailbox.go. `from_string` is the HTML converter.
use mathlib.Core.List.{List}
use Prim.Native.String.{◌++◌}
use mcp_pipedrive.Client.{Client, ApiVersion}
use mcp_pipedrive.Tools.Common.{
  Tool, Context, Reply, lift, continue_with, ◌>>=◌, ◌>>◌, client_or_error, extract_list_data,
  extract_item_data, gated,
}
use mcp_pipedrive.Cache.{CacheMeta, CacheMode, valid_cache_mode}
use mcp_pipedrive.Client.Exchange.{Services}
use mcp_pipedrive.Guard.{guard_read}
use mcp_pipedrive.Normalize.Mail.{
  NormalizedMailMessage, NormalizedMailThread, body_format_none, normalize_body_format,
  normalize_mail_fields, normalize_mail_message, normalize_mail_message_list, normalize_mail_thread,
}
use mcp_pipedrive.Prelude.{Bool, Option, String, false, if◌then◌else◌, none, some, true}
use mcp_pipedrive.Prelude.Int.{format_int, is_positive, ℤ}
use mcp_pipedrive.Query.{Query, empty, set}
use mcp_pipedrive.Result.{Error, guard, message, ok}
use mcp_pipedrive.Tools.Mail.{
  MailMessagesGetParams, MailThreadsGetParams, bool_or_default, mail_cached_get,
}
use mcp_pipedrive.Value.{Value}

-- the messages of a thread, with the cache's part of the meta data, if they are asked for
pub record ThreadReply : Type 0 where
  pub thread : NormalizedMailThread
  pub cache : Option CacheMeta
  pub messages : Option (List NormalizedMailMessage × Option CacheMeta)

pub record MessageReply : Type 0 where
  pub shown : NormalizedMailMessage
  pub cache : Option CacheMeta

abbrev thread_id_required : Error
thread_id_required = message "id is required and must be > 0"

-- the format that is used: none without a body
abbrev pub shown_format : Bool → String → String
shown_format included format = if included then normalize_body_format format else body_format_none

-- include_body=1
abbrev pub body_query : Bool → Query
body_query included = if included then set "include_body" "1" empty else empty

module _ {Db : Type 0} (services : Services Db) (from_string : String → Option String) where
  abbrev mail_get :
      Client → String → Option Query → ℤ → CacheMode → Tool Db (Option CacheMeta × Value)
  mail_get c path q ttl mode = mail_cached_get services c ApiVersion.v1_legacy path q ttl mode

  -- the second request of mailThreadsGet, for the messages' metadata
  unfoldable pub thread_messages :
      Client
      → String
      → CacheMode
      → Bool
      → Tool Db (Option (List NormalizedMailMessage × Option CacheMeta))
  unfolding mail_cached_get extract_list_data
  thread_messages c path mode false w = (w, ok none)
  thread_messages c path mode true w =
      continue_with (mail_get c (path ++ "/mailMessages") none c.ttls.mail_list mode w) λ answer.
        lift (
          ok (
            some (
              normalize_mail_message_list from_string (extract_list_data answer.1).1
                  body_format_none,
              answer.0,
            )))

  -- mailThreadsGet
  unfoldable pub mail_threads_get : Context → MailThreadsGetParams → Tool Db (Reply ThreadReply)
  unfolding mail_cached_get thread_messages
  mail_threads_get ctx args = gated ctx "pipedrive.mail.threads.get" guard_read (do
    lift (guard (is_positive args.id) thread_id_required)
    mode ← lift (valid_cache_mode args.cache_mode)
    c ← lift (client_or_error ctx.client)
    let path = "/mailbox/mailThreads/" ++ format_int args.id
    answer ← mail_get c path none c.ttls.mail_list mode
    found ← thread_messages c path mode (bool_or_default args.include_messages true)
    lift (
        ok (record {
          thread =
              normalize_mail_thread (extract_item_data answer.1).1
                (normalize_mail_fields args.fields);
          cache = answer.0;
          messages = found;
        })))

  -- mailMessagesGet
  unfoldable pub mail_messages_get : Context → MailMessagesGetParams → Tool Db (Reply MessageReply)
  unfolding mail_cached_get
  mail_messages_get ctx args = gated ctx "pipedrive.mail.messages.get" guard_read (do
    lift (guard (is_positive args.id) thread_id_required)
    mode ← lift (valid_cache_mode args.cache_mode)
    c ← lift (client_or_error ctx.client)
    let included = bool_or_default args.include_body true
    answer ←
        mail_get c ("/mailbox/mailMessages/" ++ format_int args.id) (some (body_query included))
          c.ttls.mail_message mode
    lift (
        ok (record {
          shown =
              normalize_mail_message from_string (extract_item_data answer.1).1
                (shown_format included args.body_format);
          cache = answer.0;
        })))
