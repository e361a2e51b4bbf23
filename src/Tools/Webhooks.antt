-- ===== src/Tools/Webhooks.antt =====
-- tools/webhooks.go: webhooks, of version 1 of the API.
use mathlib.Core.List.{List, [], ◌∷◌}
use mcp_pipedrive.Client.{ApiVersion}
use mcp_pipedrive.Tools.Common.{
  Tool, Context, Reply, lift, ◌>>=◌, client_or_error, gated, set_if_non_zero, set_if_non_zero_int,
}
use mcp_pipedrive.Cache.{valid_cache_mode}
use mcp_pipedrive.Client.Exchange.{Services}
use mcp_pipedrive.Guard.{guard_delete, guard_read, guard_write}
use mcp_pipedrive.Normalize.Activity.{NormalizedWebhook, normalize_webhook, normalize_webhook_list}
use mcp_pipedrive.Prelude.{Bool, String, none, not, some, ◌||◌}
use mcp_pipedrive.Prelude.Int.{ℤ}
use mcp_pipedrive.Prelude.Text.{is_set, str_eq}
use mcp_pipedrive.Result.{Result, guard, message, ok}
use mcp_pipedrive.Tools.Resource.{
  ShortReply, Write, Written, and_check, cached_read, check_id, deleted_reply, listed_short,
  resource_path, run_write, saved_reply, webhook, write_of,
}
use mcp_pipedrive.Validate.{require_id, require_one_of}
use mcp_pipedrive.Value.{Fields, Value, end, field, int64, obj, str}

pub record WebhooksListParams : Type 0 where
  pub include_raw : Bool
  pub cache_mode : String

pub record WebhooksCreateParams : Type 0 where
  pub name : String
  pub subscription_url : String
  pub event_action : String
  pub event_object : String
  pub user_id : ℤ
  pub http_auth_user : String
  pub http_auth_password : String
  pub version : String

abbrev event_actions : List String
event_actions = "create" ∷ "change" ∷ "delete" ∷ "*" ∷ []

abbrev event_objects : List String
event_objects =
    "activity" ∷ "deal" ∷ "lead" ∷ "note" ∷ "organization" ∷ "person" ∷ "pipeline" ∷ "product"
    ∷ "stage" ∷ "user" ∷ "*" ∷ []

-- the five checks of webhooksCreate
unfoldable pub check_webhook : WebhooksCreateParams → Result (Unit {0})
check_webhook args = and_check (require_id args.name "name") (
    and_check (require_id args.subscription_url "subscription_url") (
      and_check (require_one_of args.event_action "event_action" event_actions) (
        and_check (require_one_of args.event_object "event_object" event_objects) (
          guard
            (not (is_set args.version) || str_eq args.version "1.0" || str_eq args.version "2.0")
            (message "version must be 1.0 or 2.0")))))

unfoldable pub webhook_body : WebhooksCreateParams → Fields
unfolding set_if_non_zero set_if_non_zero_int
webhook_body args = set_if_non_zero "version" args.version (
    set_if_non_zero "http_auth_password" args.http_auth_password (
      set_if_non_zero "http_auth_user" args.http_auth_user (
        set_if_non_zero_int "user_id" args.user_id (
          field "name" (str args.name) (
            field "subscription_url" (str args.subscription_url) (
              field "event_action" (str args.event_action)
                (field "event_object" (str args.event_object) end)))))))

abbrev pub webhooks_outdated : List (ApiVersion × String)
webhooks_outdated = (ApiVersion.v1, "/webhooks") ∷ []

unfoldable pub webhooks_create_write : WebhooksCreateParams → Write
unfolding check_webhook webhook_body
webhooks_create_write args =
    write_of webhooks_outdated ApiVersion.v1 "pipedrive.webhooks.create" guard_write
      (check_webhook args) "POST" "/webhooks" (some (obj (webhook_body args)))

unfoldable pub webhooks_delete_write : ℤ → Write
webhooks_delete_write id =
    write_of webhooks_outdated ApiVersion.v1 "pipedrive.webhooks.delete" guard_delete (check_id id)
      "DELETE" (resource_path "/webhooks" id) none

abbrev pub saved_webhook : Value → Written
saved_webhook payload = saved_reply (λ m. webhook (normalize_webhook m)) payload

module _ {Db : Type 0} (services : Services Db) where
  -- webhooksList
  unfoldable pub webhooks_list :
      Context → WebhooksListParams → Tool Db (Reply (ShortReply NormalizedWebhook))
  unfolding cached_read
  webhooks_list ctx args = gated ctx "pipedrive.webhooks.list" guard_read (do
    mode ← lift (valid_cache_mode args.cache_mode)
    c ← lift (client_or_error ctx.client)
    answer ← cached_read services c ApiVersion.v1 "/webhooks" none c.ttls.metadata mode
    lift (ok (listed_short normalize_webhook_list args.include_raw answer)))

  -- webhooksCreate
  unfoldable pub webhooks_create : Context → WebhooksCreateParams → Tool Db (Reply Written)
  unfolding webhooks_create_write run_write
  webhooks_create ctx args = run_write services ctx (webhooks_create_write args) saved_webhook

  -- webhooksDelete
  unfoldable pub webhooks_delete : Context → ℤ → Tool Db (Reply Written)
  unfolding webhooks_delete_write run_write
  webhooks_delete ctx id =
      run_write services ctx (webhooks_delete_write id) (deleted_reply (int64 id))
