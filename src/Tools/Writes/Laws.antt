-- ===== src/Tools/Writes/Laws.antt =====
-- What every write keeps to.
use mcp_pipedrive.Tools.Common.{Context, reply, client_or_error, gated}
use mcp_pipedrive.Client.{Client, ApiVersion}
use mcp_pipedrive.Client.Exchange.{Services, World}
use mcp_pipedrive.Prelude.{
  arith, Bool, String, ap, false, if◌then◌else◌, none, not, sym, true, ◌&&◌, ◌||◌, ◌∙◌, ◌≡◌, ◌≢◌,
  length, suc, ◌≤◌,
}
use mathlib.Core.Path.{subst}
use mcp_pipedrive.Config.{Config}
use mcp_pipedrive.Guard.{ensure_tool_allowed, guard_delete, guard_write}
use mcp_pipedrive.Guard.Laws.{ensure_tool_allowed_iff}
use mcp_pipedrive.Result.{ok}
use mcp_pipedrive.Tools.Resource.{Written, run_write}
use mcp_pipedrive.Tools.Resource.Forgetting.{IsGone, run_write-IsGone}
use mcp_pipedrive.Tools.Steps.{on_verdict-refused}
use mcp_pipedrive.Tools.Writes.{ResourceWrite, handle, is_delete, is_served, root_of}
use mcp_pipedrive.Tools.Writes.Outdated.{outdated_of_resource}
use mcp_pipedrive.Tools.Writes.Runs.{
  handle_lem, kind_of_resource, reply_of_resource, write_of_resource,
}
use mcp_pipedrive.Tools.Resource.Requests.{run_write-sent}

flag_off :
    (cfg : Config) (name : String) (deletes : Bool)
    → not cfg.allow_write || (deletes && not cfg.allow_delete) ≡ true
    → ensure_tool_allowed cfg name (if deletes then guard_delete else guard_write) ≢ ok none
flag_off cfg name true h e =
    let (write_on, delete_on) = ((ensure_tool_allowed_iff cfg name guard_delete).0 e).1 in
    ground arith
flag_off cfg name false h e =
    let write_on = ((ensure_tool_allowed_iff cfg name guard_write).0 e).1 in ground arith

-- a flag that a write needs is off
abbrev pub is_refused : Context → ResourceWrite → Bool
is_refused ctx wr = not ctx.config.allow_write || (is_delete wr && not ctx.config.allow_delete)

module _ {Db : Type 0} (services : Services Db) where
  -- Without PIPEDRIVE_ALLOW_WRITE no write of a deal, a person, an organization, a product, a lead,
  -- an activity, a note, a filter, a webhook, an attachment of a product to a deal or a follower
  -- changes the world, and without PIPEDRIVE_ALLOW_DELETE no delete does: nothing is sent, and the
  -- cache stays as it is.
  pub handle-refused :
      (ctx : Context) (w : World Db) (wr : ResourceWrite)
      → is_refused ctx wr ≡ true
      → (handle services ctx wr w).0 ≡ w
  unfolding run_write gated
  handle-refused ctx w wr h =
      ap (λ f. (f w).0) (handle_lem services ctx wr)
      ∙ on_verdict-refused
          (ensure_tool_allowed ctx.config (write_of_resource wr).tool_name
            (write_of_resource wr).kind)
          _ w
          (subst (λ k. ensure_tool_allowed ctx.config (write_of_resource wr).tool_name k ≢ ok none)
            (sym (kind_of_resource wr))
            (flag_off ctx.config (write_of_resource wr).tool_name (is_delete wr) h))

  -- If the cache file can be written, then behind a write that ends in a reply, no answer to a GET
  -- whose path starts with the path of what is written is in the cache, neither the item nor a
  -- list nor a search. This holds for the answers of both API versions for a deal, a person, an
  -- organization, a product and an activity; of version 1 for a lead, a note, a filter and a
  -- webhook; of version 2 for the followers of an item, and for a deal, given a positive id, whose
  -- attached products are written.
  pub handle-IsGone :
      (works : (d : Db) (k : String) → services.bolt.delete d k ≢ none)
      (commits : (d d' : Db) → services.bolt.commits d d' ≡ true) (ctx : Context) (c : Client)
      (w : World Db) (wr : ResourceWrite) (v : ApiVersion) (r : Written)
      → is_served wr v ≡ true
      → client_or_error ctx.client ≡ ok c
      → (handle services ctx wr w).1 ≡ ok (reply r)
      → IsGone services c v (root_of wr) (handle services ctx wr w).0
  handle-IsGone works commits ctx c w wr v r served usable h =
      subst (λ f. IsGone services c v (root_of wr) (f w).0) (sym (handle_lem services ctx wr))
        (run_write-IsGone services works commits v (root_of wr) ctx c w (write_of_resource wr)
          (reply_of_resource wr) r usable (outdated_of_resource wr v served)
          (ap (λ f. (f w).1) (sym (handle_lem services ctx wr)) ∙ h))

  -- A write sends at most one request, whatever the upstream answers to it: a failed one is not
  -- sent again.
  pub handle-sent :
      (ctx : Context) (w : World Db) (wr : ResourceWrite)
      → length (handle services ctx wr w).0.sent ≤ suc (length w.sent)
  handle-sent ctx w wr =
      subst (λ f. length (f w).0.sent ≤ suc (length w.sent)) (sym (handle_lem services ctx wr))
        (run_write-sent services ctx (write_of_resource wr) (reply_of_resource wr) w)
