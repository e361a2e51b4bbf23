-- ===== src/Tools/Followers.antt =====
-- tools/followers.go: the followers of a deal, a person or an organization.
use mathlib.Core.List.{List, [], ◌∷◌}
use Prim.Native.String.{◌++◌}
use mcp_pipedrive.Client.{ApiVersion}
use mcp_pipedrive.Tools.Common.{
  Tool, Context, Reply, lift, ◌>>=◌, ◌>>◌, client_or_error, gated, extract_list_data,
}
use mcp_pipedrive.Cache.{CacheMeta, valid_cache_mode}
use mcp_pipedrive.Client.Exchange.{Services}
use mcp_pipedrive.Guard.{guard_read, guard_write}
use mcp_pipedrive.Mask.{mask_sensitive}
use mcp_pipedrive.Normalize.Product.{NormalizedFollower, normalize_follower_list}
use mcp_pipedrive.Prelude.{Option, String, none, some}
use mcp_pipedrive.Prelude.Int.{format_int, is_positive, ℤ}
use mcp_pipedrive.Result.{guard, message, ok}
use mcp_pipedrive.Tools.Resource.{
  Write, Written, added, and_check, cached_read, check_id, removed, run_write, write_of,
}
use mcp_pipedrive.Value.{Value, end, field, int64, obj}

pub record FollowersListParams : Type 0 where
  pub id : ℤ
  pub cache_mode : String

pub record FollowersAddParams : Type 0 where
  pub id : ℤ
  pub user_id : ℤ

pub record FollowersRemoveParams : Type 0 where
  pub id : ℤ
  pub follower_id : ℤ

unfoldable pub followers_base_path : String → ℤ → String
followers_base_path resource parent_id =
    "/" ++ (resource ++ ("/" ++ (format_int parent_id ++ "/followers")))

abbrev pub followers_outdated : String → ℤ → List (ApiVersion × String)
unfolding followers_base_path
followers_outdated resource id = (ApiVersion.v2, followers_base_path resource id) ∷ []

unfoldable pub followers_add_write : String → String → FollowersAddParams → Write
unfolding followers_base_path
followers_add_write resource tool_name args =
    write_of (followers_outdated resource args.id) ApiVersion.v2 tool_name guard_write
      (and_check (check_id args.id)
        (guard (is_positive args.user_id) (message "user_id is required and must be > 0")))
      "POST" (followers_base_path resource args.id)
      (some (obj (field "user_id" (int64 args.user_id) end)))

unfoldable pub followers_remove_write : String → String → FollowersRemoveParams → Write
unfolding followers_base_path
followers_remove_write resource tool_name args =
    write_of (followers_outdated resource args.id) ApiVersion.v2 tool_name guard_write
      (and_check (check_id args.id)
        (guard (is_positive args.follower_id) (message "follower_id is required and must be > 0")))
      "DELETE" (followers_base_path resource args.id ++ ("/" ++ format_int args.follower_id)) none

abbrev pub added_reply : Value → Written
added_reply payload = added (mask_sensitive payload)

abbrev pub removed_reply : ℤ → Value → Written
removed_reply id payload = removed (int64 id) (mask_sensitive payload)

module _ {Db : Type 0} (services : Services Db) (resource tool_name : String) where
  -- followersList
  unfoldable pub followers_list :
      Context → FollowersListParams → Tool Db (Reply (List NormalizedFollower × Option CacheMeta))
  unfolding followers_base_path cached_read extract_list_data
  followers_list ctx args = gated ctx tool_name guard_read (do
    lift (check_id args.id)
    mode ← lift (valid_cache_mode args.cache_mode)
    c ← lift (client_or_error ctx.client)
    answer ←
        cached_read services c ApiVersion.v2 (followers_base_path resource args.id) none
          c.ttls.follower mode
    lift (ok (normalize_follower_list (extract_list_data answer.1).1, answer.0)))

  -- followersAdd
  unfoldable pub followers_add : Context → FollowersAddParams → Tool Db (Reply Written)
  unfolding followers_add_write run_write
  followers_add ctx args =
      run_write services ctx (followers_add_write resource tool_name args) added_reply

  -- followersRemove
  unfoldable pub followers_remove : Context → FollowersRemoveParams → Tool Db (Reply Written)
  unfolding followers_remove_write run_write
  followers_remove ctx args =
      run_write services ctx (followers_remove_write resource tool_name args)
        (removed_reply args.follower_id)
