-- ===== src/Tools/Admin.antt =====
-- tools/cache.go: the tools on the cache itself. The cache of the context is that of the world.
mod Laws
mod Examples
use Prim.Native.String.{◌++◌}
use mcp_pipedrive.Tools.Common.{Tool, Context, Reply, lift, ◌>>=◌, ◌>>◌, gated}
use mcp_pipedrive.Cache.{cache_clear, cache_stats, delete_prefix}
use mcp_pipedrive.Client.Exchange.{Services}
use mcp_pipedrive.Guard.{guard_admin, guard_read}
use mcp_pipedrive.Prelude.{Bool, Option, String, none, some, ℕ}
use mcp_pipedrive.Result.{Error, err, guard, hard, message, ok}
use mcp_pipedrive.Validate.{require_id}
use mcp_pipedrive.Value.{Fields}

module _ {Db : Type 0} (services : Services Db) where
  abbrev cache_disabled : Error
  cache_disabled = hard (message "cache is disabled")

  -- cacheStats, with the path and the size of the file
  unfoldable pub cache_stats_tool : Context → String → Option ℕ → Tool Db (Reply Fields)
  cache_stats_tool ctx path file_size =
      gated ctx "pipedrive.cache.stats" guard_read
        (λ w. (w, ok (cache_stats services.bolt path file_size w.cache)))

  -- cache.Clear(), once the cache is known to be there
  abbrev pub clear : Tool Db ℕ
  clear w = elim w.cache [
    | none ↦ (w, err cache_disabled)
    | some db ↦
        let (cache', n) = cache_clear services.bolt (some db) in (record w { cache = cache' }, ok n)
  ]

  -- cacheClear
  unfoldable pub cache_clear_tool : Context → Bool → Tool Db (Reply ℕ)
  cache_clear_tool ctx confirm =
      gated ctx "pipedrive.cache.clear" guard_admin
        (do lift (guard confirm (message "pass confirm=true to clear the cache")); clear)

  -- cache.DeletePrefix(prefix)
  abbrev pub invalidate : String → Tool Db ℕ
  invalidate prefix w = elim w.cache [
    | none ↦ (w, err cache_disabled)
    | some db ↦
        let (cache', n) = delete_prefix services.bolt (some db) prefix in
        (record w { cache = cache' }, ok n)
  ]

  -- cacheInvalidate
  unfoldable pub cache_invalidate_tool : Context → String → Tool Db (Reply ℕ)
  cache_invalidate_tool ctx prefix =
      gated ctx "pipedrive.cache.invalidate" guard_admin
        (do lift (require_id prefix "prefix"); invalidate prefix)
