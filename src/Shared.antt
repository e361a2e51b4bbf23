-- ===== src/Shared.antt =====
-- The cache that all requests share, of pipedrive/context.go. OpenCache is a parameter: the cache
-- at a path, or none if it fails.
mod Context
mod Requests
mod Laws
mod Examples
use mcp_pipedrive.Config.{Config}
use mathlib.Core.List.{List, [], ◌∷◌}
use mcp_pipedrive.Prelude.{Bool, Option, String, false, if◌then◌else◌, none, not, true, ◌&&◌}
use mcp_pipedrive.Prelude.Text.{is_set, trim_space}

-- sharedCacheOnce and sharedCache
pub record SharedCache (Db : Type 0) : Type 0 where
  pub done : Bool
  pub cache : Option Db

module _ {Db : Type 0} (open_cache : String → Option Db) where
  abbrev pub not_opened : SharedCache Db
  not_opened = record { done = false; cache = none }

  abbrev pub wants_cache : Config → Bool
  wants_cache cfg = cfg.cache_enabled && is_set (trim_space cfg.cache_path)

  -- sharedCacheOnce.Do
  unfoldable pub open_once : Config → SharedCache Db → SharedCache Db
  open_once cfg s = if s.done then s else record { done = true; cache = open_cache cfg.cache_path }

  -- ensureSharedCache: what is shared from now on, and what the request gets
  unfoldable pub ensure_shared_cache : Config → SharedCache Db → SharedCache Db × Option Db
  unfolding open_once
  ensure_shared_cache cfg s =
      if not (wants_cache cfg) then (s, none) else (let s' = open_once cfg s in (s', s'.cache))

  -- the caches that the requests of a process get, one after the other, as ExtractClientFromEnv
  -- and ExtractClientFromHeaders hand them on
  unfoldable pub caches_of : List Config → SharedCache Db → List (Option Db)
  unfolding ensure_shared_cache
  caches_of [] s = []
  caches_of (cfg ∷ more) s =
      let (s', cache) = ensure_shared_cache cfg s in cache ∷ caches_of more s'
