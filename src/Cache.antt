-- ===== src/Cache.antt =====
-- pipedrive/cache.go: the response cache, a bucket of a bbolt file. Times are nanoseconds. A cache
-- that is a nil pointer is `none`.
pub mod Bucket
pub mod Scan
pub mod Memory
pub mod Laws
pub mod Examples
use mathlib.Core.List.{List, [], ◌∷◌}
use Prim.Native.String.{◌++◌}
use Bucket.{Bolt, CacheEntry, Blob, IsSorted, has_key}
use mcp_pipedrive.Prelude.{
  Bool, Option, String, false, if◌then◌else◌, length, none, not, some, suc, true, ℕ, ◌+◌, ◌-◌, ◌/◌,
  ◌||◌,
}
use mcp_pipedrive.Prelude.Int.{negsuc, pos, ℤ}
use mcp_pipedrive.Prelude.Text.{is_set, str_eq, to_lower, trim_space}
use mcp_pipedrive.Query.Sort.{has_prefix, str_le}
use mcp_pipedrive.Result.{Result, err, message, ok}
use mcp_pipedrive.Value.{Fields, Value, bool, end, field, insert, int, int64, str}

-- CacheMode, and ValidCacheMode for what the caller wrote (the error quotes it, without %q's escapes)
pub data CacheMode : Type 0 where
  mode_default mode_bypass mode_refresh mode_only : CacheMode

unfoldable pub valid_cache_mode : String → Result CacheMode
valid_cache_mode m =
    let t = trim_space (to_lower m) in
    if not (is_set t) || str_eq t "default"
    then ok mode_default
    else if str_eq t "bypass"
    then ok mode_bypass
    else if str_eq t "refresh"
    then ok mode_refresh
    else if str_eq t "only"
    then ok mode_only
    else err (
        message
          ("invalid cache_mode \"" ++ (m ++ "\": must be one of default|bypass|refresh|only")))

-- t.Add(d)
unfoldable pub add_duration : ℕ → ℤ → ℕ
add_duration t (pos n) = t + n
add_duration t (negsuc n) = t - suc n

-- newEntry, at the time `now`; what json.Marshal wrote, json.Unmarshal reads back
unfoldable pub new_entry : ℕ → Value → ℤ → CacheEntry
new_entry now payload ttl = record {
  stored_at = now;
  expires_at = add_duration now ttl;
  api_version = "";
  body = some payload;
}

pub record CacheMeta : Type 0 where
  pub hit : Bool
  pub stale : Bool
  pub stored_at : ℕ
  pub expires_at : ℕ
  pub reason : String
  pub ttl_seconds : ℤ

-- Meta, at the time `now`: a ttl that has run out is 0
unfoldable pub entry_meta : ℕ → CacheEntry → Bool → CacheMeta
entry_meta now e stale = record {
  hit = true;
  stale = stale;
  stored_at = e.stored_at;
  expires_at = e.expires_at;
  reason = "";
  ttl_seconds = pos ((e.expires_at - now) / 1_000_000_000);
}

-- the keys that the loop of DeletePrefix collects: Seek, then Next while they have the prefix
unfoldable pub seek : String → List String → List String
seek p [] = []
seek p (k ∷ ks) = if str_le p k then k ∷ ks else seek p ks

unfoldable pub while_prefix : String → List String → List String
while_prefix p [] = []
while_prefix p (k ∷ ks) = let rest = while_prefix p ks in if has_prefix p k then k ∷ rest else []

module _ {Db : Type 0} (bolt : Bolt Db) where
  -- the entry of a stored value that decodes
  abbrev pub decoded : Option Blob → Option CacheEntry
  decoded none = none
  decoded (some blob) = blob

  -- Get
  unfoldable pub cache_get : Option Db → String → Option CacheEntry
  cache_get none key = none
  cache_get (some db) key = decoded (bolt.get db key)

  -- the end of db.Update: the old bucket stays if the commit fails
  abbrev pub commit : Db → Db → Db
  commit old new = if bolt.commits old new then new else old

  -- Put: the new cache, and whether it was stored
  unfoldable pub cache_put : Option Db → String → CacheEntry → Option Db × Bool
  cache_put none key entry = (none, true)
  cache_put (some db) key entry = elim (bolt.put db key (some entry)) [
    | none ↦ (some db, false)
    | some db' ↦ (some (commit db db'), bolt.commits db db')
  ]

  -- Delete: whether the key existed
  unfoldable pub cache_delete : Option Db → String → Option Db × Bool
  cache_delete none key = (none, false)
  cache_delete (some db) key =
      let existed = has_key (bolt.get db key) in
      elim (bolt.delete db key) [
        | none ↦ (some db, existed)
        | some db' ↦ (some (commit db db'), existed)
      ]

  -- the loop that deletes the collected keys, and counts
  unfoldable pub delete_each : Db → List String → Db × ℕ
  delete_each db [] = (db, 0)
  delete_each db (k ∷ ks) = elim (bolt.delete db k) [
    | none ↦ delete_each db ks
    | some db' ↦ let (last, count) = delete_each db' ks in (last, suc count)
  ]

  -- DeletePrefix
  unfoldable pub delete_prefix : Option Db → String → Option Db × ℕ
  unfolding delete_each seek while_prefix
  delete_prefix none prefix = (none, 0)
  delete_prefix (some db) prefix =
      let (last, count) = delete_each db (while_prefix prefix (seek prefix (bolt.keys db))) in
      (some (commit db last), count)

  -- Clear
  unfoldable pub cache_clear : Option Db → Option Db × ℕ
  cache_clear none = (none, 0)
  cache_clear (some db) = (some (commit db bolt.empty), length (bolt.keys db))

  -- Stats, with the path of the file and its size, if the file can be read
  unfoldable pub cache_stats : String → Option ℕ → Option Db → Fields
  cache_stats path file_size none = field "enabled" (bool false) end
  cache_stats path file_size (some db) =
      let out =
        field "enabled" (bool true)
          (field "path" (str path) (field "keys" (int (pos (length (bolt.keys db)))) end)) in
      elim file_size [ none ↦ out | some n ↦ insert "size_bytes" (int64 (pos n)) out ]
