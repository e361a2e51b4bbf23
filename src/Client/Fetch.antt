-- ===== src/Client/Fetch.antt =====
-- CachedGet, staleFallback and the invalidations of pipedrive/client.go. No time passes while the
-- cache is read.
use mcp_pipedrive.Client.{Client, Request, ApiVersion}
use mcp_pipedrive.Cache.{
  CacheMeta, CacheMode, add_duration, cache_get, cache_put, delete_prefix, entry_meta, mode_bypass,
  mode_default, mode_only, mode_refresh, new_entry,
}
use mcp_pipedrive.Cache.Bucket.{CacheEntry}
use mcp_pipedrive.Client.Exchange.{Services, World, do_json}
use mcp_pipedrive.Client.Key.{path_prefix}
use mcp_pipedrive.Prelude.{
  Bool, Option, String, false, if◌then◌else◌, ltb, none, not, some, suc, true, zero, ℕ, ◌&&◌, ◌/◌,
}
use mcp_pipedrive.Prelude.Int.{negsuc, pos, ℤ}
use mcp_pipedrive.Result.{
  ApiError, Error, Result, api, err, is_rate_limited, is_server_error, message, ok,
}
use mcp_pipedrive.Value.{Value, null}

-- int(d.Seconds())
unfoldable pub whole_seconds : ℤ → ℤ
whole_seconds (pos n) = pos (n / 1_000_000_000)
whole_seconds (negsuc n) = elim (suc n / 1_000_000_000) [ zero ↦ pos 0 | suc m ↦ negsuc m ]

-- what CachedGet returns besides the world: the metadata and the payload, or the error
abbrev pub Answer : Type 0
Answer = Option CacheMeta × Result Value

-- &CacheMeta{Hit: false, Reason: reason}
abbrev pub miss : String → CacheMeta
miss reason = record {
  hit = false;
  stale = false;
  stored_at = 0;
  expires_at = 0;
  reason = reason;
  ttl_seconds = pos 0;
}

-- whether the stale payload counts: a nil one does not
abbrev pub not_null : Value → Bool
not_null null = false
not_null v = true

abbrev pub stale_meta : CacheEntry → ApiError → CacheMeta
stale_meta entry e = record {
  hit = true;
  stale = true;
  stored_at = entry.stored_at;
  expires_at = entry.expires_at;
  reason = if is_server_error e then "pipedrive_server_error" else "pipedrive_rate_limited";
  ttl_seconds = pos 0;
}

-- the stale entry that staleFallback has found
abbrev pub stale_body : CacheEntry → ApiError → Option Value → Option (CacheMeta × Value)
stale_body entry e none = none
stale_body entry e (some payload) = some (stale_meta entry e, payload)

unfoldable pub stale_entry : ApiError → Option CacheEntry → Option (CacheMeta × Value)
stale_entry e none = none
stale_entry e (some entry) = stale_body entry e entry.body

-- CachedGet after a failure: the stale payload, or the error
unfoldable pub or_error : Error → Option (CacheMeta × Value) → Answer
or_error e none = (none, err e)
or_error e (some (meta, payload)) =
    if not_null payload then (some meta, ok payload) else (none, err e)

abbrev pub decoded_answer : CacheMeta → Option Value → Option (CacheMeta × Value)
decoded_answer meta none = none
decoded_answer meta (some payload) = some (meta, payload)

-- what answers without a request at a time: an entry that has not expired and decodes
unfoldable pub fresh_entry : ℕ → Option CacheEntry → Option (CacheMeta × Value)
fresh_entry now none = none
fresh_entry now (some entry) =
    if ltb now entry.expires_at
    then decoded_answer (entry_meta now entry false) entry.body
    else none

module _ {Db : Type 0} (services : Services Db) where
  -- staleFallback. errors.As also finds an *APIError inside another error; DoJSON wraps none.
  unfoldable pub stale_fallback : Option Db → String → Error → Option (CacheMeta × Value)
  unfolding stale_entry
  stale_fallback cache key (api e) =
      if not (is_rate_limited e) && not (is_server_error e)
      then none
      else stale_entry e (cache_get services.bolt cache key)
  stale_fallback cache key e = none

  -- the return after a failed request
  unfoldable pub failed : Client → Option Db → String → Error → Answer
  unfolding stale_fallback or_error
  failed c none key e = (none, err e)
  failed c (some db) key e =
      if c.stale_on_429 then or_error e (stale_fallback (some db) key e) else (none, err e)

  unfoldable pub fresh : World Db → String → Option (CacheMeta × Value)
  unfolding fresh_entry
  fresh w key = fresh_entry w.now (cache_get services.bolt w.cache key)

  -- CachedGet without a cache or around it, with what DoJSON returned
  unfoldable pub pass_on : Client → String → World Db × Result Value → World Db × Answer
  unfolding failed
  pass_on c key (w, err e) = (w, failed c w.cache key e)
  pass_on c key (w, ok payload) = (w, (some (miss ""), ok payload))

  -- the metadata of an answer that CachedGet asked for at the time `now`
  unfoldable pub stored_meta : ℕ → ℤ → Bool → CacheMeta
  unfolding whole_seconds
  stored_meta now ttl false = miss "cache_store_failed"
  stored_meta now ttl true = record {
    hit = false;
    stale = false;
    stored_at = now;
    expires_at = add_duration now ttl;
    reason = "";
    ttl_seconds = whole_seconds ttl;
  }

  -- the end of CachedGet, which began at the time `now`: the answer of DoJSON is cached
  unfoldable pub store : Client → String → ℤ → ℕ → World Db × Result Value → World Db × Answer
  unfolding failed stored_meta
  store c key ttl now (w, err e) = (w, failed c w.cache key e)
  store c key ttl now (w, ok payload) =
      let (cache', stored) = cache_put services.bolt w.cache key (new_entry w.now payload ttl) in
      (record w { cache = cache' }, (some (stored_meta now ttl stored), ok payload))

  -- the entry answers, or else `otherwise`
  unfoldable pub fresh_or :
      World Db → Option (CacheMeta × Value) → World Db × Answer → World Db × Answer
  fresh_or w none otherwise = otherwise
  fresh_or w (some (meta, payload)) otherwise = (w, (some meta, ok payload))

  -- CachedGet, by the cache of the world and the mode
  unfoldable pub dispatch :
      Client → Request → String → ℤ → CacheMode → World Db → Option Db → World Db × Answer
  unfolding pass_on store fresh_or fresh
  dispatch c req key ttl mode w none = pass_on c key (do_json services c req true w)
  dispatch c req key ttl mode_bypass w (some db) = pass_on c key (do_json services c req true w)
  dispatch c req key ttl mode_refresh w (some db) =
      store c key ttl w.now (do_json services c req true w)
  dispatch c req key ttl mode_default w (some db) =
      fresh_or w (fresh w key) (store c key ttl w.now (do_json services c req true w))
  dispatch c req key ttl mode_only w (some db) =
      fresh_or w (fresh w key) (w, (some (miss "cache_miss"), err (message "cache miss")))

  -- CachedGet
  unfoldable pub cached_get :
      Client → Request → String → ℤ → CacheMode → World Db → World Db × Answer
  unfolding dispatch
  cached_get c req key ttl mode w = dispatch c req key ttl mode w w.cache

  -- InvalidatePrefix
  unfoldable pub invalidate_prefix : String → World Db → World Db × ℕ
  invalidate_prefix prefix w =
      let (cache', count) = delete_prefix services.bolt w.cache prefix in
      (record w { cache = cache' }, count)

  -- InvalidatePath
  unfoldable pub invalidate_path : Client → ApiVersion → String → String → World Db → World Db × ℕ
  unfolding invalidate_prefix path_prefix
  invalidate_path c v method path w =
      invalidate_prefix (path_prefix services.sha256_hex services.marshal c v method path) w
