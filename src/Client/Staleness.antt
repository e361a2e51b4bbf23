-- ===== src/Client/Staleness.antt =====
-- What CachedGet answers when the upstream is out of order.
use mcp_pipedrive.Client.{Client, Request}
use mcp_pipedrive.Cache.{cache_get, mode_refresh}
use mcp_pipedrive.Cache.Bucket.{CacheEntry}
use mcp_pipedrive.Client.Exchange.{Services, World, do_json}
use mcp_pipedrive.Client.Fetch.{
  cached_get, dispatch, failed, not_null, or_error, stale_entry, stale_fallback, stale_meta, store,
}
use mcp_pipedrive.Prelude.{
  Bool, Option, String, ap, arith, false, if◌then◌else◌, none, none≢some, not, refl, some, true,
  ◌&&◌, ◌||◌, ◌∙◌, ◌≡◌,
}
use mcp_pipedrive.Prelude.Int.{ℤ}
use mcp_pipedrive.Result.{ApiError, api, err, is_rate_limited, is_server_error, ok}
use mcp_pipedrive.Value.{Value}
use mcp_pipedrive.Client.Requests.{do_json_lem}

module _ {Db : Type 0} (services : Services Db) where
  stale_fallback_lem :
      (cache : Option Db) (key : String) (e : ApiError) (entry : CacheEntry) (payload : Value)
      → (is_rate_limited e || is_server_error e) ≡ true
      → cache_get services.bolt cache key ≡ some entry
      → entry.body ≡ some payload
      → stale_fallback services cache key (api e) ≡ some (stale_meta entry e, payload)
  unfolding stale_fallback is_server_error
  stale_fallback_lem cache key e entry payload is cached body =
      rw
        (
          stale_fallback,
          excluded (is_rate_limited e) (is_server_error e) is,
          cached,
          stale_entry,
          body,
        )
        refl
    where
      excluded : (a b : Bool) → (a || b) ≡ true → (not a && not b) ≡ false
      excluded a b h = ground arith

  failed-stale :
      (c : Client) (key : String) (e : ApiError) (entry : CacheEntry) (payload : Value)
      → (cache : Option Db) → (is_rate_limited e || is_server_error e) ≡ true
      → cache_get services.bolt cache key ≡ some entry
      → entry.body ≡ some payload
      → not_null payload ≡ true
      → (failed services c cache key (api e)).1
        ≡ (if c.stale_on_429 then ok payload else err (api e))
  unfolding failed cache_get
  failed-stale c key e entry payload none is cached body real = absurd (none≢some cached)
  failed-stale c key e entry payload (some db) is cached body real = by_flag c.stale_on_429
    where
      by_flag :
          (b : Bool)
          → (if b
              then or_error (api e) (stale_fallback services (some db) key (api e))
              else (none, err (api e))).1
            ≡ (if b then ok payload else err (api e))
      by_flag false = refl
      by_flag true =
          rw (stale_fallback_lem (some db) key e entry payload is cached body, or_error, real) refl

  -- When the upstream answers that its rate limit is reached or that it has failed itself, and
  -- the cache holds an entry of any age for the key whose payload is not null, a refresh returns
  -- that payload if the client allows stale answers, and the error if not.
  pub cached_get-stale :
      (c : Client) (req : Request) (key : String) (ttl : ℤ) (w : World Db)
      → (e : ApiError) (entry : CacheEntry) (payload : Value)
      → (do_json services c req true w).1 ≡ err (api e)
      → (is_rate_limited e || is_server_error e) ≡ true
      → cache_get services.bolt w.cache key ≡ some entry
      → entry.body ≡ some payload
      → not_null payload ≡ true
      → (cached_get services c req key ttl mode_refresh w).1.1
        ≡ (if c.stale_on_429 then ok payload else err (api e))
  unfolding cached_get dispatch store cache_get
  cached_get-stale c req key ttl w e entry payload fails is cached body real =
      by_cache w.cache cached
    where
      by_cache :
          (o : Option Db)
          → cache_get services.bolt o key ≡ some entry
          → (dispatch services c req key ttl mode_refresh w o).1.1
            ≡ (if c.stale_on_429 then ok payload else err (api e))
      by_cache none absent = absurd (none≢some absent)
      by_cache (some db) there =
          let w' = (do_json services c req true w).0 in
          ap (λ r. (store services c key ttl w.now (w', r)).1.1) fails
          ∙ ap (λ o. (failed services c o key (api e)).1) (do_json_lem services c req true w).0
          ∙ failed-stale c key e entry payload w.cache is cached body real
