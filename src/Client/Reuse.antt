-- ===== src/Client/Reuse.antt =====
-- What CachedGet has stored, it answers with later.
use mathlib.Core.Path.{subst}
use mcp_pipedrive.Client.{Client, Request}
use mcp_pipedrive.Cache.{
  CacheMode, add_duration, cache_get, cache_put, mode_default, mode_only, mode_refresh, new_entry,
}
use mcp_pipedrive.Cache.Bucket.{Blob}
use mcp_pipedrive.Cache.Laws.{cache_put-works}
use mcp_pipedrive.Client.Exchange.{Services, World, do_json}
use mcp_pipedrive.Client.Fetch.{Answer, cached_get, dispatch, store, stored_meta}
use mcp_pipedrive.Prelude.{
  Bool, Option, Option-cases, String, ap, inl, inr, none, refl, some, true, ℕ, ◌+◌, ◌<◌, ◌∙◌, ◌≡◌,
  ◌≢◌, ◌⊎◌,
}
use mcp_pipedrive.Prelude.Int.{pos, ℤ}
use mcp_pipedrive.Result.{ok}
use mcp_pipedrive.Value.{Value}
use mcp_pipedrive.Client.Freshness.{cached_get-fresh}
use mcp_pipedrive.Client.Requests.{do_json_lem}

module _ {Db : Type 0} (services : Services Db) where
  -- what a refresh does when the upstream answers and the cache can be written
  refresh_lem :
      (c : Client) (req : Request) (key : String) (ttl : ℤ) (w : World Db) (db : Db)
      (payload : Value)
      → ((d : Db) (b : Blob) → services.bolt.put d key b ≢ none)
      → ((d d' : Db) → services.bolt.commits d d' ≡ true)
      → w.cache ≡ some db
      → (do_json services c req true w).1 ≡ ok payload
      → let w' = (do_json services c req true w).0 in
        (db' : Db) × ((cached_get services c req key ttl mode_refresh w ≡ (
          record w' { cache = some db' },
          (some (stored_meta services w.now ttl true), ok payload),
        ))
          × (cache_get services.bolt (some db') key ≡ some (new_entry w'.now payload ttl)))
  unfolding cached_get dispatch store
  refresh_lem c req key ttl w db payload puts commits cached ok_payload =
      let w' = (do_json services c req true w).0 in
      let (db', (put, held)) =
        cache_put-works services.bolt db key (new_entry w'.now payload ttl) puts commits in
      (
        db',
        (
          ap (λ o. dispatch services c req key ttl mode_refresh w o) cached
              ∙ ap (λ r. store services c key ttl w.now (w', r)) ok_payload
              ∙ ap
                  (λ o. stored_at w' (cache_put services.bolt o key (new_entry w'.now payload ttl)))
                  ((do_json_lem services c req true w).0 ∙ cached)
              ∙ ap (stored_at w') put,
          held,
        ),
      )
    where
      stored_at : World Db → Option Db × Bool → World Db × Answer
      stored_at w' r =
          (record w' { cache = r.0 }, (some (stored_meta services w.now ttl r.1), ok payload))

  -- When the cache can be written, the payload that a refresh has fetched is the answer of a
  -- CachedGet of the same key in any world whose cache has under the key what the refresh has left
  -- there, in default or in only mode, while the TTL has not passed since it was stored: the world
  -- stays as it is, so nothing is sent. Between the two there may be anything else, requests and
  -- writes of other keys included; a write or an invalidation of this key is excluded.
  pub cached_get-again :
      (c : Client) (req req' : Request) (key : String) (ttl : ℕ) (ttl' : ℤ) (mode : CacheMode)
      (w later : World Db) (payload : Value)
      → ((d : Db) (b : Blob) → services.bolt.put d key b ≢ none)
      → ((d d' : Db) → services.bolt.commits d d' ≡ true)
      → w.cache ≢ none
      → (do_json services c req true w).1 ≡ ok payload
      → (mode ≡ mode_default) ⊎ (mode ≡ mode_only)
      → let w' = (cached_get services c req key (pos ttl) mode_refresh w).0 in
        cache_get services.bolt later.cache key ≡ cache_get services.bolt w'.cache key
        → later.now < w'.now + ttl
        → let again = cached_get services c req' key ttl' mode later in
          (again.1.1 ≡ ok payload) × (again.0 ≡ later)
  unfolding new_entry add_duration
  cached_get-again c req req' key ttl ttl' mode w later payload puts commits cached ok_payload m
        same h =
      elim (Option-cases w.cache) [
        | inl absent ↦ absurd (cached absent)
        | inr (db, there) ↦
            let (db', (refreshed, held)) =
              refresh_lem c req key (pos ttl) w db payload puts commits there ok_payload in
            let early : later.now < (do_json services c req true w).0.now + ttl =
              subst (λ r. later.now < r.0.now + ttl) refreshed h in
            let hit =
              cached_get-fresh services c req' key ttl' mode later
                (new_entry (do_json services c req true w).0.now payload (pos ttl)) payload m
                (same ∙ (ap (λ r. cache_get services.bolt r.0.cache key) refreshed ∙ held)) early
                refl in
            (ap (λ a. a.1.1) hit, ap (λ a. a.0) hit)
      ]
