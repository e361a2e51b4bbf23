-- ===== src/Client/Freshness.antt =====
-- When CachedGet answers with an entry of the cache.
use mcp_pipedrive.Client.{Client, Request}
use mcp_pipedrive.Cache.{CacheMode, cache_get, mode_default, mode_only, CacheMeta, entry_meta}
use mcp_pipedrive.Cache.Bucket.{CacheEntry}
use mcp_pipedrive.Client.Exchange.{Services, World, do_json}
use mcp_pipedrive.Client.Fetch.{cached_get, dispatch, fresh, fresh_or, store, fresh_entry, miss}
use mcp_pipedrive.Prelude.{
  String, arith, none, refl, some, true, ℕ, ◌<◌, ◌≡◌, ◌≢◌, ◌⊎◌, Option, ap, false, inl, Bool-cases,
  Option-cases, inr, ltb, none≢some,
}
use mcp_pipedrive.Prelude.Int.{ℤ}
use mcp_pipedrive.Result.{err, message, ok}
use mcp_pipedrive.Value.{Value}

-- the payload of the entry, which has not expired at that time
abbrev pub IsFresh : ℕ → Option CacheEntry → Value → Type 0
IsFresh now found payload =
    (entry : CacheEntry) × ((found ≡ some entry)
      × ((now < entry.expires_at) × (entry.body ≡ some payload)))

fresh_entry_cases :
    (now : ℕ) (found : Option CacheEntry)
    → (fresh_entry now found ≡ none)
      ⊎ ((meta : CacheMeta) × ((payload : Value) × ((fresh_entry now found ≡ some (meta, payload))
              × IsFresh now found payload)))
unfolding fresh_entry
fresh_entry_cases now none = inl refl
fresh_entry_cases now (some entry) = elim (Bool-cases (ltb now entry.expires_at)) [
  | inr late ↦ inl (rw (late, fresh_entry) refl)
  | inl early ↦ elim (Option-cases entry.body) [
    | inl lost ↦ inl (rw (early, lost, fresh_entry) refl)
    | inr (payload, found) ↦ inr (
      entry_meta now entry false,
      (payload, (rw (early, found, fresh_entry) refl, (entry, (refl, (ground arith, found))))),
    )
  ]
]

module _ {Db : Type 0} (services : Services Db) where
  -- In default and in only mode, an entry of the cache that has not expired and decodes is the
  -- answer, and the world stays as it is: nothing is sent.
  pub cached_get-fresh :
      (c : Client) (req : Request) (key : String) (ttl : ℤ) (mode : CacheMode) (w : World Db)
      → (entry : CacheEntry) (payload : Value) → (mode ≡ mode_default) ⊎ (mode ≡ mode_only)
      → cache_get services.bolt w.cache key ≡ some entry
      → w.now < entry.expires_at
      → entry.body ≡ some payload
      → cached_get services c req key ttl mode w
        ≡ (w, (some (entry_meta w.now entry false), ok payload))
  unfolding cached_get dispatch fresh_or fresh fresh_entry cache_get
  cached_get-fresh c req key ttl mode w entry payload m found early body = by_cache w.cache found
    where
      is_early : ltb w.now entry.expires_at ≡ true
      is_early = ground arith

      is_fresh : fresh services w key ≡ some (entry_meta w.now entry false, payload)
      is_fresh = rw (found, is_early, body) refl

      by_cache :
          (o : Option Db)
          → cache_get services.bolt o key ≡ some entry
          → dispatch services c req key ttl mode w o
            ≡ (w, (some (entry_meta w.now entry false), ok payload))
      by_cache none absent = absurd (none≢some (absent))
      by_cache (some db) there = elim m [
        | inl e ↦ rw e (
            ap
              (λ f.
                fresh_or services w f
                  (store services c key ttl w.now (do_json services c req true w)))
              is_fresh)
        | inr e ↦ rw e (
            ap
              (λ f.
                fresh_or services w f (w, (some (miss "cache_miss"), err (message "cache miss"))))
              is_fresh)
      ]

  -- In only mode with a cache nothing is sent and nothing changes, and the answer is an entry of
  -- the cache that has not expired, or the error "cache miss".
  pub cached_get-only :
      (c : Client) (req : Request) (key : String) (ttl : ℤ) (w : World Db)
      → w.cache ≢ none
      → let (w', answer) = cached_get services c req key ttl mode_only w in
        (w' ≡ w)
        × ((answer.1 ≡ err (message "cache miss"))
            ⊎ ((payload : Value) × ((answer.1 ≡ ok payload)
                  × IsFresh w.now (cache_get services.bolt w.cache key) payload)))
  unfolding cached_get dispatch fresh_or fresh
  cached_get-only c req key ttl w cached = by_cache w.cache cached
    where
      by_fresh :
          (f : Option (CacheMeta × Value))
          → (f ≡ none)
            ⊎ ((meta : CacheMeta) × ((payload : Value) × ((f ≡ some (meta, payload))
                    × IsFresh w.now (cache_get services.bolt w.cache key) payload)))
          → let (w', answer) =
              fresh_or services w f (w, (some (miss "cache_miss"), err (message "cache miss"))) in
            (w' ≡ w)
            × ((answer.1 ≡ err (message "cache miss"))
                ⊎ ((payload : Value) × ((answer.1 ≡ ok payload)
                      × IsFresh w.now (cache_get services.bolt w.cache key) payload)))
      by_fresh f (inl e) = rw e (refl, inl refl)
      by_fresh f (inr (meta, (payload, (e, h)))) = rw e (refl, inr (payload, (refl, h)))

      by_cache :
          (o : Option Db)
          → o ≢ none
          → let (w', answer) = dispatch services c req key ttl mode_only w o in
            (w' ≡ w)
            × ((answer.1 ≡ err (message "cache miss"))
                ⊎ ((payload : Value) × ((answer.1 ≡ ok payload)
                      × IsFresh w.now (cache_get services.bolt w.cache key) payload)))
      by_cache none absent = absurd (absent refl)
      by_cache (some db) there =
          by_fresh (fresh services w key)
            (fresh_entry_cases w.now (cache_get services.bolt w.cache key))
