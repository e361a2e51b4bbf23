-- ===== src/Client/Requests.antt =====
-- What CachedGet sends, and when it leaves the cache alone.
use mcp_pipedrive.Client.{Client, Request}
use mcp_pipedrive.Cache.{CacheMode, mode_bypass, mode_default, mode_only, mode_refresh, CacheMeta}
use mcp_pipedrive.Client.Exchange.{Services, World, do_json, do_request, deliver}
use mcp_pipedrive.Client.Fetch.{cached_get, Answer, dispatch, fresh, fresh_or, pass_on, store}
use mcp_pipedrive.Client.Limiter.{wait_all}
use mcp_pipedrive.Prelude.{
  Bool, String, arith, length, none, refl, some, suc, true, ℕ, ◌≡◌, ◌≤◌, Option, ap, ◌∙◌,
}
use mcp_pipedrive.Prelude.Int.{ℤ}
use mcp_pipedrive.Result.{Error, err, ok, Result}
use mcp_pipedrive.Value.{Value}

module _ {Db : Type 0} (services : Services Db) where
  -- a request leaves the cache alone and is sent at most once
  deliver_lem :
      (c : Client) (req : Request) (w : World Db) (woken : ℕ) (failure : Option Error)
      → let w' = (deliver services c req w woken failure).0 in
        (w'.cache ≡ w.cache) × (length w'.sent ≤ suc (length w.sent))
  unfolding deliver
  deliver_lem c req w woken none = (refl, ground arith)
  deliver_lem c req w woken (some e) = (refl, ground arith)

  pub do_json_lem :
      (c : Client) (req : Request) (out : Bool) (w : World Db)
      → let w' = (do_json services c req out w).0 in
        (w'.cache ≡ w.cache) × (length w'.sent ≤ suc (length w.sent))
  unfolding do_json do_request
  do_json_lem c req out w =
      let ((woken, waits), failure) = wait_all services.wait c.limiter w.waits w.now in
      deliver_lem c req (record w { waits = waits }) woken failure

  pass_on-world :
      (c : Client) (key : String) (w : World Db) (r : Result Value)
      → (pass_on services c key (w, r)).0 ≡ w
  unfolding pass_on
  pass_on-world c key w (ok payload) = refl
  pass_on-world c key w (err e) = refl

  store-sent :
      (c : Client) (key : String) (ttl : ℤ) (now : ℕ) (w : World Db) (r : Result Value)
      → (store services c key ttl now (w, r)).0.sent ≡ w.sent
  unfolding store
  store-sent c key ttl now w (ok payload) = refl
  store-sent c key ttl now w (err e) = refl

  -- CachedGet sends at most one request, in every mode.
  pub cached_get-sent :
      (c : Client) (req : Request) (key : String) (ttl : ℤ) (mode : CacheMode) (w : World Db)
      → length (cached_get services c req key ttl mode w).0.sent ≤ suc (length w.sent)
  unfolding cached_get dispatch fresh_or
  cached_get-sent c req key ttl mode w = by_mode mode w.cache
    where
      asked : length (do_json services c req true w).0.sent ≤ suc (length w.sent)
      asked = (do_json_lem c req true w).1

      passed :
          length (pass_on services c key (do_json services c req true w)).0.sent
          ≤ suc (length w.sent)
      passed =
          rw
            (pass_on-world c key (do_json services c req true w).0
              (do_json services c req true w).1)
            asked

      fetched :
          length (store services c key ttl w.now (do_json services c req true w)).0.sent
          ≤ suc (length w.sent)
      fetched =
          rw
            (store-sent c key ttl w.now (do_json services c req true w).0
              (do_json services c req true w).1)
            asked

      or_fresh :
          (o : Option (CacheMeta × Value)) (otherwise : World Db × Answer)
          → length otherwise.0.sent ≤ suc (length w.sent)
          → length (fresh_or services w o otherwise).0.sent ≤ suc (length w.sent)
      or_fresh none otherwise h = h
      or_fresh (some a) otherwise h = ground arith

      by_mode :
          (m : CacheMode) (o : Option Db)
          → length (dispatch services c req key ttl m w o).0.sent ≤ suc (length w.sent)
      by_mode m none = passed
      by_mode mode_bypass (some db) = passed
      by_mode mode_refresh (some db) = fetched
      by_mode mode_default (some db) = or_fresh (fresh services w key) _ fetched
      by_mode mode_only (some db) = or_fresh (fresh services w key) _ (ground arith)

  -- In bypass mode the cache is left as it was.
  pub cached_get-bypass :
      (c : Client) (req : Request) (key : String) (ttl : ℤ) (w : World Db)
      → (cached_get services c req key ttl mode_bypass w).0.cache ≡ w.cache
  unfolding cached_get dispatch
  cached_get-bypass c req key ttl w = by_cache w.cache
    where
      passed : (pass_on services c key (do_json services c req true w)).0.cache ≡ w.cache
      passed =
          let r = do_json services c req true w in
          ap (λ v. v.cache) (pass_on-world c key r.0 r.1) ∙ (do_json_lem c req true w).0

      by_cache :
          (o : Option Db) → (dispatch services c req key ttl mode_bypass w o).0.cache ≡ w.cache
      by_cache none = passed
      by_cache (some db) = passed
