-- ===== src/Tools/Resource/Forgetting.antt =====
-- What the cache has forgotten behind a write, and what a handler that ends in a reply has done.
use mathlib.Core.List.{List, [], ◌∷◌}
use Prim.Native.String.{◌++◌}
use mcp_pipedrive.Client.{Client, ApiVersion}
use mcp_pipedrive.Tools.Common.{
  Tool, Context, lift, ◌>>=◌, ◌>>◌, gated, client_or_error, request, send_json, continue_with,
  reply,
}
use mathlib.Core.Path.{subst}
use mcp_pipedrive.Cache.{cache_get, delete_prefix}
use mcp_pipedrive.Cache.Bucket.{CacheEntry}
use mcp_pipedrive.Cache.Laws.{delete_prefix_lem}
use mcp_pipedrive.Client.Exchange.{Services, World}
use mcp_pipedrive.Client.Fetch.{invalidate_path, invalidate_prefix}
use mcp_pipedrive.Client.Invalidation.{invalidate_path_lem, key_of}
use mcp_pipedrive.Client.Key.{path_prefix}
use mcp_pipedrive.Guard.{GuardKind, ensure_tool_allowed}
use mcp_pipedrive.Prelude.{
  Bool, Option, String, ap, false, if◌then◌else◌, inl, inr, none, refl, some, sym, true, ◌∙◌, ◌≡◌,
  ◌≢◌, ◌⊎◌,
}
use mcp_pipedrive.Prelude.Int.{is_positive, ℤ}
use mcp_pipedrive.Query.{Query, empty}
use mcp_pipedrive.Query.Sort.{has_prefix}
use mcp_pipedrive.Result.{Result, err, ok}
use mcp_pipedrive.Tools.Resource.{
  invalidate_each, resource_lists, resource_path, stale_paths, write_through, Write, Written,
  run_write,
}
use mcp_pipedrive.Tools.Steps.{continue_with-ok, err≢ok, on_verdict-reply}
use mcp_pipedrive.Value.{Value}

-- a version and a path are among those that a write drops
abbrev pub Drops : ApiVersion → String → List (ApiVersion × String) → Type 0
Drops v path [] = ⊥
Drops v path ((u, p) ∷ rest) = ((u ≡ v) × (p ≡ path)) ⊎ Drops v path rest

pub stale_paths-Drops :
    (root : String) (id : ℤ)
    → Drops ApiVersion.v2 root (stale_paths root id)
      × Drops ApiVersion.v1 root (stale_paths root id)
stale_paths-Drops root id = by_id (is_positive id)
  where
    by_id :
        (b : Bool)
        → let paths =
            if b
            then (ApiVersion.v2, resource_path root id)
              ∷ (ApiVersion.v1, resource_path root id)
              ∷ resource_lists root
            else resource_lists root in
          Drops ApiVersion.v2 root paths × Drops ApiVersion.v1 root paths
    by_id true = (inr (inr (inl (refl, refl))), inr (inr (inr (inl (refl, refl)))))
    by_id false = (inl (refl, refl), inr (inl (refl, refl)))

module _ {Db : Type 0} (services : Services Db) where
  -- no answer to a GET of a version under a path is cached
  abbrev pub IsGone : Client → ApiVersion → String → World Db → Type 0
  IsGone c v root w =
      (more : String) (q : Query) (body : Option Value)
      → cache_get services.bolt w.cache (key_of services c v "GET" (root ++ more) q body) ≡ none

  module _ (works : (d : Db) (k : String) → services.bolt.delete d k ≢ none)
      (commits : (d d' : Db) → services.bolt.commits d d' ≡ true) where
    stays_gone :
        (c : Client) (v : ApiVersion) (method path : String) (w : World Db) (k : String)
        → cache_get services.bolt w.cache k ≡ none
        → cache_get services.bolt (invalidate_path services c v method path w).0.cache k ≡ none
    unfolding invalidate_path invalidate_prefix delete_prefix
    stays_gone c v method path w k gone = by_cache w.cache gone
      where
        p : String
        p = path_prefix services.sha256_hex services.marshal c v method path

        still : (b : Bool) (o : Option CacheEntry) → o ≡ none → (if b then none else o) ≡ none
        still true o e = refl
        still false o e = e

        by_cache :
            (o : Option Db)
            → cache_get services.bolt o k ≡ none
            → cache_get services.bolt (delete_prefix services.bolt o p).0 k ≡ none
        by_cache none e = e
        by_cache (some db) e =
            (delete_prefix_lem services.bolt db p works commits).0 k
            ∙ still (has_prefix p k) (cache_get services.bolt (some db) k) e

    stays_gone_each :
        (c : Client) (rest : List (ApiVersion × String)) (w : World Db) (k : String)
        → cache_get services.bolt w.cache k ≡ none
        → cache_get services.bolt (invalidate_each services c rest w).cache k ≡ none
    unfolding invalidate_each
    stays_gone_each c [] w k gone = gone
    stays_gone_each c ((v, path) ∷ rest) w k gone =
        stays_gone_each c rest (invalidate_path services c v "GET" path w).0 k
          (stays_gone c v "GET" path w k gone)

    -- what is invalidated is gone, and the later invalidations leave it so
    invalidate_each-IsGone :
        (c : Client) (v : ApiVersion) (root : String) (paths : List (ApiVersion × String))
        (w : World Db)
        → Drops v root paths
        → IsGone c v root (invalidate_each services c paths w)
    unfolding invalidate_each
    invalidate_each-IsGone c v root [] w impossible = elim impossible [ ]
    invalidate_each-IsGone c v root ((u, p) ∷ rest) w (inl (e, d)) = λ more q body.
        stays_gone_each c rest (invalidate_path services c u "GET" p w).0 _ (
          subst
            (λ x.
              cache_get services.bolt (invalidate_path services c x "GET" p w).0.cache
                (key_of services c v "GET" (root ++ more) q body)
              ≡ none)
            (sym e)
            (subst
              (λ x.
                cache_get services.bolt (invalidate_path services c v "GET" x w).0.cache
                  (key_of services c v "GET" (root ++ more) q body)
                ≡ none)
              (sym d)
              ((invalidate_path_lem services c v "GET" root w works commits).0 more q body)))
    invalidate_each-IsGone c v root ((u, p) ∷ rest) w (inr later) =
        invalidate_each-IsGone c v root rest (invalidate_path services c u "GET" p w).0 later

    module _ (v : ApiVersion) (root : String) where
      write_through-IsGone :
          (c : Client) (paths : List (ApiVersion × String)) (u : ApiVersion) (method path : String)
          (body : Option Value) (w : World Db) (payload : Value)
          → Drops v root paths
          → (write_through services c paths u method path body w).1 ≡ ok payload
          → IsGone c v root (write_through services c paths u method path body w).0
      unfolding write_through
      write_through-IsGone c paths u method path body w payload dropped h =
          let (req, (made, step)) =
            continue_with-ok (request services c u method path empty body w) _ payload h in
          let h' = sym (ap (λ r. r.1) step) ∙ h in
          let (answer, (sent, step')) =
            continue_with-ok
              (send_json services c req.0 (request services c u method path empty body w).0) _
              payload h' in
          subst (λ w'. IsGone c v root w') (sym (ap (λ r. r.0) (step ∙ step')))
            (invalidate_each-IsGone c v root paths _ dropped)

      -- the end of a handler: the write, and what is made of its payload
      pub written-IsGone :
          {D : Type 0} (c : Client) (paths : List (ApiVersion × String)) (u : ApiVersion)
          (method path : String) (body : Option Value)
          → (g : Value → D) (d : D) (w : World Db) → Drops v root paths
          → (continue_with
              (write_through services c paths u method path body w)
              (λ p. lift (ok (g p)))).1
            ≡ ok d
          → IsGone c v root
              (continue_with
                (write_through services c paths u method path body w)
                (λ p. lift (ok (g p)))).0
      written-IsGone c paths u method path body g d w dropped h =
          let r = write_through services c paths u method path body w in
          let (payload, (done, step)) = continue_with-ok r (λ p. lift (ok (g p))) d h in
          subst (λ w'. IsGone c v root w') (sym (ap (λ r. r.0) step))
            (write_through-IsGone c paths u method path body w payload dropped done)

      pub check-IsGone :
          {D : Type 0} (c : Client) (check : Result (Unit {0})) (run : Tool Db D) (d : D)
          (w : World Db)
          → ((run w).1 ≡ ok d → IsGone c v root (run w).0)
          → (continue_with (w, check) (λ _. run)).1 ≡ ok d
          → IsGone c v root (continue_with (w, check) (λ _. run)).0
      check-IsGone c (err e) run d w forgets h = absurd (err≢ok h)
      check-IsGone c (ok u) run d w forgets h = forgets h

      -- the start of a handler: the guard, the check of the parameters, and the client
      pub handler-IsGone :
          {D : Type 0} (ctx : Context) (name : String) (kind : GuardKind)
          (check : Result (Unit {0}))
          → (c : Client) (f : Client → Tool Db D) (d : D) (w : World Db)
          → client_or_error ctx.client ≡ ok c
          → ((f c w).1 ≡ ok d → IsGone c v root (f c w).0)
          → let run : Tool Db D = lift check >> (lift (client_or_error ctx.client) >>= f) in
            (gated ctx name kind run w).1 ≡ ok (reply d)
            → IsGone c v root (gated ctx name kind run w).0
      unfolding gated
      handler-IsGone ctx name kind check c f d w usable forgets h =
          let run : Tool Db _ = lift check >> (lift (client_or_error ctx.client) >>= f) in
          let (ran, same) = on_verdict-reply (ensure_tool_allowed ctx.config name kind) run w d h in
          let (u, (checked, step)) = continue_with-ok (w, check) _ d ran in
          let step' = step ∙ ap (λ r. continue_with (w, r) f) usable in
          subst (λ w'. IsGone c v root w') (sym (same ∙ ap (λ r. r.0) step'))
            (forgets (sym (ap (λ r. r.1) step') ∙ ran))

      pub run_write-IsGone :
          (ctx : Context) (c : Client) (w : World Db) (wr : Write) (g : Value → Written)
          (d : Written)
          → client_or_error ctx.client ≡ ok c
          → Drops v root wr.outdated
          → (run_write services ctx wr g w).1 ≡ ok (reply d)
          → IsGone c v root (run_write services ctx wr g w).0
      unfolding run_write
      run_write-IsGone ctx c w wr g d usable dropped =
          handler-IsGone ctx wr.tool_name wr.kind wr.checked c _ d w usable (
            check-IsGone c wr.body_checked
              (write_through services c wr.outdated wr.version wr.method wr.path wr.body >>= λ p.
                lift (ok (g p)))
              d w (written-IsGone c wr.outdated wr.version wr.method wr.path wr.body g d w dropped))
