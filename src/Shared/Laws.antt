-- ===== src/Shared/Laws.antt =====
-- The cache is opened once.
use mcp_pipedrive.Config.{Config}
use mathlib.Core.List.{List, [], ◌∷◌}
use mathlib.Core.List
use mcp_pipedrive.Prelude.{
  Bool-cases, Option, String, if◌then◌else◌, inl, inr, none, refl, true, ◌≡◌, ap, false, not, sym,
  ◌∙◌,
}
use mcp_pipedrive.Shared.{
  SharedCache, caches_of, ensure_shared_cache, not_opened, open_once, wants_cache,
}

module _ {Db : Type 0} (open_cache : String → Option Db) where
  -- what the first request that wants a cache opens
  abbrev pub first_opened : List Config → Option Db
  first_opened [] = none
  first_opened (cfg ∷ more) =
      if wants_cache open_cache cfg then open_cache cfg.cache_path else first_opened more

  -- the request's cache, by what the step returns
  abbrev given : List Config → SharedCache Db × Option Db → List (Option Db)
  given more r = r.1 ∷ caches_of open_cache more r.0

  -- the caches of requests that all get `o` if they want one
  abbrev all_get : Option Db → List Config → List (Option Db)
  all_get o cfgs = List.map (λ cfg. if wants_cache open_cache cfg then o else none) cfgs

  all_get-wanting :
      (o : Option Db) (cfg : Config) (more : List Config)
      → wants_cache open_cache cfg ≡ true
      → o ∷ all_get o more ≡ all_get o (cfg ∷ more)
  all_get-wanting o cfg more wants = ap (λ b. (if b then o else none) ∷ all_get o more) (sym wants)

  all_get-idle :
      (o : Option Db) (cfg : Config) (more : List Config)
      → wants_cache open_cache cfg ≡ false
      → none ∷ all_get o more ≡ all_get o (cfg ∷ more)
  all_get-idle o cfg more idle = ap (λ b. (if b then o else none) ∷ all_get o more) (sym idle)

  ensure-wanting :
      (cfg : Config) (s : SharedCache Db)
      → wants_cache open_cache cfg ≡ true
      → ensure_shared_cache open_cache cfg s
        ≡ (open_once open_cache cfg s, (open_once open_cache cfg s).cache)
  unfolding ensure_shared_cache
  ensure-wanting cfg s wants =
      ap
        (λ b.
          if not b
          then (s, none)
          else (open_once open_cache cfg s, (open_once open_cache cfg s).cache))
        wants

  ensure-idle :
      (cfg : Config) (s : SharedCache Db)
      → wants_cache open_cache cfg ≡ false
      → ensure_shared_cache open_cache cfg s ≡ (s, none)
  unfolding ensure_shared_cache
  ensure-idle cfg s idle =
      ap
        (λ b.
          if not b
          then (s, none)
          else (open_once open_cache cfg s, (open_once open_cache cfg s).cache))
        idle

  caches_of-opened :
      (cfgs : List Config) (o : Option Db)
      → caches_of open_cache cfgs (record { done = true; cache = o }) ≡ all_get o cfgs
  unfolding caches_of open_once
  caches_of-opened [] o = refl
  caches_of-opened (cfg ∷ more) o = elim (Bool-cases (wants_cache open_cache cfg)) [
    | inl wants ↦
        ap (given more) (ensure-wanting cfg (record { done = true; cache = o }) wants)
        ∙ ap (λ l. o ∷ l) (caches_of-opened more o)
        ∙ all_get-wanting o cfg more wants
    | inr idle ↦
        ap (given more) (ensure-idle cfg (record { done = true; cache = o }) idle)
        ∙ ap (λ l. none ∷ l) (caches_of-opened more o)
        ∙ all_get-idle o cfg more idle
  ]

  -- Of the requests of a process, each that wants the cache gets the one that the first of them
  -- has opened, or none if that failed, whatever path its own configuration names. The others get
  -- none.
  pub caches_of_lem :
      (cfgs : List Config)
      → caches_of open_cache cfgs (not_opened open_cache)
        ≡ List.map (λ cfg. if wants_cache open_cache cfg then first_opened cfgs else none) cfgs
  unfolding caches_of open_once
  caches_of_lem [] = refl
  caches_of_lem (cfg ∷ more) = elim (Bool-cases (wants_cache open_cache cfg)) [
    | inl wants ↦
        ap (given more) (ensure-wanting cfg (not_opened open_cache) wants)
        ∙ ap (λ l. open_cache cfg.cache_path ∷ l)
            (caches_of-opened more (open_cache cfg.cache_path))
        ∙ all_get-wanting (open_cache cfg.cache_path) cfg more wants
        ∙ ap
            (λ b. all_get (if b then open_cache cfg.cache_path else first_opened more) (cfg ∷ more))
            (sym wants)
    | inr idle ↦
        ap (given more) (ensure-idle cfg (not_opened open_cache) idle)
        ∙ ap (λ l. none ∷ l) (caches_of_lem more)
        ∙ all_get-idle (first_opened more) cfg more idle
        ∙ ap
            (λ b. all_get (if b then open_cache cfg.cache_path else first_opened more) (cfg ∷ more))
            (sym idle)
  ]
