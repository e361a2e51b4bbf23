-- ===== src/Client/Invalidation.antt =====
-- Which cached answers InvalidatePath removes.
use Prim.Native.String.{[], ◌∷◌, ◌++◌}
use mcp_pipedrive.Client.{Client, ApiVersion, version_name, v1, v1_legacy, v2}
use mcp_pipedrive.Cache.Laws.{delete_prefix_lem, delete_prefix-others}
use mcp_pipedrive.Cache.{cache_get, delete_prefix}
use mcp_pipedrive.Client.Exchange.{Services, World}
use mcp_pipedrive.Client.Fetch.{invalidate_path, invalidate_prefix}
use mcp_pipedrive.Client.Key.{cache_key, path_prefix, query_hash}
use mcp_pipedrive.Prelude.{
  Option, String, false, none, refl, true, ◌≡◌, ◌≢◌, Bool, ap, arith, if◌then◌else◌, some, ◌==◌,
  ◌∙◌, sym,
}
use mcp_pipedrive.Query.{Query}
use mcp_pipedrive.Query.Order.{has_prefix-append}
use mcp_pipedrive.Query.Sort.{has_prefix}
use mcp_pipedrive.Value.{Value}
use text.Mathlib.TextLemmas.{append_assoc, cons-append}
use Prim.Native.Char.{code}
use mathlib.Core.Bool.{false≢true}

path_prefix-append :
    (sha256_hex : String → String) (marshal : Value → String)
    → (c : Client) (v : ApiVersion) (method path more : String)
    → path_prefix sha256_hex marshal c v method (path ++ more)
      ≡ path_prefix sha256_hex marshal c v method path ++ more
unfolding path_prefix
path_prefix-append sha256_hex marshal c v method path more = simp append_assoc refl

pub cache_key-has_prefix :
    (sha256_hex : String → String) (marshal : Value → String)
    → (c : Client) (v : ApiVersion) (method path more : String) (q : Query) (body : Option Value)
    → has_prefix
        (path_prefix sha256_hex marshal c v method path)
        (cache_key sha256_hex marshal c v method (path ++ more) q body)
      ≡ true
unfolding cache_key
cache_key-has_prefix sha256_hex marshal c v method path more q body =
    let p = path_prefix sha256_hex marshal c v method path in
    let t = ":" ++ query_hash sha256_hex marshal method (path ++ more) q body in
    rw (path_prefix-append sha256_hex marshal c v method path more, append_assoc p more t)
      (has_prefix-append p (more ++ t))

-- whether two texts differ before either ends
differ : String → String → Bool
differ [] q = false
differ (c ∷ p) [] = false
differ (c ∷ p) (d ∷ q) = if code c == code d then differ p q else true

differ-append : (p q s t : String) → differ p q ≡ true → has_prefix (p ++ s) (q ++ t) ≡ false
unfolding differ has_prefix
differ-append [] q s t h = absurd (false≢true h)
differ-append (c ∷ p) [] s t h = absurd (false≢true h)
differ-append (c ∷ p) (d ∷ q) s t h =
    rw (cons-append, cons-append) (ground (arith, differ-append p q s t))

versions-differ :
    (v v' : ApiVersion) → v ≢ v' → differ (version_name v ++ ":") (version_name v' ++ ":") ≡ true
unfolding differ
versions-differ v1 v1 ne = absurd (ne refl)
versions-differ v2 v2 ne = absurd (ne refl)
versions-differ v1_legacy v1_legacy ne = absurd (ne refl)
versions-differ v1 v2 ne = refl
versions-differ v1 v1_legacy ne = refl
versions-differ v2 v1 ne = refl
versions-differ v2 v1_legacy ne = refl
versions-differ v1_legacy v1 ne = refl
versions-differ v1_legacy v2 ne = refl

colon_parts :
    (a a' x y z : String)
    → differ (a ++ ":") (a' ++ ":") ≡ true
    → has_prefix (a ++ (":" ++ x)) ((a' ++ (":" ++ y)) ++ z) ≡ false
colon_parts a a' x y z h =
    rw
      (
        append_assoc a' (":" ++ y) z,
        append_assoc ":" y z,
        sym (append_assoc a ":" x),
        sym (append_assoc a' ":" (y ++ z)),
      )
      (differ-append (a ++ ":") (a' ++ ":") x (y ++ z) h)

cache_key-other_version :
    (sha256_hex : String → String) (marshal : Value → String)
    → (c : Client) (v v' : ApiVersion) (method path method' path' : String)
    → (q : Query) (body : Option Value) → v ≢ v'
    → has_prefix
        (path_prefix sha256_hex marshal c v method path)
        (cache_key sha256_hex marshal c v' method' path' q body)
      ≡ false
unfolding cache_key path_prefix
cache_key-other_version sha256_hex marshal c v v' method path method' path' q body ne =
    colon_parts (version_name v) (version_name v') _ _ _ (versions-differ v v' ne)

module _ {Db : Type 0} (services : Services Db) where
  abbrev pub key_of : Client → ApiVersion → String → String → Query → Option Value → String
  key_of = cache_key services.sha256_hex services.marshal

  -- When the cache file can be written, no answer of the given version and method whose path
  -- starts with the given one is found after InvalidatePath, whatever its query and body; and
  -- nothing is sent.
  pub invalidate_path_lem :
      (c : Client) (v : ApiVersion) (method path : String) (w : World Db)
      → ((d : Db) (k : String) → services.bolt.delete d k ≢ none)
      → ((d d' : Db) → services.bolt.commits d d' ≡ true)
      → let w' = (invalidate_path services c v method path w).0 in
        ((more : String) (q : Query) (body : Option Value)
          → cache_get services.bolt w'.cache (key_of c v method (path ++ more) q body) ≡ none)
        × (w'.sent ≡ w.sent)
  unfolding invalidate_path invalidate_prefix delete_prefix cache_get
  invalidate_path_lem c v method path w works commits =
      (λ more q body. removed w.cache more q body, refl)
    where
      removed :
          (cache : Option Db) (more : String) (q : Query) (body : Option Value)
          → cache_get services.bolt
              (delete_prefix services.bolt cache
                (path_prefix services.sha256_hex services.marshal c v method path)).0
              (key_of c v method (path ++ more) q body)
            ≡ none
      removed none more q body = refl
      removed (some db) more q body =
          (delete_prefix_lem services.bolt db
              (path_prefix services.sha256_hex services.marshal c v method path) works commits).0
            (key_of c v method (path ++ more) q body)
          ∙ ap
              (λ b.
                if b
                then none
                else cache_get services.bolt (some db) (key_of c v method (path ++ more) q body))
              (cache_key-has_prefix services.sha256_hex services.marshal c v method path more q
                body)

  -- InvalidatePath leaves the cached answers of every other version alone.
  pub invalidate_path-others :
      (c : Client) (v v' : ApiVersion) (method path method' path' : String) (w : World Db)
      → (q : Query) (body : Option Value) → v ≢ v'
      → let w' = (invalidate_path services c v method path w).0 in
        cache_get services.bolt w'.cache (key_of c v' method' path' q body)
        ≡ cache_get services.bolt w.cache (key_of c v' method' path' q body)
  unfolding invalidate_path invalidate_prefix
  invalidate_path-others c v v' method path method' path' w q body ne =
      delete_prefix-others services.bolt w.cache
        (path_prefix services.sha256_hex services.marshal c v method path)
        (key_of c v' method' path' q body)
        (cache_key-other_version services.sha256_hex services.marshal c v v' method path method'
          path' q body ne)
