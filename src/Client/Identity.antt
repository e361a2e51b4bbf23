-- ===== src/Client/Identity.antt =====
-- What a cache key depends on.
use mathlib.Core.List.{List}
use Prim.Native.String.{◌++◌}
use mcp_pipedrive.Client.{Client, ApiVersion, with_token}
use mcp_pipedrive.Client.Key.{
  cache_key, keys_without_token, query_hash, query_text, values_of, write_keys, write_values,
}
use mcp_pipedrive.Config.{AuthMode}
use mcp_pipedrive.Prelude.{
  Bool, Bool-cases, Option, String, any, ap, arith, false, inl, inr, refl, ◌||◌, ◌∙◌, ◌≡◌,
  if◌then◌else◌, none, some,
}
use mcp_pipedrive.Prelude.Text.{str_eq}
use mcp_pipedrive.Query.{Query, set, values-set, values}
use mcp_pipedrive.Query.Sort.{insert_sorted, sort_strings}
use mcp_pipedrive.Value.{Value}
use text.Mathlib.TextEquality.{eq_iff}

keys_without_token-set :
    (t : String) (q : Query) → keys_without_token (set "api_token" t q) ≡ keys_without_token q
unfolding keys_without_token set
keys_without_token-set t List.[] = refl
keys_without_token-set t (List.◌∷◌ (k, vs) q) = elim (Bool-cases (str_eq k "api_token")) [
  | inl same ↦ rw same refl
  | inr other ↦ rw other (ground (arith, keys_without_token-set t q))
]

any-insert_sorted :
    (p : String → Bool) (s : String) (ss : List String)
    → any p (insert_sorted s ss) ≡ (p s || any p ss)
unfolding insert_sorted
any-insert_sorted p s List.[] = refl
any-insert_sorted p s (List.◌∷◌ t ts) = ground (arith, any-insert_sorted p s ts)

any-sort_strings : (p : String → Bool) (ss : List String) → any p (sort_strings ss) ≡ any p ss
unfolding sort_strings
any-sort_strings p List.[] = refl
any-sort_strings p (List.◌∷◌ s ss) =
    any-insert_sorted p s (sort_strings ss) ∙ ap (λ b. p s || b) (any-sort_strings p ss)

no_token : (q : Query) → any (str_eq "api_token") (keys_without_token q) ≡ false
unfolding keys_without_token
no_token List.[] = refl
no_token (List.◌∷◌ (k, vs) q) =
    ground (arith, no_token q, eq_iff k "api_token", eq_iff "api_token" k)

values_of-set :
    (t k : String) (q : Query)
    → str_eq "api_token" k ≡ false
    → values_of (set "api_token" t q) k ≡ values_of q k
values_of-set t k q h =
    ap (λ o. elim o as (λ x. List String) [ none ↦ List.[] | some vs ↦ vs ])
      (values-set "api_token" k t q
        ∙ ap (λ b. if b then some (List.◌∷◌ t List.[]) else values k q) h)

write_keys-set :
    (t : String) (q : Query) (ks : List String)
    → any (str_eq "api_token") ks ≡ false
    → write_keys (set "api_token" t q) ks ≡ write_keys q ks
unfolding write_keys
write_keys-set t q List.[] h = refl
write_keys-set t q (List.◌∷◌ k ks) h =
    ap (λ vs. write_values k (sort_strings vs) ++ write_keys (set "api_token" t q) ks)
      (values_of-set t k q (ground arith))
    ∙ ap (λ s. write_values k (sort_strings (values_of q k)) ++ s)
        (write_keys-set t q ks (ground arith))

query_text-set : (t : String) (q : Query) → query_text (set "api_token" t q) ≡ query_text q
unfolding query_text
query_text-set t q = rw (keys_without_token-set t q) (
    write_keys-set t q (sort_strings (keys_without_token q))
      (any-sort_strings (str_eq "api_token") (keys_without_token q) ∙ no_token q))

-- The key of a request is the same before and after NewRequest has written the API token into its
-- query.
pub cache_key-with_token :
    (sha256_hex : String → String) (marshal : Value → String)
    → (c : Client) (v : ApiVersion) (method path : String) (q : Query) (body : Option Value)
    → cache_key sha256_hex marshal c v method path (with_token c q) body
      ≡ cache_key sha256_hex marshal c v method path q body
unfolding cache_key query_hash with_token
cache_key-with_token sha256_hex marshal c v method path q body = by_mode c.auth_mode
  where
    by_mode :
        (mode : AuthMode)
        → cache_key sha256_hex marshal c v method path
            (elim mode [
              | AuthMode.no_auth ↦ q
              | AuthMode.oauth ↦ q
              | AuthMode.api_token ↦ set "api_token" c.api_token q
            ])
            body
          ≡ cache_key sha256_hex marshal c v method path q body
    by_mode AuthMode.no_auth = refl
    by_mode AuthMode.oauth = refl
    by_mode AuthMode.api_token = rw (query_text-set c.api_token q) refl
