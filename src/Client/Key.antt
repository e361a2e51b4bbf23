-- ===== src/Client/Key.antt =====
-- Key and identityHash of pipedrive/cache.go. SHA-256, in hexadecimal, and json.Marshal are
-- parameters.
use mathlib.Core.List.{List}
use Prim.Native.String.{[], ◌∷◌, ◌++◌}
use mcp_pipedrive.Client.{Client, ApiVersion, version_name}
use mcp_pipedrive.Config.{AuthMode}
use mcp_pipedrive.Prelude.{Option, String, if◌then◌else◌, none, some, suc, zero, ℕ}
use mcp_pipedrive.Prelude.Text.{str_eq}
use mcp_pipedrive.Query.{Query, values}
use mcp_pipedrive.Query.Sort.{sort_strings}
use mcp_pipedrive.Value.{Value}

-- s[:n], of a text at least as long
unfoldable pub first_chars : ℕ → String → String
first_chars zero s = []
first_chars (suc n) [] = []
first_chars (suc n) (c ∷ s) = c ∷ first_chars n s

-- "k=v&" for each value
unfoldable pub write_values : String → List String → String
write_values k List.[] = []
write_values k (List.◌∷◌ v vs) = k ++ ("=" ++ (v ++ ("&" ++ write_values k vs)))

abbrev pub values_of : Query → String → List String
values_of q k = elim (values k q) [ none ↦ List.[] | some vs ↦ vs ]

unfoldable pub write_keys : Query → List String → String
unfolding write_values sort_strings
write_keys q List.[] = []
write_keys q (List.◌∷◌ k ks) = write_values k (sort_strings (values_of q k)) ++ write_keys q ks

-- the keys of the query but api_token
unfoldable pub keys_without_token : Query → List String
keys_without_token List.[] = List.[]
keys_without_token (List.◌∷◌ (k, vs) q) =
    let rest = keys_without_token q in if str_eq k "api_token" then rest else List.◌∷◌ k rest

-- what is hashed of the query
unfoldable pub query_text : Query → String
unfolding write_keys keys_without_token sort_strings
query_text q = write_keys q (sort_strings (keys_without_token q))

credential : Client → String
credential c = elim c.auth_mode [
  | AuthMode.oauth ↦ "oauth:" ++ c.oauth_token
  | AuthMode.api_token ↦ "token:" ++ c.api_token
  | AuthMode.no_auth ↦ ""
]

body_text : (Value → String) → Option Value → String
body_text marshal none = ""
body_text marshal (some b) = "|" ++ marshal b

module _ (sha256_hex : String → String) (marshal : Value → String) where
  -- of a nil client too
  unfoldable pub identity_hash : Option Client → String
  unfolding first_chars credential
  identity_hash none = "anon"
  identity_hash (some c) = first_chars 12 (sha256_hex (c.base_url ++ ("|" ++ credential c)))

  -- version:identity:method:path, the prefix that InvalidatePath builds
  unfoldable pub path_prefix : Client → ApiVersion → String → String → String
  unfolding identity_hash
  path_prefix c v method path =
      version_name v ++ (":" ++ (identity_hash (some c) ++ (":" ++ (method ++ (":" ++ path)))))

  unfoldable pub query_hash : String → String → Query → Option Value → String
  unfolding first_chars query_text body_text
  query_hash method path q body =
      first_chars 16 (
        sha256_hex (method ++ ("|" ++ (path ++ ("|" ++ (query_text q ++ body_text marshal body))))))

  -- Key
  unfoldable pub cache_key : Client → ApiVersion → String → String → Query → Option Value → String
  unfolding path_prefix query_hash
  cache_key c v method path q body =
      path_prefix c v method path ++ (":" ++ query_hash method path q body)
