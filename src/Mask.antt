-- ===== src/Mask.antt =====
-- internal/mask.go: secrets in a payload are replaced before it is shown.
pub mod Laws
mod Examples
use mcp_pipedrive.Prelude.{Bool, List, String, [], any, if◌then◌else◌, ◌∷◌}
use mcp_pipedrive.Prelude.Text.{contains, to_lower}
use mcp_pipedrive.Value.{Fields, Items, Value, arr, cons, end, field, nil, obj, str}

abbrev pub sensitive_keys : List String
sensitive_keys =
    "token" ∷ "secret" ∷ "password" ∷ "apikey" ∷ "api_key" ∷ "api_token" ∷ "access_token"
    ∷ "refresh_token" ∷ []

unfoldable pub is_sensitive_key : String → Bool
is_sensitive_key key = let k = to_lower key in any (contains k) sensitive_keys

unfoldable mutual
  pub mask_sensitive : Value → Value
  mask_sensitive (obj t) = obj (mask_fields t)
  mask_sensitive (arr t) = arr (mask_items t)
  mask_sensitive v = v

  pub mask_items : Items → Items
  mask_items nil = nil
  mask_items (cons v vs) = cons (mask_sensitive v) (mask_items vs)

  pub mask_fields : Fields → Fields
  mask_fields end = end
  mask_fields (field k v fs) =
      field k (if is_sensitive_key k then str "***" else mask_sensitive v) (mask_fields fs)
