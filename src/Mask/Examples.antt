-- ===== src/Mask/Examples.antt =====
-- Masking a small payload.
use mathlib.Core.Option
use mcp_pipedrive.Mask.{is_sensitive_key, mask_sensitive}
use mcp_pipedrive.Mask.Laws.{
  IsMasked, at, at-mask_sensitive, mask_sensitive-IsMasked, at_index, by_key,
}
use mcp_pipedrive.Prelude.{[], refl, ◌∷◌, ◌≡◌}
use mcp_pipedrive.Prelude.Text.{contains, to_lower}
use mcp_pipedrive.Value.{Value, arr, cons, end, field, nil, obj, str}

abbrev payload : Value
payload = obj (
    field "Access_Token" (str "s3cr3t")
      (field "data" (arr (cons (obj (field "name" (str "Ada") end)) nil)) end))

mask_runs :
    mask_sensitive payload
    ≡ obj (
        field "Access_Token"
          (str "***")
          (field "data" (arr (cons (obj (field "name" (str "Ada") end)) nil)) end))
unfolding mask_sensitive is_sensitive_key to_lower contains
mask_runs = refl

mask_sensitive-IsMasked_example : IsMasked (mask_sensitive payload)
mask_sensitive-IsMasked_example = mask_sensitive-IsMasked payload

at-mask_sensitive_example :
    at (by_key "data" ∷ at_index 0 ∷ by_key "name" ∷ []) (mask_sensitive payload)
    ≡ Option.map mask_sensitive (at (by_key "data" ∷ at_index 0 ∷ by_key "name" ∷ []) payload)
unfolding is_sensitive_key to_lower contains
at-mask_sensitive_example =
    at-mask_sensitive (by_key "data" ∷ at_index 0 ∷ by_key "name" ∷ []) payload
      (refl, (tt, (refl, tt)))
