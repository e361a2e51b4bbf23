-- ===== src/Value/Convert.antt =====
-- The type switches of pipedrive/normalize.go: reading a number, a text, a flag or a linked id.
use mcp_pipedrive.Prelude.Int.{ℤ, pos, is_zero}
use mcp_pipedrive.Float64.{Float64, float_is_zero, float_of_int64, int64_of_float, zero_float}
use mcp_pipedrive.Prelude.{
  Bool, List, Option, String, [], false, if◌then◌else◌, none, not, some, true, ◌||◌, ◌∷◌,
}
use mcp_pipedrive.Prelude.Text.{str_eq}
use mcp_pipedrive.Value.{
  Fields, Value, arr, bool, elems, get, int, int64, lookup, null, num, obj, str,
}

-- v.(map[string]any), v.([]any)
abbrev pub as_map : Value → Option Fields
as_map (obj fs) = some fs
as_map _ = none

abbrev pub as_list : Value → Option (List Value)
as_list (arr xs) = some (elems xs)
as_list _ = none

unfoldable pub to_int64 : Value → ℤ
to_int64 (num t) = int64_of_float t
to_int64 (int64 t) = t
to_int64 (int t) = t
to_int64 _ = pos 0

unfoldable pub to_float : Value → Float64
to_float (num t) = t
to_float (int64 t) = float_of_int64 t
to_float (int t) = float_of_int64 t
to_float _ = zero_float

unfoldable pub to_bool : Value → Bool
to_bool (bool t) = t
to_bool (str t) = str_eq t "true" || str_eq t "1"
to_bool (num t) = not (float_is_zero t)
to_bool (int64 t) = not (is_zero t)
to_bool (int t) = not (is_zero t)
to_bool _ = false

unfoldable pub to_string : Value → String
to_string (str s) = s
to_string _ = ""

-- firstNonNil
abbrev pub is_null : Value → Bool
is_null null = true
is_null _ = false

unfoldable pub first_non_nil : Fields → List String → Value
first_non_nil raw [] = null
first_non_nil raw (k ∷ keys) = elim (lookup k raw) [
  | none ↦ first_non_nil raw keys
  | some v ↦ if is_null v then first_non_nil raw keys else v
]

-- what one key of relatedID contributes: 0 goes on to the next key
unfoldable pub id_of : Option Value → ℤ
unfolding get to_int64
id_of none = pos 0
id_of (some (obj n)) = to_int64 (get n "value")
id_of (some v) = to_int64 v

-- relatedID
unfoldable pub related_id : Fields → List String → ℤ
related_id raw [] = pos 0
related_id raw (k ∷ keys) =
    let id = id_of (lookup k raw) in if is_zero id then related_id raw keys else id
