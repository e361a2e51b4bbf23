-- ===== src/Validate.antt =====
-- internal/validate.go and internal/response.go.
use Prim.Native.String.{◌++◌}
use mathlib.Core.List.{List, [], ◌∷◌}
use mcp_pipedrive.Prelude.{Option, String, any, if◌then◌else◌, none, not, refl, some, ◌≡◌}
use mcp_pipedrive.Prelude.Text.{is_set, str_eq}
use mcp_pipedrive.Result.{Result, err, message, ok}
use mcp_pipedrive.Value.{Fields, Value, end, field}

unfoldable pub require_id : String → String → Result (Unit {0})
require_id value name = if is_set value then ok tt else err (message (name ++ " is required"))

-- the %v of a list of texts, without its brackets
listing : List String → String
listing [] = ""
listing (a ∷ []) = a
listing (a ∷ b ∷ more) = a ++ (" " ++ listing (b ∷ more))

unfoldable pub require_one_of : String → String → List String → Result (Unit {0})
unfolding listing
require_one_of value name allowed =
    if not (is_set value)
    then err (message (name ++ " is required"))
    else if any (str_eq value) allowed
    then ok tt
    else err (message (name ++ (" must be one of: [" ++ (listing allowed ++ "]"))))

-- Wrap: the `data` and the optional `meta` of a response
unfoldable pub wrap : Value → Option Value → Fields
wrap payload none = field "data" payload end
wrap payload (some meta) = field "data" payload (field "meta" meta end)

require_one_of_runs :
    require_one_of "ID" "sort_by" ("id" ∷ "add_time" ∷ [])
    ≡ err (message "sort_by must be one of: [id add_time]")
unfolding require_one_of
require_one_of_runs = refl
