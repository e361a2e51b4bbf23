-- ===== src/Tools/Resource/Params.antt =====
-- The checks of the parameters of a handler, and the pieces of a query and of a request body.
use mathlib.Core.List.{List, [], ◌∷◌}
use mcp_pipedrive.Prelude.{Bool, Option, String, if◌then◌else◌, leb, ltb, none, some, suc, ℕ}
use mcp_pipedrive.Prelude.Int.{is_positive, ℤ}
use mcp_pipedrive.Query.{Query, set}
use mcp_pipedrive.Result.{Error, Result, err, guard, message, ok}
use mcp_pipedrive.Value.{Fields, Value, arr, bool, end, field, insert, obj, of_list, size}

abbrev pub id_required : Error
id_required = message "id is required and must be > 0"

-- one check after another
abbrev pub and_check : Result (Unit {0}) → Result (Unit {0}) → Result (Unit {0})
and_check (err e) later = err e
and_check (ok u) later = later

abbrev pub check_id : ℤ → Result (Unit {0})
check_id id = guard (is_positive id) id_required

abbrev pub no_fields : Error
no_fields = message "no fields to update"

abbrev pub has_fields : Fields → Result (Unit {0})
has_fields body = guard (ltb 0 (size body)) no_fields

-- if len(args.CustomFields) > 0
abbrev pub set_custom_fields : Fields → Fields → Fields
set_custom_fields end m = m
set_custom_fields (field k v fs) m = insert "custom_fields" (obj (field k v fs)) m

-- body[k] = vs if len(vs) > 0, and body[k] = *p if p != nil
abbrev pub set_list : String → List Value → Fields → Fields
set_list k [] m = m
set_list k (v ∷ vs) m = insert k (arr (of_list (v ∷ vs))) m

abbrev pub set_flag : String → Option Bool → Fields → Fields
set_flag k none m = m
set_flag k (some b) m = insert k (bool b) m

abbrev pub after_query : Result Query → (Query → Result Query) → Result Query
after_query (err e) f = err e
after_query (ok q) f = f q

-- strconv.FormatBool
abbrev pub format_bool : Bool → String
format_bool b = if b then "true" else "false"

-- q.Set(k, strconv.FormatBool(*p)) if p != nil
abbrev pub set_bool : String → Option Bool → Query → Query
set_bool k none q = q
set_bool k (some b) q = set k (format_bool b) q

-- len([]rune(s)) < 2
pub rune_count : String → ℕ
rune_count String.[] = 0
rune_count (String.◌∷◌ c s) = suc (rune_count s)

unfoldable pub check_term : String → Result (Unit {0})
unfolding rune_count
check_term term = guard (leb 2 (rune_count term)) (message "term must be at least 2 characters")
