-- ===== src/Query/Sort.antt =====
-- sort.Strings and the order of strings: byte order, which is the order of the code points.
use Prim.Native.String.{[], ◌∷◌}
use mathlib.Core.List.{List}
use Prim.Native.Char.{code}
use mcp_pipedrive.Prelude.{Bool, String, false, if◌then◌else◌, ltb, true, ◌&&◌, ◌==◌, ◌||◌}

-- s <= t
unfoldable pub str_le : String → String → Bool
str_le [] t = true
str_le (c ∷ s) [] = false
str_le (c ∷ s) (d ∷ t) = ltb (code c) (code d) || code c == code d && str_le s t

unfoldable pub insert_sorted : String → List String → List String
unfolding str_le
insert_sorted s List.[] = List.◌∷◌ s List.[]
insert_sorted s (List.◌∷◌ t ts) =
    if str_le s t then List.◌∷◌ s (List.◌∷◌ t ts) else List.◌∷◌ t (insert_sorted s ts)

unfoldable pub sort_strings : List String → List String
unfolding insert_sorted
sort_strings List.[] = List.[]
sort_strings (List.◌∷◌ s ss) = insert_sorted s (sort_strings ss)

-- strings.HasPrefix(s, p)
unfoldable pub has_prefix : String → String → Bool
has_prefix [] s = true
has_prefix (c ∷ p) [] = false
has_prefix (c ∷ p) (d ∷ s) = code c == code d && has_prefix p s
