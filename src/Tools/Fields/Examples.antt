-- ===== src/Tools/Fields/Examples.antt =====
-- A merge of three labels into two options.
use mathlib.Core.List.{List, [], ◌∷◌}
use mathlib.Core.List
use mcp_pipedrive.Normalize.Lists.{objects}
use mcp_pipedrive.Prelude.{String, any, length, not, refl, ℕ, ◌&&◌, ◌++◌, ◌+◌, ◌≡◌}
use mcp_pipedrive.Prelude.Int.{pos}
use mcp_pipedrive.Prelude.Text.{str_eq}
use mcp_pipedrive.Tools.Fields.Laws.{IsDistinct, merge_options_lem}
use mcp_pipedrive.Tools.Fields.Merge.{fresh_option, labels, merge_options, resent}
use mcp_pipedrive.Value.{Value, end, field, int, null, obj, str, get, lookup}
use mcp_pipedrive.Value.Convert.{to_string}

abbrev option : ℕ → String → Value
option id label = obj (field "id" (int (pos id)) (field "label" (str label) end))

merge_options_lem_example :
    let existing = option 1 "hot" ∷ option 2 "cold" ∷ [] in
    let m = merge_options existing ("warm" ∷ "hot" ∷ "warm" ∷ []) in
    (m.merged ≡ List.map resent (objects existing) ++ List.map fresh_option m.added)
    × ((j : String)
        → any (str_eq j) m.added ≡ (
            any (str_eq j) ("warm" ∷ "hot" ∷ "warm" ∷ [])
            && not (any (str_eq j) (labels (objects existing)))))
    × IsDistinct m.added
    × (length m.added + length m.skipped ≡ 3)
merge_options_lem_example =
    merge_options_lem (option 1 "hot" ∷ option 2 "cold" ∷ []) ("warm" ∷ "hot" ∷ "warm" ∷ [])

merge_options_runs :
    let m = merge_options (option 1 "hot" ∷ null ∷ []) ("warm" ∷ "hot" ∷ "warm" ∷ []) in
    (m.added ≡ "warm" ∷ []) × (m.skipped ≡ "hot" ∷ "warm" ∷ [])
unfolding merge_options to_string get lookup
merge_options_runs = (refl, refl)
