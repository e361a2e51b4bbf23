-- ===== src/Tools/Fields/Merge.antt =====
-- The merge of dealFieldsAddOption in tools/deal_fields.go.
use mathlib.Core.List.{List, [], ◌∷◌}
use mathlib.Core.List
use mcp_pipedrive.Prelude.{String, any, if◌then◌else◌, none, some, ◌++◌}
use mcp_pipedrive.Prelude.Text.{str_eq}
use mcp_pipedrive.Value.{Fields, Value, end, field, get, obj, str}
use mcp_pipedrive.Value.Convert.{as_map, to_string}

pub record Merged : Type 0 where
  pub merged : List Value
  pub added : List String
  pub skipped : List String

-- an existing option, sent again with its id
abbrev pub resent : Fields → Value
resent om = obj (field "id" (get om "id") (field "label" (str (to_string (get om "label"))) end))

-- a new option carries only a label
abbrev pub fresh_option : String → Value
fresh_option label = obj (field "label" (str label) end)

-- the loop over the existing options: what is no object is left out
unfoldable pub existing_options : List Value → List Fields
existing_options [] = []
existing_options (o ∷ os) =
    let rest = existing_options os in elim (as_map o) [ none ↦ rest | some om ↦ om ∷ rest ]

abbrev pub labels : List Fields → List String
labels oms = List.map (λ om. to_string (get om "label")) oms

-- the loop over the new labels, with the labels that are there: what is added, and what is skipped
unfoldable pub sort_labels : List String → List String → List String × List String
sort_labels have [] = ([], [])
sort_labels have (label ∷ more) =
    let (added, skipped) = sort_labels have more in
    let (added', skipped') = sort_labels (label ∷ have) more in
    if any (str_eq label) have then (added, label ∷ skipped) else (label ∷ added', skipped')

unfoldable pub merge_options : List Value → List String → Merged
unfolding existing_options sort_labels
merge_options existing options =
    let oms = existing_options existing in
    let (added, skipped) = sort_labels (labels oms) options in
    record {
      merged = List.map resent oms ++ List.map fresh_option added;
      added = added;
      skipped = skipped;
    }
