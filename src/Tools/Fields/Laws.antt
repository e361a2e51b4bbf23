-- ===== src/Tools/Fields/Laws.antt =====
-- What the merge keeps and what it adds.
use mathlib.Core.List.{List, [], ◌∷◌}
use mathlib.Core.List
use mcp_pipedrive.Normalize.Lists.{objects}
use mcp_pipedrive.Prelude.{
  String, any, arith, false, length, not, refl, ◌&&◌, ◌++◌, ◌+◌, ◌≡◌, Bool, Bool-cases, ap, inl,
  inr, true, ◌||◌, ◌∙◌,
}
use mcp_pipedrive.Prelude.Text.{str_eq}
use mcp_pipedrive.Tools.Fields.Merge.{
  fresh_option, labels, merge_options, resent, sort_labels, existing_options,
}
use mcp_pipedrive.Value.{Value, obj}
use text.Mathlib.TextEquality.{eq_iff}
use text.Mathlib.TextPositions.{eq_refl}

sort_labels-count :
    (have options : List String)
    → let (added, skipped) = sort_labels have options in
      length added + length skipped ≡ length options
unfolding sort_labels
sort_labels-count have [] = refl
sort_labels-count have (label ∷ more) =
    ground (arith, sort_labels-count have more, sort_labels-count (label ∷ have) more)

any-sort_labels :
    (have options : List String) (j : String)
    → any (str_eq j) (sort_labels have options).0
      ≡ (any (str_eq j) options && not (any (str_eq j) have))
unfolding sort_labels
any-sort_labels have [] j = refl
any-sort_labels have (label ∷ more) j = ground (
  arith,
  any-sort_labels have more j,
  any-sort_labels (label ∷ have) more j,
  eq_iff j label,
  eq_iff label j,
)

existing_options_lem : (os : List Value) → existing_options os ≡ objects os
unfolding existing_options
existing_options_lem [] = refl
existing_options_lem (obj m ∷ os) = ap (λ l. m ∷ l) (existing_options_lem os)
existing_options_lem (_ ∷ os) = existing_options_lem os

-- each text is met once
abbrev pub IsDistinct : List String → Type 0
IsDistinct [] = Unit
IsDistinct (s ∷ ss) = (any (str_eq s) ss ≡ false) × IsDistinct ss

sort_labels-IsDistinct : (have options : List String) → IsDistinct (sort_labels have options).0
unfolding sort_labels
sort_labels-IsDistinct have [] = tt
sort_labels-IsDistinct have (label ∷ more) = elim (Bool-cases (any (str_eq label) have)) [
  | inl there ↦ rw (there, sort_labels) (sort_labels-IsDistinct have more)
  | inr absent ↦
      rw (absent, sort_labels)
        (
          any-sort_labels (label ∷ have) more label ∙ known (any (str_eq label) more),
          sort_labels-IsDistinct (label ∷ have) more,
        )
]
  where
    known : (b : Bool) → (b && not (str_eq label label || any (str_eq label) have)) ≡ false
    known b =
        rw (eq_refl label) (elim b as (λ b. (b && false) ≡ false) [ true ↦ refl | false ↦ refl ])

-- The options that are written are the existing ones, each with its id and label and in their
-- order, and behind them one for each added label. A label is added exactly if it is asked for and
-- no existing option has it, and it is added once; each of the labels asked for counts as added or
-- as skipped.
pub merge_options_lem :
    (existing : List Value) (options : List String)
    → let m = merge_options existing options in
      (m.merged ≡ List.map resent (objects existing) ++ List.map fresh_option m.added)
      × ((j : String)
          → any (str_eq j) m.added
            ≡ (any (str_eq j) options && not (any (str_eq j) (labels (objects existing)))))
      × IsDistinct m.added
      × (length m.added + length m.skipped ≡ length options)
unfolding merge_options
merge_options_lem existing options = rw (existing_options_lem existing) (
  refl,
  any-sort_labels (labels (objects existing)) options,
  sort_labels-IsDistinct (labels (objects existing)) options,
  sort_labels-count (labels (objects existing)) options,
)
