-- ===== src/Normalize/Mail/Snippet.antt =====
-- truncateSnippet. It counts and cuts bytes; the byte offset `cut` is moved back to the beginning of
-- a character.
use Prim.Native.String.{◌++◌, len}
use text.Mathlib.TextBridge.{IsPrefix}
use mathlib.Core.Bool.{false≢true}
use mathlib.Core.Path.{subst}
use mcp_pipedrive.Prelude.{
  Bool, String, false, if◌then◌else◌, leb, refl, suc, zero, ℕ, ◌==◌, ◌||◌, ◌≡◌, Bool-cases, ap,
  arith, inl, inr, ◌<◌, ◌≤◌, ◌⊎◌, sym, ◌∙◌,
}
use mcp_pipedrive.Prelude.Text.{trim_right_func}
use mcp_pipedrive.Prelude.Bytes.{
  is_continuation, is_continuation-zero, prefix-is_continuation, prefix-slice_to, slice_to,
  slice_to-prefix,
}

abbrev pub mail_compact_snippet_max : ℕ
mail_compact_snippet_max = 120

-- for cut > 0 && (s[cut] & 0xC0) == 0x80 { cut-- }
unfoldable pub back_to_boundary : String → ℕ → ℕ
back_to_boundary s zero = 0
back_to_boundary s (suc cut) =
    let earlier = back_to_boundary s cut in if is_continuation s (suc cut) then earlier else suc cut

-- strings.TrimRight(s, " \t\n")
abbrev pub is_blank : ℕ → Bool
is_blank c = c == 32 || c == 9 || c == 10

unfoldable pub truncate_snippet : String → ℕ → String
unfolding back_to_boundary
truncate_snippet s max =
    if max == 0 || leb (len s) max
    then s
    else trim_right_func is_blank (slice_to s (back_to_boundary s max)) ++ "…"

truncate_runs :
    (truncate_snippet "abc" 3 ≡ "abc")
    × (truncate_snippet "ab cd" 3 ≡ "ab…")
    × (truncate_snippet "aéé" 4 ≡ "aé…")
unfolding truncate_snippet is_continuation slice_to trim_right_func
truncate_runs = (refl, refl, refl)

back_to_boundary-le : (s : String) (cut : ℕ) → back_to_boundary s cut ≤ cut
unfolding back_to_boundary
back_to_boundary-le s zero = omega arith
back_to_boundary-le s (suc cut) = ground (arith, back_to_boundary-le s cut)

back_to_boundary-whole : (s : String) (cut : ℕ) → is_continuation s (back_to_boundary s cut) ≡ false
unfolding back_to_boundary
back_to_boundary-whole s zero = is_continuation-zero s
back_to_boundary-whole s (suc cut) = elim (Bool-cases (is_continuation s (suc cut))) [
  | inl inside ↦ rw inside (back_to_boundary-whole s cut)
  | inr whole ↦ rw whole whole
]

-- the loop stops at the first boundary that it meets
back_to_boundary-last :
    (s : String) (cut n : ℕ) → n ≤ cut → is_continuation s n ≡ false → n ≤ back_to_boundary s cut
unfolding back_to_boundary
back_to_boundary-last s zero n h whole = h
back_to_boundary-last s (suc cut) n h whole = elim (Bool-cases (is_continuation s (suc cut))) [
  | inr there ↦ rw there h
  | inl inside ↦ rw inside (
      back_to_boundary-last s cut n
        (ground (
          arith,
          λ (e : n ≡ suc cut). false≢true (sym whole ∙ (ap (is_continuation s) e ∙ inside)),
        ))
        whole)
]

-- A snippet of at most `max` bytes, or any with `max` 0, is kept. A longer one becomes an ellipsis
-- behind the longest of its prefixes that has at most `max` bytes, less the blanks at its end: a
-- prefix is a text of whole characters, and any other with at most `max` bytes is a prefix of it.
pub truncate_snippet_cases :
    (s : String) (max : ℕ) (t u : String)
    → t ++ u ≡ s
    → len t ≤ max
    → (((max ≡ 0) ⊎ (len s ≤ max)) × (truncate_snippet s max ≡ s))
      ⊎ ((0 < max)
          × (max < len s)
          × ((longest : String) × (truncate_snippet s max ≡ trim_right_func is_blank longest ++ "…")
              × IsPrefix longest s
              × (len longest ≤ max)
              × IsPrefix t longest))
unfolding truncate_snippet
truncate_snippet_cases s max t u parts short = elim (Bool-cases (max == 0 || leb (len s) max)) [
  | inl all ↦ inl (ground arith, rw all refl)
  | inr too_long ↦
      let cut = back_to_boundary s max in
      let whole =
        slice_to-prefix s cut (ground (arith, back_to_boundary-le s max))
          (back_to_boundary-whole s max) in
      inr (
        ground arith,
        ground arith,
        (
          slice_to s cut,
          rw too_long refl,
          whole.0,
          omega (arith, whole.1, back_to_boundary-le s max),
          subst (λ v. IsPrefix t (slice_to v cut)) parts
              (prefix-slice_to t u cut (
                back_to_boundary-last s max (len t) short (
                  subst (λ v. is_continuation v (len t) ≡ false) parts
                    (prefix-is_continuation t u)))),
        ),
      )
]
