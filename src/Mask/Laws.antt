-- ===== src/Mask/Laws.antt =====
-- What masking hides, what it keeps, and that it is done once.
use mathlib.Core.Option
use mathlib.Core.Bool.{false≢true}
use mcp_pipedrive.Float64.{Float64}
use mcp_pipedrive.Mask.{is_sensitive_key, mask_fields, mask_items, mask_sensitive}
use mcp_pipedrive.Prelude.{
  All, Bool, Bool-cases, List, Option, Option-cases, String, [], ap, arith, false, if◌then◌else◌,
  inl, inr, none, refl, some, suc, true, zero, ℕ, ◌∙◌, ◌∷◌, ◌≡◌,
}
use mcp_pipedrive.Prelude.Int.{ℤ}
use mcp_pipedrive.Prelude.Text.{str_eq}
use mcp_pipedrive.Value.{
  Fields, Items, Value, arr, bool, cons, end, field, int, int64, lookup, nil, null, num, obj, str,
}
use text.Mathlib.TextEquality.{eq_iff}

-- Every value under a sensitive key is the mask, at any depth.
mutual
  pub data IsMasked : Value → Type 0 where
    a_null : IsMasked null
    a_bool : {b : Bool} → IsMasked (bool b)
    a_num : {t : Float64} → IsMasked (num t)
    an_int64 : {n : ℤ} → IsMasked (int64 n)
    an_int : {n : ℤ} → IsMasked (int n)
    a_str : {s : String} → IsMasked (str s)
    an_arr : {xs : Items} → AreMasked xs → IsMasked (arr xs)
    an_obj : {fs : Fields} → HasNoSecret fs → IsMasked (obj fs)

  pub data AreMasked : Items → Type 0 where
    no_items : AreMasked nil
    more_items : {v : Value} {vs : Items} → IsMasked v → AreMasked vs → AreMasked (cons v vs)

  pub data HasNoSecret : Fields → Type 0 where
    no_fields : HasNoSecret end
    more_fields :
        {k : String} {v : Value} {fs : Fields}
        → (is_sensitive_key k ≡ true → v ≡ str "***")
        → IsMasked v
        → HasNoSecret fs
        → HasNoSecret (field k v fs)

IsMasked-field :
    (b : Bool) (v : Value)
    → IsMasked v
    → (b ≡ true → (if b then str "***" else v) ≡ str "***") × IsMasked (if b then str "***" else v)
IsMasked-field true v h = (λ _. refl, a_str)
IsMasked-field false v h = (λ e. absurd (false≢true e), h)

mutual
  unfolding mask_sensitive

  mask-IsMasked : (v : Value) → IsMasked (mask_sensitive v)
  mask-IsMasked null = a_null
  mask-IsMasked (bool b) = a_bool
  mask-IsMasked (num t) = a_num
  mask-IsMasked (int64 n) = an_int64
  mask-IsMasked (int n) = an_int
  mask-IsMasked (str s) = a_str
  mask-IsMasked (arr xs) = an_arr (mask_items-AreMasked xs)
  mask-IsMasked (obj fs) = an_obj (mask_fields-HasNoSecret fs)

  mask_items-AreMasked : (xs : Items) → AreMasked (mask_items xs)
  mask_items-AreMasked nil = no_items
  mask_items-AreMasked (cons v vs) = more_items (mask-IsMasked v) (mask_items-AreMasked vs)

  mask_fields-HasNoSecret : (fs : Fields) → HasNoSecret (mask_fields fs)
  mask_fields-HasNoSecret end = no_fields
  mask_fields-HasNoSecret (field k v fs) =
      let (hidden, clean) =
        IsMasked-field (is_sensitive_key k) (mask_sensitive v) (mask-IsMasked v) in
      more_fields hidden clean (mask_fields-HasNoSecret fs)

-- In a masked payload every value under a sensitive key, at any depth, is the text "***".
pub mask_sensitive-IsMasked : (v : Value) → IsMasked (mask_sensitive v)
mask_sensitive-IsMasked v = mask-IsMasked v

-- A step into a payload, and the value at the end of a path.
pub data Step : Type 0 where
  by_key : String → Step
  at_index : ℕ → Step

abbrev pub item_at : Items → ℕ → Option Value
item_at nil i = none
item_at (cons v vs) zero = some v
item_at (cons v vs) (suc i) = item_at vs i

unfoldable pub enter : Step → Value → Option Value
enter (by_key k) (obj fs) = lookup k fs
enter (at_index i) (arr xs) = item_at xs i
enter _ v = none

unfoldable pub at : List Step → Value → Option Value
at [] v = some v
at (s ∷ path) v = elim (enter s v) [ none ↦ none | some w ↦ at path w ]

abbrev pub IsPublic : Step → Type 0
IsPublic (by_key k) = is_sensitive_key k ≡ false
IsPublic (at_index i) = Unit

lookup-mask :
    (k : String) (fs : Fields)
    → is_sensitive_key k ≡ false
    → lookup k (mask_fields fs) ≡ Option.map mask_sensitive (lookup k fs)
unfolding lookup mask_sensitive
lookup-mask k end h = refl
lookup-mask k (field j v fs) h = elim (Bool-cases (str_eq j k)) [
  | inl same ↦ rw (same, ap is_sensitive_key ((eq_iff j k).0 same) ∙ h)
  | inr other ↦ rw other (lookup-mask k fs h)
]

item_at-mask :
    (xs : Items) (i : ℕ) → item_at (mask_items xs) i ≡ Option.map mask_sensitive (item_at xs i)
unfolding mask_sensitive
item_at-mask nil i = refl
item_at-mask (cons v vs) zero = refl
item_at-mask (cons v vs) (suc i) = item_at-mask vs i

enter-mask :
    (s : Step) (v : Value)
    → IsPublic s
    → enter s (mask_sensitive v) ≡ Option.map mask_sensitive (enter s v)
unfolding mask_sensitive enter
enter-mask (by_key k) (obj fs) h = lookup-mask k fs h
enter-mask (by_key k) v h = ground arith
enter-mask (at_index i) (arr xs) h = item_at-mask xs i
enter-mask (at_index i) v h = ground arith

-- Along a path with no sensitive key the masked payload has the masked value, present or absent
-- as in the payload itself.
pub at-mask_sensitive :
    (path : List Step) (v : Value)
    → All IsPublic path
    → at path (mask_sensitive v) ≡ Option.map mask_sensitive (at path v)
unfolding at
at-mask_sensitive [] v h = refl
at-mask_sensitive (s ∷ path) v (h, hs) = elim (Option-cases (enter s v)) [
  | inl missing ↦ rw (enter-mask s v h, missing, at)
  | inr (w, found) ↦ rw (enter-mask s v h, found, at) (at-mask_sensitive path w hs)
]

mutual
  unfolding mask_sensitive

  mask_again : (v : Value) → mask_sensitive (mask_sensitive v) ≡ mask_sensitive v
  mask_again (arr xs) = ap arr (mask_items_again xs)
  mask_again (obj fs) = ap obj (mask_fields_again fs)
  mask_again _ = refl

  mask_items_again : (xs : Items) → mask_items (mask_items xs) ≡ mask_items xs
  mask_items_again nil = refl
  mask_items_again (cons v vs) = cc (mask_again v, mask_items_again vs)

  mask_fields_again : (fs : Fields) → mask_fields (mask_fields fs) ≡ mask_fields fs
  mask_fields_again end = refl
  mask_fields_again (field k v fs) = ground (arith, mask_again v, mask_fields_again fs)

-- Masking a payload that is already masked changes nothing.
mask_sensitive_idempotent : (v : Value) → mask_sensitive (mask_sensitive v) ≡ mask_sensitive v
mask_sensitive_idempotent v = mask_again v
