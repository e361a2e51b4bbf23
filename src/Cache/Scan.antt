-- ===== src/Cache/Scan.antt =====
-- The cursor loop of DeletePrefix finds every key with the prefix, since the keys are in order.
use mathlib.Core.List.{List, [], ◌∷◌}
use mathlib.Core.Bool.{false≢true}
use mcp_pipedrive.Cache.{seek, while_prefix}
use mcp_pipedrive.Cache.Bucket.{Above, IsSorted}
use mcp_pipedrive.Prelude.{
  Bool, Bool-cases, String, any, ap, arith, false, inl, inr, keep, refl, sym, true, ◌&&◌, ◌∙◌, ◌≡◌,
  ◌⊎◌,
}
use mcp_pipedrive.Prelude.Text.{str_eq}
use mcp_pipedrive.Query.Order.{has_prefix-between, has_prefix-le, str_le_trans}
use mcp_pipedrive.Query.Sort.{has_prefix, str_le}
use text.Mathlib.TextEquality.{eq_iff}

prefix_ends :
    (p k j : String)
    → str_le p k ≡ true
    → str_le k j ≡ true
    → has_prefix p k ≡ false
    → has_prefix p j ≡ false
prefix_ends p k j h l n = elim (Bool-cases (has_prefix p j)) [
  | inl late ↦ absurd (false≢true (sym n ∙ has_prefix-between p k j h l late))
  | inr fine ↦ fine
]

-- past a key without the prefix there is none with it
none_later :
    (p k : String) (ks : List String)
    → Above k ks × IsSorted ks
    → str_le p k ≡ true
    → has_prefix p k ≡ false
    → keep (has_prefix p) ks ≡ []
none_later p k [] s h n = refl
none_later p k (j ∷ ks) ((l, ne), s) h n =
    rw (prefix_ends p k j h l n, keep)
      (none_later p j ks s (str_le_trans p k j h l) (prefix_ends p k j h l n))

while_prefix-keep :
    (p k : String) (ks : List String)
    → IsSorted (k ∷ ks)
    → str_le p k ≡ true
    → while_prefix p (k ∷ ks) ≡ keep (has_prefix p) (k ∷ ks)
unfolding while_prefix
while_prefix-keep p k [] s h = ground arith
while_prefix-keep p k (j ∷ ks) ((l, ne), s) h = elim (Bool-cases (has_prefix p k)) [
  | inl has ↦
      rw (has, keep) (ap (λ r. k ∷ r) (while_prefix-keep p j ks s (str_le_trans p k j h (l))))
  | inr lacks ↦ rw (lacks, keep) (sym (none_later p k (j ∷ ks) ((l, ne), s) h lacks))
]

pub while_prefix-seek :
    (p : String) (ks : List String)
    → IsSorted ks
    → while_prefix p (seek p ks) ≡ keep (has_prefix p) ks
unfolding seek
while_prefix-seek p [] s = unfold while_prefix in refl
while_prefix-seek p (k ∷ ks) s = elim (Bool-cases (str_le p k)) [
  | inl reached ↦ rw reached (while_prefix-keep p k ks s reached)
  | inr before ↦
      rw before (while_prefix-seek p ks s.1 ∙ sym (skip (Bool-cases (has_prefix p k)) before))
]
  where
    skip :
        (has_prefix p k ≡ true) ⊎ (has_prefix p k ≡ false)
        → str_le p k ≡ false
        → keep (has_prefix p) (k ∷ ks) ≡ keep (has_prefix p) ks
    skip (inl has) n = absurd (false≢true (sym n ∙ has_prefix-le p k has))
    skip (inr lacks) n = rw (lacks, keep) refl

pub any-keep :
    (p : String → Bool) (j : String) (ks : List String)
    → any (str_eq j) (keep p ks) ≡ (p j && any (str_eq j) ks)
any-keep p j [] = ground arith
any-keep p j (k ∷ ks) = elim (Bool-cases (str_eq j k)) [
  | inl same ↦ here (Bool-cases (p k)) (any-keep p j ks) (ap p ((eq_iff j k).0 same)) same
  | inr other ↦ there (Bool-cases (p k)) (any-keep p j ks) other
]
  where
    here :
        (p k ≡ true) ⊎ (p k ≡ false)
        → any (str_eq j) (keep p ks) ≡ (p j && any (str_eq j) ks)
        → p j ≡ p k
        → str_eq j k ≡ true
        → any (str_eq j) (keep p (k ∷ ks)) ≡ (p j && any (str_eq j) (k ∷ ks))
    here (inl found) ih e same = rw (e, found, keep, any, same) refl
    here (inr lost) ih e same = rw (lost, keep, ih, e, lost) refl

    there :
        (p k ≡ true) ⊎ (p k ≡ false)
        → any (str_eq j) (keep p ks) ≡ (p j && any (str_eq j) ks)
        → str_eq j k ≡ false
        → any (str_eq j) (keep p (k ∷ ks)) ≡ (p j && any (str_eq j) (k ∷ ks))
    there (inl found) ih other = rw (found, keep, any, other) ih
    there (inr lost) ih other = rw (lost, keep, any, other) ih
