-- ===== src/Query/Order.antt =====
-- The order of strings is total, and the strings with a prefix stand together in it.
use Prim.Native.String.{[], ◌∷◌, ◌++◌}
use text.Mathlib.TextEquality.{Char-path}
use Prim.Native.Char.{code}
use mathlib.Core.Bool.{false≢true}
use mcp_pipedrive.Prelude.{String, arith, false, refl, sym, true, ◌≡◌}
use mcp_pipedrive.Query.Sort.{has_prefix, str_le}
use text.Mathlib.TextLemmas.{cons-append}

pub str_le_total : (s t : String) → str_le s t ≡ false → str_le t s ≡ true
unfolding str_le
str_le_total [] t h = absurd (false≢true (sym h))
str_le_total (c ∷ s) [] h = refl
str_le_total (c ∷ s) (d ∷ t) h = ground (arith, str_le_total s t)

pub str_le_trans : (s t u : String) → str_le s t ≡ true → str_le t u ≡ true → str_le s u ≡ true
unfolding str_le
str_le_trans [] t u h k = refl
str_le_trans (c ∷ s) [] u h k = absurd (false≢true h)
str_le_trans (c ∷ s) (d ∷ t) [] h k = absurd (false≢true k)
str_le_trans (c ∷ s) (d ∷ t) (e ∷ u) h k = ground (arith, str_le_trans s t u)

pub str_le_antisymm : (s t : String) → str_le s t ≡ true → str_le t s ≡ true → s ≡ t
unfolding str_le
str_le_antisymm [] [] h k = refl
str_le_antisymm [] (d ∷ t) h k = absurd (false≢true k)
str_le_antisymm (c ∷ s) [] h k = absurd (false≢true h)
str_le_antisymm (c ∷ s) (d ∷ t) h k =
    let same : code c ≡ code d = ground arith in
    let rest : s ≡ t = str_le_antisymm s t (ground arith) (ground arith) in
    cc (Char-path c d same, rest)

-- A string is at most what it is a prefix of.
pub has_prefix-le : (p s : String) → has_prefix p s ≡ true → str_le p s ≡ true
unfolding str_le has_prefix
has_prefix-le [] s h = refl
has_prefix-le (c ∷ p) [] h = absurd (false≢true h)
has_prefix-le (c ∷ p) (d ∷ s) h = ground (arith, has_prefix-le p s)

-- Between a prefix and a string that has it, every string has it.
pub has_prefix-between :
    (p s t : String)
    → str_le p s ≡ true
    → str_le s t ≡ true
    → has_prefix p t ≡ true
    → has_prefix p s ≡ true
unfolding str_le has_prefix
has_prefix-between [] s t h k l = refl
has_prefix-between (c ∷ p) [] t h k l = absurd (false≢true h)
has_prefix-between (c ∷ p) (d ∷ s) [] h k l = absurd (false≢true l)
has_prefix-between (c ∷ p) (d ∷ s) (e ∷ t) h k l = ground (arith, has_prefix-between p s t)

pub has_prefix-append : (p s : String) → has_prefix p (p ++ s) ≡ true
unfolding has_prefix
has_prefix-append [] s = refl
has_prefix-append (c ∷ p) s = rw cons-append (ground (arith, has_prefix-append p s))
