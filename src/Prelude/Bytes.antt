-- ===== src/Prelude/Bytes.antt =====
-- The bytes of a text: Go indexes and slices them, and a text is its code points here. A slice that
-- ends inside a character is no text; its bytes of that character are U+FFFD each, as json.Marshal
-- writes bytes that are no UTF-8.
use Prim.Native.Nat.{ℕ, zero, suc, ◌+◌, ◌-◌, ◌≤◌, ◌<◌}
use Prim.Native.Char.{Char, len_utf8}
use Prim.Native.String.{String, [], ◌∷◌, ◌++◌, len}
use Prim.Native.String.len
use mathlib.Core.Path.{◌≡◌, refl, sym, ap, ◌∙◌, subst}
use mathlib.Core.Bool.{Bool, true, false, false≢true}
use mathlib.Core.Logic.{◌⊎◌, inl, inr}
use native.Mathlib.Omega.{arith}
use text.Mathlib.TextBridge.{IsPrefix}
use text.Mathlib.TextPositions.{len_utf8-pos}
use text.Mathlib.TextLemmas.{cons-append, nil-append}
use mcp_pipedrive.Prelude.Tests.{leb, Bool-cases, ◌==◌, if◌then◌else◌}

-- s[i] & 0xC0 == 0x80: the byte is not the first of its character
unfoldable pub is_continuation : String → ℕ → Bool
is_continuation [] i = false
is_continuation (c ∷ s) i =
    let later = is_continuation s (i - len_utf8 c) in
    if i == 0 then false else if leb (len_utf8 c) i then later else true

broken : ℕ → String
broken zero = []
broken (suc n) = "�" ++ broken n

-- s[:n], for an n of at most len(s)
unfoldable pub slice_to : String → ℕ → String
unfolding broken
slice_to [] n = []
slice_to (c ∷ s) n =
    let later = slice_to s (n - len_utf8 c) in
    if n == 0 then [] else if leb (len_utf8 c) n then c ∷ later else broken n

slice_to_runs :
    (slice_to "aéb" 1 ≡ "a")
    × (slice_to "aéb" 2 ≡ "a�")
    × (slice_to "aéb" 3 ≡ "aé")
    × (is_continuation "aéb" 2 ≡ true)
    × (is_continuation "aéb" 3 ≡ false)
unfolding slice_to is_continuation
slice_to_runs = (refl, refl, refl, refl, refl)

width-pos : (c : Char) → 0 < len_utf8 c
width-pos c = let (k, e) = len_utf8-pos c in omega (arith, e)

IsPrefix-cons : (c : Char) (t s : String) → IsPrefix t s → IsPrefix (c ∷ t) (c ∷ s)
IsPrefix-cons c t s (u, e) = (u, cons-append c t u ∙ ap (λ r. c ∷ r) e)

is_continuation-step :
    (c : Char) (s : String) (n : ℕ) → is_continuation (c ∷ s) (len_utf8 c + n) ≡ is_continuation s n
unfolding is_continuation
is_continuation-step c s n =
    let same : len_utf8 c + n - len_utf8 c ≡ n = omega arith in
    ground (arith, width-pos c, ap (is_continuation s) same)

slice_to-step :
    (c : Char) (s : String) (n : ℕ) → slice_to (c ∷ s) (len_utf8 c + n) ≡ c ∷ slice_to s n
unfolding slice_to
slice_to-step c s n =
    let same : len_utf8 c + n - len_utf8 c ≡ n = omega arith in
    ground (arith, width-pos c, ap (λ k. c ∷ slice_to s k) same)

-- an offset that no character goes over is the beginning, or behind the first one
first_cases :
    (c : Char) (s : String) (n : ℕ)
    → is_continuation (c ∷ s) n ≡ false
    → (n ≡ 0) ⊎ ((m : ℕ) × (n ≡ len_utf8 c + m))
unfolding is_continuation
first_cases c s n h = elim (Bool-cases (n == 0)) [
  | inl e ↦ inl (ground arith)
  | inr e ↦ elim (Bool-cases (leb (len_utf8 c) n)) [
    | inl d ↦ inr (n - len_utf8 c, ground arith)
    | inr d ↦ absurd (false≢true (sym h ∙ rw (e, d) refl))
  ]
]

slice_to-zero : (s : String) → slice_to s 0 ≡ []
unfolding slice_to
slice_to-zero [] = refl
slice_to-zero (c ∷ s) = refl

-- a slice that ends with a character is a prefix of its length
pub slice_to-prefix :
    (s : String) (n : ℕ)
    → n ≤ len s
    → is_continuation s n ≡ false
    → IsPrefix (slice_to s n) s × (len (slice_to s n) ≡ n)
unfolding slice_to
slice_to-prefix [] n h whole = (([], nil-append []), omega (arith, h))
slice_to-prefix (c ∷ s) n h whole = elim (first_cases c s n whole) [
  | inl e ↦
      subst (λ k. IsPrefix (slice_to (c ∷ s) k) (c ∷ s) × (len (slice_to (c ∷ s) k) ≡ k)) (sym e)
        ((c ∷ s, nil-append (c ∷ s)), refl)
  | inr (m, e) ↦
      let (prefix, size) =
        slice_to-prefix s m (omega (arith, h, e, len.cons c s))
          (sym (is_continuation-step c s m) ∙ (ap (is_continuation (c ∷ s)) (sym e) ∙ whole)) in
      subst (λ k. IsPrefix (slice_to (c ∷ s) k) (c ∷ s) × (len (slice_to (c ∷ s) k) ≡ k)) (sym e)
        (subst (λ t. IsPrefix t (c ∷ s) × (len t ≡ len_utf8 c + m)) (sym (slice_to-step c s m))
          (IsPrefix-cons c _ s prefix, omega (arith, size, len.cons c (slice_to s m))))
]

-- a prefix is in every longer slice
pub prefix-slice_to : (t u : String) (n : ℕ) → len t ≤ n → IsPrefix t (slice_to (t ++ u) n)
prefix-slice_to [] u n h = (slice_to ([] ++ u) n, nil-append _)
prefix-slice_to (c ∷ t) u n h =
    let m = n - len_utf8 c in
    let e : n ≡ len_utf8 c + m = omega (arith, h, len.cons c t) in
    subst (IsPrefix (c ∷ t))
      (sym (
        ap (λ s. slice_to s n) (cons-append c t u)
        ∙ ap (slice_to (c ∷ (t ++ u))) e
        ∙ slice_to-step c (t ++ u) m))
      (IsPrefix-cons c t _ (prefix-slice_to t u m (omega (arith, h, e, len.cons c t))))

pub is_continuation-zero : (s : String) → is_continuation s 0 ≡ false
unfolding is_continuation
is_continuation-zero [] = refl
is_continuation-zero (c ∷ s) = refl

-- a prefix ends with a character
pub prefix-is_continuation : (t u : String) → is_continuation (t ++ u) (len t) ≡ false
prefix-is_continuation [] u = is_continuation-zero ([] ++ u)
prefix-is_continuation (c ∷ t) u =
    ap (λ s. is_continuation s (len (c ∷ t))) (cons-append c t u)
    ∙ ap (is_continuation (c ∷ (t ++ u))) (len.cons c t)
    ∙ is_continuation-step c (t ++ u) (len t)
    ∙ prefix-is_continuation t u
