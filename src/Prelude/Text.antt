-- ===== src/Prelude/Text.antt =====
-- Go's string functions on native texts. A text is its code points; the byte order of UTF-8 is
-- the order of the code points, so comparisons agree.
use Prim.Native.Nat.{ℕ, ◌-◌}
use Prim.Native.Char.{Char, code}
use Prim.Native.String.{String, [], ◌∷◌, ◌++◌, char_at}
use mathlib.Core.Path.{◌≡◌, refl}
use mathlib.Core.Bool.{Bool, true, false, ◌&&◌, ◌||◌}
use mathlib.Core.List
use mathlib.Core.List.{List}
use text.Mathlib.Text.{starts_with}
use text.Mathlib.Text
use mcp_pipedrive.Prelude.Tests.{leb, ◌==◌, if◌then◌else◌}

-- s == t
abbrev pub str_eq : String → String → Bool
str_eq s t = Text.◌==◌ s t

-- s != ""
abbrev pub is_set : String → Bool
is_set [] = false
is_set (c ∷ s) = true

-- unicode.IsSpace
pub is_space : ℕ → Bool
is_space c =
    leb 9 c && leb c 13
    || c == 32
    || c == 0x85
    || c == 0xA0
    || c == 0x1680
    || leb 0x2000 c && leb c 0x200A
    || c == 0x2028
    || c == 0x2029
    || c == 0x202F
    || c == 0x205F
    || c == 0x3000

-- strings.TrimLeftFunc and strings.TrimRightFunc, by a test on code points
module _ (p : ℕ → Bool) where
  unfoldable pub trim_left_func : String → String
  trim_left_func [] = []
  trim_left_func (c ∷ s) = if p (code c) then trim_left_func s else c ∷ s

  unfoldable pub trim_right_func : String → String
  trim_right_func [] = []
  trim_right_func (c ∷ s) =
      let rest = trim_right_func s in
      if p (code c) then (if is_set rest then c ∷ rest else []) else c ∷ rest

-- strings.TrimSpace
unfoldable pub trim_space : String → String
unfolding is_space trim_left_func trim_right_func
trim_space s = trim_right_func is_space (trim_left_func is_space s)

-- strings.TrimRight(s, "/")
unfoldable pub trim_right_slash : String → String
unfolding trim_right_func
trim_right_slash s = trim_right_func (λ c. c == b'/') s

-- what is left of the text behind a prefix, if it has the prefix
pub after : String → String → List.List String
after [] s = List.◌∷◌ s List.[]
after (c ∷ p) [] = List.[]
after (c ∷ p) (d ∷ s) = if code c == code d then after p s else List.[]

-- strings.TrimPrefix
unfoldable pub trim_prefix : String → String → String
unfolding after
trim_prefix s p = elim (after p s) [ List.[] ↦ s | List.◌∷◌ rest more ↦ rest ]

-- strings.Contains
unfoldable pub contains : String → String → Bool
contains [] part = starts_with [] part
contains (c ∷ s) part = starts_with (c ∷ s) part || contains s part

-- unicode.ToLower on one character. Outside ASCII it is followed only where it yields an ASCII
-- letter (the Kelvin sign and the dotted capital I): every caller compares with ASCII texts.
lower_char : Char → Char
lower_char c =
    let n = code c in
    if leb b'A' n && leb n b'Z'
    then char_at "abcdefghijklmnopqrstuvwxyz" (n - b'A')
    else if n == 0x212A
    then char_at "k" 0
    else if n == 0x130
    then char_at "i" 0
    else c

-- strings.ToLower
unfoldable pub to_lower : String → String
unfolding lower_char
to_lower [] = []
to_lower (c ∷ s) = lower_char c ∷ to_lower s

-- strings.Split by one ASCII character, given by its code
unfoldable pub split : ℕ → String → String → List.List String
split sep cur [] = List.◌∷◌ cur List.[]
split sep cur (c ∷ s) =
    let closed = List.◌∷◌ cur (split sep "" s) in
    let longer = split sep (cur ++ c ∷ []) s in if code c == sep then closed else longer

text_runs :
    (trim_space " a b\t" ≡ "a b")
    × (trim_right_slash "x//" ≡ "x")
    × (trim_prefix "https://x" "https://" ≡ "x")
    × (to_lower "API_Key" ≡ "api_key")
    × (contains "my_token_2" "token" ≡ true)
    × (contains "tokem" "token" ≡ false)
unfolding trim_space trim_right_slash trim_prefix to_lower contains
text_runs = (refl, refl, refl, refl, refl, refl)
