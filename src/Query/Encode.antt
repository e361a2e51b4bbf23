-- ===== src/Query/Encode.antt =====
-- url.Values.Encode and url.QueryEscape.
use Prim.Native.Char.{Char, code}
use Prim.Native.String.{[], ◌∷◌, ◌++◌, char_at}
use mathlib.Core.List
use mcp_pipedrive.Query.{Query, empty, set, values}
use mcp_pipedrive.Prelude.{
  Bool, List, Option, String, if◌then◌else◌, leb, ltb, none, refl, some, ℕ, ◌%◌, ◌&&◌, ◌+◌, ◌/◌,
  ◌==◌, ◌||◌, ◌≡◌,
}
use mcp_pipedrive.Prelude.Text.{is_set}
use mcp_pipedrive.Query.Sort.{sort_strings}

hex_digit : ℕ → String
hex_digit d = char_at "0123456789ABCDEF" d ∷ []

percent : ℕ → String
unfolding hex_digit
percent b = "%" ++ (hex_digit (b / 16) ++ hex_digit (b % 16))

continuation : ℕ → String
unfolding percent
continuation n = percent (128 + n % 64)

-- the UTF-8 bytes of a code point, each as %XX
percent_utf8 : ℕ → String
unfolding percent continuation
percent_utf8 n =
    if ltb n 128
    then percent n
    else if ltb n 2048
    then percent (192 + n / 64) ++ continuation n
    else if ltb n 65536
    then percent (224 + n / 4096) ++ (continuation (n / 64) ++ continuation n)
    else percent (240 + n / 262144)
      ++ (continuation (n / 4096) ++ (continuation (n / 64) ++ continuation n))

is_unreserved : ℕ → Bool
is_unreserved n =
    leb b'a' n && leb n b'z'
    || leb b'A' n && leb n b'Z'
    || leb b'0' n && leb n b'9'
    || n == b'-'
    || n == b'_'
    || n == b'.'
    || n == b'~'

escape_char : Char → String
unfolding percent_utf8 is_unreserved
escape_char c =
    if is_unreserved (code c) then c ∷ [] else if code c == 32 then "+" else percent_utf8 (code c)

unfoldable pub query_escape : String → String
unfolding escape_char
query_escape [] = []
query_escape (c ∷ s) = escape_char c ++ query_escape s

-- k=v for each value of one key, each behind "&" but at the start
encode_values : String → List.List String → String → String
unfolding query_escape
encode_values k List.[] out = out
encode_values k (List.◌∷◌ v vs) out =
    encode_values k vs
      ((if is_set out then out ++ "&" else out) ++ (query_escape k ++ ("=" ++ query_escape v)))

or_no_values : Option (List.List String) → List.List String
or_no_values none = List.[]
or_no_values (some vs) = vs

encode_keys : Query → List.List String → String → String
unfolding encode_values or_no_values
encode_keys q List.[] out = out
encode_keys q (List.◌∷◌ k ks) out =
    encode_keys q ks (encode_values k (or_no_values (values k q)) out)

unfoldable pub encode : Query → String
unfolding encode_keys sort_strings
encode q = encode_keys q (sort_strings (List.map (λ e. e.0) q)) []

encode_runs : encode (set "start" "0" (set "term" "a b&é" empty)) ≡ "start=0&term=a+b%26%C3%A9"
unfolding encode set values
encode_runs = refl
