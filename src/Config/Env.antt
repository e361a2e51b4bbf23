-- ===== src/Config/Env.antt =====
-- Reading one environment variable, given its text.
use Prim.Native.String.{[], ◌∷◌}
use Prim.Native.Char.{code}
use mathlib.Core.List.{List}
use mcp_pipedrive.Prelude.{
  Bool, Option, String, any, if◌then◌else◌, leb, ltb, none, not, refl, some, suc, true, zero, ℕ,
  ◌%◌, ◌&&◌, ◌*◌, ◌+◌, ◌-◌, ◌==◌, ◌^◌, ◌||◌, ◌≡◌,
}
use mcp_pipedrive.Prelude.Int.{is_positive, negsuc, pos, ℤ}
use mcp_pipedrive.Prelude.Text.{
  is_set, split, str_eq, to_lower, trim_prefix, trim_right_slash, trim_space,
}

abbrev pub default_domain : String
default_domain = "api.pipedrive.com"

-- envBool
unfoldable pub env_bool : String → Bool
env_bool raw =
    let val = trim_space (to_lower raw) in str_eq val "1" || str_eq val "true" || str_eq val "yes"

-- envBoolDefault
unfoldable pub env_bool_default : String → Bool → Bool
env_bool_default given def =
    let raw = trim_space (to_lower given) in
    if not (is_set raw) then def else str_eq raw "1" || str_eq raw "true" || str_eq raw "yes"

-- set[name] = struct{}{}
unfoldable pub add_name : String → List String → List String
add_name name names = if any (str_eq name) names then names else List.◌∷◌ name names

-- the loop of allowedToolsFromEnv
unfoldable pub add_tools : List String → List String → List String
unfolding add_name
add_tools names List.[] = names
add_tools names (List.◌∷◌ t ts) =
    let name = trim_space t in add_tools (if is_set name then add_name name names else names) ts

unfoldable pub allowed_tools_from_env : String → List String
unfolding add_tools
allowed_tools_from_env raw =
    let val = trim_space raw in
    if not (is_set val) then List.[] else add_tools List.[] (split b',' "" val)

-- the decimal digits of strconv.Atoi
atoi_digits : ℕ → String → Option ℕ
atoi_digits n [] = some n
atoi_digits n (c ∷ s) =
    if leb b'0' (code c) && leb (code c) b'9'
    then atoi_digits (n * 10 + (code c - b'0')) s
    else none

-- what is out of the range of int64 is an error
in_range : ℕ → (ℕ → ℤ) → Option ℕ → Option ℤ
in_range bound sign none = none
in_range bound sign (some n) = if leb n bound then some (sign n) else none

negative_of : ℕ → ℤ
negative_of zero = pos 0
negative_of (suc n) = negsuc n

-- at least one digit
number_of : String → Option ℕ
unfolding atoi_digits
number_of s = if is_set s then atoi_digits 0 s else none

unfoldable pub atoi : String → Option ℤ
unfolding number_of in_range negative_of
atoi [] = none
atoi (c ∷ s) =
    if code c == b'-'
    then in_range (2 ^ 63) negative_of (number_of s)
    else if code c == b'+'
    then in_range (2 ^ 63 - 1) pos (number_of s)
    else in_range (2 ^ 63 - 1) pos (number_of (c ∷ s))

-- the low 64 bits of a number, as an int64
unfoldable pub wrap_int64 : ℕ → ℤ
wrap_int64 n =
    let low = n % 2 ^ 64 in if ltb low (2 ^ 63) then pos low else negsuc (2 ^ 64 - 1 - low)

abbrev pub default_timeout : ℤ
default_timeout = pos 30_000_000_000

-- time.Duration(ms) * time.Millisecond wraps around like any int64 product
unfoldable pub timeout_of : Option ℤ → ℤ
unfolding wrap_int64
timeout_of none = default_timeout
timeout_of (some (negsuc n)) = default_timeout
timeout_of (some (pos ms)) = if ms == 0 then default_timeout else wrap_int64 (ms * 1_000_000)

unfoldable pub timeout_from_env : String → ℤ
unfolding timeout_of
timeout_from_env raw =
    let val = trim_space raw in if not (is_set val) then default_timeout else timeout_of (atoi val)

-- TrimPrefix of "https://", then of "http://"
unfoldable pub strip_scheme : String → String
strip_scheme d = trim_prefix (trim_prefix d "https://") "http://"

unfoldable pub domain_from_env : String → String
unfolding strip_scheme
domain_from_env raw =
    let d = trim_space (trim_right_slash raw) in
    if not (is_set d) then default_domain else strip_scheme d

unfoldable pub cache_path_from_env : String → String
cache_path_from_env raw =
    let v = trim_space raw in if not (is_set v) then ".cache/pipedrive-mcp.bbolt" else v

-- a parsed duration, if it is positive
positive_or : ℕ → Option ℤ → ℤ
positive_or def none = pos def
positive_or def (some d) = if is_positive d then d else pos def

unfoldable pub duration_from_env : (String → Option ℤ) → String → ℕ → ℤ
unfolding positive_or
duration_from_env parse_duration raw def =
    let v = trim_space raw in if not (is_set v) then pos def else positive_or def (parse_duration v)

env_runs :
    (env_bool " Yes " ≡ true)
    × (allowed_tools_from_env "a, b,,a" ≡ List.◌∷◌ "b" (List.◌∷◌ "a" List.[]))
    × (timeout_from_env "250" ≡ pos 250_000_000)
    × (timeout_from_env "-5" ≡ default_timeout)
    × (domain_from_env "https://acme.pipedrive.com/" ≡ "acme.pipedrive.com")
unfolding env_bool allowed_tools_from_env timeout_from_env atoi domain_from_env trim_space to_lower
    split trim_right_slash trim_prefix
env_runs = (refl, refl, refl, refl, refl)
