-- ===== src/Config/Laws.antt =====
-- What the settings are, whatever the environment holds.
use Prim.Native.String.{[], ◌∷◌, ◌++◌}
use Prim.Native.Char.{code, Char}
use mathlib.Core.List
use mathlib.Core.List.{List}
use mcp_pipedrive.Config.{Config, ttls_from_env, base_url}
use mcp_pipedrive.Config.Env.{
  add_name, add_tools, allowed_tools_from_env, atoi, default_timeout, duration_from_env,
  timeout_from_env, default_domain, timeout_of, wrap_int64,
}
use mcp_pipedrive.Prelude.{
  Bool, Bool-cases, Option, String, any, arith, false, if◌then◌else◌, inl, inr, none, refl, some,
  suc, true, ℕ, ◌&&◌, ◌*◌, ◌<◌, ◌||◌, ◌≡◌, ◌≤◌, ap, zero, ◌==◌, ◌^◌, ◌∙◌,
}
use mcp_pipedrive.Prelude.Int.{is_negative, is_positive, negsuc, pos, ℤ}
use mcp_pipedrive.Prelude.Text.{
  is_set, split, str_eq, trim_space, trim_right_func, trim_right_slash,
}
use text.Mathlib.TextEquality.{eq_iff}
use mathlib.Core.Bool.{false≢true}

any-add_name :
    (t name : String) (names : List String)
    → any (str_eq t) (add_name name names) ≡ (str_eq t name || any (str_eq t) names)
unfolding add_name
any-add_name t name names = elim (Bool-cases (any (str_eq name) names)) [
  | inl old ↦ rw old (elim (Bool-cases (str_eq t name)) [
    | inl same ↦ rw same (rw ((eq_iff t name).0 same) old)
    | inr other ↦ rw other refl
  ])
  | inr new ↦ rw new refl
]

any-add_tools :
    (t : String) (names ts : List String)
    → any (str_eq t) (add_tools names ts)
      ≡ (any (str_eq t) names || is_set t && any (str_eq t) (List.map trim_space ts))
unfolding add_tools
any-add_tools t names List.[] = ground arith
any-add_tools t names (List.◌∷◌ x ts) =
    let name = trim_space x in
    let names' = if is_set name then add_name name names else names in
    ground (arith, any-add_tools t names' ts, any-add_name t name names, eq_iff t name)

-- A name is in the allowlist exactly if it is not empty and is one of the comma-separated pieces
-- of PIPEDRIVE_ALLOWED_TOOLS, each with the spaces around it taken off.
pub allowed_tools_from_env_lem :
    (raw t : String)
    → any (str_eq t) (allowed_tools_from_env raw) ≡ (
        is_set (trim_space raw)
        && (is_set t && any (str_eq t) (List.map trim_space (split b',' "" (trim_space raw)))))
unfolding allowed_tools_from_env
allowed_tools_from_env_lem raw t =
    ground (arith, any-add_tools t List.[] (split b',' "" (trim_space raw)))

duration_positive :
    (parse : String → Option ℤ) (raw : String) (n : ℕ)
    → is_positive (duration_from_env parse raw (suc n)) ≡ true
unfolding duration_from_env
duration_positive parse raw n = ground arith

-- Every time-to-live is positive, whatever the variables hold.
ttls_from_env_positive :
    (getenv : String → String) (parse : String → Option ℤ)
    → let t = ttls_from_env getenv parse in
      (is_positive t.metadata ≡ true)
      × (is_positive t.deal ≡ true)
      × (is_positive t.person ≡ true)
      × (is_positive t.organization ≡ true)
      × (is_positive t.activity ≡ true)
      × (is_positive t.product ≡ true)
      × (is_positive t.follower ≡ true)
      × (is_positive t.list ≡ true)
      × (is_positive t.search_results ≡ true)
      × (is_positive t.stale ≡ true)
      × (is_positive t.mail_list ≡ true)
      × (is_positive t.mail_message ≡ true)
unfolding ttls_from_env
ttls_from_env_positive getenv parse = (
  duration_positive parse _ _,
  duration_positive parse _ _,
  duration_positive parse _ _,
  duration_positive parse _ _,
  duration_positive parse _ _,
  duration_positive parse _ _,
  duration_positive parse _ _,
  duration_positive parse _ _,
  duration_positive parse _ _,
  duration_positive parse _ _,
  duration_positive parse _ _,
  duration_positive parse _ _,
)

wrap_small : (n : ℕ) → n < 2 ^ 63 → wrap_int64 n ≡ pos n
unfolding wrap_int64
wrap_small n h = ground arith

wrap_large : (n : ℕ) → 2 ^ 63 ≤ n → n < 2 ^ 64 → is_negative (wrap_int64 n) ≡ true
unfolding wrap_int64
wrap_large n h k = ground arith

atoi_set : (s : String) (n : ℤ) → atoi s ≡ some n → is_set s ≡ true
unfolding atoi
atoi_set [] n h = cc
atoi_set (c ∷ s) n h = refl

timeout_of-atoi :
    (raw : String) (n : ℤ)
    → atoi (trim_space raw) ≡ some n
    → timeout_from_env raw ≡ timeout_of (some n)
unfolding timeout_from_env
timeout_of-atoi raw n h = rw (atoi_set (trim_space raw) n h, h)

timeout_in_range :
    (ms : ℕ) → 0 < ms → ms ≤ 9_223_372_036_854 → timeout_of (some (pos ms)) ≡ pos (ms * 1_000_000)
timeout_in_range zero p h = elim p [ ]
timeout_in_range (suc ms) p h = unfold timeout_of in ground (arith, wrap_small (suc ms * 1_000_000))

timeout_wraps :
    (ms : ℕ)
    → 9_223_372_036_854 < ms
    → ms ≤ 18_446_744_073_709
    → is_negative (timeout_of (some (pos ms))) ≡ true
timeout_wraps zero p h = elim p [ ]
timeout_wraps (suc ms) p h = unfold timeout_of in ground (arith, wrap_large (suc ms * 1_000_000))

timeout_from_env_cases :
    (raw : String) (ms : ℕ)
    → (atoi (trim_space raw) ≡ none → timeout_from_env raw ≡ default_timeout)
      × (atoi (trim_space raw) ≡ some (pos 0) → timeout_from_env raw ≡ default_timeout)
      × (atoi (trim_space raw) ≡ some (negsuc ms) → timeout_from_env raw ≡ default_timeout)
      × (atoi (trim_space raw) ≡ some (pos ms)
          → 0 < ms
          → ms ≤ 9_223_372_036_854
          → timeout_from_env raw ≡ pos (ms * 1_000_000))
      × (atoi (trim_space raw) ≡ some (pos ms)
          → 9_223_372_036_854 < ms
          → ms ≤ 18_446_744_073_709
          → is_negative (timeout_from_env raw) ≡ true)
unfolding timeout_of
timeout_from_env_cases raw ms = (
  λ h. unfold timeout_from_env in ground (arith, h),
  λ h. timeout_of-atoi raw (pos 0) h,
  λ h. timeout_of-atoi raw (negsuc ms) h,
  λ h p q. timeout_of-atoi raw (pos ms) h ∙ timeout_in_range ms p q,
  λ h p q. ap is_negative (timeout_of-atoi raw (pos ms) h) ∙ timeout_wraps ms p q,
)

-- A PIPEDRIVE_TIMEOUT_MS that is a positive number of milliseconds, up to 9223372036854, is the
-- timeout.
pub timeout_from_env-milliseconds :
    (raw : String) (ms : ℕ)
    → atoi (trim_space raw) ≡ some (pos ms)
    → 0 < ms
    → ms ≤ 9_223_372_036_854
    → timeout_from_env raw ≡ pos (ms * 1_000_000)
timeout_from_env-milliseconds raw ms = (timeout_from_env_cases raw ms).3

-- A PIPEDRIVE_TIMEOUT_MS above 9223372036854 and up to 18446744073709 gives a negative timeout: the
-- product with the nanoseconds of a millisecond wraps around.
pub timeout_from_env-overflow :
    (raw : String) (ms : ℕ)
    → atoi (trim_space raw) ≡ some (pos ms)
    → 9_223_372_036_854 < ms
    → ms ≤ 18_446_744_073_709
    → is_negative (timeout_from_env raw) ≡ true
timeout_from_env-overflow raw ms = (timeout_from_env_cases raw ms).4

-- the last character of a text, if any, fails the test
abbrev pub LastNot : (ℕ → Bool) → String → Type 0
LastNot p [] = Unit
LastNot p (c ∷ []) = p (code c) ≡ false
LastNot p (c ∷ d ∷ s) = LastNot p (d ∷ s)

LastNot-cons :
    (p : ℕ → Bool) (c : Char) (s : String) → is_set s ≡ true → LastNot p s → LastNot p (c ∷ s)
LastNot-cons p c [] h k = absurd (false≢true h)
LastNot-cons p c (d ∷ s) h k = k

trim_right-LastNot : (p : ℕ → Bool) (s : String) → LastNot p (trim_right_func p s)
unfolding trim_right_func
trim_right-LastNot p [] = tt
trim_right-LastNot p (c ∷ s) = elim (Bool-cases (p (code c))) [
  | inl cut ↦ rw cut (elim (Bool-cases (is_set (trim_right_func p s))) [
    | inl more ↦ rw more (LastNot-cons p c _ more (trim_right-LastNot p s))
    | inr none_left ↦ rw none_left tt
  ])
  | inr other ↦ rw other (kept c (trim_right_func p s) other (trim_right-LastNot p s))
]
  where
    kept : (c : Char) (r : String) → p (code c) ≡ false → LastNot p r → LastNot p (c ∷ r)
    kept c [] h k = h
    kept c (d ∷ r) h k = k

abbrev pub is_slash : ℕ → Bool
is_slash c = c == b'/'

-- The base URL is https:// and a host that is not empty and does not end in a slash.
base_url_lem :
    (c : Config)
    → (host : String) × (base_url c ≡ "https://" ++ host)
      × (is_set host ≡ true)
      × LastNot is_slash host
unfolding base_url trim_right_slash
base_url_lem c = elim (Bool-cases (is_set (trim_right_func is_slash c.domain))) [
  | inl given ↦
      (trim_right_func is_slash c.domain, rw given, given, trim_right-LastNot is_slash c.domain)
  | inr blank ↦ (default_domain, rw blank, refl, refl)
]
