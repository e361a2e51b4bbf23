-- ===== src/Prelude/Int.antt =====
-- Signed integers over the native numbers: Go's int and int64, with their values as integers.
use Prim.Native.Nat.{ℕ, suc, ◌/◌, ◌%◌, zero}
use Prim.Native.String.{String, ◌++◌, char_at, [], ◌∷◌}
use mathlib.Core.Path.{◌≡◌, refl, ap}
use mathlib.Core.Bool.{Bool, true, false, false≢true}
use native.Mathlib.Omega.{arith}
use mcp_pipedrive.Prelude.Tests.{ltb, ◌==◌, if◌then◌else◌}

-- `negsuc n` is -(n + 1).
pub data ℤ : Type 0 where
  pos : ℕ → ℤ
  negsuc : ℕ → ℤ

abbrev pub is_zero : ℤ → Bool
is_zero (pos n) = n == 0
is_zero (negsuc n) = false

-- v > 0
abbrev pub is_positive : ℤ → Bool
is_positive (pos n) = ltb 0 n
is_positive (negsuc n) = false

-- v < 0
abbrev pub is_negative : ℤ → Bool
is_negative (pos n) = false
is_negative (negsuc n) = true

-- v > n, for a natural number n
abbrev pub exceeds : ℤ → ℕ → Bool
exceeds (pos n) m = ltb m n
exceeds (negsuc n) m = false

digit : ℕ → String
digit d = char_at "0123456789" d ∷ []

-- the decimal digits of a number with at most `fuel` of them
digits : ℕ → ℕ → String
unfolding digit
digits zero n = []
digits (suc fuel) n =
    let front = digits fuel (n / 10) in if ltb n 10 then digit n else front ++ digit (n % 10)

-- strconv.Itoa and strconv.FormatInt in base 10; an int64 has at most 19 digits.
unfoldable pub format_int : ℤ → String
unfolding digits
format_int (pos n) = digits 20 n
format_int (negsuc n) = "-" ++ digits 20 (suc n)

format_int_runs : (format_int (pos 1205) ≡ "1205") × (format_int (negsuc 9) ≡ "-10")
unfolding format_int
format_int_runs = (refl, refl)

-- v == w
abbrev pub int_eq : ℤ → ℤ → Bool
int_eq (pos m) (pos n) = m == n
int_eq (negsuc m) (negsuc n) = m == n
int_eq _ _ = false

pub int_eq_lem : (v w : ℤ) → int_eq v w ≡ true → v ≡ w
int_eq_lem (pos m) (pos n) e = let same : m ≡ n = ground arith in ap pos same
int_eq_lem (negsuc m) (negsuc n) e = let same : m ≡ n = ground arith in ap negsuc same
int_eq_lem (pos m) (negsuc n) e = absurd (false≢true e)
int_eq_lem (negsuc m) (pos n) e = absurd (false≢true e)
