-- ===== src/Float64.antt =====
-- Go's float64 where the tools use it: decoded JSON numbers, their zero test, and the conversions
-- with int64. A value is ± mantissa * 2 ^ up / 2 ^ down; NaN and the infinities are no JSON numbers.
use mcp_pipedrive.Prelude.Int.{ℤ, pos, negsuc}
use mcp_pipedrive.Prelude.{
  Bool, false, if◌then◌else◌, leb, ltb, refl, suc, true, zero, ℕ, ◌%◌, ◌*◌, ◌+◌, ◌-◌, ◌/◌, ◌==◌,
  ◌^◌, ◌≡◌, not, ◌&&◌,
}

pub record Float64 : Type 0 where
  pub negative : Bool
  pub mantissa : ℕ
  pub up : ℕ
  pub down : ℕ

-- the constant 0
abbrev pub zero_float : Float64
zero_float = record { negative = false; mantissa = 0; up = 0; down = 0 }

-- t == 0
abbrev pub float_is_zero : Float64 → Bool
float_is_zero t = t.mantissa == 0

-- t > 0
abbrev pub float_is_positive : Float64 → Bool
float_is_positive t = not t.negative && not (float_is_zero t)

-- -n
abbrev negate : ℕ → ℤ
negate zero = pos 0
negate (suc n) = negsuc n

abbrev min_int64 : ℤ
min_int64 = negsuc (2 ^ 63 - 1)

-- int64(t): truncation towards zero; out of range the amd64 conversion gives the least int64.
unfoldable pub int64_of_float : Float64 → ℤ
int64_of_float t =
    let n = t.mantissa * 2 ^ t.up / 2 ^ t.down in
    if t.negative
    then (if leb n (2 ^ 63) then negate n else min_int64)
    else if ltb n (2 ^ 63)
    then pos n
    else min_int64

-- n / 2 ^ k rounded to the nearest, ties to even
round_even : ℕ → ℕ → ℕ
round_even n k =
    let q = n / 2 ^ k in
    let r = n % 2 ^ k * 2 in if ltb r (2 ^ k) then q else if ltb (2 ^ k) r then q + 1 else q + q % 2

-- the bits of n past the 53 of a mantissa, for an n below 2 ^ 64
excess_bits : ℕ → ℕ → ℕ → ℕ
excess_bits zero k n = k
excess_bits (suc rounds) k n =
    let more = excess_bits rounds (k + 1) n in if ltb n (2 ^ (53 + k)) then k else more

magnitude : Bool → ℕ → Float64
unfolding round_even excess_bits
magnitude sign n =
    let k = excess_bits 11 0 n in
    record { negative = sign; mantissa = round_even n k; up = k; down = 0 }

-- float64(n) for an int64
unfoldable pub float_of_int64 : ℤ → Float64
unfolding magnitude
float_of_int64 (pos n) = magnitude false n
float_of_int64 (negsuc n) = magnitude true (suc n)

float_runs :
    (int64_of_float (record { negative = true; mantissa = 7; up = 0; down = 1 }) ≡ negsuc 2)
    × ((float_of_int64 (pos (2 ^ 53 + 1))).mantissa ≡ 2 ^ 52)
unfolding int64_of_float float_of_int64
float_runs = (refl, refl)
