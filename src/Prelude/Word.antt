-- ===== src/Prelude/Word.antt =====
-- Go's 64-bit integers as bit patterns below 2 ^ 64: `int`, `int64` and `time.Duration` are read as
-- two's complement, `uint64` as the pattern itself.
use Prim.Native.Nat.{ℕ, ◌+◌, ◌-◌, ◌*◌, ◌%◌, ◌<◌}
use mathlib.Core.Path.{◌≡◌}
use mathlib.Core.Bool.{Bool}
use native.Mathlib.Omega.{arith}
use vxapigateway.Prelude.Tests.{ltb, leb, if◌then◌else◌}

-- 2 ^ 64
abbrev pub modulus : ℕ
modulus = 18446744073709551616

-- 2 ^ 63, the pattern of the least `int64`
abbrev pub half_modulus : ℕ
half_modulus = 9223372036854775808

abbrev pub max_int64 : ℕ
max_int64 = 9223372036854775807

abbrev pub add64 : ℕ → ℕ → ℕ
add64 a b = (a + b) % modulus

-- `a - 1`
abbrev pub dec64 : ℕ → ℕ
dec64 a = (a + 18446744073709551615) % modulus

abbrev pub mul64 : ℕ → ℕ → ℕ
mul64 a b = (a * b) % modulus

abbrev pub is_negative : ℕ → Bool
is_negative a = leb half_modulus a

-- Signed `a < b`.
abbrev pub slt : ℕ → ℕ → Bool
slt a b = ltb ((a + half_modulus) % modulus) ((b + half_modulus) % modulus)

-- The absolute value, as a number.
abbrev pub magnitude : ℕ → ℕ
magnitude a = if is_negative a then modulus - a else a

-- The time that is a duration, a pattern, behind another time. No time is before 0.
abbrev pub add_duration : ℕ → ℕ → ℕ
add_duration now d = if is_negative d then now - magnitude d else now + d

-- Signed `a % b`: the remainder takes the sign of `a`.
abbrev pub srem : ℕ → ℕ → ℕ
srem a b =
    if is_negative a then (modulus - magnitude a % magnitude b) % modulus else a % magnitude b

pub slt_of_small : (a b : ℕ) → a < half_modulus → b < half_modulus → slt a b ≡ ltb a b
slt_of_small a b h k = ground arith

pub srem_of_small : (a b : ℕ) → a < half_modulus → b < half_modulus → srem a b ≡ a % b
srem_of_small a b h k = ground arith
