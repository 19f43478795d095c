-- ===== src/Base/Words.antt =====
-- Go's fixed-size integers as bit patterns: an `int32` (`StateFrame`) is a number below 2 ^ 32, an
-- `int64`, `uint64` or `int` (64 bits) one below 2 ^ 64, and a signed value's pattern is its value
-- modulo that power. The operations are shut; the lemmas say when they do not wrap.
use pnf.Base.Tests.{ltb, leb, if◌then◌else◌}
use Prim.Native.Nat.{ℕ, ◌+◌, ◌-◌, ◌*◌, ◌/◌, ◌%◌, ◌^◌, ◌≤◌, ◌<◌}
use mathlib.Core.Path.{◌≡◌, refl}
use mathlib.Core.Bool.{Bool, true, false, not}
use native.Mathlib.Omega.{arith}
use native.Mathlib.Nat.{mod-eq_of_lt}

-- the `int32` and `int64` value -1
abbrev pub minus_one32 : ℕ
minus_one32 = 2 ^ 32 - 1

abbrev pub minus_one64 : ℕ
minus_one64 = 2 ^ 64 - 1

unfoldable pub add32 : ℕ → ℕ → ℕ
add32 a b = (a + b) % 2 ^ 32

unfoldable pub sub32 : ℕ → ℕ → ℕ
sub32 a b = (a + 2 ^ 32 - b) % 2 ^ 32

-- `a < b` on signed patterns: adding half the modulus orders them as numbers.
unfoldable pub lt32 : ℕ → ℕ → Bool
lt32 a b = ltb ((a + 2 ^ 31) % 2 ^ 32) ((b + 2 ^ 31) % 2 ^ 32)

abbrev pub le32 : ℕ → ℕ → Bool
le32 a b = not (lt32 b a)

unfoldable pub add64 : ℕ → ℕ → ℕ
add64 a b = (a + b) % 2 ^ 64

unfoldable pub mul64 : ℕ → ℕ → ℕ
mul64 a b = a * b % 2 ^ 64

unfoldable pub sub64 : ℕ → ℕ → ℕ
sub64 a b = (a + 2 ^ 64 - b) % 2 ^ 64

unfoldable pub lt64 : ℕ → ℕ → Bool
lt64 a b = ltb ((a + 2 ^ 63) % 2 ^ 64) ((b + 2 ^ 63) % 2 ^ 64)

abbrev pub le64 : ℕ → ℕ → Bool
le64 a b = not (lt64 b a)

-- `int(x)` of an `int32`, and `StateFrame(x)` of an `int` or `int64`
unfoldable pub extend : ℕ → ℕ
extend a = if ltb a (2 ^ 31) then a else a + (2 ^ 64 - 2 ^ 32)

unfoldable pub truncate : ℕ → ℕ
truncate a = a % 2 ^ 32

-- Go's `a / b` and `a % b` round towards zero; `b` is not zero.
abbrev pub is_negative : ℕ → Bool
is_negative a = leb (2 ^ 63) a

abbrev pub negate : ℕ → ℕ
negate a = (2 ^ 64 - a) % 2 ^ 64

abbrev pub magnitude : ℕ → ℕ
magnitude a = if is_negative a then negate a else a

unfoldable pub div64 : ℕ → ℕ → ℕ
div64 a b =
    let q = magnitude a / magnitude b in
    if is_negative a
    then (if is_negative b then q % 2 ^ 64 else negate q)
    else (if is_negative b then negate q else q)

unfoldable pub rem64 : ℕ → ℕ → ℕ
rem64 a b = let r = magnitude a % magnitude b in if is_negative a then negate r else r

pub add32_lem : (a b : ℕ) → a + b < 2 ^ 32 → add32 a b ≡ a + b
unfolding add32
add32_lem a b h = omega arith

pub sub32_lem : (a b : ℕ) → b ≤ a → a < 2 ^ 32 → sub32 a b ≡ a - b
unfolding sub32
sub32_lem a b h k = omega arith

pub lt32_lem : (a b : ℕ) → a < 2 ^ 31 → b < 2 ^ 31 → lt32 a b ≡ ltb a b
unfolding lt32
lt32_lem a b h k = ground arith

-- a number that is not negative
pub lt32_zero : (a : ℕ) → a < 2 ^ 32 → lt32 a 0 ≡ false → a < 2 ^ 31
unfolding lt32
lt32_zero a h e = ground arith

-- a negative one
pub lt32_negative : (a : ℕ) → lt32 a 0 ≡ true → a < 2 ^ 32 → 2 ^ 31 ≤ a
unfolding lt32
lt32_negative a e h = ground arith

pub lt32-minus_one : (a : ℕ) → a < 2 ^ 31 → lt32 a minus_one32 ≡ false
unfolding lt32
lt32-minus_one a h = ground arith

pub add64_lem : (a b : ℕ) → a + b < 2 ^ 64 → add64 a b ≡ a + b
unfolding add64
add64_lem a b h = omega arith

pub mul64_lem : (a b : ℕ) → a * b < 2 ^ 64 → mul64 a b ≡ a * b
unfolding mul64
mul64_lem a b h = mod-eq_of_lt h

pub lt64_lem : (a b : ℕ) → a < 2 ^ 63 → b < 2 ^ 63 → lt64 a b ≡ ltb a b
unfolding lt64
lt64_lem a b h k = ground arith

-- -1 is below every natural number.
pub lt64-of_minus_one : (a : ℕ) → a < 2 ^ 63 → lt64 minus_one64 a ≡ true
unfolding lt64
lt64-of_minus_one a h = ground arith

pub extend_lem : (a : ℕ) → a < 2 ^ 31 → extend a ≡ a
unfolding extend
extend_lem a h = ground arith

pub truncate_lem : (a : ℕ) → a < 2 ^ 32 → truncate a ≡ a
unfolding truncate
truncate_lem a h = omega arith

pub div64_lem : (a b : ℕ) → a < 2 ^ 63 → b < 2 ^ 63 → div64 a b ≡ a / b
unfolding div64
div64_lem a b h k = ground arith

pub rem64_lem : (a b : ℕ) → a < 2 ^ 63 → b < 2 ^ 63 → rem64 a b ≡ a % b
unfolding rem64
rem64_lem a b h k = ground arith

words :
    (sub32 3 5 ≡ 2 ^ 32 - 2)
    × (lt32 minus_one32 0 ≡ true)
    × (extend minus_one32 ≡ minus_one64)
    × (div64 (2 ^ 64 - 7) 2 ≡ 2 ^ 64 - 3)
    × (rem64 (2 ^ 64 - 7) 2 ≡ minus_one64)
    × (rem64 7 (2 ^ 64 - 2) ≡ 1)
unfolding sub32 lt32 extend div64 rem64
words = (refl, refl, refl, refl, refl, refl)
