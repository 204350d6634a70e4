-- ===== src/BitMath.antt =====
-- utils/math/bit-math.ts: multiplication with an overflow limit, and rounding division.
-- U64_MAX of @orca-so/common-sdk is the parameter `sdk.u64_max`, and `MathUtil.fromX64_BN` the
-- parameter `sdk.from_x64_bn` (module Sdk).
pub mod Bounds
use whirlpools.Prelude.{
  ℕ, ◌-◌, ◌^◌, Bool, true, false, ◌&&◌, ◌||◌, if◌then◌else◌, ℤ, pos, ◌+ℤ◌, ◌*ℤ◌, ltb_ℤ, eqb_ℤ,
}
use whirlpools.Errors.{
  multiplication_overflow, multiplication_shift_right_overflow, divide_by_zero, math, Result, ok,
  err, ◌>>=◌, ◌>>◌, throw_if,
}
use whirlpools.Bn.{div, mod_bn, and_bn, is_zero}
use whirlpools.Sdk.{Sdk}

unfoldable pub is_over_limit : ℤ → ℕ → Bool
is_over_limit n0 limit = ltb_ℤ (pos (2 ^ limit - 1)) n0

unfoldable pub mul : ℤ → ℤ → ℕ → Result ℤ
unfolding is_over_limit ◌*ℤ◌
mul n0 n1 limit = do
  let result = n0 *ℤ n1
  throw_if (is_over_limit result limit) (math multiplication_overflow)
  ok result

unfoldable pub mul_div_round_up_if : ℤ → ℤ → ℤ → Bool → ℕ → Result ℤ
unfolding mul ◌+ℤ◌
mul_div_round_up_if n0 n1 d round_up limit = do
  throw_if (eqb_ℤ d (pos 0)) (math divide_by_zero)
  p ← mul n0 n1 limit
  n ← div p d
  r ← mod_bn p d
  ok (if round_up && ltb_ℤ (pos 0) r then n +ℤ pos 1 else n)

unfoldable pub mul_div : ℤ → ℤ → ℤ → ℕ → Result ℤ
mul_div n0 n1 d limit = mul_div_round_up_if n0 n1 d false limit

unfoldable pub mul_div_round_up : ℤ → ℤ → ℤ → ℕ → Result ℤ
mul_div_round_up n0 n1 d limit = mul_div_round_up_if n0 n1 d true limit

unfoldable pub div_round_up_if : ℤ → ℤ → Bool → Result ℤ
unfolding ◌+ℤ◌
div_round_up_if n d round_up = do
  throw_if (eqb_ℤ d (pos 0)) (math divide_by_zero)
  q ← div n d
  r ← mod_bn n d
  ok (if round_up && ltb_ℤ (pos 0) r then q +ℤ pos 1 else q)

unfoldable pub div_round_up : ℤ → ℤ → Result ℤ
div_round_up n d = div_round_up_if n d true

module _ (sdk : Sdk) where
  -- The `and` of a positive result is evaluated only where it is rounded up.
  unfoldable pub should_round_up : Bool → ℤ → Result Bool
  should_round_up true result = do low ← and_bn result (sdk.u64_max); ok (ltb_ℤ (pos 0) low)
  should_round_up false result = ok false

  unfoldable pub checked_mul_shift_right_round_up_if : ℤ → ℤ → Bool → ℕ → Result ℤ
  unfolding mul ◌+ℤ◌
  checked_mul_shift_right_round_up_if n0 n1 round_up limit =
      if eqb_ℤ n0 (pos 0) || eqb_ℤ n1 (pos 0) then ok (pos 0) else do
        p ← mul n0 n1 limit
        throw_if (is_over_limit p limit) (math multiplication_shift_right_overflow)
        result ← sdk.from_x64_bn p
        should_round ← should_round_up round_up result
        throw_if (should_round && eqb_ℤ result (sdk.u64_max)) (math multiplication_overflow)
        ok (if should_round then result +ℤ pos 1 else result)

  unfoldable pub checked_mul_shift_right : ℤ → ℤ → ℕ → Result ℤ
  unfolding checked_mul_shift_right_round_up_if
  checked_mul_shift_right n0 n1 limit = checked_mul_shift_right_round_up_if n0 n1 false limit
