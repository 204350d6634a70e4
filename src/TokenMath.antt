-- ===== src/TokenMath.antt =====
-- utils/math/token-math.ts: token amounts between two square-root prices, and the price that an
-- amount moves to. All values are BNs; `Percentage` is the pair of a fraction's parts.
pub mod Amounts
pub mod Prices
pub mod Moves
pub mod Slippage
use whirlpools.Prelude.{
  ℕ, Bool, true, false, not, ◌&&◌, eqb, if◌then◌else◌, ℤ, pos, ◌+ℤ◌, ◌-ℤ◌, ◌*ℤ◌, ltb_ℤ, leb_ℤ,
  eqb_ℤ,
}
use whirlpools.Errors.{
  multiplication_overflow, divide_by_zero, token_max_exceeded, token_min_subceeded, math, token,
  Result, ok, err, ◌>>=◌, ◌>>◌, throw_if,
}
use whirlpools.Bn.{div, mod_bn, shln}
use whirlpools.Sdk.{Sdk}
use whirlpools.Constants.{min_sqrt_price, max_sqrt_price}
use whirlpools.BitMath.{
  mul, is_over_limit, div_round_up, div_round_up_if, checked_mul_shift_right_round_up_if,
}

-- Percentage of @orca-so/common-sdk.
pub record Percentage : Type 0 where
  pub numerator : ℤ
  pub denominator : ℤ

abbrev pub to_increasing_price_order : ℤ → ℤ → ℤ × ℤ
to_increasing_price_order sqrt_price0 sqrt_price1 =
    if ltb_ℤ sqrt_price1 sqrt_price0 then (sqrt_price1, sqrt_price0) else (sqrt_price0, sqrt_price1)

unfoldable pub adjust_for_slippage : ℤ → Percentage → Bool → Result ℤ
unfolding ◌+ℤ◌ ◌*ℤ◌
adjust_for_slippage n p true = div (n *ℤ (p.denominator +ℤ p.numerator)) p.denominator
adjust_for_slippage n p false = div (n *ℤ p.denominator) (p.denominator +ℤ p.numerator)

unfoldable pub get_next_sqrt_price_from_a_round_up : ℤ → ℤ → ℤ → Bool → Result ℤ
unfolding is_over_limit ◌+ℤ◌ ◌-ℤ◌
get_next_sqrt_price_from_a_round_up sqrt_price curr_liquidity amount amount_specified_is_input =
    if eqb_ℤ amount (pos 0) then ok sqrt_price else do
      p ← mul sqrt_price amount 256
      product ← mul curr_liquidity sqrt_price 256
      numerator ← shln product 64
      throw_if (is_over_limit numerator 256) (math multiplication_overflow)
      curr_liquidity_shift_left ← shln curr_liquidity 64
      throw_if (not amount_specified_is_input && leb_ℤ curr_liquidity_shift_left p)
          (math divide_by_zero)
      let denominator =
          if amount_specified_is_input
          then curr_liquidity_shift_left +ℤ p
          else curr_liquidity_shift_left -ℤ p
      price ← div_round_up numerator denominator
      throw_if (ltb_ℤ price min_sqrt_price) (token token_min_subceeded)
      throw_if (ltb_ℤ max_sqrt_price price) (token token_max_exceeded)
      ok price

unfoldable pub get_next_sqrt_price_from_b_round_down : ℤ → ℤ → ℤ → Bool → Result ℤ
unfolding ◌+ℤ◌ ◌-ℤ◌
get_next_sqrt_price_from_b_round_down sqrt_price curr_liquidity amount amount_specified_is_input =
    do
      amount_x64 ← shln amount 64
      delta ← div_round_up_if amount_x64 curr_liquidity (not amount_specified_is_input)
      ok (if amount_specified_is_input then sqrt_price +ℤ delta else sqrt_price -ℤ delta)

unfoldable pub get_next_sqrt_price : ℤ → ℤ → ℤ → Bool → Bool → Result ℤ
get_next_sqrt_price sqrt_price curr_liquidity amount amount_specified_is_input a_to_b =
    if eqb amount_specified_is_input a_to_b
    then get_next_sqrt_price_from_a_round_up sqrt_price curr_liquidity amount
        amount_specified_is_input
    else get_next_sqrt_price_from_b_round_down sqrt_price curr_liquidity amount
        amount_specified_is_input

module _ (sdk : Sdk) where
  unfoldable pub get_amount_delta_a : ℤ → ℤ → ℤ → Bool → Result ℤ
  unfolding ◌+ℤ◌ ◌-ℤ◌ ◌*ℤ◌
  get_amount_delta_a curr_sqrt_price target_sqrt_price curr_liquidity round_up = do
    let (sqrt_price_lower, sqrt_price_upper) =
        to_increasing_price_order curr_sqrt_price target_sqrt_price
    let sqrt_price_diff = sqrt_price_upper -ℤ sqrt_price_lower
    numerator ← shln (curr_liquidity *ℤ sqrt_price_diff) 64
    let denominator = sqrt_price_lower *ℤ sqrt_price_upper
    quotient ← div numerator denominator
    remainder ← mod_bn numerator denominator
    let result = if round_up && not (eqb_ℤ remainder (pos 0)) then quotient +ℤ pos 1 else quotient
    throw_if (ltb_ℤ sdk.u64_max result) (token token_max_exceeded)
    ok result

  unfoldable pub get_amount_delta_b : ℤ → ℤ → ℤ → Bool → Result ℤ
  unfolding ◌-ℤ◌
  get_amount_delta_b curr_sqrt_price target_sqrt_price curr_liquidity round_up =
      let (sqrt_price_lower, sqrt_price_upper) =
        to_increasing_price_order curr_sqrt_price target_sqrt_price in
      let sqrt_price_diff = sqrt_price_upper -ℤ sqrt_price_lower in
      checked_mul_shift_right_round_up_if sdk curr_liquidity sqrt_price_diff round_up 128
