-- ===== src/PositionUtil.antt =====
-- utils/position-util.ts and utils/swap-utils.ts: the amounts of a position, and the price after a
-- trade, with the rounding of @orca-so/common-sdk.
pub mod Deposits
use whirlpools.Prelude.{◌-◌, Bool, true, false, if◌then◌else◌, ℤ, ◌+ℤ◌, ◌-ℤ◌, ◌*ℤ◌, ltb_ℤ, leb_ℤ}
use whirlpools.Errors.{Result, ok, ◌>>=◌}
use whirlpools.Bn.{div, shln, shrn}
use whirlpools.Sdk.{Sdk}
use whirlpools.PriceMath.{tick_index_to_sqrt_price_x64}
use whirlpools.TokenMath.{Percentage}

pub data SwapDirection : Type 0 where
  a_to_b b_to_a : SwapDirection

pub data AmountSpecified : Type 0 where
  input output : AmountSpecified

pub data PositionStatus : Type 0 where
  below_range in_range above_range : PositionStatus

abbrev pub get_position_status : ℤ → ℤ → ℤ → PositionStatus
get_position_status tick_current_index tick_lower_index tick_upper_index =
    if ltb_ℤ tick_current_index tick_lower_index
    then below_range
    else if ltb_ℤ tick_current_index tick_upper_index
    then in_range
    else above_range

-- The choice of `getStrictPositionStatus`, between two prices.
abbrev pub strict_status : ℤ → ℤ → ℤ → PositionStatus
strict_status sqrt_price_x64 sqrt_price_lower_x64 sqrt_price_upper_x64 =
    if leb_ℤ sqrt_price_x64 sqrt_price_lower_x64
    then below_range
    else if leb_ℤ sqrt_price_upper_x64 sqrt_price_x64
    then above_range
    else in_range

unfoldable pub get_strict_position_status : ℤ → ℤ → ℤ → Result PositionStatus
get_strict_position_status sqrt_price_x64 tick_lower_index tick_upper_index = do
  sqrt_price_lower_x64 ← tick_index_to_sqrt_price_x64 tick_lower_index
  sqrt_price_upper_x64 ← tick_index_to_sqrt_price_x64 tick_upper_index
  ok (strict_status sqrt_price_x64 sqrt_price_lower_x64 sqrt_price_upper_x64)

unfoldable pub adjust_for_slippage : ℤ → Percentage → Bool → Result ℤ
unfolding ◌+ℤ◌ ◌*ℤ◌
adjust_for_slippage n p true = div (n *ℤ (p.denominator +ℤ p.numerator)) p.denominator
adjust_for_slippage n p false = div (n *ℤ p.denominator) (p.denominator +ℤ p.numerator)

unfoldable pub adjust_amount_for_slippage : ℤ → ℤ → Percentage → AmountSpecified → Result ℤ
unfolding ◌+ℤ◌ ◌*ℤ◌
adjust_amount_for_slippage amount_in amount_out p input =
    div (amount_out *ℤ p.denominator) (p.denominator +ℤ p.numerator)
adjust_amount_for_slippage amount_in amount_out p output =
    div (amount_in *ℤ (p.denominator +ℤ p.numerator)) p.denominator

abbrev pub order_sqrt_price : ℤ → ℤ → ℤ × ℤ
order_sqrt_price sqrt_price0_x64 sqrt_price1_x64 =
    if ltb_ℤ sqrt_price0_x64 sqrt_price1_x64
    then (sqrt_price0_x64, sqrt_price1_x64)
    else (sqrt_price1_x64, sqrt_price0_x64)

abbrev pub is_input : AmountSpecified → Bool
is_input input = true
is_input output = false

abbrev pub is_output : AmountSpecified → Bool
is_output input = false
is_output output = true

-- `(amountSpecified == Input) == (swapDirection == AtoB)`
abbrev pub fixes_token_a : AmountSpecified → SwapDirection → Bool
fixes_token_a input a_to_b = true
fixes_token_a input b_to_a = false
fixes_token_a output a_to_b = false
fixes_token_a output b_to_a = true

module _ (sdk : Sdk) where
  unfoldable pub get_lower_sqrt_price_from_token_a : ℤ → ℤ → ℤ → Result ℤ
  unfolding ◌+ℤ◌ ◌*ℤ◌
  get_lower_sqrt_price_from_token_a amount liquidity sqrt_price_x64 = do
    numerator ← shln (liquidity *ℤ sqrt_price_x64) 64
    shifted ← shln liquidity 64
    sdk.div_round_up numerator (shifted +ℤ amount *ℤ sqrt_price_x64)

  unfoldable pub get_upper_sqrt_price_from_token_a : ℤ → ℤ → ℤ → Result ℤ
  unfolding ◌-ℤ◌ ◌*ℤ◌
  get_upper_sqrt_price_from_token_a amount liquidity sqrt_price_x64 = do
    numerator ← shln (liquidity *ℤ sqrt_price_x64) 64
    shifted ← shln liquidity 64
    sdk.div_round_up numerator (shifted -ℤ amount *ℤ sqrt_price_x64)

  unfoldable pub get_lower_sqrt_price_from_token_b : ℤ → ℤ → ℤ → Result ℤ
  unfolding ◌-ℤ◌
  get_lower_sqrt_price_from_token_b amount liquidity sqrt_price_x64 = do
    shifted ← shln amount 64
    delta ← sdk.div_round_up shifted liquidity
    ok (sqrt_price_x64 -ℤ delta)

  unfoldable pub get_upper_sqrt_price_from_token_b : ℤ → ℤ → ℤ → Result ℤ
  unfolding ◌+ℤ◌
  get_upper_sqrt_price_from_token_b amount liquidity sqrt_price_x64 = do
    shifted ← shln amount 64
    delta ← div shifted liquidity
    ok (sqrt_price_x64 +ℤ delta)

  unfoldable pub get_liquidity_from_token_a : ℤ → ℤ → ℤ → Bool → Result ℤ
  unfolding ◌-ℤ◌ ◌*ℤ◌
  get_liquidity_from_token_a amount sqrt_price_lower_x64 sqrt_price_upper_x64 round_up = do
    result ←
        div (amount *ℤ sqrt_price_lower_x64 *ℤ sqrt_price_upper_x64)
          (sqrt_price_upper_x64 -ℤ sqrt_price_lower_x64)
    if round_up then sdk.shift_right_round_up result else shrn result 64

  unfoldable pub get_liquidity_from_token_b : ℤ → ℤ → ℤ → Bool → Result ℤ
  unfolding ◌-ℤ◌
  get_liquidity_from_token_b amount sqrt_price_lower_x64 sqrt_price_upper_x64 round_up = do
    numerator ← shln amount 64
    let denominator = sqrt_price_upper_x64 -ℤ sqrt_price_lower_x64
    if round_up then sdk.div_round_up numerator denominator else div numerator denominator

  unfoldable pub get_token_a_from_liquidity : ℤ → ℤ → ℤ → Bool → Result ℤ
  unfolding ◌-ℤ◌ ◌*ℤ◌
  get_token_a_from_liquidity liquidity sqrt_price0_x64 sqrt_price1_x64 round_up = do
    let (sqrt_price_lower_x64, sqrt_price_upper_x64) =
        order_sqrt_price sqrt_price0_x64 sqrt_price1_x64
    numerator ← shln (liquidity *ℤ (sqrt_price_upper_x64 -ℤ sqrt_price_lower_x64)) 64
    let denominator = sqrt_price_upper_x64 *ℤ sqrt_price_lower_x64
    if round_up then sdk.div_round_up numerator denominator else div numerator denominator

  unfoldable pub get_token_b_from_liquidity : ℤ → ℤ → ℤ → Bool → Result ℤ
  unfolding ◌-ℤ◌ ◌*ℤ◌
  get_token_b_from_liquidity liquidity sqrt_price0_x64 sqrt_price1_x64 round_up =
      let (sqrt_price_lower_x64, sqrt_price_upper_x64) =
        order_sqrt_price sqrt_price0_x64 sqrt_price1_x64 in
      let result = liquidity *ℤ (sqrt_price_upper_x64 -ℤ sqrt_price_lower_x64) in
      if round_up then sdk.shift_right_round_up result else shrn result 64

  unfoldable pub get_amount_fixed_delta : ℤ → ℤ → ℤ → AmountSpecified → SwapDirection → Result ℤ
  get_amount_fixed_delta current_sqrt_price_x64 target_sqrt_price_x64 liquidity specified
        direction =
      if fixes_token_a specified direction
      then get_token_a_from_liquidity liquidity current_sqrt_price_x64 target_sqrt_price_x64
          (is_input specified)
      else get_token_b_from_liquidity liquidity current_sqrt_price_x64 target_sqrt_price_x64
          (is_input specified)

  unfoldable pub get_amount_unfixed_delta : ℤ → ℤ → ℤ → AmountSpecified → SwapDirection → Result ℤ
  get_amount_unfixed_delta current_sqrt_price_x64 target_sqrt_price_x64 liquidity specified
        direction =
      if fixes_token_a specified direction
      then get_token_b_from_liquidity liquidity current_sqrt_price_x64 target_sqrt_price_x64
          (is_output specified)
      else get_token_a_from_liquidity liquidity current_sqrt_price_x64 target_sqrt_price_x64
          (is_output specified)

  unfoldable pub get_next_sqrt_price : ℤ → ℤ → ℤ → AmountSpecified → SwapDirection → Result ℤ
  get_next_sqrt_price sqrt_price_x64 liquidity amount input a_to_b =
      get_lower_sqrt_price_from_token_a amount liquidity sqrt_price_x64
  get_next_sqrt_price sqrt_price_x64 liquidity amount output b_to_a =
      get_upper_sqrt_price_from_token_a amount liquidity sqrt_price_x64
  get_next_sqrt_price sqrt_price_x64 liquidity amount input b_to_a =
      get_upper_sqrt_price_from_token_b amount liquidity sqrt_price_x64
  get_next_sqrt_price sqrt_price_x64 liquidity amount output a_to_b =
      get_lower_sqrt_price_from_token_b amount liquidity sqrt_price_x64
