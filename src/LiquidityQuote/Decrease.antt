-- ===== src/LiquidityQuote/Decrease.antt =====
-- quotes/public/decrease-liquidity-quote.ts: what a withdrawal of liquidity returns at least.
use whirlpools.Prelude.{false, if◌then◌else◌, ℤ, pos, leb_ℤ, eqb_ℤ, min_ℤ}
use whirlpools.Errors.{plain, Result, ok, ◌>>=◌, ◌>>◌, throw_if, invariant}
use whirlpools.Sdk.{Sdk}
use whirlpools.AnchorTypes.{WhirlpoolData, PositionData}
use whirlpools.TokenMath.{Percentage}
use whirlpools.PriceMath.{tick_index_to_sqrt_price_x64}
use whirlpools.TickUtil.{check_tick_in_bounds}
use whirlpools.TransferFee.{SplToken, TokenExtensionContext, calculate_transfer_fee_excluded_amount}
use whirlpools.PositionUtil.{
  below_range, in_range, above_range, get_strict_position_status, adjust_for_slippage,
  get_token_a_from_liquidity, get_token_b_from_liquidity,
}
use whirlpools.LiquidityQuote.SlippageBound.{DecimalJs, get_slippage_bound_for_sqrt_price}

pub record DecreaseLiquidityQuoteParam (Mint : Type 0) : Type 0 where
  pub liquidity : ℤ
  pub tick_current_index : ℤ
  pub sqrt_price : ℤ
  pub tick_lower_index : ℤ
  pub tick_upper_index : ℤ
  pub token_extension_ctx : TokenExtensionContext Mint
  pub slippage_tolerance : Percentage

pub record DecreaseLiquidityQuote : Type 0 where
  pub token_min_a : ℤ
  pub token_min_b : ℤ
  pub liquidity_amount : ℤ
  pub token_est_a : ℤ
  pub token_est_b : ℤ
  pub deducted_from_token_est_a : ℤ
  pub deducted_from_token_est_b : ℤ
  pub deducted_from_token_min_a : ℤ
  pub deducted_from_token_min_b : ℤ

-- The quote for no liquidity.
abbrev pub empty_quote : DecreaseLiquidityQuote
empty_quote = record {
  token_min_a = pos 0;
  token_min_b = pos 0;
  liquidity_amount = pos 0;
  token_est_a = pos 0;
  token_est_b = pos 0;
  deducted_from_token_est_a = pos 0;
  deducted_from_token_est_b = pos 0;
  deducted_from_token_min_a = pos 0;
  deducted_from_token_min_b = pos 0;
}

module _ {Mint : Type 0} (sdk : Sdk) where
  -- tokenEstA and tokenEstB.
  unfoldable pub get_token_estimates_from_liquidity :
      DecreaseLiquidityQuoteParam Mint → Result (ℤ × ℤ)
  get_token_estimates_from_liquidity params = do
    throw_if (eqb_ℤ params.liquidity (pos 0)) plain
    lower_sqrt_price ← tick_index_to_sqrt_price_x64 params.tick_lower_index
    upper_sqrt_price ← tick_index_to_sqrt_price_x64 params.tick_upper_index
    position_status ←
        get_strict_position_status params.sqrt_price params.tick_lower_index params.tick_upper_index
    elim position_status [
      | below_range ↦
          get_token_a_from_liquidity sdk params.liquidity lower_sqrt_price upper_sqrt_price false
          >>= λ token_est_a. ok (token_est_a, pos 0)
      | in_range ↦
          get_token_a_from_liquidity sdk params.liquidity params.sqrt_price upper_sqrt_price false
          >>= λ token_est_a.
              get_token_b_from_liquidity sdk params.liquidity lower_sqrt_price params.sqrt_price
                false
              >>= λ token_est_b. ok (token_est_a, token_est_b)
      | above_range ↦
          get_token_b_from_liquidity sdk params.liquidity lower_sqrt_price upper_sqrt_price false
          >>= λ token_est_b. ok (pos 0, token_est_b)
    ]

module _ {Mint Config : Type 0} (spl : SplToken Mint Config) where
  -- The end of both functions: the amounts less the transfer fees.
  unfoldable pub withdrawal_quote :
      DecreaseLiquidityQuoteParam Mint → ℤ × ℤ → ℤ → ℤ → DecreaseLiquidityQuote
  withdrawal_quote params est token_min_a token_min_b =
      let ctx = params.token_extension_ctx in
      let min_a_excluded =
        calculate_transfer_fee_excluded_amount spl token_min_a ctx.token_mint_with_program_a
          ctx.current_epoch in
      let est_a_excluded =
        calculate_transfer_fee_excluded_amount spl est.0 ctx.token_mint_with_program_a
          ctx.current_epoch in
      let min_b_excluded =
        calculate_transfer_fee_excluded_amount spl token_min_b ctx.token_mint_with_program_b
          ctx.current_epoch in
      let est_b_excluded =
        calculate_transfer_fee_excluded_amount spl est.1 ctx.token_mint_with_program_b
          ctx.current_epoch in
      record {
        token_min_a = min_a_excluded.amount;
        token_min_b = min_b_excluded.amount;
        liquidity_amount = params.liquidity;
        token_est_a = est_a_excluded.amount;
        token_est_b = est_b_excluded.amount;
        deducted_from_token_est_a = est_a_excluded.fee;
        deducted_from_token_est_b = est_b_excluded.fee;
        deducted_from_token_min_a = min_a_excluded.fee;
        deducted_from_token_min_b = min_b_excluded.fee;
      }

  unfoldable pub decrease_liquidity_quote_by_liquidity_with_params :
      Sdk → DecreaseLiquidityQuoteParam Mint → Result DecreaseLiquidityQuote
  decrease_liquidity_quote_by_liquidity_with_params sdk params = do
    invariant (check_tick_in_bounds params.tick_lower_index)
    invariant (check_tick_in_bounds params.tick_upper_index)
    invariant (check_tick_in_bounds params.tick_current_index)
    if eqb_ℤ params.liquidity (pos 0) then ok empty_quote else (do
      est ← get_token_estimates_from_liquidity sdk params
      token_min_a ← adjust_for_slippage est.0 params.slippage_tolerance false
      token_min_b ← adjust_for_slippage est.1 params.slippage_tolerance false
      ok (withdrawal_quote params est token_min_a token_min_b))

  -- The position and the pool are read by `getData`.
  unfoldable pub decrease_liquidity_quote_by_liquidity :
      {Key : Type 0}
      → Sdk
      → ℤ
      → Percentage
      → PositionData Key
      → WhirlpoolData Key
      → TokenExtensionContext Mint
      → Result DecreaseLiquidityQuote
  decrease_liquidity_quote_by_liquidity sdk liquidity slippage_tolerance position_data
        whirlpool_data token_extension_ctx =
      do
        invariant (leb_ℤ liquidity position_data.liquidity)
        decrease_liquidity_quote_by_liquidity_with_params sdk (record {
          liquidity = liquidity;
          tick_current_index = whirlpool_data.tick_current_index;
          sqrt_price = whirlpool_data.sqrt_price;
          tick_lower_index = position_data.tick_lower_index;
          tick_upper_index = position_data.tick_upper_index;
          token_extension_ctx = token_extension_ctx;
          slippage_tolerance = slippage_tolerance;
        })

  -- `{ ...params, sqrtPrice, tickCurrentIndex }`
  abbrev pub at_price : DecreaseLiquidityQuoteParam Mint → ℤ → ℤ → DecreaseLiquidityQuoteParam Mint
  at_price params sqrt_price tick_current_index = record {
    liquidity = params.liquidity;
    tick_current_index = tick_current_index;
    sqrt_price = sqrt_price;
    tick_lower_index = params.tick_lower_index;
    tick_upper_index = params.tick_upper_index;
    token_extension_ctx = params.token_extension_ctx;
    slippage_tolerance = params.slippage_tolerance;
  }

  unfoldable pub decrease_liquidity_quote_using_price_slippage :
      {Decimal : Type 0}
      → Sdk
      → DecimalJs Decimal
      → DecreaseLiquidityQuoteParam Mint
      → Result DecreaseLiquidityQuote
  decrease_liquidity_quote_using_price_slippage sdk dec params =
      if eqb_ℤ params.liquidity (pos 0) then ok empty_quote else (do
        est ← get_token_estimates_from_liquidity sdk params
        bound ← get_slippage_bound_for_sqrt_price dec params.sqrt_price params.slippage_tolerance
        lower ←
            get_token_estimates_from_liquidity sdk
              (at_price params bound.lower_sqrt_price bound.lower_tick_index)
        upper ←
            get_token_estimates_from_liquidity sdk
              (at_price params bound.upper_sqrt_price bound.upper_tick_index)
        ok (
            withdrawal_quote params est (min_ℤ (min_ℤ est.0 lower.0) upper.0)
              (min_ℤ (min_ℤ est.1 lower.1) upper.1)))
