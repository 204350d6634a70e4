-- ===== src/LiquidityQuote/Ranges.antt =====
-- quotes/public/increase-liquidity-quote.ts: the deprecated quote by an amount of one token, with one
-- function for each way that the price lies to the range.
use whirlpools.Prelude.{Bool, true, false, not, ◌||◌, ℤ, pos, if◌then◌else◌}
use whirlpools.Errors.{plain, Result, ok, err, ◌>>=◌, ◌>>◌, invariant}
use whirlpools.Sdk.{Sdk}
use whirlpools.TickUtil.{check_tick_in_bounds}
use whirlpools.PriceMath.{tick_index_to_sqrt_price_x64}
use whirlpools.TransferFee.{SplToken, calculate_transfer_fee_included_amount}
use whirlpools.PositionUtil.{
  below_range, in_range, above_range, get_strict_position_status, adjust_for_slippage,
  get_liquidity_from_token_a, get_liquidity_from_token_b, get_token_a_from_liquidity,
  get_token_b_from_liquidity,
}
use whirlpools.LiquidityQuote.Increase.{IncreaseLiquidityQuote, no_deposit, deposit_quote}
use whirlpools.LiquidityQuote.InputToken.{IncreaseLiquidityQuoteParam, input_of_a, input_of_b}

module _ {Key Mint Config : Type 0} (equals : Key → Key → Bool) (sdk : Sdk)
    (spl : SplToken Mint Config) where
  unfoldable pub quote_position_below_range :
      IncreaseLiquidityQuoteParam Key Mint → Result IncreaseLiquidityQuote
  quote_position_below_range param =
      if not (equals param.token_mint_a param.input_token_mint) then ok no_deposit else (do
        sqrt_price_lower_x64 ← tick_index_to_sqrt_price_x64 param.tick_lower_index
        sqrt_price_upper_x64 ← tick_index_to_sqrt_price_x64 param.tick_upper_index
        liquidity_amount ←
            get_liquidity_from_token_a sdk (input_of_a equals sdk spl param) sqrt_price_lower_x64
              sqrt_price_upper_x64 false
        token_est_a ←
            get_token_a_from_liquidity sdk liquidity_amount sqrt_price_lower_x64
              sqrt_price_upper_x64 true
        token_max_a ← adjust_for_slippage token_est_a param.slippage_tolerance true
        max_a_included ←
            calculate_transfer_fee_included_amount spl sdk token_max_a
              param.token_extension_ctx.token_mint_with_program_a
              param.token_extension_ctx.current_epoch
        est_a_included ←
            calculate_transfer_fee_included_amount spl sdk token_est_a
              param.token_extension_ctx.token_mint_with_program_a
              param.token_extension_ctx.current_epoch
        ok (record {
          liquidity_amount = liquidity_amount;
          token_max_a = max_a_included.amount;
          token_max_b = pos 0;
          token_est_a = est_a_included.amount;
          token_est_b = pos 0;
          deducting_from_token_max_a = max_a_included.fee;
          deducting_from_token_max_b = pos 0;
          deducting_from_token_est_a = est_a_included.fee;
          deducting_from_token_est_b = pos 0;
        }))

  unfoldable pub quote_position_above_range :
      IncreaseLiquidityQuoteParam Key Mint → Result IncreaseLiquidityQuote
  quote_position_above_range param =
      if not (equals param.token_mint_b param.input_token_mint) then ok no_deposit else (do
        sqrt_price_lower_x64 ← tick_index_to_sqrt_price_x64 param.tick_lower_index
        sqrt_price_upper_x64 ← tick_index_to_sqrt_price_x64 param.tick_upper_index
        liquidity_amount ←
            get_liquidity_from_token_b sdk (input_of_b equals sdk spl param) sqrt_price_lower_x64
              sqrt_price_upper_x64 false
        token_est_b ←
            get_token_b_from_liquidity sdk liquidity_amount sqrt_price_lower_x64
              sqrt_price_upper_x64 true
        token_max_b ← adjust_for_slippage token_est_b param.slippage_tolerance true
        max_b_included ←
            calculate_transfer_fee_included_amount spl sdk token_max_b
              param.token_extension_ctx.token_mint_with_program_b
              param.token_extension_ctx.current_epoch
        est_b_included ←
            calculate_transfer_fee_included_amount spl sdk token_est_b
              param.token_extension_ctx.token_mint_with_program_b
              param.token_extension_ctx.current_epoch
        ok (record {
          liquidity_amount = liquidity_amount;
          token_max_a = pos 0;
          token_max_b = max_b_included.amount;
          token_est_a = pos 0;
          token_est_b = est_b_included.amount;
          deducting_from_token_max_a = pos 0;
          deducting_from_token_max_b = max_b_included.fee;
          deducting_from_token_est_a = pos 0;
          deducting_from_token_est_b = est_b_included.fee;
        }))

  -- The liquidity that the input buys at a price inside the range.
  unfoldable pub liquidity_in_range : IncreaseLiquidityQuoteParam Key Mint → ℤ → ℤ → Result ℤ
  liquidity_in_range param sqrt_price_lower_x64 sqrt_price_upper_x64 =
      if equals param.token_mint_a param.input_token_mint
      then get_liquidity_from_token_a sdk (input_of_a equals sdk spl param) param.sqrt_price
          sqrt_price_upper_x64 false
      else if equals param.token_mint_b param.input_token_mint
      then get_liquidity_from_token_b sdk (input_of_b equals sdk spl param) sqrt_price_lower_x64
          param.sqrt_price false
      else err plain

  unfoldable pub quote_position_in_range :
      IncreaseLiquidityQuoteParam Key Mint → Result IncreaseLiquidityQuote
  quote_position_in_range param = do
    sqrt_price_lower_x64 ← tick_index_to_sqrt_price_x64 param.tick_lower_index
    sqrt_price_upper_x64 ← tick_index_to_sqrt_price_x64 param.tick_upper_index
    liquidity_amount ← liquidity_in_range param sqrt_price_lower_x64 sqrt_price_upper_x64
    token_est_a ←
        get_token_a_from_liquidity sdk liquidity_amount param.sqrt_price sqrt_price_upper_x64 true
    token_est_b ←
        get_token_b_from_liquidity sdk liquidity_amount sqrt_price_lower_x64 param.sqrt_price true
    token_max_a ← adjust_for_slippage token_est_a param.slippage_tolerance true
    token_max_b ← adjust_for_slippage token_est_b param.slippage_tolerance true
    deposit_quote sdk spl param.token_extension_ctx liquidity_amount (token_est_a, token_est_b)
        token_max_a token_max_b

  unfoldable pub increase_liquidity_quote_by_input_token_with_params :
      IncreaseLiquidityQuoteParam Key Mint → Result IncreaseLiquidityQuote
  increase_liquidity_quote_by_input_token_with_params param = do
    invariant (check_tick_in_bounds param.tick_lower_index)
    invariant (check_tick_in_bounds param.tick_upper_index)
    invariant (
        equals param.input_token_mint param.token_mint_a
        || equals param.input_token_mint param.token_mint_b)
    position_status ←
        get_strict_position_status param.sqrt_price param.tick_lower_index param.tick_upper_index
    elim position_status [
      | below_range ↦ quote_position_below_range param
      | in_range ↦ quote_position_in_range param
      | above_range ↦ quote_position_above_range param
    ]
