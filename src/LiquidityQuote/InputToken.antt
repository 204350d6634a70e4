-- ===== src/LiquidityQuote/InputToken.antt =====
-- quotes/public/increase-liquidity-quote.ts: the liquidity that an amount of one token buys, and the
-- quote for it. PublicKey.equals of @solana/web3.js is the parameter `equals`.
use whirlpools.Prelude.{Bool, false, not, ◌||◌, ℤ, pos, eqb_ℤ, ltb_ℤ, if◌then◌else◌}
use whirlpools.Errors.{Result, ok, ◌>>=◌, ◌>>◌, invariant}
use whirlpools.Sdk.{Sdk}
use whirlpools.TokenMath.{Percentage}
use whirlpools.TickUtil.{check_tick_in_bounds}
use whirlpools.PriceMath.{tick_index_to_sqrt_price_x64}
use whirlpools.TransferFee.{SplToken, TokenExtensionContext, calculate_transfer_fee_excluded_amount}
use whirlpools.PositionUtil.{
  below_range, in_range, above_range, get_strict_position_status, get_liquidity_from_token_a,
  get_liquidity_from_token_b,
}
use whirlpools.LiquidityQuote.SlippageBound.{DecimalJs}
use whirlpools.LiquidityQuote.Increase.{
  IncreaseLiquidityQuote, no_deposit, increase_liquidity_quote_by_liquidity_with_params,
}

pub record IncreaseLiquidityQuoteParam (Key Mint : Type 0) : Type 0 where
  pub input_token_amount : ℤ
  pub input_token_mint : Key
  pub token_mint_a : Key
  pub token_mint_b : Key
  pub tick_current_index : ℤ
  pub sqrt_price : ℤ
  pub tick_lower_index : ℤ
  pub tick_upper_index : ℤ
  pub token_extension_ctx : TokenExtensionContext Mint
  pub slippage_tolerance : Percentage

module _ {Key Mint Config : Type 0} (equals : Key → Key → Bool) (sdk : Sdk)
    (spl : SplToken Mint Config) where
  -- The input less its transfer fee.
  abbrev pub input_of_a : IncreaseLiquidityQuoteParam Key Mint → ℤ
  input_of_a params =
      (calculate_transfer_fee_excluded_amount spl params.input_token_amount
        params.token_extension_ctx.token_mint_with_program_a
        params.token_extension_ctx.current_epoch).amount

  abbrev pub input_of_b : IncreaseLiquidityQuoteParam Key Mint → ℤ
  input_of_b params =
      (calculate_transfer_fee_excluded_amount spl params.input_token_amount
        params.token_extension_ctx.token_mint_with_program_b
        params.token_extension_ctx.current_epoch).amount

  unfoldable pub get_liquidity_from_input_token : IncreaseLiquidityQuoteParam Key Mint → Result ℤ
  get_liquidity_from_input_token params = do
    invariant (ltb_ℤ params.tick_lower_index params.tick_upper_index)
    if eqb_ℤ params.input_token_amount (pos 0) then ok (pos 0) else (do
      let is_token_a = equals params.token_mint_a params.input_token_mint
      sqrt_price_lower_x64 ← tick_index_to_sqrt_price_x64 params.tick_lower_index
      sqrt_price_upper_x64 ← tick_index_to_sqrt_price_x64 params.tick_upper_index
      position_status ←
          get_strict_position_status params.sqrt_price params.tick_lower_index
            params.tick_upper_index
      elim position_status [
        | below_range ↦
            if not is_token_a
            then ok (pos 0)
            else get_liquidity_from_token_a sdk (input_of_a params) sqrt_price_lower_x64
                sqrt_price_upper_x64 false
        | above_range ↦
            if is_token_a
            then ok (pos 0)
            else get_liquidity_from_token_b sdk (input_of_b params) sqrt_price_lower_x64
                sqrt_price_upper_x64 false
        | in_range ↦
            if is_token_a
            then get_liquidity_from_token_a sdk (input_of_a params) params.sqrt_price
                sqrt_price_upper_x64 false
            else get_liquidity_from_token_b sdk (input_of_b params) sqrt_price_lower_x64
                params.sqrt_price false
      ])

  unfoldable pub increase_liquidity_quote_by_input_token_using_price_slippage :
      {Decimal : Type 0}
      → DecimalJs Decimal
      → IncreaseLiquidityQuoteParam Key Mint
      → Result IncreaseLiquidityQuote
  increase_liquidity_quote_by_input_token_using_price_slippage dec param = do
    invariant (check_tick_in_bounds param.tick_lower_index)
    invariant (check_tick_in_bounds param.tick_upper_index)
    invariant (
        equals param.input_token_mint param.token_mint_a
        || equals param.input_token_mint param.token_mint_b)
    liquidity ← get_liquidity_from_input_token param
    if eqb_ℤ liquidity (pos 0)
        then ok no_deposit
        else increase_liquidity_quote_by_liquidity_with_params sdk spl dec (record {
          liquidity = liquidity;
          tick_current_index = param.tick_current_index;
          sqrt_price = param.sqrt_price;
          tick_lower_index = param.tick_lower_index;
          tick_upper_index = param.tick_upper_index;
          token_extension_ctx = param.token_extension_ctx;
          slippage_tolerance = param.slippage_tolerance;
        })
