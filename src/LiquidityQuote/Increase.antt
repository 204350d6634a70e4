-- ===== src/LiquidityQuote/Increase.antt =====
-- quotes/public/increase-liquidity-quote.ts: what a deposit of liquidity costs at most.
use whirlpools.Prelude.{true, ℤ, pos, eqb_ℤ, max_ℤ, if◌then◌else◌}
use whirlpools.Errors.{plain, Result, ok, ◌>>=◌, ◌>>◌, throw_if}
use whirlpools.Sdk.{Sdk}
use whirlpools.TokenMath.{Percentage}
use whirlpools.PriceMath.{tick_index_to_sqrt_price_x64}
use whirlpools.TransferFee.{SplToken, TokenExtensionContext, calculate_transfer_fee_included_amount}
use whirlpools.PositionUtil.{
  below_range, in_range, above_range, get_strict_position_status, get_token_a_from_liquidity,
  get_token_b_from_liquidity,
}
use whirlpools.LiquidityQuote.SlippageBound.{DecimalJs, get_slippage_bound_for_sqrt_price}

pub record IncreaseLiquidityQuoteByLiquidityParam (Mint : Type 0) : Type 0 where
  pub liquidity : ℤ
  pub tick_current_index : ℤ
  pub sqrt_price : ℤ
  pub tick_lower_index : ℤ
  pub tick_upper_index : ℤ
  pub token_extension_ctx : TokenExtensionContext Mint
  pub slippage_tolerance : Percentage

pub record IncreaseLiquidityQuote : Type 0 where
  pub liquidity_amount : ℤ
  pub token_max_a : ℤ
  pub token_max_b : ℤ
  pub token_est_a : ℤ
  pub token_est_b : ℤ
  pub deducting_from_token_max_a : ℤ
  pub deducting_from_token_max_b : ℤ
  pub deducting_from_token_est_a : ℤ
  pub deducting_from_token_est_b : ℤ

-- The quote for no liquidity.
abbrev pub no_deposit : IncreaseLiquidityQuote
no_deposit = record {
  liquidity_amount = pos 0;
  token_max_a = pos 0;
  token_max_b = pos 0;
  token_est_a = pos 0;
  token_est_b = pos 0;
  deducting_from_token_max_a = pos 0;
  deducting_from_token_max_b = pos 0;
  deducting_from_token_est_a = pos 0;
  deducting_from_token_est_b = pos 0;
}

module _ {Mint : Type 0} (sdk : Sdk) where
  -- tokenEstA and tokenEstB.
  unfoldable pub get_token_estimates_from_liquidity :
      IncreaseLiquidityQuoteByLiquidityParam Mint → Result (ℤ × ℤ)
  get_token_estimates_from_liquidity params = do
    throw_if (eqb_ℤ params.liquidity (pos 0)) plain
    lower_sqrt_price ← tick_index_to_sqrt_price_x64 params.tick_lower_index
    upper_sqrt_price ← tick_index_to_sqrt_price_x64 params.tick_upper_index
    position_status ←
        get_strict_position_status params.sqrt_price params.tick_lower_index params.tick_upper_index
    elim position_status [
      | below_range ↦
          get_token_a_from_liquidity sdk params.liquidity lower_sqrt_price upper_sqrt_price true
          >>= λ token_est_a. ok (token_est_a, pos 0)
      | in_range ↦
          get_token_a_from_liquidity sdk params.liquidity params.sqrt_price upper_sqrt_price true
          >>= λ token_est_a.
              get_token_b_from_liquidity sdk params.liquidity lower_sqrt_price params.sqrt_price
                true
              >>= λ token_est_b. ok (token_est_a, token_est_b)
      | above_range ↦
          get_token_b_from_liquidity sdk params.liquidity lower_sqrt_price upper_sqrt_price true
          >>= λ token_est_b. ok (pos 0, token_est_b)
    ]

module _ {Mint Config : Type 0} (sdk : Sdk) (spl : SplToken Mint Config) where
  -- The end of a quote: the amounts with the transfer fees.
  unfoldable pub deposit_quote :
      TokenExtensionContext Mint → ℤ → ℤ × ℤ → ℤ → ℤ → Result IncreaseLiquidityQuote
  deposit_quote ctx liquidity est token_max_a token_max_b = do
    max_a_included ←
        calculate_transfer_fee_included_amount spl sdk token_max_a ctx.token_mint_with_program_a
          ctx.current_epoch
    est_a_included ←
        calculate_transfer_fee_included_amount spl sdk est.0 ctx.token_mint_with_program_a
          ctx.current_epoch
    max_b_included ←
        calculate_transfer_fee_included_amount spl sdk token_max_b ctx.token_mint_with_program_b
          ctx.current_epoch
    est_b_included ←
        calculate_transfer_fee_included_amount spl sdk est.1 ctx.token_mint_with_program_b
          ctx.current_epoch
    ok (record {
      liquidity_amount = liquidity;
      token_max_a = max_a_included.amount;
      token_max_b = max_b_included.amount;
      token_est_a = est_a_included.amount;
      token_est_b = est_b_included.amount;
      deducting_from_token_max_a = max_a_included.fee;
      deducting_from_token_max_b = max_b_included.fee;
      deducting_from_token_est_a = est_a_included.fee;
      deducting_from_token_est_b = est_b_included.fee;
    })

  -- `{ ...params, sqrtPrice, tickCurrentIndex }`
  abbrev pub at_price :
      IncreaseLiquidityQuoteByLiquidityParam Mint
      → ℤ
      → ℤ
      → IncreaseLiquidityQuoteByLiquidityParam Mint
  at_price params sqrt_price tick_current_index = record {
    liquidity = params.liquidity;
    tick_current_index = tick_current_index;
    sqrt_price = sqrt_price;
    tick_lower_index = params.tick_lower_index;
    tick_upper_index = params.tick_upper_index;
    token_extension_ctx = params.token_extension_ctx;
    slippage_tolerance = params.slippage_tolerance;
  }

  unfoldable pub increase_liquidity_quote_by_liquidity_with_params :
      {Decimal : Type 0}
      → DecimalJs Decimal
      → IncreaseLiquidityQuoteByLiquidityParam Mint
      → Result IncreaseLiquidityQuote
  increase_liquidity_quote_by_liquidity_with_params dec params =
      if eqb_ℤ params.liquidity (pos 0) then ok no_deposit else (do
        est ← get_token_estimates_from_liquidity sdk params
        bound ← get_slippage_bound_for_sqrt_price dec params.sqrt_price params.slippage_tolerance
        lower ←
            get_token_estimates_from_liquidity sdk
              (at_price params bound.lower_sqrt_price bound.lower_tick_index)
        upper ←
            get_token_estimates_from_liquidity sdk
              (at_price params bound.upper_sqrt_price bound.upper_tick_index)
        deposit_quote params.token_extension_ctx params.liquidity est
            (max_ℤ (max_ℤ est.0 lower.0) upper.0) (max_ℤ (max_ℤ est.1 lower.1) upper.1))
