-- ===== src/FeesQuote.antt =====
-- quotes/public/collect-fees-quote.ts: the fees that a position can collect.
pub mod Growth
use whirlpools.Prelude.{Bool, if◌then◌else◌, ℤ, ◌+ℤ◌, ◌*ℤ◌, ltb_ℤ}
use whirlpools.Errors.{Result, ok, ◌>>=◌}
use whirlpools.Bn.{shrn}
use whirlpools.Sdk.{Sdk}
use whirlpools.AnchorTypes.{WhirlpoolData, PositionData, TickData}
use whirlpools.TransferFee.{SplToken, TokenExtensionContext, calculate_transfer_fee_excluded_amount}

pub record CollectFeesQuoteParam (Key Mint : Type 0) : Type 0 where
  pub whirlpool : WhirlpoolData Key
  pub position : PositionData Key
  pub tick_lower : TickData
  pub tick_upper : TickData
  pub token_extension_ctx : TokenExtensionContext Mint

pub record CollectFeesQuote : Type 0 where
  pub fee_owed_a : ℤ
  pub fee_owed_b : ℤ
  pub deducted_from_fee_owed_a : ℤ
  pub deducted_from_fee_owed_b : ℤ

module _ (sdk : Sdk) where
  -- The growth below the range, above it and in it, for one of the two tokens.
  unfoldable pub fee_growth_below : ℤ → ℤ → ℤ → ℤ → ℤ
  fee_growth_below tick_current_index tick_lower_index global outside_lower =
      if ltb_ℤ tick_current_index tick_lower_index
      then sdk.sub_underflow_u128 global outside_lower
      else outside_lower

  unfoldable pub fee_growth_above : ℤ → ℤ → ℤ → ℤ → ℤ
  fee_growth_above tick_current_index tick_upper_index global outside_upper =
      if ltb_ℤ tick_current_index tick_upper_index
      then outside_upper
      else sdk.sub_underflow_u128 global outside_upper

  unfoldable pub fee_growth_inside : ℤ → ℤ → ℤ → ℤ → ℤ → ℤ → ℤ
  fee_growth_inside tick_current_index tick_lower_index tick_upper_index global outside_lower
        outside_upper =
      sdk.sub_underflow_u128
        (sdk.sub_underflow_u128 global
          (fee_growth_below tick_current_index tick_lower_index global outside_lower))
        (fee_growth_above tick_current_index tick_upper_index global outside_upper)

  unfoldable pub fee_owed_delta : ℤ → ℤ → ℤ → Result ℤ
  unfolding ◌*ℤ◌
  fee_owed_delta inside checkpoint liquidity =
      shrn (sdk.sub_underflow_u128 inside checkpoint *ℤ liquidity) 64

module _ {Key Mint Config : Type 0} (sdk : Sdk) where
  unfoldable pub collect_fees_quote :
      SplToken Mint Config → CollectFeesQuoteParam Key Mint → Result CollectFeesQuote
  unfolding ◌+ℤ◌
  collect_fees_quote spl param = do
    let whirlpool = param.whirlpool
    let position = param.position
    let ctx = param.token_extension_ctx
    let inside_a =
        fee_growth_inside sdk whirlpool.tick_current_index position.tick_lower_index
          position.tick_upper_index whirlpool.fee_growth_global_a
          param.tick_lower.fee_growth_outside_a param.tick_upper.fee_growth_outside_a
    let inside_b =
        fee_growth_inside sdk whirlpool.tick_current_index position.tick_lower_index
          position.tick_upper_index whirlpool.fee_growth_global_b
          param.tick_lower.fee_growth_outside_b param.tick_upper.fee_growth_outside_b
    delta_a ← fee_owed_delta sdk inside_a position.fee_growth_checkpoint_a position.liquidity
    delta_b ← fee_owed_delta sdk inside_b position.fee_growth_checkpoint_b position.liquidity
    let excluded_a =
        calculate_transfer_fee_excluded_amount spl (position.fee_owed_a +ℤ delta_a)
          ctx.token_mint_with_program_a ctx.current_epoch
    let excluded_b =
        calculate_transfer_fee_excluded_amount spl (position.fee_owed_b +ℤ delta_b)
          ctx.token_mint_with_program_b ctx.current_epoch
    ok (record {
      fee_owed_a = excluded_a.amount;
      fee_owed_b = excluded_b.amount;
      deducted_from_fee_owed_a = excluded_a.fee;
      deducted_from_fee_owed_b = excluded_b.fee;
    })
