-- ===== src/PoolUtil.antt =====
-- utils/public/pool-utils.ts: the liquidity that a pair of token amounts is estimated to buy.
pub mod Estimates
use whirlpools.Prelude.{Bool, if◌then◌else◌, ℤ, ◌-ℤ◌, ◌*ℤ◌, ltb_ℤ, leb_ℤ, min_ℤ, max_ℤ}
use whirlpools.Errors.{plain, Result, ok, err, ◌>>=◌, ◌>>◌, throw_if}
use whirlpools.Bn.{div, shln}
use whirlpools.Sdk.{Sdk}
use whirlpools.PriceMath.{tick_index_to_sqrt_price_x64}

pub record TokenAmounts : Type 0 where
  pub token_a : ℤ
  pub token_b : ℤ

module _ (sdk : Sdk) where
  unfoldable pub est_liquidity_for_token_a : ℤ → ℤ → ℤ → Result ℤ
  unfolding ◌-ℤ◌ ◌*ℤ◌
  est_liquidity_for_token_a sqrt_price1 sqrt_price2 token_amount = do
    let lower_sqrt_price_x64 = min_ℤ sqrt_price1 sqrt_price2
    let upper_sqrt_price_x64 = max_ℤ sqrt_price1 sqrt_price2
    num ← sdk.from_x64_bn (token_amount *ℤ upper_sqrt_price_x64 *ℤ lower_sqrt_price_x64)
    div num (upper_sqrt_price_x64 -ℤ lower_sqrt_price_x64)

unfoldable pub est_liquidity_for_token_b : ℤ → ℤ → ℤ → Result ℤ
unfolding ◌-ℤ◌
est_liquidity_for_token_b sqrt_price1 sqrt_price2 token_amount = do
  let lower_sqrt_price_x64 = min_ℤ sqrt_price1 sqrt_price2
  let upper_sqrt_price_x64 = max_ℤ sqrt_price1 sqrt_price2
  shifted ← shln token_amount 64
  div shifted (upper_sqrt_price_x64 -ℤ lower_sqrt_price_x64)

unfoldable pub estimate_liquidity_from_token_amounts : Sdk → ℤ → ℤ → ℤ → TokenAmounts → Result ℤ
estimate_liquidity_from_token_amounts sdk curr_tick lower_tick upper_tick token_amount = do
  throw_if (ltb_ℤ upper_tick lower_tick) plain
  curr_sqrt_price ← tick_index_to_sqrt_price_x64 curr_tick
  lower_sqrt_price ← tick_index_to_sqrt_price_x64 lower_tick
  upper_sqrt_price ← tick_index_to_sqrt_price_x64 upper_tick
  if leb_ℤ upper_tick curr_tick
      then est_liquidity_for_token_b upper_sqrt_price lower_sqrt_price token_amount.token_b
      else if ltb_ℤ curr_tick lower_tick
      then est_liquidity_for_token_a sdk lower_sqrt_price upper_sqrt_price token_amount.token_a
      else (do
        a ← est_liquidity_for_token_a sdk curr_sqrt_price upper_sqrt_price token_amount.token_a
        b ← est_liquidity_for_token_b curr_sqrt_price lower_sqrt_price token_amount.token_b
        ok (min_ℤ a b))
