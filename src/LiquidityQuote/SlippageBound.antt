-- ===== src/LiquidityQuote/SlippageBound.antt =====
-- PriceMath.getSlippageBoundForSqrtPrice (utils/public/price-math.ts): the prices that a slippage
-- away from a price bounds. decimal.js is not code of the repository: its numbers are a type that
-- the definitions take, with the operations that the source calls.
use whirlpools.Prelude.{ℤ, min_ℤ, max_ℤ}
use whirlpools.Errors.{Result, ok, ◌>>=◌}
use whirlpools.Constants.{min_sqrt_price, max_sqrt_price}
use whirlpools.TokenMath.{Percentage}
use whirlpools.PriceMath.{sqrt_price_x64_to_tick_index}

-- Decimal of decimal.js, with DecimalUtil.fromBN (no decimals) and `new BN(d.toString())`.
pub record DecimalJs (Decimal : Type 0) : Type 0 where
  pub from_bn : ℤ → Decimal
  pub add : Decimal → Decimal → Decimal
  pub sub : Decimal → Decimal → Decimal
  pub mul : Decimal → Decimal → Decimal
  pub div : Decimal → Decimal → Decimal
  pub sqrt : Decimal → Decimal
  -- toDecimalPlaces(0)
  pub to_whole : Decimal → Decimal
  pub to_bn : Decimal → Result ℤ

pub record SlippageBound : Type 0 where
  pub lower_sqrt_price : ℤ
  pub lower_tick_index : ℤ
  pub upper_sqrt_price : ℤ
  pub upper_tick_index : ℤ

-- `BN.min(BN.max(x, MIN_SQRT_PRICE_BN), MAX_SQRT_PRICE_BN)`
abbrev pub clamp_sqrt_price : ℤ → ℤ
clamp_sqrt_price x = min_ℤ (max_ℤ x min_sqrt_price) max_sqrt_price

module _ {Decimal : Type 0} (dec : DecimalJs Decimal) where
  -- The price times the root of a share.
  abbrev pub scaled_price : ℤ → Decimal → Decimal → Decimal
  scaled_price sqrt_price_x64 share denominator =
      dec.to_whole
        (dec.div (dec.mul (dec.from_bn sqrt_price_x64) (dec.sqrt share)) (dec.sqrt denominator))

  unfoldable pub get_slippage_bound_for_sqrt_price : ℤ → Percentage → Result SlippageBound
  get_slippage_bound_for_sqrt_price sqrt_price_x64 slippage = do
    let slippage_numerator = dec.from_bn slippage.numerator
    let slippage_denominator = dec.from_bn slippage.denominator
    lower ← dec.to_bn (
        scaled_price sqrt_price_x64 (dec.sub slippage_denominator slippage_numerator)
          slippage_denominator)
    upper ← dec.to_bn (
        scaled_price sqrt_price_x64 (dec.add slippage_denominator slippage_numerator)
          slippage_denominator)
    lower_tick_current_index ← sqrt_price_x64_to_tick_index (clamp_sqrt_price lower)
    upper_tick_current_index ← sqrt_price_x64_to_tick_index (clamp_sqrt_price upper)
    ok (record {
      lower_sqrt_price = clamp_sqrt_price lower;
      lower_tick_index = lower_tick_current_index;
      upper_sqrt_price = clamp_sqrt_price upper;
      upper_tick_index = upper_tick_current_index;
    })
