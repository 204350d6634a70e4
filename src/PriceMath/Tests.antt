-- ===== src/PriceMath/Tests.antt =====
-- The conversions of price-math.ts at the ends of the range and between.
use whirlpools.Prelude.{pos, ◌≡◌, refl, ◌^◌}
use whirlpools.Errors.{ok}
use whirlpools.Constants.{max_sqrt_price, min_sqrt_price, max_tick_index, min_tick_index}
use whirlpools.PriceMath.{
  tick_index_to_sqrt_price_x64, sqrt_price_x64_to_tick_index, tick_index_to_sqrt_price_positive,
  tick_index_to_sqrt_price_negative, scale, signed_shift_right, signed_shift_left,
  tick_index_in_range,
}

pub price_at_max : tick_index_to_sqrt_price_x64 max_tick_index ≡ ok max_sqrt_price
unfolding tick_index_to_sqrt_price_x64 tick_index_to_sqrt_price_positive scale signed_shift_right
price_at_max = refl

pub price_at_min : tick_index_to_sqrt_price_x64 min_tick_index ≡ ok min_sqrt_price
unfolding tick_index_to_sqrt_price_x64 tick_index_to_sqrt_price_negative scale signed_shift_right
price_at_min = refl

price_at_zero : tick_index_to_sqrt_price_x64 (pos 0) ≡ ok (pos (2 ^ 64))
unfolding tick_index_to_sqrt_price_x64 tick_index_to_sqrt_price_negative scale signed_shift_right
price_at_zero = refl

tick_at_max : sqrt_price_x64_to_tick_index max_sqrt_price ≡ ok max_tick_index
unfolding sqrt_price_x64_to_tick_index tick_index_in_range tick_index_to_sqrt_price_x64
    tick_index_to_sqrt_price_positive scale signed_shift_right signed_shift_left
tick_at_max = refl

tick_at_min : sqrt_price_x64_to_tick_index min_sqrt_price ≡ ok min_tick_index
unfolding sqrt_price_x64_to_tick_index tick_index_in_range tick_index_to_sqrt_price_x64
    tick_index_to_sqrt_price_negative scale signed_shift_right signed_shift_left
tick_at_min = refl

tick_at_one : sqrt_price_x64_to_tick_index (pos (2 ^ 64)) ≡ ok (pos 0)
unfolding sqrt_price_x64_to_tick_index tick_index_in_range tick_index_to_sqrt_price_x64
    tick_index_to_sqrt_price_positive tick_index_to_sqrt_price_negative scale signed_shift_right
    signed_shift_left
tick_at_one = refl
