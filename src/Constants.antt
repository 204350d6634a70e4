-- ===== src/Constants.antt =====
-- types/public/constants.ts: the numbers that the calculations use.
use whirlpools.Prelude.{ℕ, ℤ, pos, neg_ℤ}

abbrev pub num_rewards : ℕ
num_rewards = 3

abbrev pub max_tick_index : ℤ
max_tick_index = pos 443636

abbrev pub min_tick_index : ℤ
min_tick_index = neg_ℤ (pos 443636)

abbrev pub max_sqrt_price : ℤ
max_sqrt_price = pos 79226673515401279992447579055

abbrev pub min_sqrt_price : ℤ
min_sqrt_price = pos 4295048016

abbrev pub tick_array_size : ℕ
tick_array_size = 88

abbrev pub position_bundle_size : ℕ
position_bundle_size = 256

abbrev pub max_swap_tick_arrays : ℕ
max_swap_tick_arrays = 3

abbrev pub protocol_fee_rate_mul_value : ℤ
protocol_fee_rate_mul_value = pos 10_000

abbrev pub fee_rate_mul_value : ℤ
fee_rate_mul_value = pos 1_000_000
