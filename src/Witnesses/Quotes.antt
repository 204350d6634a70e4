-- ===== src/Witnesses/Quotes.antt =====
-- The theorems on quotes, positions and bundles at concrete inputs.
use whirlpools.Prelude.{
  ◌<◌, map, ◌%◌, ℕ, ◌≤◌, ◌≡◌, refl, ◌^◌, ◌+◌, true, false, pos, negsuc, ◌+ℤ◌, ◌-ℤ◌, ◌*ℤ◌, some, [],
  ◌∷◌, replicate, arith, ◌-◌,
}
use whirlpools.Errors.{ok}
use whirlpools.Sdk.{plain_sdk, plain_sdk-IsSdk}
use whirlpools.BitMath.{
  mul_div_round_up_if, mul_div, mul_div_round_up, div_round_up_if, div_round_up, is_over_limit, mul,
  should_round_up, checked_mul_shift_right_round_up_if, checked_mul_shift_right,
}
use whirlpools.TokenMath.{
  get_amount_delta_a, get_amount_delta_b, get_next_sqrt_price, get_next_sqrt_price_from_a_round_up,
  get_next_sqrt_price_from_b_round_down,
}
use whirlpools.SwapMath.{
  compute_swap_step, get_amount_fixed_delta, get_amount_unfixed_delta, amount_after_fee,
  fee_of_step,
}
use whirlpools.TransferFee.{add_transfer_fee, take_transfer_fee, ceil_div_bn}
use whirlpools.TickArrayIndex.{from_tick_index, to_tick_index, to_prev_initializable_tick_index}
use whirlpools.TickArraySequence.{
  InitializedTickArray, find_next_initialized_tick_index, search, get_tick, step_index,
  is_array_index_in_bounds, get_local_array_index, check_if_index_is_in_tick_array_range,
}
use whirlpools.SwapManager.{calculate_fees}
use whirlpools.AnchorTypes.{WhirlpoolData, TickArray}
use whirlpools.TransferFee.{
  calculate_transfer_fee_excluded_amount, calculate_transfer_fee_included_amount,
}
use whirlpools.TickArraySequence.{new_tick_array_sequence, is_valid_tick_array0, get_touched_arrays}
use whirlpools.SwapManager.{
  compute_swap, swap_loop, swap_round, calculate_est_tokens, remaining_after, calculated_after,
  cross_tick, get_next_sqrt_prices, calculate_protocol_fee, calculate_next_liquidity,
}
use whirlpools.PriceMath.{
  sqrt_price_x64_to_tick_index, tick_index_in_range, tick_index_to_sqrt_price_x64,
  tick_index_to_sqrt_price_positive, tick_index_to_sqrt_price_negative, scale, signed_shift_right,
  signed_shift_left,
}
use whirlpools.SwapQuote.{SwapQuoteParam, SwapQuote, finish, simulate_exact_in, simulate_swap}
use whirlpools.SwapQuote.Accepts.{Accepts, simulate_swap-Accepts}
use whirlpools.FeesQuote.{fee_growth_below, fee_growth_inside, fee_growth_above, fee_owed_delta}
use whirlpools.FeesQuote.Growth.{fee_growth-recovers, fee_owed_delta-wraps}
use whirlpools.PositionBundle.{
  convert_bitmap_to_array, PositionBundleData, get_unoccupied_bundle_indexes,
  find_unoccupied_bundle_index, is_occupied, is_full,
}
use whirlpools.PositionBundle.Indexes.{find_unoccupied_bundle_index-free}
use whirlpools.PositionUtil.{get_liquidity_from_token_a, get_token_a_from_liquidity}
use whirlpools.PositionUtil.Deposits.{get_token_a-get_liquidity}
use whirlpools.Witnesses.{plain_spl, two_arrays}

-- A pool at the price one, over the two tick arrays.
abbrev pub pool : WhirlpoolData ℕ
pool = record {
  whirlpools_config = 0;
  whirlpool_bump = [];
  fee_rate = pos 3_000;
  protocol_fee_rate = pos 300;
  liquidity = pos 1_000_000_000;
  sqrt_price = pos (2 ^ 64);
  tick_current_index = pos 0;
  protocol_fee_owed_a = pos 0;
  protocol_fee_owed_b = pos 0;
  token_mint_a = 1;
  token_vault_a = 2;
  fee_growth_global_a = pos 0;
  token_mint_b = 3;
  token_vault_b = 4;
  fee_growth_global_b = pos 0;
  reward_last_updated_timestamp = pos 0;
  reward_infos = [];
  tick_spacing = 8;
}

abbrev account_of : InitializedTickArray ℕ → TickArray ℕ
account_of a = record { address = a.address; tick_array_data = some a.tick_array_data }

abbrev pub sale : SwapQuoteParam ℕ ℕ
sale = record {
  whirlpool_data = pool;
  token_amount = pos 1_000_000;
  other_amount_threshold = pos 900_000;
  sqrt_price_limit = pos (2 ^ 63);
  a_to_b = true;
  amount_specified_is_input = true;
  tick_arrays = map account_of (two_arrays true false).sequence;
  token_extension_ctx = record {
    current_epoch = 0;
    token_mint_with_program_a = 1;
    token_mint_with_program_b = 3;
  };
}

abbrev pub sale_quote : SwapQuote ℕ
sale_quote = record {
  estimated_amount_in = pos 1000000;
  estimated_amount_out = pos 986031;
  estimated_end_tick_index = negsuc 19;
  estimated_end_sqrt_price = pos 18428462762222485478;
  estimated_fee_amount = pos 2985;
  deducting_from_estimated_amount_in = pos 5000;
  deducted_from_estimated_amount_out = pos 5000;
  amount = pos 1000000;
  amount_specified_is_input = true;
  a_to_b = true;
  other_amount_threshold = pos 900000;
  sqrt_price_limit = pos 9223372036854775808;
  tick_array0 = some 1;
  tick_array1 = some 1;
  tick_array2 = some 1;
}

pub sale_is : simulate_swap plain_sdk plain_spl 5 sale ≡ ok sale_quote
unfolding simulate_swap simulate_exact_in finish new_tick_array_sequence is_valid_tick_array0
    get_touched_arrays compute_swap swap_loop swap_round calculate_est_tokens remaining_after
    calculated_after cross_tick get_next_sqrt_prices calculate_fees calculate_protocol_fee
    calculate_next_liquidity calculate_transfer_fee_excluded_amount
    calculate_transfer_fee_included_amount take_transfer_fee add_transfer_fee ceil_div_bn
    find_next_initialized_tick_index search get_tick step_index is_array_index_in_bounds
    get_local_array_index check_if_index_is_in_tick_array_range from_tick_index to_tick_index
    to_prev_initializable_tick_index sqrt_price_x64_to_tick_index tick_index_in_range
    tick_index_to_sqrt_price_x64 tick_index_to_sqrt_price_positive tick_index_to_sqrt_price_negative
    scale signed_shift_right signed_shift_left compute_swap_step get_amount_fixed_delta
    get_amount_unfixed_delta amount_after_fee fee_of_step get_amount_delta_a get_amount_delta_b
    get_next_sqrt_price get_next_sqrt_price_from_a_round_up get_next_sqrt_price_from_b_round_down
    mul_div_round_up_if mul_div mul_div_round_up div_round_up_if div_round_up is_over_limit mul
    should_round_up checked_mul_shift_right_round_up_if checked_mul_shift_right ◌+ℤ◌ ◌-ℤ◌ ◌*ℤ◌
sale_is = refl

simulate_swap-Accepts_example : Accepts plain_sdk plain_spl 5 sale sale_quote
simulate_swap-Accepts_example = simulate_swap-Accepts plain_sdk plain_spl 5 sale sale_quote sale_is

fee_growth-recovers_example :
    (fee_growth_below plain_sdk (pos 5) (negsuc 7) (pos 4) (pos (2 ^ 128 - 3)) ≡ pos (2 ^ 128 - 3))
    × (fee_growth_inside plain_sdk (pos 5) (negsuc 7) (pos 8) (pos 4) (pos (2 ^ 128 - 3)) (pos 2)
        ≡ pos 5)
    × (fee_growth_above plain_sdk (pos 5) (pos 8) (pos 4) (pos 2) ≡ pos 2)
fee_growth-recovers_example =
    fee_growth-recovers plain_sdk plain_sdk-IsSdk (2 ^ 128 - 3) 5 2 (omega arith) (omega arith)
      (omega arith) (pos 5) (negsuc 7) (pos 8)

fee_owed_delta-wraps_example :
    fee_owed_delta plain_sdk (pos ((2 ^ 128 - 1 + 2 ^ 65) % 2 ^ 128)) (pos (2 ^ 128 - 1)) (pos 7)
    ≡ ok (pos 14)
fee_owed_delta-wraps_example =
    fee_owed_delta-wraps plain_sdk plain_sdk-IsSdk (2 ^ 128 - 1) (2 ^ 65) 7 (omega arith)
      (omega arith)

-- A bundle whose first ten positions are open.
abbrev ten_open : PositionBundleData ℕ
ten_open = record { position_bundle_mint = 1; position_bitmap = 255 ∷ 3 ∷ replicate 30 0 }

ten_free : find_unoccupied_bundle_index ten_open ≡ some 10
unfolding find_unoccupied_bundle_index get_unoccupied_bundle_indexes convert_bitmap_to_array
ten_free = refl

find_unoccupied_bundle_index-free_example :
    (10 < 256) × (is_occupied ten_open (pos 10) ≡ ok (some false)) × (is_full ten_open ≡ false)
find_unoccupied_bundle_index-free_example =
    find_unoccupied_bundle_index-free ten_open 10 refl ten_free

get_token_a-get_liquidity_example :
    (l cost : ℕ) × (get_liquidity_from_token_a plain_sdk
        (pos 1_000)
        (pos (2 ^ 63))
        (pos (2 ^ 64))
        false
      ≡ ok (pos l))
    × (get_token_a_from_liquidity plain_sdk (pos l) (pos (2 ^ 63)) (pos (2 ^ 64)) true
        ≡ ok (pos cost))
    × (cost ≤ 1_000)
get_token_a-get_liquidity_example =
    get_token_a-get_liquidity plain_sdk plain_sdk-IsSdk 1_000 (2 ^ 63) (2 ^ 64) (omega arith)
      (omega arith)
