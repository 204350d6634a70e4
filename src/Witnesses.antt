-- ===== src/Witnesses.antt =====
-- The theorems at concrete inputs.
mod Quotes
mod Swaps
mod Liquidity
mod Pool
mod Routes
mod Ranking
mod Graph
mod Ticks
mod DevFee
mod Outputs
mod Hops
mod Search
use whirlpools.Prelude.{
  ℕ, suc, ◌<◌, ◌≤◌, ◌≡◌, refl, ◌^◌, ◌*◌, ◌+◌, Bool, true, false, ℤ, pos, negsuc, ◌+ℤ◌, ◌-ℤ◌, ◌*ℤ◌,
  some, List, [], ◌∷◌, ◌++◌, replicate, ◌≢◌, ◌≤ℤ◌, min, arith, ◌/◌, ◌-◌,
}
use whirlpools.Errors.{Result, ok, err, out_of_fuel}
use whirlpools.Sdk.{plain_sdk, plain_sdk-IsSdk}
use whirlpools.BitMath.{
  mul_div_round_up_if, mul_div, mul_div_round_up, div_round_up_if, div_round_up, is_over_limit, mul,
  should_round_up, checked_mul_shift_right_round_up_if, checked_mul_shift_right,
}
use whirlpools.TokenMath.{
  get_amount_delta_a, get_amount_delta_b, get_next_sqrt_price, get_next_sqrt_price_from_a_round_up,
  get_next_sqrt_price_from_b_round_down, adjust_for_slippage,
}
use whirlpools.SwapMath.{
  SwapStep, compute_swap_step, get_amount_fixed_delta, get_amount_unfixed_delta, amount_after_fee,
  fee_of_step,
}
use whirlpools.BitMath.Bounds.{
  mul_div_round_up_if_lem, div_round_up_if_lem, checked_mul_shift_right_round_up_if_lem,
  round_up-not_ceil,
}
use whirlpools.TokenMath.Amounts.{get_amount_delta_a_lem, get_amount_delta_b_down}
use whirlpools.TokenMath.Slippage.{percentage, adjust_for_slippage_bounds}
use whirlpools.SwapMath.Within.{Heads, compute_swap_step-stays_within}
use whirlpools.SwapMath.Spent.{Spends, compute_swap_step-Spends}
use whirlpools.TransferFee.{
  TransferFee, SplToken, IsSplToken, FeeAmount, add_transfer_fee, take_transfer_fee, ceil_div_bn,
}
use whirlpools.TransferFee.RoundTrip.{fee_of, take-add_transfer_fee}
use whirlpools.TickUtil.{get_initializable_tick_index, is_tick_initializable}
use whirlpools.TickUtil.Initializable.{Near, get_initializable_tick_index-rounds}
use whirlpools.TickArrayIndex.{
  from_tick_index, to_tick_index, to_prev_initializable_tick_index, TickArrayIndex,
}
use whirlpools.TickArrayIndex.Split.{at}
use whirlpools.TickArrayIndex.Steps.{Holds, from_tick_index-Holds, from-to_tick_index}
use whirlpools.AnchorTypes.{TickData}
use whirlpools.TickArraySequence.{
  TickArraySequence, NextTick, InitializedTickArray, find_next_initialized_tick_index, search,
  get_tick, step_index, is_array_index_in_bounds, get_local_array_index,
  check_if_index_is_in_tick_array_range,
}
use whirlpools.TickArraySequence.Search.{
  find_next_initialized_tick_index-ends, find_next_initialized_tick_index-found,
}
use whirlpools.SwapManager.{calculate_fees}
use whirlpools.SwapManager.Fees.{calculate_fees-no_share}
use whirlpools.AnchorTypes.{WhirlpoolData, TickArray}
use whirlpools.TransferFee.{
  calculate_transfer_fee_excluded_amount, calculate_transfer_fee_included_amount,
}
use whirlpools.TickArraySequence.{new_tick_array_sequence, is_valid_tick_array0, get_touched_arrays}
use whirlpools.SwapManager.{
  compute_swap, swap_loop, swap_round, calculate_est_tokens, remaining_after, calculated_after,
  cross_tick, get_next_sqrt_prices, calculate_protocol_fee, calculate_next_liquidity,
}
use whirlpools.PriceMath.{
  sqrt_price_x64_to_tick_index, tick_index_in_range, tick_index_to_sqrt_price_x64,
  tick_index_to_sqrt_price_positive, tick_index_to_sqrt_price_negative, scale, signed_shift_right,
  signed_shift_left,
}
use whirlpools.SwapQuote.{SwapQuoteParam, SwapQuote, finish, simulate_exact_in, simulate_swap}
use whirlpools.SwapQuote.Accepts.{Accepts, simulate_swap-Accepts}
use whirlpools.FeesQuote.{fee_growth_below, fee_growth_inside, fee_growth_above, fee_owed_delta}
use whirlpools.PositionBundle.{
  PositionBundleData, get_occupied_bundle_indexes, get_unoccupied_bundle_indexes,
  find_unoccupied_bundle_index, is_occupied, is_full,
}
use whirlpools.PositionBundle.Indexes.{bundle_indexes-add_up, find_unoccupied_bundle_index-free}
use whirlpools.PositionUtil.{
  get_liquidity_from_token_a, get_liquidity_from_token_b, get_token_a_from_liquidity,
  get_token_b_from_liquidity,
}
use whirlpools.PositionUtil.Deposits.{get_token_a-get_liquidity, get_token_b-get_liquidity}

-- A step that sells 1_000_000 units of token A at the price one, down to a quarter.
abbrev sold : SwapStep
sold = record {
  amount_in = pos 997000;
  amount_out = pos 996006;
  next_price = pos 18428370987834680440;
  fee_amount = pos 3000;
}

sold_is :
    compute_swap_step plain_sdk
      (pos 1_000_000)
      (pos 3_000)
      (pos 1_000_000_000)
      (pos (2 ^ 64))
      (pos (2 ^ 63))
      true
      true
    ≡ ok sold
unfolding compute_swap_step get_amount_fixed_delta get_amount_unfixed_delta amount_after_fee
    fee_of_step get_amount_delta_a get_amount_delta_b get_next_sqrt_price
    get_next_sqrt_price_from_a_round_up get_next_sqrt_price_from_b_round_down mul_div_round_up_if
    mul_div mul_div_round_up div_round_up_if div_round_up is_over_limit mul should_round_up
    checked_mul_shift_right_round_up_if checked_mul_shift_right ◌+ℤ◌ ◌-ℤ◌ ◌*ℤ◌
sold_is = refl

compute_swap_step-stays_within_example :
    (n : ℕ) × (sold.next_price ≡ pos n) × Heads true (2 ^ 64) n × Heads true n (2 ^ 63)
compute_swap_step-stays_within_example =
    compute_swap_step-stays_within plain_sdk plain_sdk-IsSdk 1_000_000 3_000 1_000_000_000 (2 ^ 64)
      (2 ^ 63) true true {s = sold} (omega arith) (omega arith) sold_is

compute_swap_step-Spends_example : Spends 1_000_000 (2 ^ 63) sold
compute_swap_step-Spends_example =
    compute_swap_step-Spends plain_sdk plain_sdk-IsSdk 1_000_000 3_000 1_000_000_000 (2 ^ 64)
      (2 ^ 63) {s = sold} (omega arith) (omega arith) sold_is

-- Two tick arrays of spacing 8, with one initialized tick, at -80.
abbrev pub tick : Bool → TickData
tick b = record {
  initialized = b;
  liquidity_net = pos 5;
  liquidity_gross = pos 5;
  fee_growth_outside_a = pos 0;
  fee_growth_outside_b = pos 0;
  reward_growths_outside = [];
}

abbrev pub array_from : ℤ → List TickData → InitializedTickArray ℕ
array_from start ticks = record {
  address = 1;
  tick_array_data = record { whirlpool = 0; start_tick_index = start; ticks = ticks };
}

abbrev pub two_arrays : Bool → Bool → TickArraySequence ℕ
two_arrays b touched = record {
  sequence =
      array_from (pos 0) (replicate 88 (tick false))
      ∷ array_from (negsuc 703)
          (replicate 78 (tick false) ++ (tick true ∷ replicate 9 (tick false)))
      ∷ [];
  touched_arrays = touched ∷ touched ∷ [];
  start_array_index = pos 0;
  tick_spacing = 8;
  a_to_b = b;
}

find_next_initialized_tick_index-ends_example :
    find_next_initialized_tick_index (two_arrays false false) (pos 3) ≢ err out_of_fuel
find_next_initialized_tick_index-ends_example =
    find_next_initialized_tick_index-ends (two_arrays false false) (pos 3) (omega arith)

abbrev pub at_minus_80 : NextTick
at_minus_80 = record { next_index = negsuc 79; next_tick_data = some (tick true) }

pub found_is :
    find_next_initialized_tick_index (two_arrays true false) (pos 3)
    ≡ ok (at_minus_80, two_arrays true true)
unfolding find_next_initialized_tick_index search get_tick step_index is_array_index_in_bounds
    get_local_array_index check_if_index_is_in_tick_array_range from_tick_index to_tick_index
    to_prev_initializable_tick_index ◌+ℤ◌ ◌-ℤ◌ ◌*ℤ◌
found_is = refl

find_next_initialized_tick_index-found_example :
    ((tick true).initialized ≡ true) × (negsuc 79 ≤ℤ pos 3)
find_next_initialized_tick_index-found_example =
    find_next_initialized_tick_index-found (two_arrays true false) (two_arrays true true) (pos 3)
      at_minus_80 (tick true) (omega arith) found_is refl

from-to_tick_index_example :
    from_tick_index (to_tick_index (at (negsuc 2) 5 8)) 8 ≡ ok (at (negsuc 2) 5 8)
from-to_tick_index_example = from-to_tick_index 8 (omega arith) (negsuc 2) 5 (omega arith)

from_tick_index-Holds_example :
    (t : TickArrayIndex) × (from_tick_index (negsuc 0) 64 ≡ ok t) × Holds (negsuc 0) 64 t
from_tick_index-Holds_example = from_tick_index-Holds (negsuc 0) 64 (omega arith)

-- A mint whose fee is a share of the amount in basis points.
abbrev fee_of_amount : TransferFee → ℤ → ℤ
fee_of_amount fee (pos n) = elim fee.transfer_fee_basis_points [
  | pos points ↦ elim fee.maximum_fee [
    | pos most ↦ pos (min ((n * points + (10_000 - 1)) / 10_000) most)
    | negsuc most ↦ pos 0
  ]
  | negsuc points ↦ pos 0
]
fee_of_amount fee (negsuc n) = pos 0

abbrev pub plain_spl : SplToken ℕ ℕ
plain_spl = record {
  get_transfer_fee_config = λ mint. some mint;
  get_epoch_fee = λ config epoch. fee_of 5_000 100;
  calculate_fee = fee_of_amount;
}

pub plain_spl-IsSplToken : IsSplToken plain_spl
plain_spl-IsSplToken = record { calculate_fee_is = λ most points n. refl }

abbrev with_fee : FeeAmount
with_fee = record { amount = pos 101_011; fee = pos 1_011 }

added_is : add_transfer_fee plain_sdk (fee_of 5_000 100) (pos 100_000) ≡ ok with_fee
unfolding add_transfer_fee ceil_div_bn ◌+ℤ◌ ◌-ℤ◌ ◌*ℤ◌
added_is = refl

take-add_transfer_fee_example :
    take_transfer_fee plain_spl (fee_of 5_000 100) (pos 101_011)
    ≡ record { amount = pos 100_000; fee = pos 1_011 }
take-add_transfer_fee_example =
    take-add_transfer_fee plain_sdk 5_000 100 100_000 (omega arith) {r = with_fee} added_is
      plain_spl plain_spl-IsSplToken

round_up-not_ceil_example :
    (checked_mul_shift_right_round_up_if plain_sdk (pos 3) (pos 4) true 128 ≡ ok (pos 0))
    × (checked_mul_shift_right_round_up_if plain_sdk (pos 5) (pos (2 ^ 64)) true 128 ≡ ok (pos 6))
round_up-not_ceil_example =
    round_up-not_ceil plain_sdk plain_sdk-IsSdk 3 4 5 (omega arith) (omega arith) (omega arith)

adjust_for_slippage_bounds_example :
    (up down : ℕ) × (adjust_for_slippage (pos 1_000) (percentage 1 100) true ≡ ok (pos up))
    × (adjust_for_slippage (pos 1_000) (percentage 1 100) false ≡ ok (pos down))
    × (1_000 ≤ up)
    × (down ≤ 1_000)
    × (up * 100 ≤ 1_000 * 101)
    × (1_000 * 101 < suc up * 100)
    × (down * 101 ≤ 1_000 * 100)
    × (1_000 * 100 < suc down * 101)
adjust_for_slippage_bounds_example = adjust_for_slippage_bounds 1_000 1 100 (omega arith)

calculate_fees-no_share_example :
    calculate_fees (pos 3_000) (pos 300) (pos 1_000) (pos 0) (pos 7)
    ≡ ok (record { next_protocol_fee = pos 0; next_fee_growth_global_input = pos (7 + 3 * 2 ^ 64) })
calculate_fees-no_share_example = calculate_fees-no_share 3_000 300 1_000 7 (omega arith)

get_initializable_tick_index-rounds_example :
    (is_tick_initializable (get_initializable_tick_index (negsuc 0) 64) 64 ≡ true)
    × Near (negsuc 0) 64 (get_initializable_tick_index (negsuc 0) 64)
get_initializable_tick_index-rounds_example =
    get_initializable_tick_index-rounds (negsuc 0) 64 (omega arith)
