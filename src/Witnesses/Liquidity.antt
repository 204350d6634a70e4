-- ===== src/Witnesses/Liquidity.antt =====
-- The theorems on prices, on liquidity and on the accounts of a swap at concrete inputs.
use whirlpools.Prelude.{
  ℕ, ◌≤◌, ◌<◌, ◌≡◌, ◌==◌, refl, ◌^◌, Bool, true, false, Option, none, some, is_defined, [], ◌∷◌,
  map, arith, ℤ, pos, negsuc, ◌+ℤ◌, ◌-ℤ◌, ◌*ℤ◌,
}
use whirlpools.Errors.{ok}
use whirlpools.Bn.{quot}
use whirlpools.BitMath.{mul_div, mul_div_round_up_if, mul, is_over_limit}
use whirlpools.Sdk.{plain_sdk, plain_sdk-IsSdk}
use whirlpools.AnchorTypes.{
  TickData, TickArrayData, WhirlpoolData, PositionData, WhirlpoolRewardInfoData,
}
use whirlpools.TokenMath.Slippage.{percentage}
use whirlpools.TokenMath.{adjust_for_slippage}
use whirlpools.PriceMath.{
  tick_index_to_sqrt_price_x64, tick_index_to_sqrt_price_positive,
  tick_index_to_sqrt_price_negative, scale, signed_shift_right, signed_shift_left,
  sqrt_price_x64_to_tick_index, tick_index_in_range,
}
use whirlpools.PriceMath.Range.{tick_index_to_sqrt_price_x64-returns}
use whirlpools.TickUtil.{get_start_tick_index}
use whirlpools.TickArraySequence.{InitializedTickArray, TickArraySequence, is_valid_tick_array0}
use whirlpools.PositionUtil.{get_strict_position_status, get_liquidity_from_token_a}
use whirlpools.TransferFee.{calculate_transfer_fee_excluded_amount, take_transfer_fee}
use whirlpools.LiquidityQuote.Decrease
use whirlpools.LiquidityQuote.Increase
use whirlpools.LiquidityQuote.Amounts.{Estimates, withdrawal-deposit}
use whirlpools.LiquidityQuote.InputToken.{
  IncreaseLiquidityQuoteParam, get_liquidity_from_input_token,
}
use whirlpools.LiquidityQuote.Deposit.{by_liquidity, get_liquidity_from_input_token-estimates}
use whirlpools.LiquidityQuote.SlippageBound.{
  DecimalJs, SlippageBound, get_slippage_bound_for_sqrt_price,
}
use whirlpools.SwapQuote.{SwapQuote}
use whirlpools.SwapQuote.WithParams.{swap_quote_with_params}
use whirlpools.SwapQuote.Threshold.{LeavesRoom, swap_quote_with_params-LeavesRoom}
use whirlpools.SwapUtils.{
  TickArrayRequest, get_tick_array_public_keys, get_batch_tick_arrays,
  calculate_swap_amounts_from_quote,
}
use whirlpools.SwapUtils.Batch.{arrays_of, get_batch_tick_arrays-each}
use whirlpools.SwapUtils.First.{is_valid_tick_array0-first}
use whirlpools.RewardsQuote.{
  CollectRewardsQuoteParam, CollectRewardsQuote, is_reward_initialized, collect_rewards_quote,
  reward_entry, reward_owed_for, adjusted_reward_growth, reward_growths_below, reward_growths_above,
}
use whirlpools.RewardsQuote.Entries.{collect_rewards_quote-initialized}
use whirlpools.Witnesses.{plain_spl}
use whirlpools.Witnesses.Quotes.{sale, sale_quote, sale_is}

tick_index_to_sqrt_price_x64-returns_example :
    (p : ℕ) × (tick_index_to_sqrt_price_x64 (pos 100) ≡ ok (pos p)) × (0 < p) × (2 ^ 64 ≤ p)
tick_index_to_sqrt_price_x64-returns_example = tick_index_to_sqrt_price_x64-returns (pos 100)

withdrawal-deposit_example :
    Estimates plain_sdk plain_sdk-IsSdk
      (Decrease.get_token_estimates_from_liquidity plain_sdk (record {
        liquidity = pos 1_000_000;
        tick_current_index = pos 0;
        sqrt_price = pos (2 ^ 64);
        tick_lower_index = negsuc 99;
        tick_upper_index = pos 100;
        token_extension_ctx = sale.token_extension_ctx;
        slippage_tolerance = percentage 1 100;
      }))
      (Increase.get_token_estimates_from_liquidity plain_sdk (record {
        liquidity = pos 1_000_000;
        tick_current_index = pos 0;
        sqrt_price = pos (2 ^ 64);
        tick_lower_index = negsuc 99;
        tick_upper_index = pos 100;
        token_extension_ctx = sale.token_extension_ctx;
        slippage_tolerance = percentage 1 100;
      }))
withdrawal-deposit_example =
    withdrawal-deposit plain_sdk plain_sdk-IsSdk 1_000_000 (2 ^ 64) (pos 0) (negsuc 99) (pos 100)
      sale.token_extension_ctx (percentage 1 100) (omega arith)

abbrev equal_keys : ℕ → ℕ → Bool
equal_keys a b = a == b

abbrev deposit_of_a : IncreaseLiquidityQuoteParam ℕ ℕ
deposit_of_a = record {
  input_token_amount = pos 1_000_000;
  input_token_mint = 1;
  token_mint_a = 1;
  token_mint_b = 3;
  tick_current_index = pos 0;
  sqrt_price = pos (2 ^ 64);
  tick_lower_index = negsuc 99;
  tick_upper_index = pos 100;
  token_extension_ctx = sale.token_extension_ctx;
  slippage_tolerance = percentage 1 100;
}

get_liquidity_from_input_token-estimates_example :
    (a b : ℕ) × (Increase.get_token_estimates_from_liquidity plain_sdk
        (by_liquidity equal_keys plain_sdk plain_sdk-IsSdk plain_spl deposit_of_a (pos 199_507_864))
      ≡ ok (pos a, pos b))
    × (a ≤ 995_000)
unfolding get_liquidity_from_input_token get_strict_position_status get_liquidity_from_token_a
    tick_index_to_sqrt_price_x64 tick_index_to_sqrt_price_positive tick_index_to_sqrt_price_negative
    scale signed_shift_right calculate_transfer_fee_excluded_amount take_transfer_fee ◌+ℤ◌ ◌-ℤ◌ ◌*ℤ◌
get_liquidity_from_input_token-estimates_example =
    get_liquidity_from_input_token-estimates equal_keys plain_sdk plain_sdk-IsSdk plain_spl
      deposit_of_a 995_000 995_000 (2 ^ 64) 199_507_864 refl refl refl refl (omega arith)

-- Whole numbers as the decimals, with the root left out.
abbrev whole_numbers : DecimalJs ℤ
whole_numbers = record {
  from_bn = λ n. n;
  add = λ a b. a +ℤ b;
  sub = λ a b. a -ℤ b;
  mul = λ a b. a *ℤ b;
  div = quot;
  sqrt = λ a. a;
  to_whole = λ a. a;
  to_bn = λ a. ok a;
}

abbrev near_one : SlippageBound
near_one = record {
  lower_sqrt_price = pos 18262276632972456099;
  lower_tick_index = negsuc 201;
  upper_sqrt_price = pos 18631211514446647132;
  upper_tick_index = pos 199;
}

near_one_is :
    get_slippage_bound_for_sqrt_price whole_numbers (pos (2 ^ 64)) (percentage 1 100) ≡ ok near_one
unfolding get_slippage_bound_for_sqrt_price sqrt_price_x64_to_tick_index tick_index_in_range
    tick_index_to_sqrt_price_x64 tick_index_to_sqrt_price_positive tick_index_to_sqrt_price_negative
    scale signed_shift_right signed_shift_left ◌+ℤ◌ ◌-ℤ◌ ◌*ℤ◌
near_one_is = refl

abbrev adjusted_quote : SwapQuote ℕ
adjusted_quote = record {
  estimated_amount_in = sale_quote.estimated_amount_in;
  estimated_amount_out = sale_quote.estimated_amount_out;
  estimated_end_tick_index = sale_quote.estimated_end_tick_index;
  estimated_end_sqrt_price = sale_quote.estimated_end_sqrt_price;
  estimated_fee_amount = sale_quote.estimated_fee_amount;
  deducting_from_estimated_amount_in = sale_quote.deducting_from_estimated_amount_in;
  deducted_from_estimated_amount_out = sale_quote.deducted_from_estimated_amount_out;
  amount = sale_quote.amount;
  amount_specified_is_input = true;
  a_to_b = sale_quote.a_to_b;
  other_amount_threshold = pos 976_268;
  sqrt_price_limit = sale_quote.sqrt_price_limit;
  tick_array0 = sale_quote.tick_array0;
  tick_array1 = sale_quote.tick_array1;
  tick_array2 = sale_quote.tick_array2;
}

adjusted_quote_is :
    swap_quote_with_params plain_sdk plain_spl 5 sale (percentage 1 100) ≡ ok adjusted_quote
unfolding swap_quote_with_params calculate_swap_amounts_from_quote adjust_for_slippage ◌+ℤ◌ ◌*ℤ◌
adjusted_quote_is = rw sale_is (refl)

swap_quote_with_params-LeavesRoom_example :
    (t : ℕ) × (pos 976_268 ≡ pos t) × LeavesRoom true 1_000_000 986_031 1 100 t
swap_quote_with_params-LeavesRoom_example =
    swap_quote_with_params-LeavesRoom plain_sdk plain_spl 5 sale 1 100 1_000_000 986_031
      {q = adjusted_quote} (omega arith) adjusted_quote_is refl refl

-- The address of an array is its start index, and no array has data.
abbrev start_is_key : ℤ → ℤ → ℤ
start_is_key address start = start

abbrev no_data : ℤ → Option (TickArrayData ℤ)
no_data key = none

abbrev request : Bool → TickArrayRequest ℤ
request b = record {
  whirlpool_address = pos 7;
  a_to_b = b;
  tick_current_index = pos 3;
  tick_spacing = 8;
}

get_batch_tick_arrays-each_example :
    get_batch_tick_arrays start_is_key
      (λ keys. map no_data keys)
      (request true ∷ (request false ∷ []))
    ≡ arrays_of start_is_key no_data (request true)
      ∷ (arrays_of start_is_key no_data (request false) ∷ [])
get_batch_tick_arrays-each_example =
    get_batch_tick_arrays-each start_is_key no_data (λ keys. map no_data keys) (λ keys. refl)
      (request true ∷ (request false ∷ []))

-- A sequence of the array at the current tick alone.
abbrev first_array : InitializedTickArray ℤ
first_array = record {
  address = pos 0;
  tick_array_data = record { whirlpool = pos 7; start_tick_index = pos 0; ticks = [] };
}

abbrev one_array : TickArraySequence ℤ
one_array = record {
  sequence = first_array ∷ [];
  touched_arrays = false ∷ [];
  start_array_index = pos 0;
  tick_spacing = 8;
  a_to_b = true;
}

is_valid_tick_array0-first_example : is_valid_tick_array0 one_array (pos 3) ≡ ok true
unfolding get_tick_array_public_keys get_start_tick_index ◌+ℤ◌ ◌-ℤ◌ ◌*ℤ◌
is_valid_tick_array0-first_example =
    is_valid_tick_array0-first start_is_key (request true) (pos 0) (negsuc 703 ∷ negsuc 1407 ∷ [])
      one_array first_array (omega arith) (λ a b same. same) refl refl refl refl refl

-- A pool with one reward that is initialized.
abbrev reward_of : ℕ → WhirlpoolRewardInfoData ℕ
reward_of mint = record {
  mint = mint;
  vault = mint;
  authority = 5;
  emissions_per_second_x64 = pos (2 ^ 64);
  growth_global_x64 = pos 0;
}

abbrev rewarded_pool : WhirlpoolData ℕ
rewarded_pool = record {
  whirlpools_config = 0;
  whirlpool_bump = [];
  fee_rate = pos 3_000;
  protocol_fee_rate = pos 300;
  liquidity = pos 1_000;
  sqrt_price = pos (2 ^ 64);
  tick_current_index = pos 0;
  protocol_fee_owed_a = pos 0;
  protocol_fee_owed_b = pos 0;
  token_mint_a = 1;
  token_vault_a = 2;
  fee_growth_global_a = pos 0;
  token_mint_b = 3;
  token_vault_b = 4;
  fee_growth_global_b = pos 0;
  reward_last_updated_timestamp = pos 100;
  reward_infos = reward_of 9 ∷ (reward_of 0 ∷ (reward_of 0 ∷ []));
  tick_spacing = 8;
}

abbrev rewarded_position : PositionData ℕ
rewarded_position = record {
  whirlpool = 0;
  position_mint = 0;
  liquidity = pos 500;
  tick_lower_index = negsuc 79;
  tick_upper_index = pos 80;
  fee_growth_checkpoint_a = pos 0;
  fee_owed_a = pos 0;
  fee_growth_checkpoint_b = pos 0;
  fee_owed_b = pos 0;
  reward_infos = record { growth_inside_checkpoint = pos 0; amount_owed = pos 3 } ∷ [];
}

abbrev edge : TickData
edge = record {
  initialized = true;
  liquidity_net = pos 500;
  liquidity_gross = pos 500;
  fee_growth_outside_a = pos 0;
  fee_growth_outside_b = pos 0;
  reward_growths_outside = pos 0 ∷ (pos 0 ∷ (pos 0 ∷ []));
}

abbrev rewards : CollectRewardsQuoteParam ℕ ℕ
rewards = record {
  whirlpool = rewarded_pool;
  position = rewarded_position;
  tick_lower = edge;
  tick_upper = edge;
  token_extension_ctx = record {
    current_epoch = 0;
    reward_token_mints_with_program = some 9 ∷ (none ∷ (none ∷ []));
  };
  time_stamp_in_seconds = some (pos 200);
}

abbrev rewards_quote : CollectRewardsQuote
rewards_quote = record {
  reward_owed = some (pos 51) ∷ (none ∷ (none ∷ []));
  deducted_from_reward_owed = some (pos 1) ∷ (none ∷ (none ∷ []));
}

rewards_quote_is :
    collect_rewards_quote equal_keys 0 plain_sdk plain_spl (pos 0) rewards ≡ ok rewards_quote
unfolding collect_rewards_quote reward_entry reward_owed_for adjusted_reward_growth
    reward_growths_below reward_growths_above is_reward_initialized mul_div mul_div_round_up_if mul
    is_over_limit calculate_transfer_fee_excluded_amount take_transfer_fee ◌+ℤ◌ ◌-ℤ◌ ◌*ℤ◌
rewards_quote_is = refl

collect_rewards_quote-initialized_example :
    (map is_defined rewards_quote.reward_owed ≡ true ∷ (false ∷ (false ∷ [])))
    × (map is_defined rewards_quote.deducted_from_reward_owed ≡ true ∷ (false ∷ (false ∷ [])))
unfolding is_reward_initialized
collect_rewards_quote-initialized_example =
    collect_rewards_quote-initialized equal_keys 0 plain_sdk plain_spl (pos 0) rewards
      {q = rewards_quote} rewards_quote_is
