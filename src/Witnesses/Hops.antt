-- ===== src/Witnesses/Hops.antt =====
-- The theorem on the quotes of the hops of a trade at a concrete input.
use whirlpools.Prelude.{
  ℕ, ◌+◌, ◌==◌, ◌≡◌, refl, Bool, true, false, if◌then◌else◌, Option, none, some, List, [], ◌∷◌, map,
  replicate, ℤ, pos, negsuc, ◌+ℤ◌, ◌-ℤ◌, ◌*ℤ◌,
}
use whirlpools.Prelude.Predicates.{All}
use whirlpools.Errors.{Error, Result, ok}
use whirlpools.Sdk.{plain_sdk}
use whirlpools.AnchorTypes.{WhirlpoolData, TickArrayData}
use whirlpools.BitMath.{
  mul_div_round_up_if, mul_div, mul_div_round_up, div_round_up_if, div_round_up, is_over_limit, mul,
  should_round_up, checked_mul_shift_right_round_up_if, checked_mul_shift_right,
}
use whirlpools.TokenMath.{
  adjust_for_slippage, get_amount_delta_a, get_amount_delta_b, get_next_sqrt_price,
  get_next_sqrt_price_from_a_round_up, get_next_sqrt_price_from_b_round_down,
}
use whirlpools.SwapMath.{
  compute_swap_step, get_amount_fixed_delta, get_amount_unfixed_delta, amount_after_fee,
  fee_of_step,
}
use whirlpools.TransferFee.{SplToken, add_transfer_fee, take_transfer_fee, ceil_div_bn}
use whirlpools.TickArrayIndex.{from_tick_index, to_tick_index, to_prev_initializable_tick_index}
use whirlpools.TickArraySequence.{
  last_index_in_array, find_next_initialized_tick_index, search, get_tick, step_index,
  is_array_index_in_bounds, get_local_array_index, check_if_index_is_in_tick_array_range,
}
use whirlpools.SwapManager.{calculate_fees}
use whirlpools.TransferFee.{
  SplToken, calculate_transfer_fee_excluded_amount, calculate_transfer_fee_included_amount,
}
use whirlpools.TickArraySequence.{new_tick_array_sequence, is_valid_tick_array0, get_touched_arrays}
use whirlpools.SwapManager.{
  compute_swap, swap_loop, swap_round, calculate_est_tokens, remaining_after, calculated_after,
  cross_tick, get_next_sqrt_prices, calculate_protocol_fee, calculate_next_liquidity,
}
use whirlpools.PriceMath.{
  sqrt_price_x64_to_tick_index, tick_index_in_range, tick_index_to_sqrt_price_x64,
  tick_index_to_sqrt_price_positive, tick_index_to_sqrt_price_negative, scale, signed_shift_right,
  signed_shift_left,
}
use whirlpools.SwapQuote.{finish, simulate_exact_in, simulate_swap}
use whirlpools.SwapQuote.WithParams.{swap_quote_with_params}
use whirlpools.SwapUtils.{
  get_token_type, get_swap_direction, get_batch_tick_arrays, get_tick_array_public_keys,
  get_default_sqrt_price_limit, get_default_other_amount_threshold,
  calculate_swap_amounts_from_quote,
}
use whirlpools.TickUtil.{get_start_tick_index}
use whirlpools.Text.{Text}
use whirlpools.Router.{TradePath, TradeHop, QuoteMap, RoutingOptions}
use whirlpools.Router.Requests.{
  Trade, entry_at, put_entry, update_path, update_paths, build_requests,
  build_quote_update_requests,
}
use whirlpools.Router.Quotes.{
  get_split_percentage_amts, split_from, sanitize_quote_map, prune_quotes, clean_quotes,
  clean_quote, successes, first_failure, sort_by, insert_by,
}
use whirlpools.Router.QuoteMaps.{
  get_quote_map, iteration, quote_hops, batch_build_swap_quote_params, batch_requests,
  batch_request, quote_params, quote_hop, populate_one, populate_quote_map,
}
use whirlpools.Router.QuoteMaps.Linked.{SpendsPart, get_quote_map-SpendsPart}
use whirlpools.Witnesses.{tick, array_from, plain_spl}
use whirlpools.Witnesses.Quotes.{pool, sale}

-- A pool of the mints 1 and 3, and one of the mints 3 and 5.
abbrev second_pool : WhirlpoolData ℕ
second_pool = record {
  whirlpools_config = 0;
  whirlpool_bump = [];
  fee_rate = pos 3_000;
  protocol_fee_rate = pos 300;
  liquidity = pos 1_000_000_000;
  sqrt_price = pool.sqrt_price;
  tick_current_index = pos 0;
  protocol_fee_owed_a = pos 0;
  protocol_fee_owed_b = pos 0;
  token_mint_a = 3;
  token_vault_a = 6;
  fee_growth_global_a = pos 0;
  token_mint_b = 5;
  token_vault_b = 7;
  fee_growth_global_b = pos 0;
  reward_last_updated_timestamp = pos 0;
  reward_infos = [];
  tick_spacing = 8;
}

abbrev pub pool_of : Text → Option (WhirlpoolData ℕ)
pool_of [] = none
pool_of (address ∷ rest) = if address == 9 then some pool else some second_pool

abbrev pub key_of : ℕ → ℤ → ℕ
key_of address (pos n) = n
key_of address (negsuc n) = 10_000 + n

abbrev data_of : ℕ → Option (TickArrayData ℕ)
data_of key =
    if key == 0
    then some (array_from (pos 0) (replicate 88 (tick false))).tick_array_data
    else if key == 10_703
    then some (array_from (negsuc 703) (replicate 88 (tick false))).tick_array_data
    else none

abbrev pub same_key : ℕ → ℕ → Bool
same_key a b = a == b

abbrev pub fetched : List ℕ → List (Option (TickArrayData ℕ))
fetched ks = map data_of ks

abbrev pub number_of : Text → ℕ
number_of [] = 0
number_of (n ∷ rest) = n

abbrev pub text_of : ℕ → Text
text_of n = n ∷ []

abbrev pub no_fees : SplToken ℕ ℕ
no_fees = record {
  get_transfer_fee_config = λ mint. none;
  get_epoch_fee = plain_spl.get_epoch_fee;
  calculate_fee = plain_spl.calculate_fee;
}

abbrev pub both_pools : TradePath
both_pools = record {
  start_token_mint = 1 ∷ [];
  end_token_mint = 5 ∷ [];
  edges = record { pool_address = 9 ∷ [] } ∷ record { pool_address = 8 ∷ [] } ∷ [];
}

abbrev pub sell_all : Trade
sell_all = record {
  token_in = 1 ∷ [];
  token_out = 5 ∷ [];
  trade_amount = pos 1_000_000;
  amount_specified_is_input = true;
}

abbrev pub one_part : RoutingOptions
one_part = record {
  percent_increment = 100;
  num_top_routes = 1;
  num_top_partial_quotes = 1;
  max_splits = 1;
}

abbrev pub outcome : Result (QuoteMap ℕ × List (Option Error))
outcome =
    get_quote_map plain_sdk no_fees 5 same_key key_of fetched pool_of number_of text_of
      sale.token_extension_ctx sell_all (both_pools ∷ []) true one_part

-- The swap in the first pool.
abbrev first_hop : TradeHop ℕ
first_hop = record {
  amount_in = pos 1_000_000;
  amount_out = pos 996_006;
  whirlpool = 9 ∷ [];
  input_mint = 1 ∷ [];
  output_mint = 3 ∷ [];
  mint_a = 1 ∷ [];
  mint_b = 3 ∷ [];
  vault_a = 2 ∷ [];
  vault_b = 4 ∷ [];
  quote = record {
    estimated_amount_in = pos 1_000_000;
    estimated_amount_out = pos 996_006;
    estimated_end_tick_index = negsuc 19;
    estimated_end_sqrt_price = pos 18_428_370_987_834_680_440;
    estimated_fee_amount = pos 3_000;
    deducting_from_estimated_amount_in = pos 0;
    deducted_from_estimated_amount_out = pos 0;
    amount = pos 1_000_000;
    amount_specified_is_input = true;
    a_to_b = true;
    other_amount_threshold = pos 996_006;
    sqrt_price_limit = pos 4_295_048_016;
    tick_array0 = some 0;
    tick_array1 = some 10_703;
    tick_array2 = some 10_703;
  };
  snapshot = record {
    a_to_b = true;
    sqrt_price = pos 18_446_744_073_709_551_616;
    fee_rate = record { numerator = pos 3_000; denominator = pos 1_000_000 };
  };
}

-- The swap in the second pool, of what the first gives out.
abbrev second_hop : TradeHop ℕ
second_hop = record {
  amount_in = pos 996_006;
  amount_out = pos 992_031;
  whirlpool = 8 ∷ [];
  input_mint = 3 ∷ [];
  output_mint = 5 ∷ [];
  mint_a = 3 ∷ [];
  mint_b = 5 ∷ [];
  vault_a = 6 ∷ [];
  vault_b = 7 ∷ [];
  quote = record {
    estimated_amount_in = pos 996_006;
    estimated_amount_out = pos 992_031;
    estimated_end_tick_index = negsuc 19;
    estimated_end_sqrt_price = pos 18_428_444_315_220_983_821;
    estimated_fee_amount = pos 2_989;
    deducting_from_estimated_amount_in = pos 0;
    deducted_from_estimated_amount_out = pos 0;
    amount = pos 996_006;
    amount_specified_is_input = true;
    a_to_b = true;
    other_amount_threshold = pos 992_031;
    sqrt_price_limit = pos 4_295_048_016;
    tick_array0 = some 0;
    tick_array1 = some 10_703;
    tick_array2 = some 10_703;
  };
  snapshot = record {
    a_to_b = true;
    sqrt_price = pos 18_446_744_073_709_551_616;
    fee_rate = record { numerator = pos 3_000; denominator = pos 1_000_000 };
  };
}

abbrev pub quotes : QuoteMap ℕ
quotes =
    (
      100,
      record {
        path = both_pools;
        edges_pool_addrs = (9 ∷ []) ∷ (8 ∷ []) ∷ [];
        split_percent = 100;
        amount_in = pos 1_000_000;
        amount_out = pos 992_031;
        calculated_edge_quotes = first_hop ∷ second_hop ∷ [];
      }
          ∷ [],
    )
    ∷ []

pub outcome_is : outcome ≡ ok (quotes, [])
unfolding get_quote_map iteration quote_hops build_quote_update_requests build_requests update_paths
    update_path entry_at put_entry batch_build_swap_quote_params batch_requests batch_request
    quote_params quote_hop populate_one populate_quote_map get_split_percentage_amts split_from
    sanitize_quote_map prune_quotes clean_quotes clean_quote successes first_failure sort_by
    insert_by get_token_type get_swap_direction get_batch_tick_arrays get_tick_array_public_keys
    get_default_sqrt_price_limit get_default_other_amount_threshold get_start_tick_index
    swap_quote_with_params calculate_swap_amounts_from_quote adjust_for_slippage simulate_swap
    simulate_exact_in finish new_tick_array_sequence is_valid_tick_array0 get_touched_arrays
    compute_swap swap_loop swap_round calculate_est_tokens remaining_after calculated_after
    cross_tick get_next_sqrt_prices calculate_fees calculate_protocol_fee calculate_next_liquidity
    calculate_transfer_fee_excluded_amount calculate_transfer_fee_included_amount take_transfer_fee
    add_transfer_fee ceil_div_bn find_next_initialized_tick_index search get_tick step_index
    is_array_index_in_bounds get_local_array_index check_if_index_is_in_tick_array_range
    from_tick_index to_tick_index to_prev_initializable_tick_index sqrt_price_x64_to_tick_index
    tick_index_in_range tick_index_to_sqrt_price_x64 tick_index_to_sqrt_price_positive
    tick_index_to_sqrt_price_negative scale signed_shift_right signed_shift_left compute_swap_step
    get_amount_fixed_delta get_amount_unfixed_delta amount_after_fee fee_of_step get_amount_delta_a
    get_amount_delta_b get_next_sqrt_price get_next_sqrt_price_from_a_round_up
    get_next_sqrt_price_from_b_round_down mul_div_round_up_if mul_div mul_div_round_up
    div_round_up_if div_round_up is_over_limit mul should_round_up
    checked_mul_shift_right_round_up_if checked_mul_shift_right last_index_in_array ◌+ℤ◌ ◌-ℤ◌ ◌*ℤ◌
outcome_is = refl

get_quote_map-SpendsPart_example :
    All
      (λ entry. All (SpendsPart (get_split_percentage_amts (pos 1_000_000) 100) entry.0) entry.1)
      quotes
get_quote_map-SpendsPart_example =
    get_quote_map-SpendsPart plain_sdk no_fees 5 same_key key_of fetched pool_of number_of text_of
      sale.token_extension_ctx sell_all (both_pools ∷ []) one_part quotes [] outcome_is
