-- ===== src/Witnesses/Outputs.antt =====
-- The theorems on the loop of a swap for an exact output, and on a step that overspends, at concrete
-- inputs.
use whirlpools.Prelude.{
  ℕ, ◌^◌, ◌≤◌, ◌≡◌, ◌⊎◌, inl, inr, refl, ap, sym, ◌∙◌, arith, true, false, pos, negsuc, ◌+ℤ◌, ◌-ℤ◌,
  ◌*ℤ◌,
}
use whirlpools.Errors.{Result, ok, ◌>>=◌, ok_injective}
use whirlpools.Sdk.{plain_sdk, plain_sdk-IsSdk}
use whirlpools.BitMath.{
  mul_div_round_up_if, mul_div, mul_div_round_up, div_round_up_if, div_round_up, is_over_limit, mul,
  should_round_up, checked_mul_shift_right_round_up_if,
}
use whirlpools.TokenMath.{
  get_amount_delta_a, get_amount_delta_b, get_next_sqrt_price, get_next_sqrt_price_from_a_round_up,
  get_next_sqrt_price_from_b_round_down,
}
use whirlpools.SwapMath.{
  compute_swap_step, get_amount_fixed_delta, get_amount_unfixed_delta, amount_after_fee,
  fee_of_step,
}
use whirlpools.TickArrayIndex.{from_tick_index, to_tick_index, to_prev_initializable_tick_index}
use whirlpools.TickArraySequence.{
  find_next_initialized_tick_index, search, get_tick, step_index, is_array_index_in_bounds,
  get_local_array_index, check_if_index_is_in_tick_array_range,
}
use whirlpools.PriceMath.{
  sqrt_price_x64_to_tick_index, tick_index_in_range, tick_index_to_sqrt_price_x64,
  tick_index_to_sqrt_price_positive, tick_index_to_sqrt_price_negative, scale, signed_shift_right,
  signed_shift_left,
}
use whirlpools.SwapManager.{
  SwapState, SwapArgs, args_of, start_of, result_of, goes_on, swap_round, compute_swap,
  remaining_after, calculated_after, cross_tick, get_next_sqrt_prices, calculate_fees,
  calculate_protocol_fee, calculate_next_liquidity,
}
use whirlpools.SwapManager.Ends.{Runs, Reached, at_start, then_round}
use whirlpools.SwapManager.Outputs.{IsUnsigned, compute_swap-ends_output}
use whirlpools.Witnesses.{two_arrays}
use whirlpools.Witnesses.Quotes.{pool}

abbrev args : SwapArgs
args = args_of plain_sdk pool (pos (2 ^ 63)) false true

abbrev before : SwapState ℕ
before = start_of plain_sdk pool (two_arrays true false) (pos 500_000) true

-- The first round gives out all that is asked for.
abbrev after : SwapState ℕ
after = record {
  amount_remaining = pos 0;
  amount_calculated = pos 501_757;
  curr_sqrt_price = pos 18_437_520_701_672_696_840;
  curr_liquidity = pos 1_000_000_000;
  curr_tick_index = negsuc 10;
  total_fee_amount = pos 1_506;
  curr_protocol_fee = pos 0;
  curr_fee_growth_global_input = pos 27_780_796_575_006;
  tick_sequence = two_arrays true true;
}

round_is : swap_round plain_sdk args before ≡ ok after
unfolding swap_round remaining_after calculated_after cross_tick get_next_sqrt_prices calculate_fees
    calculate_protocol_fee calculate_next_liquidity find_next_initialized_tick_index search get_tick
    step_index is_array_index_in_bounds get_local_array_index check_if_index_is_in_tick_array_range
    from_tick_index to_tick_index to_prev_initializable_tick_index sqrt_price_x64_to_tick_index
    tick_index_in_range tick_index_to_sqrt_price_x64 tick_index_to_sqrt_price_positive
    tick_index_to_sqrt_price_negative scale signed_shift_right signed_shift_left compute_swap_step
    get_amount_fixed_delta get_amount_unfixed_delta amount_after_fee fee_of_step get_amount_delta_a
    get_amount_delta_b get_next_sqrt_price get_next_sqrt_price_from_a_round_up
    get_next_sqrt_price_from_b_round_down mul_div_round_up_if mul_div mul_div_round_up
    div_round_up_if div_round_up is_over_limit mul should_round_up
    checked_mul_shift_right_round_up_if ◌+ℤ◌ ◌-ℤ◌ ◌*ℤ◌
round_is = refl

-- No other state than these two is reached.
places : {s : SwapState ℕ} → Reached plain_sdk args before s → (s ≡ before) ⊎ (s ≡ after)
places at_start = inl refl
places (then_round {s} {next} reached on is) = elim (places reached) [
  | inl first ↦ inr (ok_injective (sym (rw first at is) ∙ round_is))
  | inr last ↦ let on' : goes_on plain_sdk args after ≡ true = rw last at on in cc
]

unsigned : (s : SwapState ℕ) → Reached plain_sdk args before s → IsUnsigned s.curr_liquidity
unsigned s reached = elim (places reached) [
  | inl first ↦ (1_000_000_000, ap (λ (z : SwapState ℕ). z.curr_liquidity) first)
  | inr last ↦ (1_000_000_000, ap (λ (z : SwapState ℕ). z.curr_liquidity) last)
]

compute_swap-ends_output_example :
    (r : Result (SwapState ℕ)) × (k : ℕ) × Runs plain_sdk args k before r
    × (k ≤ 178)
    × (compute_swap plain_sdk 200 pool
          (two_arrays true false)
          (pos 500_000)
          (pos (2 ^ 63))
          false
          true
        ≡ (r >>= λ last. ok (result_of plain_sdk (pos 500_000) false true last)))
compute_swap-ends_output_example =
    compute_swap-ends_output plain_sdk plain_sdk-IsSdk 200 pool (two_arrays true false)
      (pos 500_000) (pos (2 ^ 63)) (omega arith) (omega arith) (omega arith) (2 ^ 64, refl) unsigned
      (omega arith)
