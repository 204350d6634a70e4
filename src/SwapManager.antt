-- ===== src/SwapManager.antt =====
-- quotes/swap/swap-manager.ts: the loop that computes a swap over the tick arrays.
pub mod Fees
pub mod Ends
pub mod Progress
pub mod Rounds
pub mod Outputs
use whirlpools.Prelude.{
  ℕ, zero, suc, Bool, true, false, not, ◌&&◌, eqb, if◌then◌else◌, ℤ, pos, ◌+ℤ◌, ◌-ℤ◌, ◌*ℤ◌, ltb_ℤ,
  eqb_ℤ, min_ℤ, max_ℤ,
}
use whirlpools.Errors.{out_of_fuel, Result, ok, err, ◌>>=◌}
use whirlpools.Bn.{div, shln}
use whirlpools.Sdk.{Sdk}
use whirlpools.Constants.{protocol_fee_rate_mul_value}
use whirlpools.AnchorTypes.{WhirlpoolData}
use whirlpools.SwapMath.{SwapStep, compute_swap_step}
use whirlpools.PriceMath.{tick_index_to_sqrt_price_x64, sqrt_price_x64_to_tick_index}
use whirlpools.TickArraySequence.{
  TickArraySequence, get_tick, find_next_initialized_tick_index, require,
}

pub record SwapResult : Type 0 where
  pub amount_a : ℤ
  pub amount_b : ℤ
  pub next_tick_index : ℤ
  pub next_sqrt_price : ℤ
  pub total_fee_amount : ℤ

-- The two values of `calculateFees`.
pub record NextFees : Type 0 where
  pub next_protocol_fee : ℤ
  pub next_fee_growth_global_input : ℤ

unfoldable pub calculate_protocol_fee : ℤ → ℤ → Result ℤ
unfolding ◌*ℤ◌
calculate_protocol_fee global_fee protocol_fee_rate =
    div protocol_fee_rate protocol_fee_rate_mul_value >>= λ share. ok (global_fee *ℤ share)

unfoldable pub calculate_fees : ℤ → ℤ → ℤ → ℤ → ℤ → Result NextFees
unfolding ◌+ℤ◌ ◌-ℤ◌
calculate_fees fee_amount protocol_fee_rate curr_liquidity curr_protocol_fee
      curr_fee_growth_global_input =
    let takes_fee = ltb_ℤ (pos 0) protocol_fee_rate in
    do
      global_fee ←
          if takes_fee
          then (calculate_protocol_fee fee_amount protocol_fee_rate >>= λ delta.
              ok (fee_amount -ℤ delta))
          else ok fee_amount
      let next_protocol_fee =
          if takes_fee then curr_protocol_fee +ℤ curr_protocol_fee else curr_protocol_fee
      next_fee_growth_global_input ←
          if ltb_ℤ (pos 0) curr_liquidity
          then (do
            shifted ← shln global_fee 64
            global_fee_increment ← div shifted curr_liquidity
            ok (curr_fee_growth_global_input +ℤ global_fee_increment))
          else ok curr_fee_growth_global_input
      ok (record {
        next_protocol_fee = next_protocol_fee;
        next_fee_growth_global_input = next_fee_growth_global_input;
      })

unfoldable pub calculate_next_liquidity : ℤ → ℤ → Bool → ℤ
unfolding ◌+ℤ◌ ◌-ℤ◌
calculate_next_liquidity tick_net_liquidity curr_liquidity a_to_b =
    if a_to_b then curr_liquidity -ℤ tick_net_liquidity else curr_liquidity +ℤ tick_net_liquidity

-- The two prices of `getNextSqrtPrices`: of the tick, and the one that the step aims at.
unfoldable pub get_next_sqrt_prices : ℤ → ℤ → Bool → Result (ℤ × ℤ)
get_next_sqrt_prices next_tick sqrt_price_limit a_to_b = do
  next_tick_price ← tick_index_to_sqrt_price_x64 next_tick
  ok (
    next_tick_price,
    if a_to_b
        then max_ℤ sqrt_price_limit next_tick_price
        else min_ℤ sqrt_price_limit next_tick_price,
  )

-- amountA and amountB of `calculateEstTokens`.
unfoldable pub calculate_est_tokens : ℤ → ℤ → ℤ → Bool → Bool → ℤ × ℤ
unfolding ◌-ℤ◌
calculate_est_tokens amount amount_remaining amount_calculated a_to_b amount_specified_is_input =
    if eqb a_to_b amount_specified_is_input
    then (amount -ℤ amount_remaining, amount_calculated)
    else (amount_calculated, amount -ℤ amount_remaining)

-- The variables of the loop.
pub record SwapState (Key : Type 0) : Type 0 where
  pub amount_remaining : ℤ
  pub amount_calculated : ℤ
  pub curr_sqrt_price : ℤ
  pub curr_liquidity : ℤ
  pub curr_tick_index : ℤ
  pub total_fee_amount : ℤ
  pub curr_protocol_fee : ℤ
  pub curr_fee_growth_global_input : ℤ
  pub tick_sequence : TickArraySequence Key

-- The arguments of `computeSwap` that the loop reads.
pub record SwapArgs : Type 0 where
  pub fee_rate : ℤ
  pub protocol_fee_rate : ℤ
  pub sqrt_price_limit : ℤ
  pub amount_specified_is_input : Bool
  pub a_to_b : Bool

module _ (args : SwapArgs) where
  -- What is left to trade after a step, and what the step adds to the other side.
  unfoldable pub remaining_after : ℤ → SwapStep → ℤ
  unfolding ◌-ℤ◌
  remaining_after amount_remaining step =
      if args.amount_specified_is_input
      then amount_remaining -ℤ step.amount_in -ℤ step.fee_amount
      else amount_remaining -ℤ step.amount_out

  unfoldable pub calculated_after : ℤ → SwapStep → ℤ
  unfolding ◌+ℤ◌
  calculated_after amount_calculated step =
      if args.amount_specified_is_input
      then amount_calculated +ℤ step.amount_out
      else amount_calculated +ℤ step.amount_in +ℤ step.fee_amount

module _ {Key : Type 0} (sdk : Sdk) (args : SwapArgs) where
  -- The condition of the loop.
  abbrev pub goes_on : SwapState Key → Bool
  goes_on s =
      ltb_ℤ (pos 0) s.amount_remaining && not (eqb_ℤ args.sqrt_price_limit s.curr_sqrt_price)

  -- Liquidity, tick index and sequence after a step that reached the tick's price, or not.
  unfoldable pub cross_tick :
      SwapState Key → TickArraySequence Key → ℤ → ℤ → ℤ → Result (ℤ × ℤ × TickArraySequence Key)
  unfolding ◌-ℤ◌
  cross_tick s sequence next_tick_index next_tick_price next_price =
      if eqb_ℤ next_price next_tick_price
      then (do
        got ← get_tick sequence next_tick_index
        next_tick ← require got.0
        ok (
          if next_tick.initialized
              then calculate_next_liquidity next_tick.liquidity_net s.curr_liquidity args.a_to_b
              else s.curr_liquidity,
          if args.a_to_b then next_tick_index -ℤ pos 1 else next_tick_index,
          got.1,
        ))
      else (do
        tick ← sqrt_price_x64_to_tick_index next_price
        ok (s.curr_liquidity, tick, sequence))

  -- The body of the loop.
  unfoldable pub swap_round : SwapState Key → Result (SwapState Key)
  unfolding ◌+ℤ◌
  swap_round s = do
    found ← find_next_initialized_tick_index s.tick_sequence s.curr_tick_index
    let next_tick_index = found.0.next_index
    prices ← get_next_sqrt_prices next_tick_index args.sqrt_price_limit args.a_to_b
    step ←
        compute_swap_step sdk s.amount_remaining args.fee_rate s.curr_liquidity s.curr_sqrt_price
          prices.1 args.amount_specified_is_input args.a_to_b
    fees ←
        calculate_fees step.fee_amount args.protocol_fee_rate s.curr_liquidity s.curr_protocol_fee
          s.curr_fee_growth_global_input
    crossed ← cross_tick s found.1 next_tick_index prices.0 step.next_price
    ok (record {
      amount_remaining = remaining_after args s.amount_remaining step;
      amount_calculated = calculated_after args s.amount_calculated step;
      curr_sqrt_price = step.next_price;
      curr_liquidity = crossed.0;
      curr_tick_index = crossed.1;
      total_fee_amount = s.total_fee_amount +ℤ step.fee_amount;
      curr_protocol_fee = fees.next_protocol_fee;
      curr_fee_growth_global_input = fees.next_fee_growth_global_input;
      tick_sequence = crossed.2;
    })

  -- The loop.
  unfoldable pub swap_loop : ℕ → SwapState Key → Result (SwapState Key)
  swap_loop zero s = err out_of_fuel
  swap_loop (suc fuel) s = elim (goes_on s) [
    | false ↦ ok s
    | true ↦ swap_round s >>= λ next. swap_loop fuel next
  ]

module _ {Key : Type 0} (sdk : Sdk) where
  abbrev pub args_of : WhirlpoolData Key → ℤ → Bool → Bool → SwapArgs
  args_of whirlpool_data sqrt_price_limit amount_specified_is_input a_to_b = record {
    fee_rate = whirlpool_data.fee_rate;
    protocol_fee_rate = whirlpool_data.protocol_fee_rate;
    sqrt_price_limit = sqrt_price_limit;
    amount_specified_is_input = amount_specified_is_input;
    a_to_b = a_to_b;
  }

  -- The variables before the loop.
  abbrev pub start_of : WhirlpoolData Key → TickArraySequence Key → ℤ → Bool → SwapState Key
  start_of whirlpool_data tick_sequence token_amount a_to_b = record {
    amount_remaining = token_amount;
    amount_calculated = pos 0;
    curr_sqrt_price = whirlpool_data.sqrt_price;
    curr_liquidity = whirlpool_data.liquidity;
    curr_tick_index = whirlpool_data.tick_current_index;
    total_fee_amount = pos 0;
    curr_protocol_fee = pos 0;
    curr_fee_growth_global_input =
        if a_to_b then whirlpool_data.fee_growth_global_a else whirlpool_data.fee_growth_global_b;
    tick_sequence = tick_sequence;
  }

  abbrev pub result_of : ℤ → Bool → Bool → SwapState Key → SwapResult × TickArraySequence Key
  result_of token_amount amount_specified_is_input a_to_b s =
      let amounts =
        calculate_est_tokens token_amount s.amount_remaining s.amount_calculated a_to_b
          amount_specified_is_input in
      (
        record {
          amount_a = amounts.0;
          amount_b = amounts.1;
          next_tick_index = s.curr_tick_index;
          next_sqrt_price = s.curr_sqrt_price;
          total_fee_amount = s.total_fee_amount;
        },
        s.tick_sequence,
      )

  -- The result, with the sequence as the swap leaves it.
  unfoldable pub compute_swap :
      ℕ
      → WhirlpoolData Key
      → TickArraySequence Key
      → ℤ
      → ℤ
      → Bool
      → Bool
      → Result (SwapResult × TickArraySequence Key)
  compute_swap fuel whirlpool_data tick_sequence token_amount sqrt_price_limit
        amount_specified_is_input a_to_b =
      do
        last ←
            swap_loop sdk (args_of whirlpool_data sqrt_price_limit amount_specified_is_input a_to_b)
              fuel (start_of whirlpool_data tick_sequence token_amount a_to_b)
        ok (result_of token_amount amount_specified_is_input a_to_b last)
