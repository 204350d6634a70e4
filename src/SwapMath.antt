-- ===== src/SwapMath.antt =====
-- utils/math/swap-math.ts: one step of a swap, inside a range of constant liquidity.
pub mod Parts
pub mod Within
pub mod Spent
pub mod Output
pub mod Overspend
use whirlpools.Prelude.{
  Bool, true, false, not, ◌&&◌, eqb, if◌then◌else◌, ℤ, ◌-ℤ◌, ltb_ℤ, leb_ℤ, eqb_ℤ,
}
use whirlpools.Errors.{Result, ok, ◌>>=◌}
use whirlpools.Sdk.{Sdk}
use whirlpools.Constants.{fee_rate_mul_value}
use whirlpools.BitMath.{mul_div, mul_div_round_up}
use whirlpools.TokenMath.{get_amount_delta_a, get_amount_delta_b, get_next_sqrt_price}

pub record SwapStep : Type 0 where
  pub amount_in : ℤ
  pub amount_out : ℤ
  pub next_price : ℤ
  pub fee_amount : ℤ

-- `amountCalc`: an exact input is first reduced by the fee.
unfoldable pub amount_after_fee : ℤ → ℤ → Bool → Result ℤ
unfolding ◌-ℤ◌
amount_after_fee amount_remaining fee_rate true =
    mul_div amount_remaining (fee_rate_mul_value -ℤ fee_rate) fee_rate_mul_value 128
amount_after_fee amount_remaining fee_rate false = ok amount_remaining

-- `feeAmount`: what is left of an input that does not reach the target, and otherwise a share
-- of the input amount.
unfoldable pub fee_of_step : ℤ → ℤ → ℤ → Bool → Result ℤ
unfolding ◌-ℤ◌
fee_of_step amount_remaining amount_in fee_rate true = ok (amount_remaining -ℤ amount_in)
fee_of_step amount_remaining amount_in fee_rate false =
    mul_div_round_up amount_in fee_rate (fee_rate_mul_value -ℤ fee_rate) 128

module _ (sdk : Sdk) where
  unfoldable pub get_amount_fixed_delta : ℤ → ℤ → ℤ → Bool → Bool → Result ℤ
  get_amount_fixed_delta curr_sqrt_price target_sqrt_price curr_liquidity is_input a_to_b =
      if eqb a_to_b is_input
      then get_amount_delta_a sdk curr_sqrt_price target_sqrt_price curr_liquidity is_input
      else get_amount_delta_b sdk curr_sqrt_price target_sqrt_price curr_liquidity is_input

  unfoldable pub get_amount_unfixed_delta : ℤ → ℤ → ℤ → Bool → Bool → Result ℤ
  get_amount_unfixed_delta curr_sqrt_price target_sqrt_price curr_liquidity is_input a_to_b =
      if eqb a_to_b is_input
      then get_amount_delta_b sdk curr_sqrt_price target_sqrt_price curr_liquidity (not is_input)
      else get_amount_delta_a sdk curr_sqrt_price target_sqrt_price curr_liquidity (not is_input)

  unfoldable pub compute_swap_step : ℤ → ℤ → ℤ → ℤ → ℤ → Bool → Bool → Result SwapStep
  compute_swap_step amount_remaining fee_rate curr_liquidity curr_sqrt_price target_sqrt_price
        is_input a_to_b =
      do
        initial_fixed_delta ←
            get_amount_fixed_delta curr_sqrt_price target_sqrt_price curr_liquidity is_input a_to_b
        amount_calc ← amount_after_fee amount_remaining fee_rate is_input
        next_sqrt_price ←
            if leb_ℤ initial_fixed_delta amount_calc
            then ok target_sqrt_price
            else get_next_sqrt_price curr_sqrt_price curr_liquidity amount_calc is_input a_to_b
        let is_max_swap = eqb_ℤ next_sqrt_price target_sqrt_price
        amount_unfixed_delta ←
            get_amount_unfixed_delta curr_sqrt_price next_sqrt_price curr_liquidity is_input a_to_b
        amount_fixed_delta ←
            if is_max_swap
            then ok initial_fixed_delta
            else get_amount_fixed_delta curr_sqrt_price next_sqrt_price curr_liquidity is_input
                a_to_b
        let amount_in = if is_input then amount_fixed_delta else amount_unfixed_delta
        let raw_out = if is_input then amount_unfixed_delta else amount_fixed_delta
        let amount_out =
            if not is_input && ltb_ℤ amount_remaining raw_out then amount_remaining else raw_out
        fee_amount ← fee_of_step amount_remaining amount_in fee_rate (is_input && not is_max_swap)
        ok (record {
          amount_in = amount_in;
          amount_out = amount_out;
          next_price = next_sqrt_price;
          fee_amount = fee_amount;
        })
