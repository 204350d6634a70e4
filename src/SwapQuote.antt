-- ===== src/SwapQuote.antt =====
-- quotes/swap/swap-quote-impl.ts: a swap quote, with the transfer fees of both tokens. `fuel` bounds
-- the rounds of `computeSwap`.
pub mod Branches
pub mod Accepts
pub mod WithParams
pub mod Combined
pub mod DevFee
pub mod Threshold
use whirlpools.Prelude.{
  ℕ, Bool, not, ◌&&◌, ◌||◌, if◌then◌else◌, ltb, Option, List, get_elem?, ℤ, pos, ltb_ℤ, eqb_ℤ,
}
use whirlpools.Errors.{swap, SwapErrorCode, Result, ok, ◌>>=◌, ◌>>◌, throw_if}
use whirlpools.Sdk.{Sdk}
use whirlpools.Constants.{max_sqrt_price, min_sqrt_price, max_swap_tick_arrays}
use whirlpools.AnchorTypes.{WhirlpoolData, TickArray}
use whirlpools.TransferFee.{
  SplToken, FeeAmount, TokenExtensionContext, calculate_transfer_fee_excluded_amount,
  calculate_transfer_fee_included_amount,
}
use whirlpools.TickArraySequence.{
  TickArraySequence, new_tick_array_sequence, is_valid_tick_array0, get_num_of_touched_arrays,
  get_touched_arrays,
}
use whirlpools.SwapManager.{SwapResult, compute_swap}

pub record SwapQuoteParam (Key Mint : Type 0) : Type 0 where
  pub whirlpool_data : WhirlpoolData Key
  pub token_amount : ℤ
  pub other_amount_threshold : ℤ
  pub sqrt_price_limit : ℤ
  pub a_to_b : Bool
  pub amount_specified_is_input : Bool
  pub tick_arrays : List (TickArray Key)
  pub token_extension_ctx : TokenExtensionContext Mint

-- NormalSwapQuote: SwapInput and SwapEstimates. A touched array that is missing is `none`.
pub record SwapQuote (Key : Type 0) : Type 0 where
  pub estimated_amount_in : ℤ
  pub estimated_amount_out : ℤ
  pub estimated_end_tick_index : ℤ
  pub estimated_end_sqrt_price : ℤ
  pub estimated_fee_amount : ℤ
  pub deducting_from_estimated_amount_in : ℤ
  pub deducted_from_estimated_amount_out : ℤ
  pub amount : ℤ
  pub amount_specified_is_input : Bool
  pub a_to_b : Bool
  pub other_amount_threshold : ℤ
  pub sqrt_price_limit : ℤ
  pub tick_array0 : Option Key
  pub tick_array1 : Option Key
  pub tick_array2 : Option Key

module _ {Key Mint : Type 0} where
  -- The mints of the token that is paid and of the token that is received.
  abbrev pub mint_in : SwapQuoteParam Key Mint → Mint
  mint_in params =
      if params.a_to_b
      then params.token_extension_ctx.token_mint_with_program_a
      else params.token_extension_ctx.token_mint_with_program_b

  abbrev pub mint_out : SwapQuoteParam Key Mint → Mint
  mint_out params =
      if params.a_to_b
      then params.token_extension_ctx.token_mint_with_program_b
      else params.token_extension_ctx.token_mint_with_program_a

  abbrev pub amount_in_of : SwapQuoteParam Key Mint → SwapResult → ℤ
  amount_in_of params results = if params.a_to_b then results.amount_a else results.amount_b

  abbrev pub amount_out_of : SwapQuoteParam Key Mint → SwapResult → ℤ
  amount_out_of params results = if params.a_to_b then results.amount_b else results.amount_a

  -- The end of both branches: the count of the touched arrays, and the quote.
  unfoldable pub finish :
      SwapQuoteParam Key Mint
      → SwapResult
      → TickArraySequence Key
      → FeeAmount
      → FeeAmount
      → Result (SwapQuote Key)
  finish params results tick_sequence paid received = do
    throw_if (ltb max_swap_tick_arrays (get_num_of_touched_arrays tick_sequence))
        (swap SwapErrorCode.tick_array_crossing_above_max)
    let touched_arrays = get_touched_arrays tick_sequence max_swap_tick_arrays
    ok (record {
      estimated_amount_in = paid.amount;
      estimated_amount_out = received.amount;
      estimated_end_tick_index = results.next_tick_index;
      estimated_end_sqrt_price = results.next_sqrt_price;
      estimated_fee_amount = results.total_fee_amount;
      deducting_from_estimated_amount_in = paid.fee;
      deducted_from_estimated_amount_out = received.fee;
      amount = params.token_amount;
      amount_specified_is_input = params.amount_specified_is_input;
      a_to_b = params.a_to_b;
      other_amount_threshold = params.other_amount_threshold;
      sqrt_price_limit = params.sqrt_price_limit;
      tick_array0 = get_elem? touched_arrays 0;
      tick_array1 = get_elem? touched_arrays 1;
      tick_array2 = get_elem? touched_arrays 2;
    })

module _ {Key Mint Config : Type 0} (sdk : Sdk) (spl : SplToken Mint Config) (fuel : ℕ) where
  -- The branch for an exact input.
  unfoldable pub simulate_exact_in :
      SwapQuoteParam Key Mint → TickArraySequence Key → Result (SwapQuote Key)
  simulate_exact_in params tick_sequence = do
    let epoch = params.token_extension_ctx.current_epoch
    let excluded_in =
        calculate_transfer_fee_excluded_amount spl params.token_amount (mint_in params) epoch
    throw_if (eqb_ℤ excluded_in.amount (pos 0)) (swap SwapErrorCode.zero_tradable_amount)
    swapped ←
        compute_swap sdk fuel params.whirlpool_data tick_sequence excluded_in.amount
          params.sqrt_price_limit params.amount_specified_is_input params.a_to_b
    let excluded_out =
        calculate_transfer_fee_excluded_amount spl (amount_out_of params swapped.0)
          (mint_out params) epoch
    throw_if (ltb_ℤ excluded_out.amount params.other_amount_threshold)
        (swap SwapErrorCode.amount_out_below_minimum)
    included_in ←
        if eqb_ℤ (amount_in_of params swapped.0) excluded_in.amount
        then ok (record { amount = params.token_amount; fee = excluded_in.fee })
        else calculate_transfer_fee_included_amount spl sdk (amount_in_of params swapped.0)
            (mint_in params) epoch
    finish params swapped.0 swapped.1 included_in excluded_out

  -- The branch for an exact output.
  unfoldable pub simulate_exact_out :
      SwapQuoteParam Key Mint → TickArraySequence Key → Result (SwapQuote Key)
  simulate_exact_out params tick_sequence = do
    let epoch = params.token_extension_ctx.current_epoch
    included_out ←
        calculate_transfer_fee_included_amount spl sdk params.token_amount (mint_out params) epoch
    swapped ←
        compute_swap sdk fuel params.whirlpool_data tick_sequence included_out.amount
          params.sqrt_price_limit params.amount_specified_is_input params.a_to_b
    included_in ←
        calculate_transfer_fee_included_amount spl sdk (amount_in_of params swapped.0)
          (mint_in params) epoch
    throw_if (ltb_ℤ params.other_amount_threshold included_in.amount)
        (swap SwapErrorCode.amount_in_above_maximum)
    let excluded_out =
        calculate_transfer_fee_excluded_amount spl (amount_out_of params swapped.0)
          (mint_out params) epoch
    finish params swapped.0 swapped.1 included_in excluded_out

  unfoldable pub simulate_swap : SwapQuoteParam Key Mint → Result (SwapQuote Key)
  simulate_swap params = do
    let limit = params.sqrt_price_limit
    let price = params.whirlpool_data.sqrt_price
    throw_if (ltb_ℤ max_sqrt_price limit || ltb_ℤ limit min_sqrt_price)
        (swap SwapErrorCode.sqrt_price_out_of_bounds)
    throw_if (params.a_to_b && ltb_ℤ price limit || not params.a_to_b && ltb_ℤ limit price)
        (swap SwapErrorCode.invalid_sqrt_price_limit_direction)
    throw_if (eqb_ℤ params.token_amount (pos 0)) (swap SwapErrorCode.zero_tradable_amount)
    tick_sequence ←
        new_tick_array_sequence params.tick_arrays params.whirlpool_data.tick_spacing params.a_to_b
    valid ← is_valid_tick_array0 tick_sequence params.whirlpool_data.tick_current_index
    throw_if (not valid) (swap SwapErrorCode.tick_array_sequence_invalid)
    if params.amount_specified_is_input
        then simulate_exact_in params tick_sequence
        else simulate_exact_out params tick_sequence
