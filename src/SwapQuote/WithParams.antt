-- ===== src/SwapQuote/WithParams.antt =====
-- quotes/public/swap-quote.ts: a swap quote with its threshold by slippage, and
-- the parameters of a quote by one token.
use whirlpools.Prelude.{ℕ, Bool, true, false, Option, none, some, is_defined, List, ℤ}
use whirlpools.Errors.{Result, ok, ◌>>=◌, ◌>>◌, invariant}
use whirlpools.Sdk.{Sdk}
use whirlpools.AnchorTypes.{WhirlpoolData, TickArrayData}
use whirlpools.TokenMath.{Percentage}
use whirlpools.TransferFee.{SplToken, TokenExtensionContext}
use whirlpools.TickArraySequence.{require}
use whirlpools.SwapUtils.{
  SwapDirection, SwapAmounts, get_token_type, get_swap_direction, get_tick_arrays,
  get_default_sqrt_price_limit, get_default_other_amount_threshold,
  calculate_swap_amounts_from_quote,
}
use whirlpools.SwapQuote.{SwapQuoteParam, SwapQuote, simulate_swap}

abbrev pub is_a_to_b : Option SwapDirection → Bool
is_a_to_b none = false
is_a_to_b (some SwapDirection.a_to_b) = true
is_a_to_b (some SwapDirection.b_to_a) = false

-- `{ ...quote, ...amounts }`
abbrev pub with_amounts : {Key : Type 0} → SwapQuote Key → SwapAmounts → SwapQuote Key
with_amounts quote amounts = record {
  estimated_amount_in = quote.estimated_amount_in;
  estimated_amount_out = quote.estimated_amount_out;
  estimated_end_tick_index = quote.estimated_end_tick_index;
  estimated_end_sqrt_price = quote.estimated_end_sqrt_price;
  estimated_fee_amount = quote.estimated_fee_amount;
  deducting_from_estimated_amount_in = quote.deducting_from_estimated_amount_in;
  deducted_from_estimated_amount_out = quote.deducted_from_estimated_amount_out;
  amount = amounts.amount;
  amount_specified_is_input = quote.amount_specified_is_input;
  a_to_b = quote.a_to_b;
  other_amount_threshold = amounts.other_amount_threshold;
  sqrt_price_limit = quote.sqrt_price_limit;
  tick_array0 = quote.tick_array0;
  tick_array1 = quote.tick_array1;
  tick_array2 = quote.tick_array2;
}

module _ {Key Mint Config : Type 0} (sdk : Sdk) (spl : SplToken Mint Config) (fuel : ℕ) where
  unfoldable pub swap_quote_with_params :
      SwapQuoteParam Key Mint → Percentage → Result (SwapQuote Key)
  swap_quote_with_params params slippage_tolerance = do
    quote ← simulate_swap sdk spl fuel params
    amounts ←
        calculate_swap_amounts_from_quote quote.amount quote.estimated_amount_in
          quote.estimated_amount_out slippage_tolerance quote.amount_specified_is_input
    ok (with_amounts quote amounts)

  module _ (equals : Key → Key → Bool) (get_tick_array : Key → ℤ → Key)
      (fetch : List Key → List (Option (TickArrayData Key)))
      (ctx : TokenExtensionContext Mint) where
    -- What the fetcher and buildTokenExtensionContext return stands in `fetch` and `ctx`.
    unfoldable pub swap_quote_by_token :
        WhirlpoolData Key → Key → Key → ℤ → Bool → Result (SwapQuoteParam Key Mint)
    swap_quote_by_token whirlpool_data address swap_mint_key token_amount
          amount_specified_is_input =
        do
          invariant (is_defined (get_token_type equals whirlpool_data swap_mint_key))
          let from_a_to_b =
              is_a_to_b
                (get_swap_direction equals whirlpool_data swap_mint_key amount_specified_is_input)
          tick_arrays ← require (
              get_tick_arrays get_tick_array fetch (record {
                whirlpool_address = address;
                a_to_b = from_a_to_b;
                tick_current_index = whirlpool_data.tick_current_index;
                tick_spacing = whirlpool_data.tick_spacing;
              }))
          ok (record {
            whirlpool_data = whirlpool_data;
            token_amount = token_amount;
            other_amount_threshold =
                get_default_other_amount_threshold sdk amount_specified_is_input;
            sqrt_price_limit = get_default_sqrt_price_limit from_a_to_b;
            a_to_b = from_a_to_b;
            amount_specified_is_input = amount_specified_is_input;
            tick_arrays = tick_arrays;
            token_extension_ctx = ctx;
          })

    unfoldable pub swap_quote_by_input_token :
        WhirlpoolData Key → Key → Key → ℤ → Percentage → Result (SwapQuote Key)
    swap_quote_by_input_token whirlpool_data address input_token_mint token_amount
          slippage_tolerance =
        swap_quote_by_token whirlpool_data address input_token_mint token_amount true >>= λ params.
        swap_quote_with_params params slippage_tolerance

    unfoldable pub swap_quote_by_output_token :
        WhirlpoolData Key → Key → Key → ℤ → Percentage → Result (SwapQuote Key)
    swap_quote_by_output_token whirlpool_data address output_token_mint token_amount
          slippage_tolerance =
        swap_quote_by_token whirlpool_data address output_token_mint token_amount false
        >>= λ params. swap_quote_with_params params slippage_tolerance
