-- ===== src/SwapQuote/Combined.antt =====
-- quotes/public/dev-fee-swap-quote.ts and two-hop-swap-quote.ts: a quote with a developer fee, and
-- the quote of two swaps in a row. `is_whole` is whether a percentage, as a Decimal, is at least one.
use whirlpools.Prelude.{ℕ, Bool, true, if◌then◌else◌, Option, List, ℤ, ◌+ℤ◌, ◌-ℤ◌, ◌*ℤ◌}
use whirlpools.Errors.{Result, ok, err, swap, SwapErrorCode, ◌>>=◌}
use whirlpools.Bn.{div}
use whirlpools.Sdk.{Sdk}
use whirlpools.AnchorTypes.{WhirlpoolData, TickArrayData}
use whirlpools.TokenMath.{Percentage}
use whirlpools.TransferFee.{SplToken, TokenExtensionContext}
use whirlpools.SwapQuote.{SwapQuote}
use whirlpools.SwapQuote.WithParams.{swap_quote_by_input_token}

-- The fields of a quote that are not changed stand in `quote`.
pub record DevFeeSwapQuote (Key : Type 0) : Type 0 where
  pub quote : SwapQuote Key
  pub amount_specified_is_input : Bool
  pub estimated_amount_in : ℤ
  pub estimated_fee_amount : ℤ
  pub estimated_swap_fee_amount : ℤ
  pub dev_fee_amount : ℤ

-- NormalTwoHopSwapQuote, with TwoHopSwapInput.
pub record TwoHopSwapQuote (Key : Type 0) : Type 0 where
  pub amount : ℤ
  pub other_amount_threshold : ℤ
  pub amount_specified_is_input : Bool
  pub a_to_b_one : Bool
  pub a_to_b_two : Bool
  pub sqrt_price_limit_one : ℤ
  pub sqrt_price_limit_two : ℤ
  pub tick_array_one0 : Option Key
  pub tick_array_one1 : Option Key
  pub tick_array_one2 : Option Key
  pub tick_array_two0 : Option Key
  pub tick_array_two1 : Option Key
  pub tick_array_two2 : Option Key
  pub swap_one_estimates : SwapQuote Key
  pub swap_two_estimates : SwapQuote Key

unfoldable pub get_dev_fee_amount : ℤ → Percentage → Result ℤ
get_dev_fee_amount token_amount p = div (token_amount *ℤ p.numerator) p.denominator

abbrev pub with_dev_fee : {Key : Type 0} → SwapQuote Key → ℤ → DevFeeSwapQuote Key
with_dev_fee quote dev_fee_amount = record {
  quote = quote;
  amount_specified_is_input = true;
  estimated_amount_in = quote.estimated_amount_in +ℤ dev_fee_amount;
  estimated_fee_amount = quote.estimated_fee_amount +ℤ dev_fee_amount;
  estimated_swap_fee_amount = quote.estimated_fee_amount;
  dev_fee_amount = dev_fee_amount;
}

module _ {Key Mint Config : Type 0} (sdk : Sdk) (spl : SplToken Mint Config) (fuel : ℕ)
    (equals : Key → Key → Bool) (get_tick_array : Key → ℤ → Key)
    (fetch : List Key → List (Option (TickArrayData Key))) (ctx : TokenExtensionContext Mint)
    (is_whole : Percentage → Bool) where
  unfoldable pub swap_quote_by_input_token_with_dev_fees :
      WhirlpoolData Key → Key → Key → ℤ → Percentage → Percentage → Result (DevFeeSwapQuote Key)
  swap_quote_by_input_token_with_dev_fees whirlpool_data address input_token_mint token_amount
        slippage_tolerance dev_fee_percentage =
      if is_whole dev_fee_percentage
      then err (swap SwapErrorCode.invalid_dev_fee_percentage)
      else get_dev_fee_amount token_amount dev_fee_percentage >>= λ dev_fee_amount.
          swap_quote_by_input_token sdk spl fuel equals get_tick_array fetch ctx whirlpool_data
            address input_token_mint (token_amount -ℤ dev_fee_amount) slippage_tolerance
          >>= λ quote. ok (with_dev_fee quote dev_fee_amount)

-- The amount of the first swap and the threshold of the second, or the other way round.
abbrev two_hop_amounts : {Key : Type 0} → SwapQuote Key → SwapQuote Key → ℤ × ℤ
two_hop_amounts one two =
    if one.amount_specified_is_input
    then (one.amount, two.other_amount_threshold)
    else (two.amount, one.other_amount_threshold)

unfoldable pub two_hop_swap_quote_from_swap_quotes :
    {Key : Type 0} → SwapQuote Key → SwapQuote Key → TwoHopSwapQuote Key
two_hop_swap_quote_from_swap_quotes one two = record {
  amount = (two_hop_amounts one two).0;
  other_amount_threshold = (two_hop_amounts one two).1;
  amount_specified_is_input = one.amount_specified_is_input;
  a_to_b_one = one.a_to_b;
  a_to_b_two = two.a_to_b;
  sqrt_price_limit_one = one.sqrt_price_limit;
  sqrt_price_limit_two = two.sqrt_price_limit;
  tick_array_one0 = one.tick_array0;
  tick_array_one1 = one.tick_array1;
  tick_array_one2 = one.tick_array2;
  tick_array_two0 = two.tick_array0;
  tick_array_two1 = two.tick_array1;
  tick_array_two2 = two.tick_array2;
  swap_one_estimates = one;
  swap_two_estimates = two;
}
