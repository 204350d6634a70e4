-- ===== src/SwapQuote/Accepts.antt =====
-- What a quote that is returned was checked for (swap-quote-impl.ts).
use whirlpools.Prelude.{
  ◌∙◌, ◌≤◌, ℕ, ◌≡◌, refl, ap, arith, Bool, true, false, not, ◌&&◌, ◌||◌, if◌then◌else◌, ℤ, pos,
  ◌≤ℤ◌, ltb_ℤ, eqb_ℤ,
}
use whirlpools.Errors.{swap, SwapErrorCode, Result, ok, >>=-eq-ok}
use whirlpools.Sdk.{Sdk}
use whirlpools.Constants.{max_sqrt_price, min_sqrt_price, max_swap_tick_arrays}
use whirlpools.TransferFee.{
  SplToken, FeeAmount, calculate_transfer_fee_excluded_amount,
  calculate_transfer_fee_included_amount,
}
use whirlpools.TickArraySequence.{
  TickArraySequence, new_tick_array_sequence, is_valid_tick_array0, get_num_of_touched_arrays,
}
use whirlpools.SwapManager.{SwapResult, compute_swap}
use whirlpools.SwapQuote.{SwapQuoteParam, SwapQuote, mint_in, mint_out, simulate_swap}
use whirlpools.SwapQuote.Branches.{passed, branch-Passed}

in_range :
    (limit low high : ℤ)
    → (ltb_ℤ high limit || ltb_ℤ limit low) ≡ false
    → (low ≤ℤ limit) × (limit ≤ℤ high)
in_range limit low high h = (ground arith, ground arith)

in_direction :
    (down : Bool) (price limit : ℤ)
    → (down && ltb_ℤ price limit || not down && ltb_ℤ limit price) ≡ false
    → if down then limit ≤ℤ price else price ≤ℤ limit
in_direction true price limit h = ground arith
in_direction false price limit h = ground arith

is_true : (b : Bool) → not b ≡ false → b ≡ true
is_true true h = refl
is_true false h = cc

module _ {Key Mint Config : Type 0} (sdk : Sdk) (spl : SplToken Mint Config) (fuel : ℕ) where
  -- The amount that goes into the swap, or that has to come out of it, by the transfer fee of its
  -- token.
  abbrev pub traded_amount : SwapQuoteParam Key Mint → Result FeeAmount
  traded_amount params =
      let epoch = params.token_extension_ctx.current_epoch in
      if params.amount_specified_is_input
      then ok
          (calculate_transfer_fee_excluded_amount spl params.token_amount (mint_in params) epoch)
      else calculate_transfer_fee_included_amount spl sdk params.token_amount (mint_out params)
          epoch

  -- The other token's amount keeps the threshold, from below for an exact input and from above for
  -- an exact output.
  abbrev pub KeepsThreshold : SwapQuoteParam Key Mint → SwapQuote Key → Type 0
  KeepsThreshold params q =
      if params.amount_specified_is_input
      then params.other_amount_threshold ≤ℤ q.estimated_amount_out
      else q.estimated_amount_in ≤ℤ params.other_amount_threshold

  -- The checks around a swap, as a caller relies on them: the limit on the price is in range and on
  -- the side that the swap moves to, there is an amount to trade, also without its transfer fee, the
  -- first tick array is valid at the current tick, the swap of that amount touches at most three tick
  -- arrays, and the threshold is kept.
  pub record Accepts (params : SwapQuoteParam Key Mint) (q : SwapQuote Key) : Type 0 where
    pub not_below : min_sqrt_price ≤ℤ params.sqrt_price_limit
    pub not_above : params.sqrt_price_limit ≤ℤ max_sqrt_price
    pub direction :
        if params.a_to_b
        then params.sqrt_price_limit ≤ℤ params.whirlpool_data.sqrt_price
        else params.whirlpool_data.sqrt_price ≤ℤ params.sqrt_price_limit
    pub some_amount : eqb_ℤ params.token_amount (pos 0) ≡ false
    pub tick_sequence : TickArraySequence Key
    pub sequence_is :
        new_tick_array_sequence params.tick_arrays params.whirlpool_data.tick_spacing params.a_to_b
        ≡ ok tick_sequence
    pub valid_first_array :
        is_valid_tick_array0 tick_sequence params.whirlpool_data.tick_current_index ≡ ok true
    pub traded : FeeAmount
    pub traded_is : traded_amount params ≡ ok traded
    pub some_traded :
        if params.amount_specified_is_input then eqb_ℤ traded.amount (pos 0) ≡ false else Unit
    pub swapped : SwapResult × TickArraySequence Key
    pub swapped_is :
        compute_swap sdk fuel params.whirlpool_data tick_sequence traded.amount
          params.sqrt_price_limit params.amount_specified_is_input params.a_to_b
        ≡ ok swapped
    pub few_arrays : get_num_of_touched_arrays swapped.1 ≤ max_swap_tick_arrays
    pub threshold : KeepsThreshold params q

  -- A swap quote that is returned has passed the checks around the swap: the limit on the price is
  -- in range and on the side that the swap moves to, the amount is not zero, and for an exact input
  -- not zero without its transfer fee either, the first tick array is valid at the current tick, the swap
  -- touches at most three tick arrays, and the threshold is kept: for an exact input the amount
  -- received, its transfer fee taken off, is at least the threshold, and for an exact output the
  -- amount paid, its transfer fee included, is at most the threshold.
  pub simulate_swap-Accepts :
      (params : SwapQuoteParam Key Mint) (q : SwapQuote Key)
      → simulate_swap sdk spl fuel params ≡ ok q
      → Accepts params q
  unfolding simulate_swap
  simulate_swap-Accepts params q e =
      let limit = params.sqrt_price_limit in
      let price = params.whirlpool_data.sqrt_price in
      let (range, e) =
        passed (ltb_ℤ max_sqrt_price limit || ltb_ℤ limit min_sqrt_price)
          (swap SwapErrorCode.sqrt_price_out_of_bounds) _ e in
      let (way, e) =
        passed (params.a_to_b && ltb_ℤ price limit || not params.a_to_b && ltb_ℤ limit price)
          (swap SwapErrorCode.invalid_sqrt_price_limit_direction) _ e in
      let (amount, e) =
        passed (eqb_ℤ params.token_amount (pos 0)) (swap SwapErrorCode.zero_tradable_amount) _ e in
      let (s, s_is, e) =
        >>=-eq-ok
          (new_tick_array_sequence params.tick_arrays params.whirlpool_data.tick_spacing
            params.a_to_b)
          _ e in
      let (valid, valid_is, e) =
        >>=-eq-ok (is_valid_tick_array0 s params.whirlpool_data.tick_current_index) _ e in
      let (is_valid, e) = passed (not valid) (swap SwapErrorCode.tick_array_sequence_invalid) _ e in
      let (low, high) = in_range limit min_sqrt_price max_sqrt_price range in
      let (traded, traded_is, some_traded, swapped, swapped_is, few, kept) =
        branch-Passed sdk spl fuel params params.amount_specified_is_input s e in
      record {
        not_below = low;
        not_above = high;
        direction = in_direction params.a_to_b price limit way;
        some_amount = amount;
        tick_sequence = s;
        sequence_is = s_is;
        valid_first_array = valid_is ∙ ap ok (is_true valid is_valid);
        traded = traded;
        traded_is = traded_is;
        some_traded = some_traded;
        swapped = swapped;
        swapped_is = swapped_is;
        few_arrays = few;
        threshold = kept;
      }
