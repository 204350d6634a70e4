-- ===== src/SwapQuote/Branches.antt =====
-- What the branches of simulateSwap (swap-quote-impl.ts) check before they return a quote.
use whirlpools.Prelude.{
  ◌≤◌, ℕ, ◌≡◌, refl, ap, sym, arith, Bool, true, false, if◌then◌else◌, ltb, ℤ, pos, ◌≤ℤ◌, ltb_ℤ,
  eqb_ℤ,
}
use whirlpools.Errors.{
  Error, swap, SwapErrorCode, Result, ok, ◌>>◌, throw_if, >>=-eq-ok, ok_injective,
}
use whirlpools.Sdk.{Sdk}
use whirlpools.Constants.{max_swap_tick_arrays}
use whirlpools.TransferFee.{
  SplToken, FeeAmount, calculate_transfer_fee_excluded_amount,
  calculate_transfer_fee_included_amount,
}
use whirlpools.TickArraySequence.{TickArraySequence, get_num_of_touched_arrays}
use whirlpools.SwapManager.{SwapResult, compute_swap}
use whirlpools.SwapQuote.{
  SwapQuoteParam, SwapQuote, mint_in, mint_out, amount_in_of, amount_out_of, finish,
  simulate_exact_in, simulate_exact_out,
}

pub passed :
    {A : Type 0} (b : Bool) (e : Error) (rest : Result A) {a : A}
    → (throw_if b e >> rest) ≡ ok a
    → (b ≡ false) × (rest ≡ ok a)
passed true e rest h = cc
passed false e rest h = (refl, h)

le_of_not_lt : (a b : ℤ) → ltb_ℤ a b ≡ false → b ≤ℤ a
le_of_not_lt a b h = ground arith

not_more : {m n : ℕ} → ltb m n ≡ false → n ≤ m
not_more h = ground arith

module _ {Key Mint Config : Type 0} (sdk : Sdk) (spl : SplToken Mint Config) (fuel : ℕ) where
  -- What a branch has been checked for.
  abbrev pub Passed :
      SwapQuoteParam Key Mint
      → Bool
      → TickArraySequence Key
      → Result FeeAmount
      → SwapQuote Key
      → Type 0
  Passed params is_input s call q =
      (traded : FeeAmount) × (call ≡ ok traded)
      × (if is_input then eqb_ℤ traded.amount (pos 0) ≡ false else Unit)
      × (swapped : SwapResult × TickArraySequence Key) × (compute_swap sdk fuel
            params.whirlpool_data s traded.amount params.sqrt_price_limit
            params.amount_specified_is_input params.a_to_b
          ≡ ok swapped)
      × (get_num_of_touched_arrays swapped.1 ≤ max_swap_tick_arrays)
      × (if is_input
          then params.other_amount_threshold ≤ℤ q.estimated_amount_out
          else q.estimated_amount_in ≤ℤ params.other_amount_threshold)

  finish-parts :
      (params : SwapQuoteParam Key Mint) (results : SwapResult) (s : TickArraySequence Key)
      (paid received : FeeAmount) {q : SwapQuote Key}
      → finish params results s paid received ≡ ok q
      → (q.estimated_amount_in ≡ paid.amount)
        × (q.estimated_amount_out ≡ received.amount)
        × (get_num_of_touched_arrays s ≤ max_swap_tick_arrays)
  unfolding finish
  finish-parts params results s paid received {q} e =
      let (few, rest) =
        passed (ltb max_swap_tick_arrays (get_num_of_touched_arrays s))
          (swap SwapErrorCode.tick_array_crossing_above_max) _ e in
      let same = ok_injective rest in
      (
        sym (ap (λ (x : SwapQuote Key). x.estimated_amount_in) same),
        sym (ap (λ (x : SwapQuote Key). x.estimated_amount_out) same),
        not_more few,
      )

  exact_in-Passed :
      (params : SwapQuoteParam Key Mint) (s : TickArraySequence Key) {q : SwapQuote Key}
      → simulate_exact_in sdk spl fuel params s ≡ ok q
      → Passed params true s
          (ok (
            calculate_transfer_fee_excluded_amount spl params.token_amount
              (mint_in params)
              params.token_extension_ctx.current_epoch))
          q
  unfolding simulate_exact_in
  exact_in-Passed params s {q} e =
      let epoch = params.token_extension_ctx.current_epoch in
      let ein =
        calculate_transfer_fee_excluded_amount spl params.token_amount (mint_in params) epoch in
      let (some_in, e) =
        passed (eqb_ℤ ein.amount (pos 0)) (swap SwapErrorCode.zero_tradable_amount) _ e in
      let (swapped, swapped_is, e) =
        >>=-eq-ok
          (compute_swap sdk fuel params.whirlpool_data s ein.amount params.sqrt_price_limit
            params.amount_specified_is_input params.a_to_b)
          _ e in
      let out =
        calculate_transfer_fee_excluded_amount spl (amount_out_of params swapped.0)
          (mint_out params) epoch in
      let (enough, e) =
        passed (ltb_ℤ out.amount params.other_amount_threshold)
          (swap SwapErrorCode.amount_out_below_minimum) _ e in
      let (paid, paid_is, e) =
        >>=-eq-ok
          (if eqb_ℤ (amount_in_of params swapped.0) ein.amount
            then ok (record { amount = params.token_amount; fee = ein.fee })
            else calculate_transfer_fee_included_amount spl sdk (amount_in_of params swapped.0)
                (mint_in params) epoch)
          _ e in
      let (in_is, out_is, few) = finish-parts params swapped.0 swapped.1 paid out e in
      (
        ein,
        refl,
        some_in,
        swapped,
        swapped_is,
        few,
        rw out_is (le_of_not_lt out.amount params.other_amount_threshold enough),
      )

  exact_out-Passed :
      (params : SwapQuoteParam Key Mint) (s : TickArraySequence Key) {q : SwapQuote Key}
      → simulate_exact_out sdk spl fuel params s ≡ ok q
      → Passed params false s
          (calculate_transfer_fee_included_amount spl sdk params.token_amount
            (mint_out params)
            params.token_extension_ctx.current_epoch)
          q
  unfolding simulate_exact_out
  exact_out-Passed params s {q} e =
      let epoch = params.token_extension_ctx.current_epoch in
      let (included, included_is, e) =
        >>=-eq-ok
          (calculate_transfer_fee_included_amount spl sdk params.token_amount (mint_out params)
            epoch)
          _ e in
      let (swapped, swapped_is, e) =
        >>=-eq-ok
          (compute_swap sdk fuel params.whirlpool_data s included.amount params.sqrt_price_limit
            params.amount_specified_is_input params.a_to_b)
          _ e in
      let (paid, paid_is, e) =
        >>=-eq-ok
          (calculate_transfer_fee_included_amount spl sdk (amount_in_of params swapped.0)
            (mint_in params) epoch)
          _ e in
      let (enough, e) =
        passed (ltb_ℤ params.other_amount_threshold paid.amount)
          (swap SwapErrorCode.amount_in_above_maximum) _ e in
      let out =
        calculate_transfer_fee_excluded_amount spl (amount_out_of params swapped.0)
          (mint_out params) epoch in
      let (in_is, out_is, few) = finish-parts params swapped.0 swapped.1 paid out e in
      (
        included,
        included_is,
        tt,
        swapped,
        swapped_is,
        few,
        rw in_is (le_of_not_lt params.other_amount_threshold paid.amount enough),
      )

  pub branch-Passed :
      (params : SwapQuoteParam Key Mint) (is_input : Bool) (s : TickArraySequence Key)
      {q : SwapQuote Key}
      → (if is_input
          then simulate_exact_in sdk spl fuel params s
          else simulate_exact_out sdk spl fuel params s)
        ≡ ok q
      → Passed params is_input s
          (if is_input
            then ok (
                calculate_transfer_fee_excluded_amount spl params.token_amount
                  (mint_in params)
                  params.token_extension_ctx.current_epoch)
            else calculate_transfer_fee_included_amount spl sdk params.token_amount
                (mint_out params)
                params.token_extension_ctx.current_epoch)
          q
  branch-Passed params true s e = exact_in-Passed params s e
  branch-Passed params false s e = exact_out-Passed params s e
