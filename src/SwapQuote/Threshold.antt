-- ===== src/SwapQuote/Threshold.antt =====
-- The threshold of a swap quote with a slippage (swap-quote.ts).
use whirlpools.Prelude.{ℕ, suc, ◌+◌, ◌*◌, ◌≤◌, ◌<◌, ◌≡◌, ap, sym, ◌∙◌, Bool, true, false, ℤ, pos}
use whirlpools.Errors.{ok, >>=-eq-ok, ok_injective}
use whirlpools.Sdk.{Sdk}
use whirlpools.TokenMath.Slippage.{percentage, adjust_for_slippage_bounds}
use whirlpools.TransferFee.{SplToken}
use whirlpools.SwapUtils.{SwapAmounts, calculate_swap_amounts_from_quote}
use whirlpools.SwapQuote.{SwapQuoteParam, SwapQuote, simulate_swap}
use whirlpools.SwapQuote.WithParams.{swap_quote_with_params}

-- A threshold that leaves room for the slippage, and no more: below what is received, or above what
-- is paid, by the slippage, rounded down to a whole number.
abbrev pub LeavesRoom : Bool → ℕ → ℕ → ℕ → ℕ → ℕ → Type 0
LeavesRoom true paid received num den t =
    (t ≤ received) × (t * (den + num) ≤ received * den) × (received * den < suc t * (den + num))
LeavesRoom false paid received num den t =
    (paid ≤ t) × (t * den ≤ paid * (den + num)) × (paid * (den + num) < suc t * den)

amounts_room :
    (amount : ℤ) (paid received num den : ℕ) (is_input : Bool) {r : SwapAmounts}
    → 0 < den
    → calculate_swap_amounts_from_quote amount
        (pos paid)
        (pos received)
        (percentage num den)
        is_input
      ≡ ok r
    → (t : ℕ) × (r.other_amount_threshold ≡ pos t) × LeavesRoom is_input paid received num den t
unfolding calculate_swap_amounts_from_quote
amounts_room amount paid received num den true hd e =
    let (up, down, up_is, down_is, above, below, most, no_less, least, no_more) =
      adjust_for_slippage_bounds received num den hd in
    let same = ok_injective (rw down_is at e) in
    (down, sym (ap (λ (r : SwapAmounts). r.other_amount_threshold) same), (below, least, no_more))
amounts_room amount paid received num den false hd e =
    let (up, down, up_is, down_is, above, below, most, no_less, least, no_more) =
      adjust_for_slippage_bounds paid num den hd in
    let same = ok_injective (rw up_is at e) in
    (up, sym (ap (λ (r : SwapAmounts). r.other_amount_threshold) same), (above, most, no_less))

-- Where a quote is returned, its estimates are not negative and the slippage is num/den with den
-- above zero, its threshold leaves room for exactly the slippage: for an exact input it is at most
-- the estimated output, and the largest whole number that is at most that times den/(den + num); for
-- an exact output it is at least the estimated input, and the largest whole number that is at most
-- that times (den + num)/den.
pub swap_quote_with_params-LeavesRoom :
    {Key Mint Config : Type 0}
    → (sdk : Sdk) (spl : SplToken Mint Config) (fuel : ℕ) (params : SwapQuoteParam Key Mint)
      (num den paid received : ℕ) {q : SwapQuote Key}
    → 0 < den
    → swap_quote_with_params sdk spl fuel params (percentage num den) ≡ ok q
    → q.estimated_amount_in ≡ pos paid
    → q.estimated_amount_out ≡ pos received
    → (t : ℕ) × (q.other_amount_threshold ≡ pos t)
      × LeavesRoom q.amount_specified_is_input paid received num den t
unfolding swap_quote_with_params
swap_quote_with_params-LeavesRoom {Key = Key} sdk spl fuel params num den paid received {q = q} hd e
      paid_is received_is =
    let (quote, quote_is, e) = >>=-eq-ok (simulate_swap sdk spl fuel params) _ e in
    let (amounts, amounts_is, e) =
      >>=-eq-ok
        (calculate_swap_amounts_from_quote quote.amount quote.estimated_amount_in
          quote.estimated_amount_out (percentage num den) quote.amount_specified_is_input)
        _ e in
    let same = ok_injective e in
    let in_is : quote.estimated_amount_in ≡ pos paid =
      ap (λ (x : SwapQuote Key). x.estimated_amount_in) same ∙ paid_is in
    let out_is : quote.estimated_amount_out ≡ pos received =
      ap (λ (x : SwapQuote Key). x.estimated_amount_out) same ∙ received_is in
    let mode_is : quote.amount_specified_is_input ≡ q.amount_specified_is_input =
      ap (λ (x : SwapQuote Key). x.amount_specified_is_input) same in
    let (t, t_is, room) =
      amounts_room quote.amount paid received num den q.amount_specified_is_input hd
        (rw (in_is, out_is, mode_is) at amounts_is) in
    (t, sym (ap (λ (x : SwapQuote Key). x.other_amount_threshold) same) ∙ t_is, room)
