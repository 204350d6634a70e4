-- ===== src/SwapQuote/DevFee.antt =====
-- What a quote with a developer fee (dev-fee-swap-quote.ts) leaves for the swap.
use native.Mathlib.Decide.{dec_lt}
use native.Mathlib.Nat.{div-lt_iff_lt-mul, mul-le-mul_left}
use whirlpools.Prelude.{
  ℕ, suc, Bool, false, if◌then◌else◌, leb, List, Option, ℤ, pos, ◌-ℤ◌, ◌*ℤ◌, sub_ℕ-eq-pos, ◌≡◌, ◌≤◌,
  ◌<◌, ◌-◌, ◌*◌, ◌/◌, ◌==◌, refl, arith, Bool-cases, inl, inr,
}
use whirlpools.Prelude.Division.{lt-suc_div, le_of_mul-le}
use whirlpools.Errors.{ok, err, swap, SwapErrorCode, ◌>>=◌}
use whirlpools.Sdk.{Sdk}
use whirlpools.AnchorTypes.{WhirlpoolData, TickArrayData}
use whirlpools.TokenMath.{Percentage}
use whirlpools.TokenMath.Slippage.{percentage}
use whirlpools.TransferFee.{SplToken, TokenExtensionContext}
use whirlpools.SwapQuote.WithParams.{swap_quote_by_input_token}
use whirlpools.SwapQuote.Combined.{
  get_dev_fee_amount, with_dev_fee, swap_quote_by_input_token_with_dev_fees,
}

rounds_down : (m b : ℕ) → 0 < b → m / b * b ≤ m
rounds_down m b some = elim (dec_lt m (m / b * b)) [
  | yes above ↦
      let impossible = (div-lt_iff_lt-mul {k = b} {x = m} {y = m / b} some).1 above in
      absurd (omega arith)
  | no within ↦ omega arith
]

-- The part of an amount, rounded down.
dev_fee_lem :
    (n a b : ℕ)
    → 0 < b
    → a < b
    → (d : ℕ) × (get_dev_fee_amount (pos n) (percentage a b) ≡ ok (pos d))
      × (d * b ≤ n * a)
      × (n * a < suc d * b)
      × (d ≤ n)
unfolding get_dev_fee_amount ◌*ℤ◌
dev_fee_lem n a b some less =
    let d = n * a / b in
    let defined : (b == 0) ≡ false = ground arith in
    let above = lt-suc_div (n * a) b some in
    let low : d * b ≤ n * a = rounds_down (n * a) b some in
    let most : n * a ≤ n * b = mul-le-mul_left {m = a} {n = b} n (omega arith) in
    (d, rw defined refl, low, above, le_of_mul-le d n b some (omega arith))

module _ {Key Mint Config : Type 0} (sdk : Sdk) (spl : SplToken Mint Config) (fuel : ℕ)
    (equals : Key → Key → Bool) (get_tick_array : Key → ℤ → Key)
    (fetch : List Key → List (Option (TickArrayData Key))) (ctx : TokenExtensionContext Mint)
    (is_whole : Percentage → Bool) where
  -- For a percentage a/b with b above zero, which `is_whole` compares with one: from one on the quote
  -- is refused; below one the quote is that of the amount less the fee, and the fee is the largest
  -- whole amount that is not above the percentage of the amount, and not above the amount.
  pub swap_quote_by_input_token_with_dev_fees-charges :
      (whirlpool_data : WhirlpoolData Key) (address input_token_mint : Key) (n a b : ℕ)
      (slippage_tolerance : Percentage)
      → 0 < b
      → is_whole (percentage a b) ≡ leb b a
      → if leb b a
        then swap_quote_by_input_token_with_dev_fees sdk spl fuel equals get_tick_array fetch ctx
            is_whole whirlpool_data address input_token_mint
            (pos n)
            slippage_tolerance
            (percentage a b)
          ≡ err (swap SwapErrorCode.invalid_dev_fee_percentage)
        else ((d : ℕ) × (d * b ≤ n * a)
            × (n * a < suc d * b)
            × (d ≤ n)
            × (swap_quote_by_input_token_with_dev_fees sdk spl fuel equals get_tick_array fetch ctx
                  is_whole whirlpool_data address input_token_mint
                  (pos n)
                  slippage_tolerance
                  (percentage a b)
                ≡ (swap_quote_by_input_token sdk spl fuel equals get_tick_array fetch ctx
                      whirlpool_data address input_token_mint
                      (pos (n - d))
                      slippage_tolerance
                    >>= λ quote. ok (with_dev_fee quote (pos d)))))
  unfolding swap_quote_by_input_token_with_dev_fees ◌-ℤ◌
  swap_quote_by_input_token_with_dev_fees-charges whirlpool_data address input_token_mint n a b
        slippage_tolerance some compares =
      elim (Bool-cases (leb b a)) [
        | inl whole ↦ rw (compares, whole) refl
        | inr part ↦
            let (d, fee, low, high, within) = dev_fee_lem n a b some (ground arith) in
            let left : (pos n -ℤ pos d) ≡ pos (n - d) = sub_ℕ-eq-pos n d within in
            rw (compares, part) (d, low, high, within, rw (fee, left) refl)
      ]
