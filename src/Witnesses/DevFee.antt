-- ===== src/Witnesses/DevFee.antt =====
-- The theorem on quotes with a developer fee at a concrete input.
use whirlpools.Prelude.{
  ℕ, suc, ◌-◌, ◌*◌, ◌≤◌, ◌<◌, ◌≡◌, refl, arith, Bool, true, Option, List, map, ℤ, pos, leb_ℤ,
}
use whirlpools.Errors.{ok, ◌>>=◌}
use whirlpools.Sdk.{plain_sdk}
use whirlpools.AnchorTypes.{TickArray, TickArrayData}
use whirlpools.TokenMath.{Percentage}
use whirlpools.TokenMath.Slippage.{percentage}
use whirlpools.SwapQuote.WithParams.{swap_quote_by_input_token}
use whirlpools.SwapQuote.Combined.{with_dev_fee, swap_quote_by_input_token_with_dev_fees}
use whirlpools.SwapQuote.DevFee.{swap_quote_by_input_token_with_dev_fees-charges}
use whirlpools.Witnesses.{plain_spl}
use whirlpools.Witnesses.Quotes.{pool, sale}

abbrev one_key : ℕ → ℤ → ℕ
one_key address start = address

-- The data of the two tick arrays of the sale.
abbrev fetched : List ℕ → List (Option (TickArrayData ℕ))
fetched keys = map (λ account. TickArray.tick_array_data account) sale.tick_arrays

abbrev equal : ℕ → ℕ → Bool
equal a b = true

abbrev at_least_one : Percentage → Bool
at_least_one p = leb_ℤ p.denominator p.numerator

-- A fee of 1/100 of the amount of the sale, on a swap that returns.
swap_quote_by_input_token_with_dev_fees-charges_example :
    (d : ℕ) × (d * 100 ≤ 1_000_000 * 1)
    × (1_000_000 * 1 < suc d * 100)
    × (d ≤ 1_000_000)
    × (swap_quote_by_input_token_with_dev_fees plain_sdk plain_spl 5 equal one_key fetched
          sale.token_extension_ctx at_least_one pool 1 2
          (pos 1_000_000)
          (percentage 1 100)
          (percentage 1 100)
        ≡ (swap_quote_by_input_token plain_sdk plain_spl 5 equal one_key fetched
              sale.token_extension_ctx pool 1 2
              (pos (1_000_000 - d))
              (percentage 1 100)
            >>= λ quote. ok (with_dev_fee quote (pos d))))
swap_quote_by_input_token_with_dev_fees-charges_example =
    swap_quote_by_input_token_with_dev_fees-charges plain_sdk plain_spl 5 equal one_key fetched
      sale.token_extension_ctx at_least_one pool 1 2 1_000_000 1 100 (percentage 1 100)
      (omega arith) refl
