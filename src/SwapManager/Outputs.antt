-- ===== src/SwapManager/Outputs.antt =====
-- The loop of a swap (swap-manager.ts) for an exact output: it ends as well, where the price that it
-- starts from and the liquidity that it comes to are unsigned numbers.
use whirlpools.Prelude.{
  ℕ, ◌+◌, ◌*◌, ◌≤◌, ◌<◌, ◌≡◌, refl, ap, sym, ◌∙◌, inl, inr, arith, Bool, true, false, ◌&&◌,
  Bool-cases, length, ℤ, pos, negsuc, ◌≤ℤ◌, ltb_ℤ, eqb_ℤ,
}
use whirlpools.Errors.{Result, ok, ◌>>=◌, ok_injective}
use whirlpools.Sdk.{Sdk, IsSdk}
use whirlpools.Constants.{min_sqrt_price, max_sqrt_price}
use whirlpools.AnchorTypes.{WhirlpoolData}
use whirlpools.PriceMath.Range.{tick_index_to_sqrt_price_x64-returns}
use whirlpools.SwapMath.Output.{short_output}
use whirlpools.TickArraySequence.{TickArraySequence}
use whirlpools.SwapManager.{
  SwapState, SwapArgs, goes_on, remaining_after, get_next_sqrt_prices, compute_swap, args_of,
  start_of, result_of,
}
use whirlpools.SwapManager.Rounds.{
  RoundParts, Spends, swap_round-RoundParts, used_up, self-sub, eq_of_eqb,
}
use whirlpools.SwapManager.Progress.{target_cases}
use whirlpools.SwapManager.Ends.{
  Runs, Reached, at_start, then_round, AllSpend, swap_loop-ends, swap_loop-Runs,
}

abbrev pub IsUnsigned : ℤ → Type 0
IsUnsigned z = (n : ℕ) × (z ≡ pos n)

positive : (z : ℤ) → ltb_ℤ (pos 0) z ≡ true → (n : ℕ) × (z ≡ pos n) × (0 < n)
positive (pos n) h = (n, refl, ground arith)
positive (negsuc n) h = cc

first_test : (a b : Bool) → (a && b) ≡ true → a ≡ true
first_test true b h = refl
first_test false b h = cc

limit-IsUnsigned : (limit : ℤ) → min_sqrt_price ≤ℤ limit → IsUnsigned limit
limit-IsUnsigned (pos n) h = (n, refl)
limit-IsUnsigned (negsuc n) h = absurd (omega arith)

target-IsUnsigned :
    (args : SwapArgs) (i np target : ℤ)
    → min_sqrt_price ≤ℤ args.sqrt_price_limit
    → get_next_sqrt_prices i args.sqrt_price_limit args.a_to_b ≡ ok (np, target)
    → IsUnsigned target
unfolding get_next_sqrt_prices
target-IsUnsigned args i np target low e =
    let (price, price_is, _, _) = tick_index_to_sqrt_price_x64-returns i in
    elim (target_cases i args.sqrt_price_limit np target args.a_to_b e) [
      | inl at_limit ↦
          let (n, n_is) = limit-IsUnsigned args.sqrt_price_limit low in (n, at_limit ∙ n_is)
      | inr at_tick ↦
          let same = ok_injective (rw price_is at e) in
          (price, at_tick ∙ sym (ap (λ (z : ℤ × ℤ). z.0) same))
    ]

module _ {Key : Type 0} (sdk : Sdk) (laws : IsSdk sdk) (args : SwapArgs) where
  output-Spends :
      (s next : SwapState Key)
      → args.amount_specified_is_input ≡ false
      → IsUnsigned s.curr_sqrt_price
      → IsUnsigned s.curr_liquidity
      → goes_on sdk args s ≡ true
      → (p : RoundParts sdk args s next) → Spends sdk args s next p
  unfolding remaining_after
  output-Spends s next output (c, c_is) (l, l_is) on p short =
      let (amount, amount_is, some) =
        positive s.amount_remaining (first_test (ltb_ℤ (pos 0) s.amount_remaining) _ on) in
      let step_is = rw (output, c_is, l_is, amount_is) at p.step_is in
      let out =
        short_output sdk laws amount l c args.fee_rate p.target args.a_to_b some step_is short in
      p.remaining_is ∙ rw (output, amount_is, out) (self-sub (pos amount))

  module _ (start : SwapState Key) (output : args.amount_specified_is_input ≡ false)
      (low : min_sqrt_price ≤ℤ args.sqrt_price_limit) (priced : IsUnsigned start.curr_sqrt_price)
      (liquid : (s : SwapState Key) → Reached sdk args start s → IsUnsigned s.curr_liquidity) where
    -- A state that the loop goes on from has the price that the round before aimed at.
    price-IsUnsigned :
        {s : SwapState Key}
        → Reached sdk args start s
        → goes_on sdk args s ≡ true
        → IsUnsigned s.curr_sqrt_price
    price-IsUnsigned at_start on = priced
    price-IsUnsigned (then_round {s} {next} reached on is) on' =
        let p = swap_round-RoundParts sdk args s next is in
        elim (Bool-cases (eqb_ℤ p.step.next_price p.target)) [
          | inl hit ↦
              let (n, n_is) =
                target-IsUnsigned args p.found.next_index p.next_tick_price p.target low
                  p.prices_is in
              (n, p.price_is ∙ eq_of_eqb p.step.next_price p.target hit ∙ n_is)
          | inr short ↦
              let spent =
                output-Spends s next output (price-IsUnsigned reached on) (liquid s reached) on p
                  short in
              cc (used_up sdk args next spent)
        ]

    outputs-Spend : AllSpend sdk args start
    outputs-Spend s next reached on p =
        output-Spends s next output (price-IsUnsigned reached on) (liquid s reached) on p

module _ {Key : Type 0} (sdk : Sdk) (laws : IsSdk sdk) where
  -- For an exact output, a positive spacing, a price limit within the bounds of the prices, a pool
  -- with an unsigned price, and an unsigned liquidity in every state that the loop goes through: a
  -- swap that has fuel for 88 rounds for each tick array and three more is what the loop without a
  -- bound on its rounds ends with, whatever the amount is.
  pub compute_swap-ends_output :
      (fuel : ℕ) (pool : WhirlpoolData Key) (arrays : TickArraySequence Key) (amount limit : ℤ)
      → 0 < arrays.tick_spacing
      → min_sqrt_price ≤ℤ limit
      → limit ≤ℤ max_sqrt_price
      → IsUnsigned pool.sqrt_price
      → ((s : SwapState Key)
          → Reached sdk
              (args_of sdk pool limit false arrays.a_to_b)
              (start_of sdk pool arrays amount arrays.a_to_b)
              s
          → IsUnsigned s.curr_liquidity)
      → 88 * length arrays.sequence + 2 < fuel
      → (r : Result (SwapState Key)) × (k : ℕ) × Runs sdk
          (args_of sdk pool limit false arrays.a_to_b)
          k
          (start_of sdk pool arrays amount arrays.a_to_b)
          r
        × (k ≤ 88 * length arrays.sequence + 2)
        × (compute_swap sdk fuel pool arrays amount limit false arrays.a_to_b
            ≡ (r >>= λ last. ok (result_of sdk amount false arrays.a_to_b last)))
  unfolding compute_swap
  compute_swap-ends_output fuel pool arrays amount limit hs low high priced liquid enough =
      let args : SwapArgs = args_of sdk pool limit false arrays.a_to_b in
      let start : SwapState Key = start_of sdk pool arrays amount arrays.a_to_b in
      let (r, k, run, le) =
        swap_loop-ends sdk args start (outputs-Spend sdk laws args start refl low priced liquid) hs
          refl low high in
      (
        r,
        k,
        run,
        le,
        ap
            (λ (x : Result (SwapState Key)).
              x >>= λ last. ok (result_of sdk amount false arrays.a_to_b last))
            (swap_loop-Runs sdk args fuel run (omega arith)),
      )
