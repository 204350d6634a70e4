-- ===== src/SwapManager/Rounds.antt =====
-- One round of the loop of a swap (swap-manager.ts): it uses the amount up, reaches the price limit,
-- or leaves fewer ticks of the sequence to search.
use whirlpools.Prelude.{
  ◌≡◌, ◌≢◌, refl, ap, sym, ◌∙◌, ◌⊎◌, inl, inr, arith, Bool, true, false, not, ◌&&◌, Bool-cases, ℤ,
  pos, ◌-ℤ◌, ltb_ℤ, eqb_ℤ,
}
use whirlpools.Errors.{ok, >>=-eq-ok, ok_injective}
use whirlpools.Sdk.{Sdk}
use whirlpools.SwapMath.{SwapStep, compute_swap_step, fee_of_step}
use whirlpools.SwapMath.Parts.{Parts, compute_swap_step-Parts}
use whirlpools.TickArraySequence.{TickArraySequence, NextTick, find_next_initialized_tick_index}
use whirlpools.SwapManager.{
  SwapState, SwapArgs, remaining_after, cross_tick, get_next_sqrt_prices, calculate_fees, goes_on,
  swap_round,
}

pub eq_of_eqb : (a b : ℤ) → eqb_ℤ a b ≡ true → a ≡ b
eq_of_eqb a b h = ground arith

pub eqb_self : (a : ℤ) → eqb_ℤ a a ≡ true
eqb_self a = ground arith

and-false : (b : Bool) → (b && not true) ≡ false
and-false true = refl
and-false false = refl

pub self-sub : (a : ℤ) → a -ℤ a ≡ pos 0
unfolding ◌-ℤ◌
self-sub a = ground arith

nothing_left :
    (args : SwapArgs) (amount : ℤ) (step : SwapStep)
    → args.amount_specified_is_input ≡ true
    → step.fee_amount ≡ amount -ℤ step.amount_in
    → remaining_after args amount step ≡ pos 0
unfolding remaining_after
nothing_left args amount step input e = rw (input, e) (self-sub (amount -ℤ step.amount_in))

module _ {Key : Type 0} (sdk : Sdk) (args : SwapArgs) where
  -- A round that returns, taken apart into the calls that it makes.
  pub record RoundParts (s next : SwapState Key) : Type 0 where
    pub found : NextTick
    pub searched : TickArraySequence Key
    pub next_tick_price : ℤ
    pub target : ℤ
    pub step : SwapStep
    pub liquidity : ℤ
    pub find_is :
        find_next_initialized_tick_index s.tick_sequence s.curr_tick_index ≡ ok (found, searched)
    pub prices_is :
        get_next_sqrt_prices found.next_index args.sqrt_price_limit args.a_to_b
        ≡ ok (next_tick_price, target)
    pub step_is :
        compute_swap_step sdk s.amount_remaining args.fee_rate s.curr_liquidity s.curr_sqrt_price
          target args.amount_specified_is_input args.a_to_b
        ≡ ok step
    pub crossed_is :
        cross_tick sdk args s searched found.next_index next_tick_price step.next_price
        ≡ ok (liquidity, next.curr_tick_index, next.tick_sequence)
    pub price_is : next.curr_sqrt_price ≡ step.next_price
    pub remaining_is : next.amount_remaining ≡ remaining_after args s.amount_remaining step

  pub swap_round-RoundParts :
      (s next : SwapState Key) → swap_round sdk args s ≡ ok next → RoundParts s next
  unfolding swap_round
  swap_round-RoundParts s next e =
      let (found, e0, e) =
        >>=-eq-ok (find_next_initialized_tick_index s.tick_sequence s.curr_tick_index) _ e in
      let (prices, e1, e) =
        >>=-eq-ok (get_next_sqrt_prices found.0.next_index args.sqrt_price_limit args.a_to_b) _ e in
      let (step, e2, e) =
        >>=-eq-ok
          (compute_swap_step sdk s.amount_remaining args.fee_rate s.curr_liquidity s.curr_sqrt_price
            prices.1 args.amount_specified_is_input args.a_to_b)
          _ e in
      let (fees, e3, e) =
        >>=-eq-ok
          (calculate_fees step.fee_amount args.protocol_fee_rate s.curr_liquidity
            s.curr_protocol_fee s.curr_fee_growth_global_input)
          _ e in
      let (crossed, e4, e) =
        >>=-eq-ok (cross_tick sdk args s found.1 found.0.next_index prices.0 step.next_price) _ e in
      let same = ok_injective e in
      record {
        found = found.0;
        searched = found.1;
        next_tick_price = prices.0;
        target = prices.1;
        step = step;
        liquidity = crossed.0;
        find_is = e0;
        prices_is = e1;
        step_is = e2;
        crossed_is =
            e4
            ∙ ap (λ (z : SwapState Key). ok (crossed.0, z.curr_tick_index, z.tick_sequence)) same;
        price_is = sym (ap (λ (z : SwapState Key). z.curr_sqrt_price) same);
        remaining_is = sym (ap (λ (z : SwapState Key). z.amount_remaining) same);
      }

  at_limit :
      (s : SwapState Key) → s.curr_sqrt_price ≡ args.sqrt_price_limit → goes_on sdk args s ≡ false
  at_limit s e =
      rw (e, eqb_self args.sqrt_price_limit) (and-false (ltb_ℤ (pos 0) s.amount_remaining))

  pub used_up : (s : SwapState Key) → s.amount_remaining ≡ pos 0 → goes_on sdk args s ≡ false
  used_up s e = rw e refl

  -- A step that stops before the price that it aimed at has used the amount up.
  abbrev pub Spends : (s next : SwapState Key) → RoundParts s next → Type 0
  Spends s next p = eqb_ℤ p.step.next_price p.target ≡ false → next.amount_remaining ≡ pos 0

  pub input-Spends :
      (s next : SwapState Key)
      → args.amount_specified_is_input ≡ true
      → (p : RoundParts s next) → Spends s next p
  unfolding fee_of_step
  input-Spends s next input p short =
      let parts : Parts sdk s.amount_remaining args.fee_rate s.curr_liquidity s.curr_sqrt_price
          p.target args.amount_specified_is_input args.a_to_b p.step =
        compute_swap_step-Parts sdk s.amount_remaining args.fee_rate s.curr_liquidity
          s.curr_sqrt_price p.target args.amount_specified_is_input args.a_to_b p.step_is in
      let fee_is = rw (input, short, fee_of_step) at parts.fee_is in
      p.remaining_is ∙ nothing_left args s.amount_remaining p.step input (sym (ok_injective fee_is))

  -- The step stopped where the price limit is, or before the price that it aimed at: the loop ends.
  pub round_ends :
      (s next : SwapState Key) (p : RoundParts s next)
      → Spends s next p
      → (p.target ≡ args.sqrt_price_limit) ⊎ (p.step.next_price ≢ p.target)
      → goes_on sdk args next ≡ false
  round_ends s next p spends why = elim (Bool-cases (eqb_ℤ p.step.next_price p.target)) [
    | inl reached ↦
        let at_target : p.step.next_price ≡ p.target =
          eq_of_eqb p.step.next_price p.target reached in
        elim why [
          | inl target_is ↦ at_limit next (p.price_is ∙ at_target ∙ target_is)
          | inr apart ↦ absurd (apart at_target)
        ]
    | inr short ↦ used_up next (spends short)
  ]
