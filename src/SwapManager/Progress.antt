-- ===== src/SwapManager/Progress.antt =====
-- What a round of the loop of a swap makes of its state (swap-manager.ts).
use mathlib.Core.Path.{subst}
use whirlpools.Prelude.{
  ◌<◌, ◌≡◌, ◌≢◌, ap, sym, ◌∙◌, ◌⊎◌, inl, inr, arith, Bool, true, false, Bool-cases, ℤ, ◌≤ℤ◌,
  if◌then◌else◌, min_ℤ, max_ℤ, eqb_ℤ,
}
use whirlpools.Errors.{ok, >>=-eq-ok, ok_injective}
use whirlpools.Sdk.{Sdk}
use whirlpools.Constants.{min_sqrt_price, max_sqrt_price}
use whirlpools.PriceMath.{tick_index_to_sqrt_price_x64}
use whirlpools.PriceMath.Tests.{price_at_max, price_at_min}
use whirlpools.TickArraySequence.{TickArraySequence, get_tick, require}
use whirlpools.TickArraySequence.Reads.{SameArrays, SameArrays-trans, get_tick-SameArrays}
use whirlpools.TickArraySequence.Passes.{Found}
use whirlpools.TickArraySequence.Onward.{
  next_from, last_tick, Start, rounds_from, start_of_search, rounds_from-next,
}
use whirlpools.SwapManager.{SwapState, SwapArgs, cross_tick, get_next_sqrt_prices, goes_on}
use whirlpools.SwapManager.Rounds.{RoundParts, Spends, round_ends, eq_of_eqb}

choice_cases :
    (d : Bool) (a b : ℤ)
    → ((if d then max_ℤ a b else min_ℤ a b) ≡ a) ⊎ ((if d then max_ℤ a b else min_ℤ a b) ≡ b)
choice_cases true a b = ground arith
choice_cases false a b = ground arith

max_above : (a b : ℤ) → b ≤ℤ a → max_ℤ a b ≡ a
max_above a b h = ground arith

min_below : (a b : ℤ) → a ≤ℤ b → min_ℤ a b ≡ a
min_below a b h = ground arith

-- The price that a step aims at is the limit or that of the tick.
pub target_cases :
    (i limit np target : ℤ) (d : Bool)
    → get_next_sqrt_prices i limit d ≡ ok (np, target)
    → (target ≡ limit) ⊎ (target ≡ np)
unfolding get_next_sqrt_prices
target_cases i limit np target d e =
    let (price, e0, e) = >>=-eq-ok (tick_index_to_sqrt_price_x64 i) _ e in
    let same = ok_injective e in
    let np_is = ap (λ (z : ℤ × ℤ). z.0) same in
    let target_is = ap (λ (z : ℤ × ℤ). z.1) same in
    elim (choice_cases d limit price) [
      | inl h ↦ inl (sym target_is ∙ h)
      | inr h ↦ inr (sym target_is ∙ h ∙ np_is)
    ]

-- At the bound of the tick indexes it is the limit.
target_at_end :
    (limit np target : ℤ) (d : Bool)
    → min_sqrt_price ≤ℤ limit
    → limit ≤ℤ max_sqrt_price
    → get_next_sqrt_prices (last_tick d) limit d ≡ ok (np, target)
    → target ≡ limit
unfolding get_next_sqrt_prices
target_at_end limit np target true low high e =
    let e' = rw price_at_min at e in
    sym (ap (λ (z : ℤ × ℤ). z.1) (ok_injective e')) ∙ max_above limit min_sqrt_price low
target_at_end limit np target false low high e =
    let e' = rw price_at_max at e in
    sym (ap (λ (z : ℤ × ℤ). z.1) (ok_injective e')) ∙ min_below limit max_sqrt_price high

eqb-false : {a b : ℤ} → eqb_ℤ a b ≡ false → a ≢ b
eqb-false {a} {b} h e = ground (arith, e, h)

module _ {Key : Type 0} (sdk : Sdk) (args : SwapArgs) where
  -- A step that reached the price of the tick goes on from that tick.
  crossed_tick :
      (s : SwapState Key) (searched after : TickArraySequence Key) (i np price l t : ℤ)
      → 0 < searched.tick_spacing
      → eqb_ℤ price np ≡ true
      → cross_tick sdk args s searched i np price ≡ ok (l, t, after)
      → (t ≡ next_from args.a_to_b i) × SameArrays searched after
  unfolding cross_tick
  crossed_tick s searched after i np price l t hs at_tick e =
      let e' = rw at_tick at e in
      let (got, got_is, e1) = >>=-eq-ok (get_tick searched i) _ e' in
      let (tick, tick_is, e2) = >>=-eq-ok (require got.0) _ e1 in
      let same = ok_injective e2 in
      (
        sym (ap (λ (z : ℤ × ℤ × TickArraySequence Key). z.1) same),
        subst (SameArrays searched) (ap (λ (z : ℤ × ℤ × TickArraySequence Key). z.2) same)
            (get_tick-SameArrays searched got.1 i got.0 hs got_is),
      )

  -- After a round the loop ends, or the next search has fewer rounds before it.
  pub round_progress :
      (s next : SwapState Key)
      → 0 < s.tick_sequence.tick_spacing
      → s.tick_sequence.a_to_b ≡ args.a_to_b
      → min_sqrt_price ≤ℤ args.sqrt_price_limit
      → args.sqrt_price_limit ≤ℤ max_sqrt_price
      → (p : RoundParts sdk args s next) → Spends sdk args s next p
      → (f : Found s.tick_sequence s.curr_tick_index p.found p.searched)
      → (goes_on sdk args next ≡ false)
        ⊎ (SameArrays s.tick_sequence next.tick_sequence
            × ((b : Start next.tick_sequence next.curr_tick_index)
                → rounds_from next.tick_sequence next.curr_tick_index b
                  < rounds_from s.tick_sequence s.curr_tick_index
                      (start_of_search s.tick_sequence p.searched s.curr_tick_index p.found f)))
  round_progress s next hs d low high p spends f =
      elim (Bool-cases (eqb_ℤ p.step.next_price p.next_tick_price)) [
        | inr short ↦ inl (
            round_ends sdk args s next p spends
              (elim (target_cases p.found.next_index args.sqrt_price_limit p.next_tick_price
                p.target args.a_to_b p.prices_is) [
                  | inl limit ↦ inl limit
                  | inr np ↦ inr (λ same. eqb-false short (same ∙ np))
                ]))
        | inl reached ↦ elim (Bool-cases (eqb_ℤ p.found.next_index (last_tick args.a_to_b))) [
          | inl at_end ↦ inl (
              round_ends sdk args s next p spends (
                inl (
                  target_at_end args.sqrt_price_limit p.next_tick_price p.target args.a_to_b low
                    high
                    (rw (← eq_of_eqb p.found.next_index (last_tick args.a_to_b) at_end)
                      p.prices_is))))
          | inr inside ↦
              let same = f.lands.same in
              let (t_is, kept) =
                crossed_tick s p.searched next.tick_sequence p.found.next_index p.next_tick_price
                  p.step.next_price p.liquidity next.curr_tick_index (rw same.spacing_is hs) reached
                  p.crossed_is in
              inr (
                SameArrays-trans same kept,
                λ b.
                    elim (rounds_from-next s.tick_sequence p.searched next.tick_sequence
                      s.curr_tick_index next.curr_tick_index p.found hs f
                      (SameArrays-trans same kept) (rw d t_is) b) [
                        | inl fewer ↦ fewer
                        | inr at_end ↦ absurd (eqb-false inside (rw d at at_end))
                      ],
              )
        ]
      ]
