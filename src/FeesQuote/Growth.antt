-- ===== src/FeesQuote/Growth.antt =====
-- Fee growth with its wrap-around at 128 bits (collect-fees-quote.ts).
use whirlpools.Prelude.{
  ℕ, ◌+◌, ◌-◌, ◌*◌, ◌/◌, ◌%◌, ◌^◌, ◌<◌, ◌≡◌, refl, arith, ℤ, pos, ap, ◌∙◌, Bool-cases, inl, inr,
  ltb_ℤ, if◌then◌else◌,
}
use whirlpools.Errors.{ok}
use whirlpools.Sdk.{Sdk, IsSdk}
use whirlpools.FeesQuote.{fee_growth_below, fee_growth_above, fee_growth_inside, fee_owed_delta}

-- a - b on 128 bits.
abbrev wrapping_sub : ℕ → ℕ → ℕ
wrapping_sub a b = (a + 2 ^ 128 - b) % 2 ^ 128

module _ (sdk : Sdk) (laws : IsSdk sdk) where
  -- What is left of a sum of growths on 128 bits.
  take_back :
      (a b : ℕ)
      → a < 2 ^ 128
      → b < 2 ^ 128
      → sdk.sub_underflow_u128 (pos ((a + b) % 2 ^ 128)) (pos b) ≡ pos a
  take_back a b ha hb =
      let left : wrapping_sub ((a + b) % 2 ^ 128) b ≡ a = omega arith in
      laws.sub_underflow_u128_is ((a + b) % 2 ^ 128) b (omega arith) hb ∙ ap pos left

  -- The growths below a range, inside it and above it.
  module _ (below inside above : ℕ) (hb : below < 2 ^ 128) (hi : inside < 2 ^ 128)
      (ha : above < 2 ^ 128) where
    -- The growth in all, and what a tick holds: the growth on the side of it that the current tick is
    -- not on.
    abbrev pub global : ℕ
    global = (below + inside + above) % 2 ^ 128

    abbrev pub outside_lower : ℤ → ℤ → ℕ
    outside_lower tick lower = if ltb_ℤ tick lower then (inside + above) % 2 ^ 128 else below

    abbrev pub outside_upper : ℤ → ℤ → ℕ
    outside_upper tick upper = if ltb_ℤ tick upper then above else (below + inside) % 2 ^ 128

    below_lem :
        (tick lower : ℤ)
        → fee_growth_below sdk tick lower (pos global) (pos (outside_lower tick lower)) ≡ pos below
    unfolding fee_growth_below
    below_lem tick lower = elim (Bool-cases (ltb_ℤ tick lower)) [
      | inl down ↦
          let split : global ≡ (below + (inside + above) % 2 ^ 128) % 2 ^ 128 = omega arith in
          rw (down, split) (take_back below ((inside + above) % 2 ^ 128) hb (omega arith))
      | inr up ↦ rw up refl
    ]

    above_lem :
        (tick upper : ℤ)
        → fee_growth_above sdk tick upper (pos global) (pos (outside_upper tick upper)) ≡ pos above
    unfolding fee_growth_above
    above_lem tick upper = elim (Bool-cases (ltb_ℤ tick upper)) [
      | inl down ↦ rw down refl
      | inr up ↦
          let split : global ≡ (above + (below + inside) % 2 ^ 128) % 2 ^ 128 = omega arith in
          rw (up, split) (take_back above ((below + inside) % 2 ^ 128) ha (omega arith))
    ]

    -- Where each tick of a range holds the growth on the side of it that the current tick is not on,
    -- and all growths are counted on 128 bits: wherever the current tick is, the growths that are
    -- computed below, inside and above the range are those that there were.
    pub fee_growth-recovers :
        (tick lower upper : ℤ)
        → (fee_growth_below sdk tick lower (pos global) (pos (outside_lower tick lower))
            ≡ pos below)
          × (fee_growth_inside sdk tick lower upper
                (pos global)
                (pos (outside_lower tick lower))
                (pos (outside_upper tick upper))
              ≡ pos inside)
          × (fee_growth_above sdk tick upper (pos global) (pos (outside_upper tick upper))
              ≡ pos above)
    unfolding fee_growth_inside
    fee_growth-recovers tick lower upper =
        let first : global ≡ ((inside + above) % 2 ^ 128 + below) % 2 ^ 128 = omega arith in
        let rest = take_back ((inside + above) % 2 ^ 128) below (omega arith) hb in
        (
          below_lem tick lower,
          ap
                (λ (b : ℤ).
                  sdk.sub_underflow_u128 (sdk.sub_underflow_u128 (pos global) b)
                    (fee_growth_above sdk tick upper (pos global) (pos (outside_upper tick upper))))
                (below_lem tick lower)
              ∙ ap (sdk.sub_underflow_u128 (sdk.sub_underflow_u128 (pos global) (pos below)))
                  (above_lem tick upper)
              ∙ ap (λ (x : ℤ). sdk.sub_underflow_u128 x (pos above))
                  (ap (λ n. sdk.sub_underflow_u128 (pos n) (pos below)) first ∙ rest)
              ∙ take_back inside above hi ha,
          above_lem tick upper,
        )

  -- A growth by `d` since the checkpoint pays d * liquidity / 2^64, also where the growth has
  -- wrapped around since; the checkpoint and `d` are numbers of 128 bits.
  pub fee_owed_delta-wraps :
      (checkpoint d liquidity : ℕ)
      → checkpoint < 2 ^ 128
      → d < 2 ^ 128
      → fee_owed_delta sdk (pos ((checkpoint + d) % 2 ^ 128)) (pos checkpoint) (pos liquidity)
        ≡ ok (pos (d * liquidity / 2 ^ 64))
  unfolding fee_owed_delta
  fee_owed_delta-wraps checkpoint d liquidity hc hd =
      let back : wrapping_sub ((checkpoint + d) % 2 ^ 128) checkpoint ≡ d = omega arith in
      rw (laws.sub_underflow_u128_is ((checkpoint + d) % 2 ^ 128) checkpoint (omega arith) hc, back)
        (ground arith)
