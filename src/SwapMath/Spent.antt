-- ===== src/SwapMath/Spent.antt =====
-- What a swap step (swap-math.ts) takes from an exact input of token A.
use mathlib.Core.Path.{subst}
use native.Mathlib.Nat.{div-le_of_le-mul, mul-le-mul_left}
use whirlpools.Prelude.{
  ◌∙◌, ℕ, ◌+◌, ◌-◌, ◌*◌, ◌^◌, ◌≤◌, ◌<◌, ◌≡◌, ◌≢◌, ◌⊎◌, ap, true, false, arith, ℤ, pos, leb_ℤ, eqb_ℤ,
  Bool-cases, inl, inr, sub_ℕ-eq-pos,
}
use whirlpools.Prelude.Division.{ceil_div, ceil_div-le_iff, le-mul-ceil_div}
use whirlpools.Errors.{ok}
use whirlpools.Sdk.{Sdk, IsSdk}
use whirlpools.BitMath.{mul_div_round_up}
use whirlpools.BitMath.Bounds.{mul_div_round_up_if_lem}
use whirlpools.SwapMath.{SwapStep, get_amount_fixed_delta, fee_of_step, compute_swap_step}
use whirlpools.SwapMath.Parts.{Parts, compute_swap_step-Parts}
use whirlpools.SwapMath.Within.{after_fee, after_fee_lem}
use whirlpools.TokenMath.{get_amount_delta_a, get_next_sqrt_price}
use whirlpools.TokenMath.Amounts.{get_amount_delta_a-down}
use whirlpools.TokenMath.Prices.{price_in_a, from_a_zero, from_a_input}
use whirlpools.TokenMath.Moves.{price_in_a-le, amount-price_in_a}

-- The fee on an amount that is within the input less the fee fits into the rest of the input.
fee_fits : (i d f amount : ℕ) → 0 < d → i * (d + f) ≤ amount * d → i + ceil_div (i * f) d ≤ amount
fee_fits i d f amount h le =
    let part : i ≤ amount = grind arith in
    let split : amount - i + i ≡ amount = omega arith in
    let rest : ceil_div (i * f) d ≤ amount - i =
      (ceil_div-le_iff (i * f) d (amount - i) h).1 (omega (arith, ap (λ (x : ℕ). x * d) split)) in
    omega arith

-- A deposit that falls short of the target: the price `n` it moves to.
record Short (c l calc : ℕ) (z : ℤ) : Type 0 where
  n : ℕ
  n_is : z ≡ pos n
  low : n ≤ c
  covers : l * c * 2 ^ 64 ≤ n * (l * 2 ^ 64 + c * calc)

price_moved :
    (c l calc : ℕ) {z : ℤ}
    → get_next_sqrt_price (pos c) (pos l) (pos calc) true true ≡ ok z
    → Short c l calc z
unfolding get_next_sqrt_price
price_moved c l ℕ.zero e = record {
  n = c;
  n_is = ground (arith, from_a_zero c l true);
  low = omega arith;
  covers = omega arith;
}
price_moved c l (ℕ.suc a) e =
    let (z_is, d) = from_a_input c l (ℕ.suc a) (omega arith) e in
    record {
      n = price_in_a c l (ℕ.suc a);
      n_is = z_is;
      low = price_in_a-le c l (ℕ.suc a) d;
      covers = le-mul-ceil_div (l * c * 2 ^ 64) (l * 2 ^ 64 + c * ℕ.suc a) d;
    }

-- What the step takes: unsigned, within the input, and all of it where the target is not reached.
abbrev Taken : ℕ → ℕ → SwapStep → Type 0
Taken amount t s =
    (i fee : ℕ) × (s.amount_in ≡ pos i)
    × (s.fee_amount ≡ pos fee)
    × (i + fee ≤ amount)
    × (s.next_price ≢ pos t → i + fee ≡ amount)

-- What the step takes: unsigned, within the input, and all of it or up to the target.
abbrev pub Spends : ℕ → ℕ → SwapStep → Type 0
Spends amount t s =
    (i fee : ℕ) × (s.amount_in ≡ pos i)
    × (s.fee_amount ≡ pos fee)
    × (i + fee ≤ amount)
    × ((s.next_price ≡ pos t) ⊎ (i + fee ≡ amount))

fee_at_target :
    (i f amount : ℕ) {z : ℤ}
    → f < 1_000_000
    → fee_of_step (pos amount) (pos i) (pos f) false ≡ ok z
    → z ≡ pos (ceil_div (i * f) (1_000_000 - f))
unfolding fee_of_step mul_div_round_up
fee_at_target i f amount h e =
    ground (arith, sub_ℕ-eq-pos 1_000_000 f, mul_div_round_up_if_lem i f (1_000_000 - f) 128 true)

fee_short :
    (i f amount : ℕ) {z : ℤ}
    → i ≤ amount
    → fee_of_step (pos amount) (pos i) (pos f) true ≡ ok z
    → z ≡ pos (amount - i)
unfolding fee_of_step
fee_short i f amount h e = ground (arith, sub_ℕ-eq-pos amount i)

after_fee-le : (amount f : ℕ) → after_fee amount f ≤ amount
after_fee-le amount f =
    let less : amount * (1_000_000 - f) ≤ amount * 1_000_000 =
      mul-le-mul_left amount (omega arith) in
    div-le_of_le-mul 1_000_000 (omega arith)

after_fee_fits :
    (i f amount : ℕ)
    → f < 1_000_000
    → i ≤ after_fee amount f
    → i + ceil_div (i * f) (1_000_000 - f) ≤ amount
after_fee_fits i f amount h le =
    let whole : 1_000_000 - f + f ≡ 1_000_000 = omega arith in
    fee_fits i (1_000_000 - f) f amount (omega arith) (rw whole (omega arith))

module _ (sdk : Sdk) (laws : IsSdk sdk) where
  amount_covered :
      (c l calc : ℕ) {z x : ℤ}
      → (m : Short c l calc z) → get_amount_delta_a sdk (pos c) (pos m.n) (pos l) true ≡ ok x
      → (i : ℕ) × (x ≡ pos i) × (i ≤ calc)
  amount_covered c l calc m e =
      let span : m.n + (c - m.n) ≡ c = omega (arith, m.low) in
      let (prices, x_is) = get_amount_delta_a-down sdk laws m.n (c - m.n) l true (rw span e) in
      (_, x_is, amount-price_in_a m.n (c - m.n) l calc prices (rw span m.covers))

  module _ (amount f l c t : ℕ) (fits : f < 1_000_000) {s : SwapStep}
      (p : Parts sdk (pos amount) (pos f) (pos l) (pos c) (pos t) true true s) where
    calc_is : p.calc ≡ pos (after_fee amount f)
    calc_is = after_fee_lem amount f (omega arith) p.calc_is

    -- The target is reached: the input up to it, and a fee on that.
    spends_reached :
        (i : ℕ)
        → p.reach ≡ pos i
        → leb_ℤ p.reach (pos (after_fee amount f)) ≡ true
        → Taken amount t s
    spends_reached i reach_is h =
        let next_is : s.next_price ≡ pos t = ground (arith, calc_is) in
        let in_is : s.amount_in ≡ pos i = ground arith in
        let small : i ≤ after_fee amount f = ground arith in
        let fee_is : s.fee_amount ≡ pos (ceil_div (i * f) (1_000_000 - f)) =
          fee_at_target i f amount fits (ground arith) in
        (
          i,
          ceil_div (i * f) (1_000_000 - f),
          in_is,
          fee_is,
          after_fee_fits i f amount fits small,
          λ other. absurd (other next_is),
        )

    -- The target is not reached: the input up to the price reached, and the rest as the fee.
    spends_short :
        (i : ℕ)
        → s.amount_in ≡ pos i
        → i ≤ amount
        → eqb_ℤ s.next_price (pos t) ≡ false
        → Taken amount t s
    spends_short i in_is h apart =
        let fee_is : s.fee_amount ≡ pos (amount - i) = fee_short i f amount h (ground arith) in
        (i, amount - i, in_is, fee_is, omega arith, λ other. omega arith)

  spends_by_gap :
      (amount f l q g : ℕ) {s : SwapStep}
      → f < 1_000_000
      → Parts sdk (pos amount) (pos f) (pos l) (pos (q + g)) (pos q) true true s
      → Taken amount q s
  unfolding get_amount_fixed_delta
  spends_by_gap amount f l q g {s} fits p =
      let (prices, reach_is) = get_amount_delta_a-down sdk laws q g l true p.reach_is in
      elim (Bool-cases (leb_ℤ p.reach (pos (after_fee amount f)))) [
        | inl reached ↦ spends_reached amount f l (q + g) q fits p _ reach_is reached
        | inr short ↦
            let m : Short (q + g) l (after_fee amount f) s.next_price =
              price_moved (q + g) l (after_fee amount f)
                (rw short at (rw (calc_is amount f l (q + g) q fits p) at p.next_is)) in
            elim (Bool-cases (eqb_ℤ s.next_price (pos q))) [
              | inl same ↦
                  let n_is : m.n ≡ q = ground (arith, m.n_is) in
                  let small = amount-price_in_a q g l (after_fee amount f) prices (
                    subst
                      (λ n. l * (q + g) * 2 ^ 64 ≤ n * (l * 2 ^ 64 + (q + g) * after_fee amount f))
                      n_is m.covers) in
                  absurd (ground (arith, small))
              | inr apart ↦
                  let delta : get_amount_delta_a sdk (pos (q + g)) (pos m.n) (pos l) true
                      ≡ ok p.fixed =
                    rw (← m.n_is) (rw apart at p.fixed_is) in
                  let (i, x_is, small) = amount_covered (q + g) l (after_fee amount f) m delta in
                  spends_short amount f l (q + g) q fits p i (p.amount_in_is ∙ x_is)
                    (omega (arith, after_fee-le amount f)) apart
            ]
      ]

  target_or_whole : (amount t : ℕ) (s : SwapStep) → Taken amount t s → Spends amount t s
  target_or_whole amount t s (i, fee, in_is, fee_is, fits, whole) = (
    i,
    fee,
    in_is,
    fee_is,
    fits,
    elim (Bool-cases (eqb_ℤ s.next_price (pos t))) [
      | inl same ↦ inl (ground (arith, same))
      | inr apart ↦ inr (whole (λ same. ground (arith, apart, same)))
    ],
  )

  -- A step of a swap of token A for token B with an exact input takes an unsigned amount and an
  -- unsigned fee that together never exceed the input, and it reaches the target price or takes the
  -- whole input. The fee rate is below one, and the target is not above the current price.
  pub compute_swap_step-Spends :
      (amount f l c t : ℕ) {s : SwapStep}
      → f < 1_000_000
      → t ≤ c
      → compute_swap_step sdk (pos amount) (pos f) (pos l) (pos c) (pos t) true true ≡ ok s
      → Spends amount t s
  compute_swap_step-Spends amount f l c t {s} fits toward e =
      let span : t + (c - t) ≡ c = omega arith in
      target_or_whole amount t s (
        spends_by_gap amount f l t (c - t) {s = s} fits
          (rw span (compute_swap_step-Parts sdk _ _ _ _ _ true true e)))
