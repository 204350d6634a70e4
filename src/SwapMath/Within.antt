-- ===== src/SwapMath/Within.antt =====
-- Where a swap step (swap-math.ts) moves the price: `next_in_a` and its siblings treat the four
-- combinations of direction and specified side.
use whirlpools.Prelude.{
  ℕ, ◌+◌, ◌-◌, ◌*◌, ◌/◌, ◌^◌, ◌≤◌, ◌≡◌, Bool, true, false, if◌then◌else◌, arith, ℤ, pos, leb_ℤ,
  Bool-cases, inl, inr, pos-sub, sub_ℕ-eq-pos,
}
use whirlpools.Prelude.Division.{ceil_div}
use whirlpools.Errors.{Result, ok}
use whirlpools.Sdk.{Sdk, IsSdk}
use whirlpools.BitMath.{mul_div}
use whirlpools.BitMath.Bounds.{mul_div_round_up_if_lem}
use whirlpools.SwapMath.{SwapStep, get_amount_fixed_delta, amount_after_fee, compute_swap_step}
use whirlpools.SwapMath.Parts.{Parts, compute_swap_step-Parts}
use whirlpools.TokenMath.{get_amount_delta_a, get_amount_delta_b, get_next_sqrt_price}
use whirlpools.TokenMath.Amounts.{
  get_amount_delta_a-up, get_amount_delta_a-down, get_amount_delta_b-apart,
}
use whirlpools.TokenMath.Prices.{
  price_in_a, price_out_a, from_a_zero, from_a_input, from_a_output, from_b_input, from_b_output,
}
use whirlpools.TokenMath.Moves.{
  price_in_a-le, le-price_in_a, le-price_out_a, price_out_a-le, price_in_b-le, price_out_b-le,
}

-- The choice of the next price in `computeSwapStep`.
abbrev pub choice : ℤ → ℕ → ℕ → ℕ → ℕ → Bool → Bool → Result ℤ
choice reach calc l c t is_input a_to_b =
    if leb_ℤ reach (pos calc)
    then ok (pos t)
    else get_next_sqrt_price (pos c) (pos l) (pos calc) is_input a_to_b

-- The next price is an unsigned number from `lo` to `hi`.
abbrev pub Lies : ℕ → ℕ → ℤ → Type 0
Lies lo hi z = (n : ℕ) × (z ≡ pos n) × (lo ≤ n) × (n ≤ hi)

-- The price moves down in a swap from A to B, up in one from B to A.
abbrev pub Heads : Bool → ℕ → ℕ → Type 0
Heads true c t = t ≤ c
Heads false c t = c ≤ t

-- The part of an exact input that is left for the swap when the fee is taken off.
abbrev pub after_fee : ℕ → ℕ → ℕ
after_fee amount fee_rate = amount * (1_000_000 - fee_rate) / 1_000_000

pub after_fee_lem :
    (amount fee_rate : ℕ) {z : ℤ}
    → fee_rate ≤ 1_000_000
    → amount_after_fee (pos amount) (pos fee_rate) true ≡ ok z
    → z ≡ pos (after_fee amount fee_rate)
unfolding amount_after_fee mul_div
after_fee_lem amount fee_rate h e = ground (
  arith,
  sub_ℕ-eq-pos 1_000_000 fee_rate,
  mul_div_round_up_if_lem amount (1_000_000 - fee_rate) 1_000_000 128 false,
)

pub whole_amount :
    (amount fee_rate : ℕ) {z : ℤ}
    → amount_after_fee (pos amount) (pos fee_rate) false ≡ ok z
    → z ≡ pos amount
unfolding amount_after_fee
whole_amount amount fee_rate e = cc

module _ (sdk : Sdk) (laws : IsSdk sdk) where
  next_in_a :
      (q g l calc : ℕ) {reach z : ℤ}
      → get_amount_delta_a sdk (pos (q + g)) (pos q) (pos l) true ≡ ok reach
      → choice reach calc l (q + g) q true true ≡ ok z
      → Lies q (q + g) z
  unfolding get_next_sqrt_price
  next_in_a q g l ℕ.zero {reach = reach} e h = elim (Bool-cases (leb_ℤ reach (pos 0))) [
    | inl reached ↦ (q, ground arith, omega arith, omega arith)
    | inr short ↦ (q + g, ground (arith, from_a_zero (q + g) l true), omega arith, omega arith)
  ]
  next_in_a q g l (ℕ.suc a) {reach = reach} e h =
      let (prices, reach_is) = get_amount_delta_a-down sdk laws q g l true e in
      elim (Bool-cases (leb_ℤ reach (pos (ℕ.suc a)))) [
        | inl reached ↦ (q, ground arith, omega arith, omega arith)
        | inr short ↦
            let (z_is, d) = from_a_input (q + g) l (ℕ.suc a) (omega arith) (rw short at h) in
            (
              price_in_a (q + g) l (ℕ.suc a),
              z_is,
              le-price_in_a q g l (ℕ.suc a) prices d (ground arith),
              price_in_a-le (q + g) l (ℕ.suc a) d,
            )
      ]

  next_out_a :
      (q g l calc : ℕ) {reach z : ℤ}
      → get_amount_delta_a sdk (pos q) (pos (q + g)) (pos l) false ≡ ok reach
      → choice reach calc l q (q + g) false false ≡ ok z
      → Lies q (q + g) z
  unfolding get_next_sqrt_price
  next_out_a q g l ℕ.zero {reach = reach} e h = elim (Bool-cases (leb_ℤ reach (pos 0))) [
    | inl reached ↦ (q + g, ground arith, omega arith, omega arith)
    | inr short ↦ (q, ground (arith, from_a_zero q l false), omega arith, omega arith)
  ]
  next_out_a q g l (ℕ.suc a) {reach = reach} e h =
      let (prices, reach_is) = get_amount_delta_a-up sdk laws q g l false e in
      elim (Bool-cases (leb_ℤ reach (pos (ℕ.suc a)))) [
        | inl reached ↦ (q + g, ground arith, omega arith, omega arith)
        | inr short ↦
            let (z_is, d) = from_a_output q l (ℕ.suc a) (omega arith) (rw short at h) in
            (
              price_out_a q l (ℕ.suc a),
              z_is,
              le-price_out_a q l (ℕ.suc a) d,
              price_out_a-le q g l (ℕ.suc a) d prices (ground arith),
            )
      ]

  next_in_b :
      (q g l calc : ℕ) {reach z : ℤ}
      → get_amount_delta_b sdk (pos q) (pos (q + g)) (pos l) true ≡ ok reach
      → choice reach calc l q (q + g) true false ≡ ok z
      → Lies q (q + g) z
  unfolding get_next_sqrt_price
  next_in_b q g l a {reach = reach} e h =
      let reach_is : _ = get_amount_delta_b-apart sdk laws q (q + g) g l true (omega arith) e in
      elim (Bool-cases (leb_ℤ reach (pos a))) [
        | inl reached ↦ (q + g, ground arith, omega arith, omega arith)
        | inr short ↦ (
          q + a * 2 ^ 64 / l,
          ground (arith, from_b_input q l a),
          omega arith,
          ground (arith, from_b_input q l a, price_in_b-le g l a),
        )
      ]

  next_out_b :
      (q g l calc : ℕ) {reach z : ℤ}
      → get_amount_delta_b sdk (pos (q + g)) (pos q) (pos l) false ≡ ok reach
      → choice reach calc l (q + g) q false true ≡ ok z
      → Lies q (q + g) z
  unfolding get_next_sqrt_price
  next_out_b q g l a {reach = reach} e h =
      let reach_is : _ = get_amount_delta_b-apart sdk laws (q + g) q g l false (omega arith) e in
      elim (Bool-cases (leb_ℤ reach (pos a))) [
        | inl reached ↦ (q, ground arith, omega arith, omega arith)
        | inr short ↦ (
          q + g - ceil_div (a * 2 ^ 64) l,
          ground (
            arith,
            from_b_output (q + g) l a,
            price_out_b-le g l a,
            pos-sub (q + g) (ceil_div (a * 2 ^ 64) l),
          ),
          ground (arith, from_b_output (q + g) l a, price_out_b-le g l a),
          omega arith,
        )
      ]

  next_by_mode :
      (q g l amount fee_rate : ℕ) (is_input a_to_b : Bool) {s : SwapStep}
      → fee_rate ≤ 1_000_000
      → (let c = if a_to_b then q + g else q in
          let t = if a_to_b then q else q + g in
          Parts sdk (pos amount) (pos fee_rate) (pos l) (pos c) (pos t) is_input a_to_b s)
      → Lies q (q + g) s.next_price
  unfolding get_amount_fixed_delta
  next_by_mode q g l amount fee_rate true true h p =
      next_in_a q g l (after_fee amount fee_rate) p.reach_is
        (rw (after_fee_lem amount fee_rate h p.calc_is) at p.next_is)
  next_by_mode q g l amount fee_rate true false h p =
      next_in_b q g l (after_fee amount fee_rate) p.reach_is
        (rw (after_fee_lem amount fee_rate h p.calc_is) at p.next_is)
  next_by_mode q g l amount fee_rate false true h p =
      next_out_b q g l amount p.reach_is (rw (whole_amount amount fee_rate p.calc_is) at p.next_is)
  next_by_mode q g l amount fee_rate false false h p =
      next_out_a q g l amount p.reach_is (rw (whole_amount amount fee_rate p.calc_is) at p.next_is)

  -- A successful step leaves the price between its current value and the target, both included,
  -- whichever side is specified and in both directions: it never overshoots the target and never
  -- moves away from it. The price is heading for the target, and the fee rate is at most one.
  pub compute_swap_step-stays_within :
      (amount fee_rate l c t : ℕ) (is_input a_to_b : Bool) {s : SwapStep}
      → fee_rate ≤ 1_000_000
      → Heads a_to_b c t
      → compute_swap_step sdk (pos amount) (pos fee_rate) (pos l) (pos c) (pos t) is_input a_to_b
        ≡ ok s
      → (n : ℕ) × (s.next_price ≡ pos n) × Heads a_to_b c n × Heads a_to_b n t
  compute_swap_step-stays_within amount fee_rate l c t is_input true {s} h toward e =
      let span : t + (c - t) ≡ c = omega arith in
      let (n, n_is, low, high) =
        next_by_mode t (c - t) l amount fee_rate is_input true {s = s} h
          (rw span (compute_swap_step-Parts sdk _ _ _ _ _ is_input true e)) in
      (n, n_is, omega arith, omega arith)
  compute_swap_step-stays_within amount fee_rate l c t is_input false {s} h toward e =
      let span : c + (t - c) ≡ t = omega arith in
      let (n, n_is, low, high) =
        next_by_mode c (t - c) l amount fee_rate is_input false {s = s} h
          (rw span (compute_swap_step-Parts sdk _ _ _ _ _ is_input false e)) in
      (n, n_is, omega arith, omega arith)
