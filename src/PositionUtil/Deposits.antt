-- ===== src/PositionUtil/Deposits.antt =====
-- A deposit that is turned into liquidity costs at most the deposit (position-util.ts).
use native.Mathlib.Nat.{le-div_iff_mul-le, mul-le-mul_right}
use whirlpools.Prelude.{ℕ, ◌-◌, ◌*◌, ◌/◌, ◌^◌, ◌≤◌, ◌<◌, ◌≡◌, true, false, arith, pos, sub_ℕ-eq-pos}
use whirlpools.Prelude.Division.{ceil_div, ceil_div-le_iff}
use whirlpools.Errors.{ok}
use whirlpools.Sdk.{Sdk, IsSdk}
use whirlpools.PositionUtil.{
  get_liquidity_from_token_a, get_liquidity_from_token_b, get_token_a_from_liquidity,
  get_token_b_from_liquidity,
}

module _ (sdk : Sdk) (laws : IsSdk sdk) where
  -- Between two different prices an amount of token B buys a liquidity, rounded down, whose cost,
  -- rounded up, is at most the amount.
  pub get_token_b-get_liquidity :
      (amount lower upper : ℕ)
      → lower < upper
      → (l cost : ℕ) × (get_liquidity_from_token_b sdk (pos amount) (pos lower) (pos upper) false
          ≡ ok (pos l))
        × (get_token_b_from_liquidity sdk (pos l) (pos lower) (pos upper) true ≡ ok (pos cost))
        × (cost ≤ amount)
  unfolding get_liquidity_from_token_b get_token_b_from_liquidity
  get_token_b-get_liquidity amount lower upper apart =
      let l = amount * 2 ^ 64 / (upper - lower) in
      let bought : l * (upper - lower) ≤ amount * 2 ^ 64 =
        (le-div_iff_mul-le (omega arith)).0 (omega arith) in
      (
        l,
        ceil_div (l * (upper - lower)) (2 ^ 64),
        ground (arith, sub_ℕ-eq-pos upper lower),
        ground
            (arith, sub_ℕ-eq-pos upper lower, laws.shift_right_round_up_is (l * (upper - lower))),
        (ceil_div-le_iff (l * (upper - lower)) (2 ^ 64) amount (omega arith)).1 bought,
      )

  token_a_cost :
      (l lower upper : ℕ)
      → 0 < upper * lower
      → lower < upper
      → get_token_a_from_liquidity sdk (pos l) (pos lower) (pos upper) true
        ≡ ok (pos (ceil_div (l * (upper - lower) * 2 ^ 64) (upper * lower)))
  unfolding get_token_a_from_liquidity
  token_a_cost l lower upper positive apart = ground (
    arith,
    sub_ℕ-eq-pos upper lower,
    laws.div_round_up_is (l * (upper - lower) * 2 ^ 64) (upper * lower),
  )

  token_a_liquidity :
      (amount lower upper : ℕ)
      → lower < upper
      → get_liquidity_from_token_a sdk (pos amount) (pos lower) (pos upper) false
        ≡ ok (pos (amount * lower * upper / (upper - lower) / 2 ^ 64))
  unfolding get_liquidity_from_token_a
  token_a_liquidity amount lower upper apart = ground (arith, sub_ℕ-eq-pos upper lower)

  -- Between two different prices that are not zero an amount of token A buys a liquidity, rounded
  -- down, whose cost, rounded up, is at most the amount.
  pub get_token_a-get_liquidity :
      (amount lower upper : ℕ)
      → 0 < lower
      → lower < upper
      → (l cost : ℕ) × (get_liquidity_from_token_a sdk (pos amount) (pos lower) (pos upper) false
          ≡ ok (pos l))
        × (get_token_a_from_liquidity sdk (pos l) (pos lower) (pos upper) true ≡ ok (pos cost))
        × (cost ≤ amount)
  get_token_a-get_liquidity amount lower upper positive apart =
      let x = amount * lower * upper / (upper - lower) in
      let l = x / 2 ^ 64 in
      let part : x * (upper - lower) ≤ amount * lower * upper =
        (le-div_iff_mul-le (omega arith)).0 (omega arith) in
      let floor : l * 2 ^ 64 ≤ x = (le-div_iff_mul-le (omega arith)).0 (omega arith) in
      let bought : l * (upper - lower) * 2 ^ 64 ≤ amount * (upper * lower) =
        omega (arith, mul-le-mul_right (upper - lower) floor) in
      let positive_product : 0 < upper * lower = grind arith in
      (
        l,
        ceil_div (l * (upper - lower) * 2 ^ 64) (upper * lower),
        token_a_liquidity amount lower upper apart,
        token_a_cost l lower upper positive_product apart,
        (ceil_div-le_iff (l * (upper - lower) * 2 ^ 64) (upper * lower) amount positive_product).1
            bought,
      )
