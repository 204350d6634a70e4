-- ===== src/TokenMath/Amounts.antt =====
-- Token amounts between two prices (token-math.ts), at unsigned arguments.
use native.Mathlib.Nat.{min-eq_left, min-eq_right, max-eq_left, max-eq_right}
use native.Mathlib.Decide.{dec_le}
use whirlpools.Prelude.{
  ℕ, ◌-◌, ◌*◌, ◌/◌, ◌^◌, ◌≤◌, ◌≡◌, Bool, true, false, ◌==◌, if◌then◌else◌, arith, pos, min, max,
  sub_ℕ-eq-pos, ◌-ℤ◌, ℤ, ◌+◌, ◌<◌, ◌⊎◌,
}
use whirlpools.Errors.{multiplication_overflow, token_max_exceeded, math, token, ok, err, assertion}
use whirlpools.Sdk.{Sdk, IsSdk}
use whirlpools.BitMath.{checked_mul_shift_right_round_up_if}
use whirlpools.BitMath.Bounds.{
  rounded, over, ceil_by_remainder, checked_mul_shift_right_round_up_if_lem,
}
use whirlpools.TokenMath.{get_amount_delta_a, get_amount_delta_b, to_increasing_price_order}

-- The distance between two prices.
abbrev pub gap : ℕ → ℕ → ℕ
gap a b = max a b - min a b

order_prices :
    (p q : ℕ) → to_increasing_price_order (pos p) (pos q) ≡ (pos (min p q), pos (max p q))
order_prices p q = ground arith

prices_apart : (p q : ℕ) → pos (max p q) -ℤ pos (min p q) ≡ pos (gap p q)
unfolding ◌-ℤ◌
prices_apart p q = ground arith

min-mul-max : (p q : ℕ) → min p q * max p q ≡ p * q
min-mul-max p q = elim (dec_le p q) [
  | yes h ↦ rw (min-eq_left h, max-eq_right h)
  | no h ↦ let h' : q ≤ p = omega arith in rw (min-eq_right h', max-eq_left h') (omega arith)
]

module _ (sdk : Sdk) (laws : IsSdk sdk) where
  -- The amount of token A between two prices is liquidity * 2^64 * gap over the product of the
  -- prices, rounded as asked; a zero price is refused, and so is an amount above 64 bits.
  pub get_amount_delta_a_lem :
      (p q l : ℕ) (round_up : Bool)
      → get_amount_delta_a sdk (pos p) (pos q) (pos l) round_up ≡ (
          if p * q == 0
          then err assertion
          else if over (rounded round_up (l * gap p q * 2 ^ 64) (p * q)) 64
          then err (token token_max_exceeded)
          else ok (pos (rounded round_up (l * gap p q * 2 ^ 64) (p * q))))
  unfolding get_amount_delta_a
  get_amount_delta_a_lem p q l true = rw (order_prices p q) (
      ground (
        arith,
        min-mul-max p q,
        sub_ℕ-eq-pos (max p q) (min p q),
        ceil_by_remainder (l * gap p q * 2 ^ 64) (min p q * max p q),
        laws.u64_max_is,
      ))
  get_amount_delta_a_lem p q l false =
      rw (order_prices p q)
        (ground (arith, min-mul-max p q, sub_ℕ-eq-pos (max p q) (min p q), laws.u64_max_is))

  -- The amount of token B between two prices, rounded down: liquidity * gap over 2^64, refused
  -- where the product has more than 128 bits.
  pub get_amount_delta_b_down :
      (p q l : ℕ)
      → get_amount_delta_b sdk (pos p) (pos q) (pos l) false ≡ (
          if over (l * gap p q) 128
          then err (math multiplication_overflow)
          else ok (pos (l * gap p q / 2 ^ 64)))
  unfolding get_amount_delta_b
  get_amount_delta_b_down p q l = rw (order_prices p q) (
      ground (
        arith,
        sub_ℕ-eq-pos (max p q) (min p q),
        checked_mul_shift_right_round_up_if_lem sdk laws l (gap p q) 128 false,
      ))

  -- What a successful call says, with the prices a distance `g` apart.
  pub get_amount_delta_a-up :
      (q g l : ℕ) (round_up : Bool) {z : ℤ}
      → get_amount_delta_a sdk (pos q) (pos (q + g)) (pos l) round_up ≡ ok z
      → (0 < q * (q + g)) × (z ≡ pos (rounded round_up (l * g * 2 ^ 64) (q * (q + g))))
  get_amount_delta_a-up q g l round_up e =
      let apart : gap q (q + g) ≡ g = omega arith in
      ground (arith, get_amount_delta_a_lem q (q + g) l round_up, apart)

  pub get_amount_delta_a-down :
      (q g l : ℕ) (round_up : Bool) {z : ℤ}
      → get_amount_delta_a sdk (pos (q + g)) (pos q) (pos l) round_up ≡ ok z
      → (0 < q * (q + g)) × (z ≡ pos (rounded round_up (l * g * 2 ^ 64) (q * (q + g))))
  get_amount_delta_a-down q g l round_up e =
      let apart : gap (q + g) q ≡ g = omega arith in
      ground (arith, get_amount_delta_a_lem (q + g) q l round_up, apart)

  -- Token B: a rounded-up amount exceeds the quotient by one at most.
  pub get_amount_delta_b_lem :
      (p q l : ℕ) (round_up : Bool)
      → get_amount_delta_b sdk (pos p) (pos q) (pos l) round_up
        ≡ checked_mul_shift_right_round_up_if sdk (pos l) (pos (gap p q)) round_up 128
  unfolding get_amount_delta_b
  get_amount_delta_b_lem p q l round_up =
      rw (order_prices p q) (ground (arith, sub_ℕ-eq-pos (max p q) (min p q)))

  pub get_amount_delta_b-apart :
      (p q g l : ℕ) (round_up : Bool) {z : ℤ}
      → gap p q ≡ g
      → get_amount_delta_b sdk (pos p) (pos q) (pos l) round_up ≡ ok z
      → (z ≡ pos (l * g / 2 ^ 64)) ⊎ ((round_up ≡ true) × (z ≡ pos (l * g / 2 ^ 64 + 1)))
  get_amount_delta_b-apart p q g l true d e = ground (
    arith,
    get_amount_delta_b_lem p q l true,
    checked_mul_shift_right_round_up_if_lem sdk laws l (gap p q) 128 true,
  )
  get_amount_delta_b-apart p q g l false d e = ground (
    arith,
    get_amount_delta_b_lem p q l false,
    checked_mul_shift_right_round_up_if_lem sdk laws l (gap p q) 128 false,
  )
