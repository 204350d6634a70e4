-- ===== src/LiquidityQuote/Amounts.antt =====
-- The amounts of a deposit and of a withdrawal of the same liquidity (increase-liquidity-quote.ts,
-- decrease-liquidity-quote.ts).
use whirlpools.Prelude.{
  ℕ, suc, ◌+◌, ◌-◌, ◌*◌, ◌/◌, ◌^◌, ◌≤◌, ◌<◌, ◌≡◌, refl, ◌⊎◌, inl, inr, arith, Bool, true, false,
  min, max, ℤ, pos, ◌-ℤ◌, ◌*ℤ◌, eqb_ℤ, sub_ℕ-eq-pos,
}
use whirlpools.Prelude.Division.{div_mono, lt-suc_div, ceil_div, ceil_div-le_iff}
use whirlpools.Errors.{Result, ok}
use whirlpools.Bn.{div}
use whirlpools.Sdk.{Sdk, IsSdk}
use whirlpools.TokenMath.{Percentage}
use whirlpools.TransferFee.{TokenExtensionContext}
use whirlpools.PriceMath.Range.{tick_index_to_sqrt_price_x64-returns}
use whirlpools.PositionUtil.{
  PositionStatus, below_range, in_range, above_range, strict_status, get_strict_position_status,
  order_sqrt_price, get_token_a_from_liquidity, get_token_b_from_liquidity,
}
use whirlpools.LiquidityQuote.Increase
use whirlpools.LiquidityQuote.Decrease

-- Two amounts that differ by the rounding.
abbrev pub Rounded : ℕ → ℕ → Type 0
Rounded down up = (down ≤ up) × (up ≤ down + 1)

floor-ceil_div : (n d : ℕ) → 0 < d → Rounded (n / d) (ceil_div n d)
floor-ceil_div n d hd =
    let over : n < suc (n / d) * d = lt-suc_div n d hd in
    (
      div_mono n (n + (d - 1)) d hd (omega arith),
      (ceil_div-le_iff n d (n / d + 1) hd).1 (omega arith),
    )

product_pos : (a b : ℕ) → 0 < a → 0 < b → 0 < a * b
product_pos a b ha hb = grind arith

-- `div` by a positive number.
div-pos : (n d : ℕ) → 0 < d → div (pos n) (pos d) ≡ ok (pos (n / d))
div-pos n d h = ground arith

ordered : (x y : ℕ) → order_sqrt_price (pos x) (pos y) ≡ (pos (min x y), pos (max x y))
ordered x y = ground arith

module _ (sdk : Sdk) (laws : IsSdk sdk) where
  -- The amount of a token in both roundings.
  abbrev Amounts : (Bool → Result ℤ) → Type 0
  Amounts f = (down up : ℕ) × (f false ≡ ok (pos down)) × (f true ≡ ok (pos up)) × Rounded down up

  pub token_a :
      (l x y : ℕ) → 0 < x → 0 < y → Amounts (get_token_a_from_liquidity sdk (pos l) (pos x) (pos y))
  unfolding get_token_a_from_liquidity ◌*ℤ◌ ◌-ℤ◌
  token_a l x y hx hy =
      let n = l * (max x y - min x y) * 2 ^ 64 in
      let d = max x y * min x y in
      let hd : 0 < d = product_pos (max x y) (min x y) (omega arith) (omega arith) in
      (
        n / d,
        ceil_div n d,
        rw (ordered x y, sub_ℕ-eq-pos (max x y) (min x y) (omega arith)) (div-pos n d hd),
        rw (ordered x y, sub_ℕ-eq-pos (max x y) (min x y) (omega arith))
            (laws.div_round_up_is n d hd),
        floor-ceil_div n d hd,
      )

  pub token_b : (l x y : ℕ) → Amounts (get_token_b_from_liquidity sdk (pos l) (pos x) (pos y))
  unfolding get_token_b_from_liquidity ◌*ℤ◌ ◌-ℤ◌
  token_b l x y =
      let n = l * (max x y - min x y) in
      (
        n / 2 ^ 64,
        (n + (2 ^ 64 - 1)) / 2 ^ 64,
        rw (ordered x y, sub_ℕ-eq-pos (max x y) (min x y) (omega arith)) refl,
        rw (ordered x y, sub_ℕ-eq-pos (max x y) (min x y) (omega arith))
            (laws.shift_right_round_up_is n),
        (omega arith, omega arith),
      )

  pub status_cases : (s : PositionStatus) → (s ≡ below_range) ⊎ ((s ≡ in_range) ⊎ (s ≡ above_range))
  status_cases below_range = inl refl
  status_cases in_range = inr (inl refl)
  status_cases above_range = inr (inr refl)

  pub in_range-positive : (p x y : ℕ) → strict_status (pos p) (pos x) (pos y) ≡ in_range → 0 < p
  in_range-positive p x y h = ground (arith, h)

  -- The two amounts of both quotes, for one liquidity at one price.
  abbrev pub Estimates : Result (ℤ × ℤ) → Result (ℤ × ℤ) → Type 0
  Estimates withdrawn deposited =
      (a b a' b' : ℕ) × (withdrawn ≡ ok (pos a, pos b))
      × (deposited ≡ ok (pos a', pos b'))
      × Rounded a a'
      × Rounded b b'

  -- For every positive liquidity, price and range of ticks the amounts of a withdrawal and those of
  -- a deposit are estimated without an exception; the withdrawal never returns more of a token than
  -- the deposit costs, and at most one unit less.
  pub withdrawal-deposit :
      {Mint : Type 0}
      → (l p : ℕ) (i lower upper : ℤ) (ctx : TokenExtensionContext Mint) (slippage : Percentage)
      → 0 < l
      → Estimates
          (Decrease.get_token_estimates_from_liquidity sdk (record {
            liquidity = pos l;
            tick_current_index = i;
            sqrt_price = pos p;
            tick_lower_index = lower;
            tick_upper_index = upper;
            token_extension_ctx = ctx;
            slippage_tolerance = slippage;
          }))
          (Increase.get_token_estimates_from_liquidity sdk (record {
            liquidity = pos l;
            tick_current_index = i;
            sqrt_price = pos p;
            tick_lower_index = lower;
            tick_upper_index = upper;
            token_extension_ctx = ctx;
            slippage_tolerance = slippage;
          }))
  unfolding Decrease.get_token_estimates_from_liquidity Increase.get_token_estimates_from_liquidity
      get_strict_position_status
  withdrawal-deposit l p i lower upper ctx slippage hl =
      let (x, x_is, hx, x_side) = tick_index_to_sqrt_price_x64-returns lower in
      let (y, y_is, hy, y_side) = tick_index_to_sqrt_price_x64-returns upper in
      let some_l : eqb_ℤ (pos l) (pos 0) ≡ false = ground arith in
      elim (status_cases (strict_status (pos p) (pos x) (pos y))) [
        | inl below ↦
            let (a, a', down, up, near) = token_a l x y hx hy in
            (
              a,
              0,
              a',
              0,
              rw (some_l, x_is, y_is, below, down) refl,
              rw (some_l, x_is, y_is, below, up) refl,
              near,
              (omega arith, omega arith),
            )
        | inr (inl inside) ↦
            let (a, a', down, up, near) = token_a l p y (in_range-positive p x y inside) hy in
            let (b, b', down_b, up_b, near_b) = token_b l x p in
            (
              a,
              b,
              a',
              b',
              rw (some_l, x_is, y_is, inside, down, down_b) refl,
              rw (some_l, x_is, y_is, inside, up, up_b) refl,
              near,
              near_b,
            )
        | inr (inr above) ↦
            let (b, b', down, up, near) = token_b l x y in
            (
              0,
              b,
              0,
              b',
              rw (some_l, x_is, y_is, above, down) refl,
              rw (some_l, x_is, y_is, above, up) refl,
              (omega arith, omega arith),
              near,
            )
      ]
