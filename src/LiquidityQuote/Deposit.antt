-- ===== src/LiquidityQuote/Deposit.antt =====
-- The liquidity that an amount of one token buys, and what it costs (increase-liquidity-quote.ts).
use native.Mathlib.Decide.{dec_lt}
use whirlpools.Prelude.{
  ℕ, ◌≤◌, ◌<◌, ◌≡◌, refl, ap, sym, ◌∙◌, inl, inr, arith, Bool, true, false, Bool-cases,
  if◌then◌else◌, ℤ, pos, pos_part, ◌-ℤ◌, ◌*ℤ◌, eqb_ℤ, ltb_ℤ,
}
use whirlpools.Errors.{Result, ok, invariant, >>=-eq-ok, ok_injective}
use whirlpools.Sdk.{Sdk, IsSdk}
use whirlpools.PriceMath.Range.{tick_index_to_sqrt_price_x64-returns}
use whirlpools.TransferFee.{SplToken}
use whirlpools.PositionUtil.{
  strict_status, get_strict_position_status, get_liquidity_from_token_a, get_liquidity_from_token_b,
  get_token_a_from_liquidity, get_token_b_from_liquidity,
}
use whirlpools.PositionUtil.Deposits.{get_token_a-get_liquidity, get_token_b-get_liquidity}
use whirlpools.LiquidityQuote.Increase.{
  IncreaseLiquidityQuoteByLiquidityParam, get_token_estimates_from_liquidity,
}
use whirlpools.LiquidityQuote.InputToken.{
  IncreaseLiquidityQuoteParam, input_of_a, input_of_b, get_liquidity_from_input_token,
}
use whirlpools.LiquidityQuote.Amounts.{token_a, token_b, status_cases, in_range-positive}

-- A cost that is at most an amount.
abbrev Costs : Result ℤ → ℕ → Type 0
Costs r n = (c : ℕ) × (r ≡ ok (pos c)) × (c ≤ n)

pos_injective : {a b : ℕ} → ok (pos a) ≡ ok (pos b) → a ≡ b
pos_injective e = ap pos_part (ok_injective e)

bought_nothing : {l : ℕ} → 0 < l → ok (pos 0) ≡ ok (pos l) → ⊥
bought_nothing hl e = let none = pos_injective e in omega (arith, none)

-- A difference of prices that is not positive buys nothing.
no_liquidity_a :
    (sdk : Sdk) (n x y l : ℕ)
    → y ≤ x
    → get_liquidity_from_token_a sdk (pos n) (pos x) (pos y) false ≡ ok (pos l)
    → l ≡ 0
unfolding get_liquidity_from_token_a ◌*ℤ◌ ◌-ℤ◌
no_liquidity_a sdk n x y l le e = ground (arith, e)

no_liquidity_b :
    (sdk : Sdk) (n x y l : ℕ)
    → y ≤ x
    → get_liquidity_from_token_b sdk (pos n) (pos x) (pos y) false ≡ ok (pos l)
    → l ≡ 0
unfolding get_liquidity_from_token_b ◌-ℤ◌
no_liquidity_b sdk n x y l le e = ground (arith, e)

module _ (sdk : Sdk) (laws : IsSdk sdk) where
  cost_a :
      (n x y l : ℕ)
      → 0 < x
      → 0 < l
      → get_liquidity_from_token_a sdk (pos n) (pos x) (pos y) false ≡ ok (pos l)
      → Costs (get_token_a_from_liquidity sdk (pos l) (pos x) (pos y) true) n
  cost_a n x y l hx hl e = elim (dec_lt x y) [
    | yes lt ↦
        let (l', c, bought, cost, le) = get_token_a-get_liquidity sdk laws n x y hx lt in
        (c, rw (pos_injective (sym e ∙ bought)) cost, le)
    | no not_lt ↦
        let none = no_liquidity_a sdk n x y l (omega arith) e in absurd (omega (arith, none))
  ]

  cost_b :
      (n x y l : ℕ)
      → 0 < l
      → get_liquidity_from_token_b sdk (pos n) (pos x) (pos y) false ≡ ok (pos l)
      → Costs (get_token_b_from_liquidity sdk (pos l) (pos x) (pos y) true) n
  cost_b n x y l hl e = elim (dec_lt x y) [
    | yes lt ↦
        let (l', c, bought, cost, le) = get_token_b-get_liquidity sdk laws n x y lt in
        (c, rw (pos_injective (sym e ∙ bought)) cost, le)
    | no not_lt ↦
        let none = no_liquidity_b sdk n x y l (omega arith) e in absurd (omega (arith, none))
  ]

module _ {Key Mint Config : Type 0} (equals : Key → Key → Bool) (sdk : Sdk) (laws : IsSdk sdk)
    (spl : SplToken Mint Config) where
  -- The parameters of the quote by liquidity.
  abbrev pub by_liquidity :
      IncreaseLiquidityQuoteParam Key Mint → ℤ → IncreaseLiquidityQuoteByLiquidityParam Mint
  by_liquidity param liquidity = record {
    liquidity = liquidity;
    tick_current_index = param.tick_current_index;
    sqrt_price = param.sqrt_price;
    tick_lower_index = param.tick_lower_index;
    tick_upper_index = param.tick_upper_index;
    token_extension_ctx = param.token_extension_ctx;
    slippage_tolerance = param.slippage_tolerance;
  }

  -- Where the input less its transfer fee and the price are not negative, and the input token buys
  -- some liquidity, the amounts that a deposit of that liquidity needs are estimated without an
  -- exception, and that of the input token is at most the input less its fee.
  pub get_liquidity_from_input_token-estimates :
      (param : IncreaseLiquidityQuoteParam Key Mint) (n_a n_b p l : ℕ)
      → input_of_a equals sdk spl param ≡ pos n_a
      → input_of_b equals sdk spl param ≡ pos n_b
      → param.sqrt_price ≡ pos p
      → get_liquidity_from_input_token equals sdk spl param ≡ ok (pos l)
      → 0 < l
      → (a b : ℕ) × (get_token_estimates_from_liquidity sdk (by_liquidity param (pos l))
          ≡ ok (pos a, pos b))
        × (if equals param.token_mint_a param.input_token_mint then a ≤ n_a else b ≤ n_b)
  unfolding get_liquidity_from_input_token get_token_estimates_from_liquidity
      get_strict_position_status
  get_liquidity_from_input_token-estimates param n_a n_b p l a_is b_is p_is e hl =
      let (x, x_is, hx, x_side) = tick_index_to_sqrt_price_x64-returns param.tick_lower_index in
      let (y, y_is, hy, y_side) = tick_index_to_sqrt_price_x64-returns param.tick_upper_index in
      let some_l : eqb_ℤ (pos l) (pos 0) ≡ false = ground arith in
      let (in_order, order_is, e) =
        >>=-eq-ok (invariant (ltb_ℤ param.tick_lower_index param.tick_upper_index)) _ e in
      elim (Bool-cases (eqb_ℤ param.input_token_amount (pos 0))) [
        | inl nothing ↦ absurd (bought_nothing hl (rw nothing at e))
        | inr some_input ↦
            let e = rw (some_input, p_is, x_is, y_is) at e in
            let a_input = equals param.token_mint_a param.input_token_mint in
            elim (status_cases sdk laws (strict_status (pos p) (pos x) (pos y))) [
              | inl below ↦ elim (Bool-cases a_input) [
                | inl is_a ↦
                    let (c, cost, le) =
                      cost_a sdk laws n_a x y l hx hl (rw (below, is_a, a_is) at e) in
                    (c, 0, rw (p_is, some_l, x_is, y_is, below, cost) refl, rw is_a le)
                | inr is_b ↦ absurd (bought_nothing hl (rw (below, is_b) at e))
              ]
              | inr (inl inside) ↦ elim (Bool-cases a_input) [
                | inl is_a ↦
                    let hp = in_range-positive sdk laws p x y inside in
                    let (c, cost, le) =
                      cost_a sdk laws n_a p y l hp hl (rw (inside, is_a, a_is, p_is) at e) in
                    let (b, b', down, up, near) = token_b sdk laws l x p in
                    (c, b', rw (p_is, some_l, x_is, y_is, inside, p_is, cost, up) refl, rw is_a le)
                | inr is_b ↦
                    let hp = in_range-positive sdk laws p x y inside in
                    let (c, cost, le) =
                      cost_b sdk laws n_b x p l hl (rw (inside, is_b, b_is, p_is) at e) in
                    let (a, a', down, up, near) = token_a sdk laws l p y hp hy in
                    (a', c, rw (p_is, some_l, x_is, y_is, inside, p_is, up, cost) refl, rw is_b le)
              ]
              | inr (inr above) ↦ elim (Bool-cases a_input) [
                | inl is_a ↦ absurd (bought_nothing hl (rw (above, is_a) at e))
                | inr is_b ↦
                    let (c, cost, le) =
                      cost_b sdk laws n_b x y l hl (rw (above, is_b, b_is) at e) in
                    (0, c, rw (p_is, some_l, x_is, y_is, above, cost) refl, rw is_b le)
              ]
            ]
      ]
