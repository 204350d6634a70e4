-- ===== src/SwapMath/Output.antt =====
-- A step (swap-math.ts) of an exact output that stops before its target has traded all that was
-- asked for.
use native.Mathlib.Nat.{le-div_iff_mul-le}
use whirlpools.Prelude.{
  ℕ, ◌+◌, ◌-◌, ◌*◌, ◌/◌, ◌^◌, ◌≤◌, ◌<◌, ◌≡◌, Bool, true, false, if◌then◌else◌, arith, ℤ, pos, ◌-ℤ◌,
  leb_ℤ, ltb_ℤ, eqb_ℤ, Bool-cases, inl, inr, ap, sym, ◌∙◌, ◌==◌,
}
use whirlpools.Prelude.Division.{ceil_div, le-mul-ceil_div}
use whirlpools.Errors.{ok, ok_injective}
use whirlpools.Sdk.{Sdk, IsSdk}
use whirlpools.BitMath.{checked_mul_shift_right_round_up_if}
use whirlpools.BitMath.Bounds.{checked_mul_shift_right_round_up_if_lem}
use whirlpools.TokenMath.{get_amount_delta_a, get_amount_delta_b, get_next_sqrt_price}
use whirlpools.TokenMath.Amounts.{get_amount_delta_a-up}
use whirlpools.TokenMath.Prices.{price_out_a, from_a_output, from_b_output}
use whirlpools.TokenMath.Moves.{le-price_out_a, rest-add}
use whirlpools.SwapMath.{SwapStep, amount_after_fee, get_amount_fixed_delta, compute_swap_step}
use whirlpools.SwapMath.Parts.{Parts, compute_swap_step-Parts}

-- An unsigned amount that is at least so much.
abbrev AtLeast : ℕ → ℤ → Type 0
AtLeast amount z = (n : ℕ) × (z ≡ pos n) × (amount ≤ n)

eqb_self : (a : ℤ) → eqb_ℤ a a ≡ true
eqb_self a = ground arith

-- What a withdrawal of token A is measured to be is not less than the withdrawal.
amount-price_out_a :
    (p g l a : ℕ)
    → p * a < l * 2 ^ 64
    → 0 < p * (p + g)
    → price_out_a p l a ≡ p + g
    → a ≤ l * g * 2 ^ 64 / (p * (p + g))
amount-price_out_a p g l a h pq is =
    let d : 0 < l * 2 ^ 64 - p * a = omega arith in
    let up : l * p * 2 ^ 64 ≤ price_out_a p l a * (l * 2 ^ 64 - p * a) =
      le-mul-ceil_div (l * p * 2 ^ 64) (l * 2 ^ 64 - p * a) d in
    let up' : l * p * 2 ^ 64 ≤ (p + g) * (l * 2 ^ 64 - p * a) = rw is at up in
    (le-div_iff_mul-le pq).1
      (omega (arith, ap (λ (x : ℕ). (p + g) * x) (rest-add (p * a) (l * 2 ^ 64) h)))

module _ (sdk : Sdk) (laws : IsSdk sdk) where
  -- The amount of token B from a price down, also below zero.
  delta_b_down :
      (c d l : ℕ)
      → get_amount_delta_b sdk (pos c) (pos c -ℤ pos d) (pos l) false
        ≡ checked_mul_shift_right_round_up_if sdk (pos l) (pos d) false 128
  unfolding get_amount_delta_b ◌-ℤ◌
  delta_b_down c d l = ground arith

  fixed_lem :
      (c d l : ℕ) (fixed : ℤ)
      → get_amount_delta_b sdk (pos c) (pos c -ℤ pos d) (pos l) false ≡ ok fixed
      → fixed ≡ pos (l * d / 2 ^ 64)
  fixed_lem c d l fixed is =
      let is' : checked_mul_shift_right_round_up_if sdk (pos l) (pos d) false 128 ≡ ok fixed =
        sym (delta_b_down c d l) ∙ is in
      ground (arith, checked_mul_shift_right_round_up_if_lem sdk laws l d 128 false)

  fixed_of_a :
      (amount c l : ℕ) {next fixed : ℤ}
      → 0 < amount
      → get_next_sqrt_price (pos c) (pos l) (pos amount) false false ≡ ok next
      → get_amount_delta_a sdk (pos c) next (pos l) false ≡ ok fixed
      → AtLeast amount fixed
  unfolding get_next_sqrt_price
  fixed_of_a amount c l {next} {fixed} some moves is =
      let (next_is, room) = from_a_output c l amount some moves in
      let n = price_out_a c l amount in
      let up : c ≤ n = le-price_out_a c l amount room in
      let span : c + (n - c) ≡ n = omega arith in
      let (apart, fixed_is) =
        get_amount_delta_a-up sdk laws c (n - c) l false (rw (span, ← next_is) is) in
      (
        l * (n - c) * 2 ^ 64 / (c * (c + (n - c))),
        fixed_is,
        amount-price_out_a c (n - c) l amount room apart (sym span),
      )

  fixed_of_b :
      (amount c l : ℕ) {next fixed : ℤ}
      → 0 < amount
      → get_next_sqrt_price (pos c) (pos l) (pos amount) false true ≡ ok next
      → get_amount_delta_b sdk (pos c) next (pos l) false ≡ ok fixed
      → AtLeast amount fixed
  unfolding get_next_sqrt_price
  fixed_of_b amount c l {next} {fixed} some moves is =
      let d = ceil_div (amount * 2 ^ 64) l in
      elim (Bool-cases (l == 0)) [
        | inl nothing ↦ absurd (ground (arith, from_b_output c l amount))
        | inr liquid ↦
            let some_l : 0 < l = ground arith in
            let next_is : pos c -ℤ pos d ≡ next = ground (arith, from_b_output c l amount) in
            let up : amount * 2 ^ 64 ≤ d * l = le-mul-ceil_div (amount * 2 ^ 64) l some_l in
            (
              l * d / 2 ^ 64,
              fixed_lem c d l fixed (rw (← next_is) at is),
              (le-div_iff_mul-le (omega arith)).1 (omega arith),
            )
      ]

  fixed_by_mode :
      (a_to_b : Bool) (amount c l : ℕ) {next fixed : ℤ}
      → 0 < amount
      → get_next_sqrt_price (pos c) (pos l) (pos amount) false a_to_b ≡ ok next
      → get_amount_fixed_delta sdk (pos c) next (pos l) false a_to_b ≡ ok fixed
      → AtLeast amount fixed
  unfolding get_amount_fixed_delta
  fixed_by_mode true amount c l some moves is = fixed_of_b amount c l some moves is
  fixed_by_mode false amount c l some moves is = fixed_of_a amount c l some moves is

  capped :
      (amount : ℕ) (z : ℤ)
      → AtLeast amount z
      → (if ltb_ℤ (pos amount) z then pos amount else z) ≡ pos amount
  capped amount z (n, is, enough) = rw is (ground arith)

  -- A step of an exact output that does not reach its target takes the whole amount out.
  pub short_output :
      (amount l c : ℕ) (fee_rate t : ℤ) (a_to_b : Bool) {s : SwapStep}
      → 0 < amount
      → compute_swap_step sdk (pos amount) fee_rate (pos l) (pos c) t false a_to_b ≡ ok s
      → eqb_ℤ s.next_price t ≡ false
      → s.amount_out ≡ pos amount
  unfolding amount_after_fee
  short_output amount l c fee_rate t a_to_b {s} some e short =
      let p : Parts sdk (pos amount) fee_rate (pos l) (pos c) t false a_to_b s =
        compute_swap_step-Parts sdk (pos amount) fee_rate (pos l) (pos c) t false a_to_b e in
      let calc_is : p.calc ≡ pos amount = sym (ok_injective p.calc_is) in
      let fixed_is = rw short at p.fixed_is in
      elim (Bool-cases (leb_ℤ p.reach p.calc)) [
        | inl reached ↦
            let same : t ≡ s.next_price = ok_injective (rw reached at p.next_is) in
            cc (sym (eqb_self t), ap (λ x. eqb_ℤ x t) same, short)
        | inr further ↦
            let next_is = rw (further, calc_is) at p.next_is in
            p.amount_out_is
            ∙ capped amount p.fixed (fixed_by_mode a_to_b amount c l some next_is fixed_is)
      ]
