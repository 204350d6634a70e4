-- ===== src/PoolUtil/Estimates.antt =====
-- The estimates of a pool (pool-utils.ts) against the liquidity of a position (position-util.ts).
use native.Mathlib.Nat.{div-div-eq-div-mul, mul_comm, mul_right_comm}
use whirlpools.Prelude.{
  ℕ, zero, suc, ◌-◌, ◌*◌, ◌/◌, ◌^◌, ◌≡◌, ◌==◌, refl, ap, sym, ◌∙◌, arith, false, min, max, pos,
  ◌-ℤ◌, ◌*ℤ◌, min_ℤ, max_ℤ, sub_ℕ-eq-pos,
}
use whirlpools.Errors.{ok, ◌>>=◌}
use whirlpools.Bn.{div, shrn}
use whirlpools.Sdk.{Sdk, IsSdk}
use whirlpools.PositionUtil.{get_liquidity_from_token_a, get_liquidity_from_token_b}
use whirlpools.PoolUtil.{est_liquidity_for_token_a, est_liquidity_for_token_b}

min-pos : (x y : ℕ) → min_ℤ (pos x) (pos y) ≡ pos (min x y)
min-pos x y = ground arith

max-pos : (x y : ℕ) → max_ℤ (pos x) (pos y) ≡ pos (max x y)
max-pos x y = ground arith

div_right_comm : (a b c : ℕ) → a / b / c ≡ a / c / b
div_right_comm a b c =
    div-div-eq-div-mul a b c ∙ ap (λ x. a / x) (mul_comm b c) ∙ sym (div-div-eq-div-mul a c b)

suc-eqb-zero : (d : ℕ) → (suc d == 0) ≡ false
suc-eqb-zero d = ground arith

-- A shift and a quotient, in either order.
shift-div :
    (sdk : Sdk) (laws : IsSdk sdk) (n d : ℕ)
    → (sdk.from_x64_bn (pos n) >>= λ q. div q (pos d)) ≡ (div (pos n) (pos d) >>= λ q. shrn q 64)
shift-div sdk laws n zero = rw (laws.from_x64_bn_is n) refl
shift-div sdk laws n (suc d) =
    rw (laws.from_x64_bn_is n, suc-eqb-zero d)
      (ap (λ x. ok (pos x)) (div_right_comm n (2 ^ 64) (suc d)))

-- At every unsigned amount and every two prices, in either order, the estimates of a pool are the
-- liquidity of a position between the lower and the upper of the two prices, the refusal of two
-- equal prices included.
pub est_liquidity-get_liquidity :
    (sdk : Sdk) (laws : IsSdk sdk) (x y n : ℕ)
    → (est_liquidity_for_token_a sdk (pos x) (pos y) (pos n)
        ≡ get_liquidity_from_token_a sdk (pos n) (pos (min x y)) (pos (max x y)) false)
      × (est_liquidity_for_token_b (pos x) (pos y) (pos n)
          ≡ get_liquidity_from_token_b sdk (pos n) (pos (min x y)) (pos (max x y)) false)
unfolding est_liquidity_for_token_a est_liquidity_for_token_b get_liquidity_from_token_a
    get_liquidity_from_token_b ◌-ℤ◌ ◌*ℤ◌
est_liquidity-get_liquidity sdk laws x y n =
    rw (min-pos x y, max-pos x y, sub_ℕ-eq-pos (max x y) (min x y) (omega arith))
      (
        ap (λ m. sdk.from_x64_bn (pos m) >>= λ q. div q (pos (max x y - min x y)))
              (mul_right_comm n (max x y) (min x y))
            ∙ shift-div sdk laws (n * min x y * max x y) (max x y - min x y),
        refl,
      )
