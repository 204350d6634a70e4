-- ===== src/TokenMath/Moves.antt =====
-- How far an amount moves the price, as inequalities between natural numbers. `q` is the price
-- that the amount is measured against, `g` the distance to it.
use native.Mathlib.Nat.{le-div_iff_mul-le, div-le_of_le-mul}
use whirlpools.Prelude.{ℕ, ◌+◌, ◌-◌, ◌*◌, ◌/◌, ◌^◌, ◌≤◌, ◌<◌, ◌≡◌, ap, suc, arith}
use whirlpools.Prelude.Division.{
  ceil_div, ceil_div-le_iff, lt-ceil_div_iff, le-mul-ceil_div, le_of_mul-le,
}
use whirlpools.TokenMath.Prices.{price_in_a, price_out_a}

-- A deposit of token A lowers the price.
pub price_in_a-le : (p l a : ℕ) → 0 < l * 2 ^ 64 + p * a → price_in_a p l a ≤ p
price_in_a-le p l a h = (ceil_div-le_iff (l * p * 2 ^ 64) (l * 2 ^ 64 + p * a) p h).1 (omega arith)

-- A deposit below what reaches `q` stops at `q` or before it.
pub le-price_in_a :
    (q g l a : ℕ)
    → 0 < q * (q + g)
    → 0 < l * 2 ^ 64 + (q + g) * a
    → a < ceil_div (l * g * 2 ^ 64) (q * (q + g))
    → q ≤ price_in_a (q + g) l a
le-price_in_a q g l a h d lt =
    let few : a * (q * (q + g)) < l * g * 2 ^ 64 =
      (lt-ceil_div_iff (l * g * 2 ^ 64) (q * (q + g)) a h).0 lt in
    let up : l * (q + g) * 2 ^ 64 ≤ price_in_a (q + g) l a * (l * 2 ^ 64 + (q + g) * a) =
      le-mul-ceil_div (l * (q + g) * 2 ^ 64) (l * 2 ^ 64 + (q + g) * a) d in
    le_of_mul-le q (price_in_a (q + g) l a) (l * 2 ^ 64 + (q + g) * a) d (omega arith)

-- The amount measured between the price after a deposit and the price before it is not more than
-- the deposit.
pub amount-price_in_a :
    (q g l a : ℕ)
    → 0 < q * (q + g)
    → l * (q + g) * 2 ^ 64 ≤ q * (l * 2 ^ 64 + (q + g) * a)
    → ceil_div (l * g * 2 ^ 64) (q * (q + g)) ≤ a
amount-price_in_a q g l a h le =
    (ceil_div-le_iff (l * g * 2 ^ 64) (q * (q + g)) a h).1 (omega arith)

pub rest-add : (m n : ℕ) → m < n → n - m + m ≡ n
rest-add m n h = omega arith

-- A withdrawal of token A raises the price.
pub le-price_out_a : (p l a : ℕ) → p * a < l * 2 ^ 64 → p ≤ price_out_a p l a
le-price_out_a p l a h =
    let d : 0 < l * 2 ^ 64 - p * a = omega arith in
    let up : l * p * 2 ^ 64 ≤ price_out_a p l a * (l * 2 ^ 64 - p * a) =
      le-mul-ceil_div (l * p * 2 ^ 64) (l * 2 ^ 64 - p * a) d in
    le_of_mul-le p (price_out_a p l a) (l * 2 ^ 64 - p * a) d
      (omega (arith, ap (λ (x : ℕ). p * x) (rest-add (p * a) (l * 2 ^ 64) h)))

-- A withdrawal below what reaches the price `p + g` stops at it or before it.
pub price_out_a-le :
    (p g l a : ℕ)
    → p * a < l * 2 ^ 64
    → 0 < p * (p + g)
    → a < l * g * 2 ^ 64 / (p * (p + g))
    → price_out_a p l a ≤ p + g
price_out_a-le p g l a h pq lt =
    let d : 0 < l * 2 ^ 64 - p * a = omega arith in
    let few : suc a * (p * (p + g)) ≤ l * g * 2 ^ 64 = (le-div_iff_mul-le pq).0 lt in
    (ceil_div-le_iff (l * p * 2 ^ 64) (l * 2 ^ 64 - p * a) (p + g) d).1
      (omega (arith, ap (λ (x : ℕ). (p + g) * x) (rest-add (p * a) (l * 2 ^ 64) h)))

-- A deposit of token B below what reaches the gap `g` stays within it, also where the amount is
-- measured one too high.
pub price_in_b-le : (g l a : ℕ) → 0 < l → a < l * g / 2 ^ 64 + 1 → a * 2 ^ 64 / l ≤ g
price_in_b-le g l a h lt = div-le_of_le-mul l (omega arith)

-- A withdrawal of token B below what reaches the gap `g` stays within it.
pub price_out_b-le : (g l a : ℕ) → 0 < l → a < l * g / 2 ^ 64 → ceil_div (a * 2 ^ 64) l ≤ g
price_out_b-le g l a h lt = (ceil_div-le_iff (a * 2 ^ 64) l g h).1 (omega arith)
