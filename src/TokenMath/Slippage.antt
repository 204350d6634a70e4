-- ===== src/TokenMath/Slippage.antt =====
-- `adjustForSlippage` of token-math.ts.
use native.Mathlib.Nat.{div-le_of_le-mul, le-div_iff_mul-le}
use whirlpools.Prelude.Division.{lt-suc_div}
use whirlpools.Prelude.{ℕ, suc, ◌+◌, ◌*◌, ◌/◌, ◌≤◌, ◌<◌, ◌≡◌, true, false, arith, pos}
use whirlpools.Errors.{ok}
use whirlpools.TokenMath.{Percentage, adjust_for_slippage}

abbrev pub percentage : ℕ → ℕ → Percentage
percentage n d = record { numerator = pos n; denominator = pos d }

-- An amount adjusted for a slippage of num/den, with den above zero, is defined in both directions.
-- Upwards it is at least the amount, and the largest whole number that is at most the amount times
-- (den + num)/den; downwards it is at most the amount, and the largest whole number that is at most
-- the amount times den/(den + num).
pub adjust_for_slippage_bounds :
    (n num den : ℕ)
    → 0 < den
    → (up down : ℕ) × (adjust_for_slippage (pos n) (percentage num den) true ≡ ok (pos up))
      × (adjust_for_slippage (pos n) (percentage num den) false ≡ ok (pos down))
      × (n ≤ up)
      × (down ≤ n)
      × (up * den ≤ n * (den + num))
      × (n * (den + num) < suc up * den)
      × (down * (den + num) ≤ n * den)
      × (n * den < suc down * (den + num))
unfolding adjust_for_slippage
adjust_for_slippage_bounds n num den h = (
  n * (den + num) / den,
  n * den / (den + num),
  ground arith,
  ground arith,
  (le-div_iff_mul-le h).1 (grind arith),
  div-le_of_le-mul (den + num) (grind arith),
  (le-div_iff_mul-le h).0 (omega arith),
  lt-suc_div (n * (den + num)) den h,
  (le-div_iff_mul-le (omega arith)).0 (omega arith),
  lt-suc_div (n * den) (den + num) (omega arith),
)
