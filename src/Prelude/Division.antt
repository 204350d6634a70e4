-- ===== src/Prelude/Division.antt =====
-- Quotients rounded down and up, as inequalities between products.
use Prim.Native.Nat.{ℕ, suc, ◌+◌, ◌-◌, ◌*◌, ◌/◌, ◌≤◌, ◌<◌}
use mathlib.Core.Logic.{◌↔◌}
use native.Mathlib.Nat.{div-lt_iff_lt-mul}
use native.Mathlib.Omega.{arith}

abbrev pub ceil_div : ℕ → ℕ → ℕ
ceil_div n d = (n + (d - 1)) / d

pub ceil_div-le_iff : (n d x : ℕ) → 0 < d → (ceil_div n d ≤ x) ↔ (n ≤ x * d)
ceil_div-le_iff n d x h =
    let (down, up) = div-lt_iff_lt-mul {k = d} {x = n + (d - 1)} {y = x + 1} h in
    (λ le. omega (arith, down (omega arith)), λ le. omega (arith, up (omega arith)))

pub lt-ceil_div_iff : (n d x : ℕ) → 0 < d → (x < ceil_div n d) ↔ (x * d < n)
lt-ceil_div_iff n d x h =
    let (down, up) = ceil_div-le_iff n d x h in (λ lt. grind (arith, up), λ lt. grind (arith, down))

pub le-mul-ceil_div : (n d : ℕ) → 0 < d → n ≤ ceil_div n d * d
le-mul-ceil_div n d h = (ceil_div-le_iff n d (ceil_div n d) h).0 (omega arith)

pub lt_of_mul-lt : (a b k : ℕ) → a * k < b * k → a < b
lt_of_mul-lt a b k h = grind arith

pub le_of_mul-le : (a b k : ℕ) → 0 < k → a * k ≤ b * k → a ≤ b
le_of_mul-le a b k p h = grind arith

pub lt-suc_div : (n d : ℕ) → 0 < d → n < suc (n / d) * d
lt-suc_div n d h = (div-lt_iff_lt-mul {k = d} {x = n} {y = suc (n / d)} h).0 (omega arith)

pub div_mono : (a b d : ℕ) → 0 < d → a ≤ b → a / d ≤ b / d
div_mono a b d h le =
    let over : b < suc (b / d) * d = lt-suc_div b d h in
    let small : a / d < suc (b / d) =
      (div-lt_iff_lt-mul {k = d} {x = a} {y = suc (b / d)} h).1 (omega arith) in
    omega arith
