-- ===== src/Prelude/Bits.antt =====
-- The native `bit_and` with a mask of low ones is a remainder.
use Prim.Native.Nat.{
  ℕ, zero, suc, ◌+◌, ◌-◌, ◌*◌, ◌/◌, ◌%◌, ◌^◌, ◌≤◌, ◌<◌, min, bit_and, digits, bit_and-bitwise,
}
use mathlib.Core.Path.{◌≡◌, refl, ◌∙◌}
use native.Mathlib.Nat.{pow-suc, one-le-pow, div-add-mod, mod-lt}
use native.Mathlib.Omega.{arith}

-- What `bit_and` stands for, with the rounds of the digit recursion as an argument.
abbrev rounds : ℕ → ℕ → ℕ → ℕ
rounds n a b = digits (λ x. zero) min n a b

-- More rounds than digits change nothing.
rounds_enough : (n a b : ℕ) → a ≤ n → rounds (suc n) a b ≡ rounds n a b
rounds_enough zero zero b h = refl
rounds_enough zero (suc a) b h = absurd (omega arith)
rounds_enough (suc n) zero b h = refl
rounds_enough (suc n) (suc a) b h = omega (arith, rounds_enough n (suc a / 2) (b / 2) (omega arith))

rounds_add : (k n a b : ℕ) → a ≤ n → rounds (k + n) a b ≡ rounds n a b
rounds_add zero n a b h = let none : 0 + n ≡ n = omega arith in rw none
rounds_add (suc k) n a b h =
    let more : suc k + n ≡ suc (k + n) = omega arith in
    rw more (rounds_enough (k + n) a b (omega arith) ∙ rounds_add k n a b h)

last_digit : (a b : ℕ) → bit_and a b ≡ 2 * bit_and (a / 2) (b / 2) + min (a % 2) (b % 2)
last_digit zero b = omega (arith, bit_and-bitwise 0 b, bit_and-bitwise 0 (b / 2))
last_digit (suc a) b =
    let spare : rounds (a - suc a / 2 + suc a / 2) (suc a / 2) (b / 2)
        ≡ rounds (suc a / 2) (suc a / 2) (b / 2) =
      rounds_add (a - suc a / 2) (suc a / 2) (suc a / 2) (b / 2) (omega arith) in
    let count : a - suc a / 2 + suc a / 2 ≡ a = omega arith in
    omega (arith, bit_and-bitwise (suc a) b, bit_and-bitwise (suc a / 2) (b / 2), rw count at spare)

and-zero_bound : (n a : ℕ) → a ≤ n → bit_and a 0 ≡ 0
and-zero_bound n zero h = refl
and-zero_bound zero (suc a) h = absurd (omega arith)
and-zero_bound (suc n) (suc a) h =
    omega (arith, last_digit (suc a) 0, and-zero_bound n (suc a / 2) (omega arith))

double_pow : (k : ℕ) → 2 ^ suc k ≡ 2 * 2 ^ k
double_pow k = omega (arith, pow-suc 2 k)

mod-eq_of_fields : (m q r a : ℕ) → a ≡ m * q + r → r < m → a % m ≡ r
mod-eq_of_fields m q r a e h = grind arith

-- `x & (2^k - 1)`.
pub and-low_mask : (k a : ℕ) → bit_and a (2 ^ k - 1) ≡ a % 2 ^ k
and-low_mask zero a = omega (arith, and-zero_bound a a (omega arith))
and-low_mask (suc k) a =
    let half : (2 ^ suc k - 1) / 2 ≡ 2 ^ k - 1 =
      omega (arith, double_pow k, one-le-pow k 2 (omega arith)) in
    let ih : bit_and (a / 2) (2 ^ k - 1) ≡ a / 2 % 2 ^ k = and-low_mask k (a / 2) in
    let step : bit_and a (2 ^ suc k - 1)
        ≡ 2 * bit_and (a / 2) ((2 ^ suc k - 1) / 2) + min (a % 2) ((2 ^ suc k - 1) % 2) =
      last_digit a (2 ^ suc k - 1) in
    let split : a % 2 ^ suc k ≡ 2 * (a / 2 % 2 ^ k) + a % 2 =
      mod-eq_of_fields (2 ^ suc k) (a / 2 / 2 ^ k) (2 * (a / 2 % 2 ^ k) + a % 2) a
        (rw (double_pow k) (omega (arith, div-add-mod (a / 2) (2 ^ k))))
        (omega (arith, double_pow k, mod-lt (a / 2) {m = 2 ^ k} (one-le-pow k 2 (omega arith)))) in
    omega (arith, rw (half, ih) at step, split, double_pow k, one-le-pow k 2 (omega arith))
