-- ===== src/BitMath/Bounds.antt =====
-- What the operations of bit-math.ts return at unsigned arguments, on every branch.
use native.Mathlib.Nat.{div-add-mod, mod-lt, div-eq_of_lt-le}
use whirlpools.Prelude.{
  ℕ, ◌+◌, ◌-◌, ◌*◌, ◌/◌, ◌%◌, ◌^◌, ◌<◌, ◌≡◌, refl, Bool, true, false, ◌||◌, ltb, ◌==◌,
  if◌then◌else◌, arith, ℤ, pos, Bool-cases, inl, inr,
}
use whirlpools.Prelude.Bits.{and-low_mask}
use whirlpools.Errors.{multiplication_overflow, divide_by_zero, math, ok, err}
use whirlpools.Sdk.{Sdk, IsSdk}
use whirlpools.BitMath.{
  mul, mul_div_round_up_if, div_round_up_if, checked_mul_shift_right_round_up_if, should_round_up,
}

-- The quotient rounded down, or rounded up.
abbrev pub rounded : Bool → ℕ → ℕ → ℕ
rounded true n d = (n + (d - 1)) / d
rounded false n d = n / d

abbrev pub over : ℕ → ℕ → Bool
over n limit = ltb (2 ^ limit - 1) n

pub ceil_by_remainder :
    (n d : ℕ) → 0 < d → (n + (d - 1)) / d ≡ (if ltb 0 (n % d) then n / d + 1 else n / d)
ceil_by_remainder n d h =
    let whole : d * (n / d) + n % d ≡ n = div-add-mod n d in
    let part : n % d < d = mod-lt n h in
    elim (Bool-cases (ltb 0 (n % d))) [
      | inl more ↦ rw more (div-eq_of_lt-le {k = n / d + 1} d (ground arith) (ground arith))
      | inr exact ↦ rw exact (div-eq_of_lt-le {k = n / d} d (ground arith) (ground arith))
    ]

-- A quotient of unsigned numbers is refused at a zero divisor, and otherwise is rounded as asked.
pub div_round_up_if_lem :
    (n d : ℕ) (round_up : Bool)
    → div_round_up_if (pos n) (pos d) round_up
      ≡ (if d == 0 then err (math divide_by_zero) else ok (pos (rounded round_up n d)))
unfolding div_round_up_if
div_round_up_if_lem n d true = ground (arith, ceil_by_remainder n d)
div_round_up_if_lem n d false = ground arith

pub mul_lem :
    (a b limit : ℕ)
    → mul (pos a) (pos b) limit
      ≡ (if over (a * b) limit then err (math multiplication_overflow) else ok (pos (a * b)))
unfolding mul
mul_lem a b limit = ground arith

-- The product over the divisor: refused at a zero divisor, then at a product above the limit, and
-- otherwise rounded as asked.
pub mul_div_round_up_if_lem :
    (a b d limit : ℕ) (round_up : Bool)
    → mul_div_round_up_if (pos a) (pos b) (pos d) round_up limit ≡ (
        if d == 0
        then err (math divide_by_zero)
        else if over (a * b) limit
        then err (math multiplication_overflow)
        else ok (pos (rounded round_up (a * b) d)))
unfolding mul_div_round_up_if
mul_div_round_up_if_lem a b d limit true = ground (arith, ceil_by_remainder (a * b) d)
mul_div_round_up_if_lem a b d limit false = ground arith

module _ (sdk : Sdk) (laws : IsSdk sdk) where
  should_round_up-false : (z : ℤ) → should_round_up sdk false z ≡ ok false
  unfolding should_round_up
  should_round_up-false z = refl

  should_round_up-true : (n : ℕ) → should_round_up sdk true (pos n) ≡ ok (ltb 0 (n % 2 ^ 64))
  unfolding should_round_up
  should_round_up-true n = rw (laws.u64_max_is) (ground (arith, and-low_mask 64 n))

  -- The shifted product. What is rounded up is decided by the low 64 bits of the quotient itself,
  -- not by the bits that the shift drops.
  pub checked_mul_shift_right_round_up_if_lem :
      (a b limit : ℕ) (round_up : Bool)
      → checked_mul_shift_right_round_up_if sdk (pos a) (pos b) round_up limit ≡ (
          if (a == 0) || (b == 0)
          then ok (pos 0)
          else if over (a * b) limit
          then err (math multiplication_overflow)
          else if round_up
          then (if ltb 0 (a * b / 2 ^ 64 % 2 ^ 64)
              then (if a * b / 2 ^ 64 == 2 ^ 64 - 1
                  then err (math multiplication_overflow)
                  else ok (pos (a * b / 2 ^ 64 + 1)))
              else ok (pos (a * b / 2 ^ 64)))
          else ok (pos (a * b / 2 ^ 64)))
  unfolding checked_mul_shift_right_round_up_if
  checked_mul_shift_right_round_up_if_lem a b limit true =
      ground
        (arith, laws.from_x64_bn_is (a * b), should_round_up-true (a * b / 2 ^ 64), laws.u64_max_is)
  checked_mul_shift_right_round_up_if_lem a b limit false =
      ground (arith, laws.from_x64_bn_is (a * b), should_round_up-false (pos (a * b / 2 ^ 64)))

  -- With rounding up asked for, a product below 2^64 comes back as zero, and the product of 2^64
  -- and a positive number below 2^64 - 1 comes back one too large.
  pub round_up-not_ceil :
      (a b k : ℕ)
      → a * b < 2 ^ 64
      → 0 < k
      → k < 2 ^ 64 - 1
      → (checked_mul_shift_right_round_up_if sdk (pos a) (pos b) true 128 ≡ ok (pos 0))
        × (checked_mul_shift_right_round_up_if sdk (pos k) (pos (2 ^ 64)) true 128
            ≡ ok (pos (k + 1)))
  round_up-not_ceil a b k small low high = (
    rw (checked_mul_shift_right_round_up_if_lem a b 128 true) (ground arith),
    rw (checked_mul_shift_right_round_up_if_lem k (2 ^ 64) 128 true) (ground arith),
  )
