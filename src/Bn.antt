-- ===== src/Bn.antt =====
-- The numbers of the program. A bn.js value is an integer, and its methods are the integer
-- operations: `div` and `mod` truncate towards zero and refuse a zero divisor; `shln`, `shrn`,
-- `and` and `maskn` refuse a negative receiver. A JavaScript `number` here is always a whole one
-- far below 2^53, so it is an integer too.
use Prim.Native.Nat.{bit_and}
use whirlpools.Prelude.{
  ℕ, zero, suc, ◌-◌, ◌*◌, ◌/◌, ◌%◌, ◌^◌, ◌==◌, if◌then◌else◌, Bool, ℤ, pos, negsuc, sub_ℕ,
}
use whirlpools.Errors.{Result, ok, err, assertion}

-- Quotient and remainder, by a divisor that is not zero.
abbrev pub quot : ℤ → ℤ → ℤ
quot (pos a) (pos b) = pos (a / b)
quot (pos a) (negsuc b) = sub_ℕ 0 (a / suc b)
quot (negsuc a) (pos b) = sub_ℕ 0 (suc a / b)
quot (negsuc a) (negsuc b) = pos (suc a / suc b)

abbrev pub rem : ℤ → ℤ → ℤ
rem (pos a) (pos b) = pos (a % b)
rem (pos a) (negsuc b) = pos (a % suc b)
rem (negsuc a) (pos b) = sub_ℕ 0 (suc a % b)
rem (negsuc a) (negsuc b) = sub_ℕ 0 (suc a % suc b)

abbrev pub is_zero : ℤ → Bool
is_zero (pos n) = n == 0
is_zero (negsuc n) = Bool.false

abbrev pub div : ℤ → ℤ → Result ℤ
div a b = if is_zero b then err assertion else ok (quot a b)

abbrev pub mod_bn : ℤ → ℤ → Result ℤ
mod_bn a b = if is_zero b then err assertion else ok (rem a b)

abbrev pub shln : ℤ → ℕ → Result ℤ
shln (pos a) k = ok (pos (a * 2 ^ k))
shln (negsuc a) k = err assertion

abbrev pub shrn : ℤ → ℕ → Result ℤ
shrn (pos a) k = ok (pos (a / 2 ^ k))
shrn (negsuc a) k = err assertion

abbrev pub and_bn : ℤ → ℤ → Result ℤ
and_bn (pos a) (pos b) = ok (pos (bit_and a b))
and_bn (pos a) (negsuc b) = err assertion
and_bn (negsuc a) b = err assertion

-- The two's complement of a width, for a number that the width holds; back, `testn` reads the sign
-- bit, and bits above the width are dropped from a negative number.
abbrev pub to_twos : ℤ → ℕ → ℤ
to_twos (pos a) w = pos a
to_twos (negsuc a) w = pos (2 ^ w - suc a)

abbrev pub from_twos : ℤ → ℕ → ℤ
from_twos (pos a) w = if a / 2 ^ (w - 1) % 2 == 1 then sub_ℕ 0 (2 ^ w - a % 2 ^ w) else pos a
from_twos (negsuc a) w = negsuc a

-- `imaskn`, of a number that is not negative.
abbrev pub maskn : ℤ → ℕ → ℤ
maskn (pos a) w = pos (a % 2 ^ w)
maskn (negsuc a) w = negsuc a

-- The number of binary digits; n rounds are enough.
abbrev pub bit_length_loop : ℕ → ℕ → ℕ
bit_length_loop zero n = 0
bit_length_loop (suc fuel) zero = 0
bit_length_loop (suc fuel) (suc n) = suc (bit_length_loop fuel (suc n / 2))

abbrev pub bit_length : ℕ → ℕ
bit_length n = bit_length_loop n n
