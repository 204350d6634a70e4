-- ===== src/TokenMath/Prices.antt =====
-- The price that an amount moves to (token-math.ts), at unsigned arguments.
use whirlpools.Prelude.{
  ℕ, ◌+◌, ◌-◌, ◌*◌, ◌/◌, ◌^◌, ◌<◌, ◌≡◌, refl, Bool, true, false, ◌==◌, if◌then◌else◌, arith, ℤ, pos,
  ◌-ℤ◌,
}
use whirlpools.Prelude.Division.{ceil_div}
use whirlpools.Errors.{ok, err, math, divide_by_zero}
use whirlpools.BitMath.{div_round_up}
use whirlpools.BitMath.Bounds.{mul_lem, div_round_up_if_lem}
use whirlpools.TokenMath.{
  get_next_sqrt_price_from_a_round_up, get_next_sqrt_price_from_b_round_down,
}

-- The price after a deposit of `a` of token A at price `p`, and after a withdrawal.
abbrev pub price_in_a : ℕ → ℕ → ℕ → ℕ
price_in_a p l a = ceil_div (l * p * 2 ^ 64) (l * 2 ^ 64 + p * a)

abbrev pub price_out_a : ℕ → ℕ → ℕ → ℕ
price_out_a p l a = ceil_div (l * p * 2 ^ 64) (l * 2 ^ 64 - p * a)

pub from_a_input :
    (p l a : ℕ) {z : ℤ}
    → 0 < a
    → get_next_sqrt_price_from_a_round_up (pos p) (pos l) (pos a) true ≡ ok z
    → (z ≡ pos (price_in_a p l a)) × (0 < l * 2 ^ 64 + p * a)
unfolding get_next_sqrt_price_from_a_round_up div_round_up
from_a_input p l a h e = ground (
  arith,
  mul_lem p a 256,
  mul_lem l p 256,
  div_round_up_if_lem (l * p * 2 ^ 64) (l * 2 ^ 64 + p * a) true,
)

pub from_a_output :
    (p l a : ℕ) {z : ℤ}
    → 0 < a
    → get_next_sqrt_price_from_a_round_up (pos p) (pos l) (pos a) false ≡ ok z
    → (z ≡ pos (price_out_a p l a)) × (p * a < l * 2 ^ 64)
unfolding get_next_sqrt_price_from_a_round_up div_round_up
from_a_output p l a h e = ground (
  arith,
  mul_lem p a 256,
  mul_lem l p 256,
  div_round_up_if_lem (l * p * 2 ^ 64) (l * 2 ^ 64 - p * a) true,
)

pub from_b_input :
    (p l a : ℕ)
    → get_next_sqrt_price_from_b_round_down (pos p) (pos l) (pos a) true
      ≡ (if l == 0 then err (math divide_by_zero) else ok (pos (p + a * 2 ^ 64 / l)))
unfolding get_next_sqrt_price_from_b_round_down
from_b_input p l a = ground (arith, div_round_up_if_lem (a * 2 ^ 64) l false)

pub from_b_output :
    (p l a : ℕ)
    → get_next_sqrt_price_from_b_round_down (pos p) (pos l) (pos a) false
      ≡ (if l == 0 then err (math divide_by_zero) else ok (pos p -ℤ pos (ceil_div (a * 2 ^ 64) l)))
unfolding get_next_sqrt_price_from_b_round_down
from_b_output p l a = ground (arith, div_round_up_if_lem (a * 2 ^ 64) l true)

-- A zero amount does not move the price.
pub from_a_zero :
    (p l : ℕ) (input : Bool)
    → get_next_sqrt_price_from_a_round_up (pos p) (pos l) (pos 0) input ≡ ok (pos p)
unfolding get_next_sqrt_price_from_a_round_up
from_a_zero p l input = refl
