-- ===== src/TickArrayIndex/Split.antt =====
-- The split of a tick index into array and offset (tick-array-index.ts).
use native.Mathlib.Nat.{
  div-eq_of_lt-le, mul-le-mul_left, zero-div, mod-lt, div-add-mod, mul-add-mod_self_left,
  mod-eq_of_lt,
}
use native.Mathlib.Decide.{dec_lt}
use whirlpools.Prelude.{
  ℕ, suc, ◌+◌, ◌-◌, ◌*◌, ◌/◌, ◌%◌, ◌≤◌, ◌<◌, ◌≡◌, ap, ◌∙◌, sym, arith, ℤ, pos, negsuc,
}
use whirlpools.Prelude.Division.{lt_of_mul-lt}
use whirlpools.Errors.{ok}
use whirlpools.TickArrayIndex.{TickArrayIndex, from_tick_index}

abbrev pub at : ℤ → ℕ → ℕ → TickArrayIndex
at array offset s = record { array_index = array; offset_index = pos offset; tick_spacing = s }

pub div_of_fields : (s q r : ℕ) → r < s → (s * q + r) / s ≡ q
div_of_fields s q r h = div-eq_of_lt-le {k = q} s (omega arith) (omega arith)

pub mod_of_fields : (s q r : ℕ) → r < s → (s * q + r) % s ≡ r
mod_of_fields s q r h = mul-add-mod_self_left s q r ∙ mod-eq_of_lt h

module _ (s k o r : ℕ) (ho : o < 88) (hr : r < s) where
  abbrev pub cell : ℕ
  cell = s * (88 * k + o) + r

  cell_row : cell / s / 88 ≡ k
  cell_row = ap (λ (x : ℕ). x / 88) (div_of_fields s (88 * k + o) r hr) ∙ div_of_fields 88 k o ho

  rest_lt : s * o + r < s * 88
  rest_lt = let room : s * (o + 1) ≤ s * 88 = mul-le-mul_left s (omega arith) in omega (arith, room)

  cell_rest : cell % (s * 88) ≡ s * o + r
  cell_rest =
      let split : cell ≡ s * 88 * k + (s * o + r) = omega arith in
      ap (λ (x : ℕ). x % (s * 88)) split ∙ mod_of_fields (s * 88) k (s * o + r) rest_lt

  next_rest : s * o + r + 1 < s * 88 → suc cell % (s * 88) ≡ s * o + r + 1
  next_rest h =
      let split : suc cell ≡ s * 88 * k + (s * o + r + 1) = omega arith in
      ap (λ (x : ℕ). x % (s * 88)) split ∙ mod_of_fields (s * 88) k (s * o + r + 1) h

  next_zero : s * o + r + 1 ≡ s * 88 → suc cell % (s * 88) ≡ 0
  next_zero h =
      let split : suc cell ≡ s * 88 * (k + 1) + 0 = omega arith in
      ap (λ (x : ℕ). x % (s * 88)) split ∙ mod_of_fields (s * 88) (k + 1) 0 (omega arith)

  last_offset : s * o + r + 1 ≡ s * 88 → o ≡ 87
  last_offset h = let high : 86 < o = lt_of_mul-lt 86 o s (omega arith) in omega (arith, high)

  -- A tick at or above zero.
  pub from_tick_index-pos : from_tick_index (pos cell) s ≡ ok (at (pos k) o s)
  unfolding from_tick_index
  from_tick_index-pos = ground (arith, cell_row, cell_rest, div_of_fields s o r hr)

  -- A tick below zero.
  pub from_tick_index-negsuc : from_tick_index (negsuc cell) s ≡ ok (at (negsuc k) (87 - o) s)
  unfolding from_tick_index
  from_tick_index-negsuc = elim (dec_lt (s * o + r + 1) (s * 88)) [
    | yes h ↦ ground (arith, cell_row, next_rest h, div_of_fields s o r hr)
    | no h ↦ ground (
      arith,
      cell_row,
      next_zero (omega (arith, rest_lt)),
      last_offset (omega (arith, rest_lt)),
      zero-div s,
    )
  ]

-- The fields of a number that s is positive for.
pub record Cell (s n : ℕ) : Type 0 where
  pub row : ℕ
  pub offset : ℕ
  pub rest : ℕ
  pub offset_lt : offset < 88
  pub rest_lt_s : rest < s
  pub n_is : n ≡ cell s row offset rest offset_lt rest_lt_s

pub fields_of : (s n : ℕ) → 0 < s → Cell s n
fields_of s n h = record {
  row = n / s / 88;
  offset = n / s % 88;
  rest = n % s;
  offset_lt = mod-lt (n / s) (omega arith);
  rest_lt_s = mod-lt n h;
  n_is = sym (ap (λ (x : ℕ). s * x + n % s) (div-add-mod (n / s) 88) ∙ div-add-mod n s);
}
