-- ===== src/TickArrayIndex/Steps.antt =====
-- Tick indexes and the steps between initializable ticks (tick-array-index.ts).
use native.Mathlib.Nat.{mul-le-mul_right}
use whirlpools.Prelude.{
  ℕ, suc, ◌+◌, ◌-◌, ◌*◌, ◌≤◌, ◌<◌, ◌≡◌, refl, ap, ◌∙◌, arith, ℤ, pos, negsuc, sub_ℕ, ◌*ℤ◌, ◌+ℤ◌,
  ◌-ℤ◌, neg-mul, neg-add, ◌≤ℤ◌, int_laws, pos_part, neg_part, +ℤ_parts, -ℤ_parts,
}
use whirlpools.Errors.{ok}
use whirlpools.TickArrayIndex.{
  TickArrayIndex, from_tick_index, to_tick_index, to_next_initializable_tick_index,
  to_prev_initializable_tick_index,
}
use whirlpools.TickArrayIndex.Split.{
  at, cell, fields_of, from_tick_index-pos, from_tick_index-negsuc,
}

tick-pos : (k o s : ℕ) → to_tick_index (at (pos k) o s) ≡ pos (k * 88 * s + o * s)
unfolding to_tick_index
tick-pos k o s = refl

tick-negsuc : (k o s : ℕ) → to_tick_index (at (negsuc k) o s) ≡ sub_ℕ (o * s) (suc k * 88 * s)
unfolding to_tick_index
tick-negsuc k o s =
    ap (λ (x : ℤ). x +ℤ pos o *ℤ pos s) (neg-mul (suc k * 88) s) ∙ neg-add (suc k * 88 * s) (o * s)

sub_parts : (a b : ℕ) → pos_part (sub_ℕ a b) + b ≡ neg_part (sub_ℕ a b) + a
sub_parts a b = ground arith

-- The tick index of an array index and an offset, as an equation between numbers.
pub tick_value :
    (a : ℤ) (o s : ℕ)
    → pos_part (to_tick_index (at a o s)) + neg_part a * 88 * s
      ≡ neg_part (to_tick_index (at a o s)) + pos_part a * 88 * s + o * s
tick_value (pos k) o s = omega (arith, ap pos_part (tick-pos k o s), ap neg_part (tick-pos k o s))
tick_value (negsuc k) o s = omega (
  arith,
  ap pos_part (tick-negsuc k o s),
  ap neg_part (tick-negsuc k o s),
  sub_parts (o * s) (suc k * 88 * s),
)

sum : (a b c s : ℕ) → a + b ≡ c → b * s + a * s ≡ c * s
sum a b c s h = omega (arith, ap (λ (x : ℕ). x * s) h)

below :
    (k o s : ℕ)
    → o < 88
    → 0 < s
    → sub_ℕ (o * s) (suc k * 88 * s) ≡ negsuc (s * (88 * k + (87 - o)) + (s - 1))
below k o s ho hs =
    let room : (o + 1) * s ≤ 88 * s = mul-le-mul_right s (omega arith) in
    let whole : o * s + (87 - o) * s ≡ 87 * s = sum (87 - o) o 87 s (omega arith) in
    ground (arith, whole, room)

module _ (s : ℕ) (hs : 0 < s) where
  -- For a positive spacing, the tick index that is made of an array index and an offset below the
  -- size of an array is split into them again.
  pub from-to_tick_index :
      (a : ℤ) (o : ℕ) → o < 88 → from_tick_index (to_tick_index (at a o s)) s ≡ ok (at a o s)
  from-to_tick_index (pos k) o ho =
      let cell_is : k * 88 * s + o * s ≡ cell s k o 0 ho hs = omega arith in
      ap (λ (i : ℤ). from_tick_index i s) (tick-pos k o s ∙ ap pos cell_is)
      ∙ from_tick_index-pos s k o 0 ho hs
  from-to_tick_index (negsuc k) o ho =
      let flip : 87 - o < 88 = omega arith in
      let back : 87 - (87 - o) ≡ o = omega arith in
      let last : s - 1 < s = omega arith in
      ap (λ (i : ℤ). from_tick_index i s) (tick-negsuc k o s ∙ below k o s ho hs)
      ∙ from_tick_index-negsuc s k (87 - o) (s - 1) flip last
      ∙ ap (λ (x : ℕ). ok (at (negsuc k) x s)) back

  -- Ticks a spacing apart, within an array and over its end.
  pub tick_within :
      (a : ℤ) (o : ℕ) → to_tick_index (at a o s) +ℤ pos s ≡ to_tick_index (at a (suc o) s)
  tick_within a o = omega (int_laws, tick_value a o s, tick_value a (suc o) s)

  pub tick_over : (a : ℤ) → to_tick_index (at a 87 s) +ℤ pos s ≡ to_tick_index (at (a +ℤ pos 1) 0 s)
  tick_over a =
      let by_s : pos_part (a +ℤ pos 1) * 88 * s + neg_part a * 88 * s
          ≡ neg_part (a +ℤ pos 1) * 88 * s + pos_part a * 88 * s + 88 * s =
        omega (arith, ap (λ (x : ℕ). x * 88 * s) (+ℤ_parts a (pos 1))) in
      omega (int_laws, by_s, tick_value a 87 s, tick_value (a +ℤ pos 1) 0 s)

  pub tick_before :
      (a : ℤ) (o : ℕ) → to_tick_index (at a (suc o) s) -ℤ pos s ≡ to_tick_index (at a o s)
  tick_before a o = omega (int_laws, tick_value a o s, tick_value a (suc o) s)

  pub tick_under :
      (a : ℤ) → to_tick_index (at a 0 s) -ℤ pos s ≡ to_tick_index (at (a -ℤ pos 1) 87 s)
  tick_under a =
      let by_s : pos_part (a -ℤ pos 1) * 88 * s + neg_part a * 88 * s + 88 * s
          ≡ neg_part (a -ℤ pos 1) * 88 * s + pos_part a * 88 * s =
        omega (arith, ap (λ (x : ℕ). x * 88 * s) (-ℤ_parts a (pos 1))) in
      omega (int_laws, by_s, tick_value a 0 s, tick_value (a -ℤ pos 1) 87 s)

  -- The step to the next and to the previous initializable tick, within an array and over its end.
  pub to_next_initializable_tick_index-within :
      (a : ℤ) (o : ℕ) → o < 87 → to_next_initializable_tick_index (at a o s) ≡ ok (at a (suc o) s)
  unfolding to_next_initializable_tick_index
  to_next_initializable_tick_index-within a o ho =
      ap (λ (i : ℤ). from_tick_index i s) (tick_within a o)
      ∙ from-to_tick_index a (suc o) (omega arith)

  pub to_next_initializable_tick_index-over :
      (a : ℤ) → to_next_initializable_tick_index (at a 87 s) ≡ ok (at (a +ℤ pos 1) 0 s)
  unfolding to_next_initializable_tick_index
  to_next_initializable_tick_index-over a =
      ap (λ (i : ℤ). from_tick_index i s) (tick_over a)
      ∙ from-to_tick_index (a +ℤ pos 1) 0 (omega arith)

  pub to_prev_initializable_tick_index-within :
      (a : ℤ) (o : ℕ) → o < 87 → to_prev_initializable_tick_index (at a (suc o) s) ≡ ok (at a o s)
  unfolding to_prev_initializable_tick_index
  to_prev_initializable_tick_index-within a o ho =
      ap (λ (i : ℤ). from_tick_index i s) (tick_before a o) ∙ from-to_tick_index a o (omega arith)

  pub to_prev_initializable_tick_index-over :
      (a : ℤ) → to_prev_initializable_tick_index (at a 0 s) ≡ ok (at (a -ℤ pos 1) 87 s)
  unfolding to_prev_initializable_tick_index
  to_prev_initializable_tick_index-over a =
      ap (λ (i : ℤ). from_tick_index i s) (tick_under a)
      ∙ from-to_tick_index (a -ℤ pos 1) 87 (omega arith)

-- What the array index and the offset of a tick index say of it.
pub record Holds (i : ℤ) (s : ℕ) (t : TickArrayIndex) : Type 0 where
  pub array : ℤ
  pub offset : ℕ
  pub is_at : t ≡ at array offset s
  pub offset_lt : offset < 88
  pub from_below : to_tick_index t ≤ℤ i
  pub from_above : i +ℤ pos 1 ≤ℤ to_tick_index t +ℤ pos s

-- For a positive spacing every tick index has an array index and an offset below the array's size,
-- and the initializable tick index they stand for is the last one that is not above it.
pub from_tick_index-Holds :
    (i : ℤ) (s : ℕ) → 0 < s → (t : TickArrayIndex) × (from_tick_index i s ≡ ok t) × Holds i s t
from_tick_index-Holds (pos n) s hs =
    let c = fields_of s n hs in
    (
      at (pos c.row) c.offset s,
      ap (λ (x : ℕ). from_tick_index (pos x) s) c.n_is
          ∙ from_tick_index-pos s c.row c.offset c.rest c.offset_lt c.rest_lt_s,
      record {
        array = pos c.row;
        offset = c.offset;
        is_at = refl;
        offset_lt = c.offset_lt;
        from_below = omega (int_laws, c.n_is, c.rest_lt_s, tick_value (pos c.row) c.offset s);
        from_above = omega (int_laws, c.n_is, c.rest_lt_s, tick_value (pos c.row) c.offset s);
      },
    )
from_tick_index-Holds (negsuc n) s hs =
    let c = fields_of s n hs in
    let whole : c.offset * s + (87 - c.offset) * s ≡ 87 * s =
      sum (87 - c.offset) c.offset 87 s (omega (arith, c.offset_lt)) in
    (
      at (negsuc c.row) (87 - c.offset) s,
      ap (λ (x : ℕ). from_tick_index (negsuc x) s) c.n_is
          ∙ from_tick_index-negsuc s c.row c.offset c.rest c.offset_lt c.rest_lt_s,
      record {
        array = negsuc c.row;
        offset = 87 - c.offset;
        is_at = refl;
        offset_lt = omega (arith, c.offset_lt);
        from_below =
            omega
              (int_laws, c.n_is, c.rest_lt_s, whole, tick_value (negsuc c.row) (87 - c.offset) s);
        from_above =
            omega
              (int_laws, c.n_is, c.rest_lt_s, whole, tick_value (negsuc c.row) (87 - c.offset) s);
      },
    )
