-- ===== src/TickArrayIndex/Unique.antt =====
-- Initializable tick indexes as multiples of the spacing (tick-array-index.ts): they are a spacing
-- apart, and each stands for one array index and one offset.
use native.Mathlib.Nat.{mul-le-mul_right}
use whirlpools.Prelude.{
  ℕ, eq_of_parts, ◌+◌, ◌*◌, ◌≤◌, ◌<◌, ◌≡◌, ap, sym, ◌∙◌, arith, ℤ, pos, ◌+ℤ◌, ◌≤ℤ◌, int_laws,
  pos_part, neg_part,
}
use whirlpools.Prelude.Division.{lt_of_mul-lt}
use whirlpools.Errors.{ok, ok_injective}
use whirlpools.TickArrayIndex.{TickArrayIndex, from_tick_index, to_tick_index}
use whirlpools.TickArrayIndex.Split.{at}
use whirlpools.TickArrayIndex.Steps.{tick_value, from_tick_index-Holds, from-to_tick_index}

module _ (s : ℕ) (hs : 0 < s) where
  -- The order of two cells of the grid, from the order of their tick indexes.
  pub cells-le :
      (a b : ℤ) (o p : ℕ)
      → to_tick_index (at b p s) +ℤ pos 1 ≤ℤ to_tick_index (at a o s) +ℤ pos s
      → pos_part b * 88 + p + neg_part a * 88 ≤ pos_part a * 88 + o + neg_part b * 88
  cells-le a b o p h =
      let lt : pos_part b * 88 + p + neg_part a * 88 < pos_part a * 88 + o + neg_part b * 88 + 1 =
        lt_of_mul-lt (pos_part b * 88 + p + neg_part a * 88)
          (pos_part a * 88 + o + neg_part b * 88 + 1) s
          (omega (int_laws, tick_value a o s, tick_value b p s)) in
      omega arith

  -- Two initializable tick indexes less than a spacing apart are in order.
  pub tick_gap :
      (a b : ℤ) (o p : ℕ)
      → to_tick_index (at b p s) +ℤ pos 1 ≤ℤ to_tick_index (at a o s) +ℤ pos s
      → to_tick_index (at b p s) ≤ℤ to_tick_index (at a o s)
  tick_gap a b o p h =
      let le : (pos_part b * 88 + p + neg_part a * 88) * s
          ≤ (pos_part a * 88 + o + neg_part b * 88) * s =
        mul-le-mul_right s (cells-le a b o p h) in
      omega (arith, le, tick_value a o s, tick_value b p s)

  pub tick_eq :
      (a b : ℤ) (o p : ℕ)
      → to_tick_index (at b p s) +ℤ pos 1 ≤ℤ to_tick_index (at a o s) +ℤ pos s
      → to_tick_index (at a o s) +ℤ pos 1 ≤ℤ to_tick_index (at b p s) +ℤ pos s
      → to_tick_index (at b p s) ≡ to_tick_index (at a o s)
  tick_eq a b o p h k = eq_of_parts _ _ (omega (arith, tick_gap a b o p h, tick_gap b a p o k))

  -- One cell for one tick index.
  pub cell_unique :
      (a b : ℤ) (o p : ℕ)
      → o < 88
      → p < 88
      → to_tick_index (at a o s) ≡ to_tick_index (at b p s)
      → (a ≡ b) × (o ≡ p)
  cell_unique a b o p ho hp e =
      let same : at a o s ≡ at b p s = ok_injective (
        sym (from-to_tick_index s hs a o ho)
        ∙ ap (λ (i : ℤ). from_tick_index i s) e
        ∙ from-to_tick_index s hs b p hp) in
      (
        ap (λ (t : TickArrayIndex). t.array_index) same,
        ap (λ (t : TickArrayIndex). pos_part t.offset_index) same,
      )

  -- The array index and the offset of a tick index are those of the initializable tick index that
  -- it lies less than a spacing above.
  pub from_tick_index-at :
      (i a : ℤ) (o : ℕ)
      → o < 88
      → to_tick_index (at a o s) ≤ℤ i
      → i +ℤ pos 1 ≤ℤ to_tick_index (at a o s) +ℤ pos s
      → from_tick_index i s ≡ ok (at a o s)
  from_tick_index-at i a o ho below above =
      let (t, t_is, h) = from_tick_index-Holds i s hs in
      let low = rw h.is_at at h.from_below in
      let high = rw h.is_at at h.from_above in
      let le = tick_gap h.array a h.offset o (omega (int_laws, below, high)) in
      let ge = tick_gap a h.array o h.offset (omega (int_laws, above, low)) in
      let same : to_tick_index (at h.array h.offset s) ≡ to_tick_index (at a o s) =
        omega (int_laws, le, ge) in
      let (array_is, offset_is) = cell_unique h.array a h.offset o h.offset_lt ho same in
      t_is
      ∙ ap ok h.is_at
      ∙ ap (λ (x : ℤ). ok (at x h.offset s)) array_is
      ∙ ap (λ (x : ℕ). ok (at a x s)) offset_is
