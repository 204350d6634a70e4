-- ===== src/TickUtil/Initializable.antt =====
-- The initializable tick index near a tick index (tick-utils.ts).
use native.Mathlib.Nat.{div-add-mod, mod-lt}
use whirlpools.Prelude.{
  ℕ, zero, suc, ◌*◌, ◌/◌, ◌%◌, ◌<◌, ◌≡◌, refl, ap, ◌∙◌, arith, true, ℤ, pos, negsuc, sub_ℕ,
  sub_ℕ-eq-pos, ◌+ℤ◌, ◌-ℤ◌, ◌≤ℤ◌, int_laws, pos_part, neg_part,
}
use whirlpools.TickArrayIndex.Split.{mod_of_fields}
use whirlpools.TickUtil.{get_initializable_tick_index, is_tick_initializable}

module _ (s : ℕ) (hs : 0 < s) where
  multiple : (q : ℕ) → (s * q) % s ≡ 0
  multiple q = ap (λ (x : ℕ). x % s) (omega arith) ∙ mod_of_fields s q 0 hs

  initializable_pos : (q : ℕ) → is_tick_initializable (pos (s * q)) s ≡ true
  unfolding is_tick_initializable
  initializable_pos q = ground (arith, multiple q)

  negated_multiple : (x : ℕ) → x % s ≡ 0 → is_tick_initializable (sub_ℕ 0 x) s ≡ true
  unfolding is_tick_initializable
  negated_multiple zero h = ground (arith, h)
  negated_multiple (suc x) h = ground (arith, h)

  initializable_neg : (q : ℕ) → is_tick_initializable (sub_ℕ 0 (s * q)) s ≡ true
  initializable_neg q = negated_multiple (s * q) (multiple q)

  nearest_pos : (n : ℕ) → get_initializable_tick_index (pos n) s ≡ pos (s * (n / s))
  unfolding get_initializable_tick_index
  nearest_pos n = ground (arith, div-add-mod n s, sub_ℕ-eq-pos n (n % s))

  nearest_negsuc : (n : ℕ) → get_initializable_tick_index (negsuc n) s ≡ sub_ℕ 0 (s * (suc n / s))
  unfolding get_initializable_tick_index ◌-ℤ◌
  nearest_negsuc n = ground (arith, div-add-mod (suc n) s)

parts_of_neg : (x : ℕ) → (pos_part (sub_ℕ 0 x) ≡ 0) × (neg_part (sub_ℕ 0 x) ≡ x)
parts_of_neg zero = (refl, refl)
parts_of_neg (suc x) = (ground arith, ground arith)

-- `r` is less than a spacing away from the tick, on the side of zero.
abbrev pub Near : ℤ → ℕ → ℤ → Type 0
Near (pos n) s r = (r ≤ℤ pos n) × (pos n +ℤ pos 1 ≤ℤ r +ℤ pos s)
Near (negsuc n) s r = (negsuc n ≤ℤ r) × (r +ℤ pos 1 ≤ℤ negsuc n +ℤ pos s)

-- For a positive spacing the tick index that is returned is initializable and less than a spacing
-- away: at or below a tick index that is not negative, and at or above a negative one.
pub get_initializable_tick_index-rounds :
    (t : ℤ) (s : ℕ)
    → 0 < s
    → (is_tick_initializable (get_initializable_tick_index t s) s ≡ true)
      × Near t s (get_initializable_tick_index t s)
get_initializable_tick_index-rounds (pos n) s hs =
    let at = nearest_pos s hs n in
    let high = ap pos_part at in
    let low = ap neg_part at in
    let whole = div-add-mod n s in
    let rest = mod-lt n hs in
    (
      ap (λ (i : ℤ). is_tick_initializable i s) at ∙ initializable_pos s hs (n / s),
      (omega (int_laws, high, low, whole), omega (int_laws, high, low, whole, rest)),
    )
get_initializable_tick_index-rounds (negsuc n) s hs =
    let at = nearest_negsuc s hs n in
    let (no_pos, all_neg) = parts_of_neg (s * (suc n / s)) in
    let high = ap pos_part at ∙ no_pos in
    let low = ap neg_part at ∙ all_neg in
    let whole = div-add-mod (suc n) s in
    let rest = mod-lt (suc n) hs in
    (
      ap (λ (i : ℤ). is_tick_initializable i s) at ∙ initializable_neg s hs (suc n / s),
      (omega (int_laws, high, low, whole), omega (int_laws, high, low, whole, rest)),
    )
