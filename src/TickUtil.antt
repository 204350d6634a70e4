-- ===== src/TickUtil.antt =====
-- utils/public/tick-utils.ts: the arithmetic of tick indexes. A spacing is a natural number.
pub mod Initializable
pub mod Arrays
pub mod Nearest
use whirlpools.Prelude.{ℕ, ◌*◌, Bool, ◌&&◌, ℤ, pos, neg_ℤ, ◌+ℤ◌, ◌-ℤ◌, ◌*ℤ◌, leb_ℤ, eqb_ℤ}
use whirlpools.Errors.{Result, ok, ◌>>◌, invariant}
use whirlpools.Bn.{quot, rem, is_zero}
use whirlpools.Constants.{tick_array_size, max_tick_index, min_tick_index}
use whirlpools.TickArrayIndex.{floor_div}

unfoldable pub get_offset_index : ℤ → ℤ → ℕ → ℤ
unfolding ◌-ℤ◌
get_offset_index tick_index array_start_index tick_spacing =
    floor_div (tick_index -ℤ array_start_index) tick_spacing

-- Two divisions and one `floor` are the floor of the quotient by the product.
unfoldable pub get_start_tick_index : ℤ → ℕ → ℤ → Result ℤ
unfolding ◌+ℤ◌ ◌-ℤ◌ ◌*ℤ◌
get_start_tick_index tick_index tick_spacing offset =
    let real_index = floor_div tick_index (tick_spacing * tick_array_size) in
    let start_tick_index = (real_index +ℤ offset) *ℤ pos tick_spacing *ℤ pos tick_array_size in
    let ticks_in_array = pos (tick_array_size * tick_spacing) in
    let min_index = min_tick_index -ℤ (rem min_tick_index ticks_in_array +ℤ ticks_in_array) in
    invariant (leb_ℤ min_index start_tick_index)
    >> (invariant (leb_ℤ start_tick_index max_tick_index) >> ok start_tick_index)

unfoldable pub get_initializable_tick_index : ℤ → ℕ → ℤ
unfolding ◌-ℤ◌
get_initializable_tick_index tick_index tick_spacing =
    tick_index -ℤ rem tick_index (pos tick_spacing)

unfoldable pub get_next_initializable_tick_index : ℤ → ℕ → ℤ
unfolding ◌+ℤ◌
get_next_initializable_tick_index tick_index tick_spacing =
    get_initializable_tick_index tick_index tick_spacing +ℤ pos tick_spacing

unfoldable pub get_prev_initializable_tick_index : ℤ → ℕ → ℤ
unfolding ◌-ℤ◌
get_prev_initializable_tick_index tick_index tick_spacing =
    get_initializable_tick_index tick_index tick_spacing -ℤ pos tick_spacing

abbrev pub check_tick_in_bounds : ℤ → Bool
check_tick_in_bounds tick = leb_ℤ tick max_tick_index && leb_ℤ min_tick_index tick

unfoldable pub is_tick_initializable : ℤ → ℕ → Bool
is_tick_initializable tick tick_spacing = is_zero (rem tick (pos tick_spacing))

abbrev pub invert_tick : ℤ → ℤ
invert_tick tick = neg_ℤ tick

-- `ceil` of a negative quotient and `floor` of a positive one drop the fraction.
unfoldable pub get_full_range_tick_index : ℕ → ℤ × ℤ
unfolding ◌*ℤ◌
get_full_range_tick_index tick_spacing = (
  quot min_tick_index (pos tick_spacing) *ℤ pos tick_spacing,
  quot max_tick_index (pos tick_spacing) *ℤ pos tick_spacing,
)

unfoldable pub is_full_range : ℕ → ℤ → ℤ → Bool
is_full_range tick_spacing tick_lower_index tick_upper_index =
    let range = get_full_range_tick_index tick_spacing in
    eqb_ℤ tick_lower_index range.0 && eqb_ℤ tick_upper_index range.1
