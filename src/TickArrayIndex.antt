-- ===== src/TickArrayIndex.antt =====
-- quotes/swap/tick-array-index.ts: a tick index as the index of its tick array and the offset in
-- it. `tickSpacing` is a natural number (a pool's spacing is positive).
pub mod Split
pub mod Steps
pub mod Unique
use whirlpools.Prelude.{
  ℕ, ◌*◌, ◌/◌, Bool, if◌then◌else◌, ℤ, pos, negsuc, ◌+ℤ◌, ◌-ℤ◌, ◌*ℤ◌, ltb_ℤ, leb_ℤ,
}
use whirlpools.Errors.{plain, Result, ok, ◌>>=◌, ◌>>◌, throw_if}
use whirlpools.Bn.{rem}
use whirlpools.Constants.{tick_array_size}

-- `Math.floor(a / b)`.
abbrev pub floor_div : ℤ → ℕ → ℤ
floor_div (pos a) b = pos (a / b)
floor_div (negsuc a) b = negsuc (a / b)

pub record TickArrayIndex : Type 0 where
  pub array_index : ℤ
  pub offset_index : ℤ
  pub tick_spacing : ℕ

-- The constructor of the class.
abbrev pub new_tick_array_index : ℤ → ℤ → ℕ → Result TickArrayIndex
new_tick_array_index array_index offset_index tick_spacing = do
  throw_if (leb_ℤ (pos tick_array_size) offset_index) plain
  throw_if (ltb_ℤ offset_index (pos 0)) plain
  ok (record {
    array_index = array_index;
    offset_index = offset_index;
    tick_spacing = tick_spacing;
  })

unfoldable pub from_tick_index : ℤ → ℕ → Result TickArrayIndex
unfolding ◌+ℤ◌
from_tick_index index tick_spacing =
    let array_index = floor_div (floor_div index tick_spacing) tick_array_size in
    let offset = floor_div (rem index (pos (tick_spacing * tick_array_size))) tick_spacing in
    let offset_index = if ltb_ℤ offset (pos 0) then pos tick_array_size +ℤ offset else offset in
    new_tick_array_index array_index offset_index tick_spacing

unfoldable pub to_tick_index : TickArrayIndex → ℤ
unfolding ◌+ℤ◌ ◌*ℤ◌
to_tick_index t =
    t.array_index *ℤ pos tick_array_size *ℤ pos t.tick_spacing
    +ℤ t.offset_index *ℤ pos t.tick_spacing

unfoldable pub to_next_initializable_tick_index : TickArrayIndex → Result TickArrayIndex
unfolding ◌+ℤ◌
to_next_initializable_tick_index t =
    from_tick_index (to_tick_index t +ℤ pos t.tick_spacing) t.tick_spacing

unfoldable pub to_prev_initializable_tick_index : TickArrayIndex → Result TickArrayIndex
unfolding ◌-ℤ◌
to_prev_initializable_tick_index t =
    from_tick_index (to_tick_index t -ℤ pos t.tick_spacing) t.tick_spacing
