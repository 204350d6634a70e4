-- ===== src/TickUtil/Arrays.antt =====
-- utils/public/tick-utils.ts: the ticks of one tick array, and the arrays that are missing. `fuel`
-- bounds the rounds of the search; the ticks of the array and one more are enough.
use whirlpools.Prelude.{
  ℕ, zero, suc, ◌+◌, Bool, false, ◌&&◌, if◌then◌else◌, Option, none, some, List, [], ◌∷◌, length,
  get_elem?, ℤ, pos, negsuc, ◌+ℤ◌, ◌-ℤ◌, ◌*ℤ◌, leb_ℤ, ltb_ℤ,
}
use whirlpools.Errors.{plain, Result, ok, err, out_of_fuel, ◌>>=◌}
use whirlpools.AnchorTypes.{TickData, TickArrayData}
use whirlpools.TickArrayIndex.{floor_div}
use whirlpools.TickUtil.{get_start_tick_index}

pub data TickSearchDirection : Type 0 where
  left right : TickSearchDirection

unfoldable pub tick_index_to_inner_index : ℤ → ℤ → ℕ → ℤ
tick_index_to_inner_index start_tick_index tick_index tick_spacing =
    floor_div (tick_index -ℤ start_tick_index) tick_spacing

abbrev pub inner_index_to_tick_index : ℤ → ℤ → ℕ → ℤ
inner_index_to_tick_index start_tick_index tick_array_index tick_spacing =
    start_tick_index +ℤ tick_array_index *ℤ pos tick_spacing

-- An element of an array, by any number.
abbrev pub tick_at : List TickData → ℤ → Option TickData
tick_at ticks (pos i) = get_elem? ticks i
tick_at ticks (negsuc i) = none

-- `tick?.initialized`
abbrev pub is_initialized : Option TickData → Bool
is_initialized none = false
is_initialized (some tick) = tick.initialized

abbrev pub increment : TickSearchDirection → ℤ
increment left = negsuc 0
increment right = pos 1

-- The loop of findInitializedTick, up to the index that it stops at.
unfoldable pub step_to_initialized : List TickData → TickSearchDirection → ℕ → ℤ → Result (Option ℤ)
unfolding ◌+ℤ◌
step_to_initialized ticks search_direction zero index = err out_of_fuel
step_to_initialized ticks search_direction (suc fuel) index =
    let rest =
      step_to_initialized ticks search_direction fuel (index +ℤ increment search_direction) in
    if leb_ℤ (pos 0) index && ltb_ℤ index (pos (length ticks))
    then (if is_initialized (tick_at ticks index) then ok (some index) else rest)
    else ok none

abbrev pub first_index : TickSearchDirection → ℤ → ℤ
first_index left current = current
first_index right current = current +ℤ pos 1

abbrev pub found_tick_index : ℤ → ℕ → Option ℤ → Option ℤ
found_tick_index start_tick_index tick_spacing none = none
found_tick_index start_tick_index tick_spacing (some index) =
    some (inner_index_to_tick_index start_tick_index index tick_spacing)

abbrev tick_or_throw : Option TickData → Result TickData
tick_or_throw none = err plain
tick_or_throw (some tick) = ok tick

module _ {Key : Type 0} where
  unfoldable pub find_initialized_tick :
      TickArrayData Key → ℤ → ℕ → TickSearchDirection → Result (Option ℤ)
  find_initialized_tick account current_tick_index tick_spacing search_direction = do
    let current = tick_index_to_inner_index account.start_tick_index current_tick_index tick_spacing
    index ←
        step_to_initialized account.ticks search_direction (suc (length account.ticks))
          (first_index search_direction current)
    ok (found_tick_index account.start_tick_index tick_spacing index)

  unfoldable pub find_previous_initialized_tick_index :
      TickArrayData Key → ℤ → ℕ → Result (Option ℤ)
  find_previous_initialized_tick_index account current_tick_index tick_spacing =
      find_initialized_tick account current_tick_index tick_spacing left

  unfoldable pub find_next_initialized_tick_index_within :
      TickArrayData Key → ℤ → ℕ → Result (Option ℤ)
  find_next_initialized_tick_index_within account current_tick_index tick_spacing =
      find_initialized_tick account current_tick_index tick_spacing right

  -- TickArrayUtil
  unfoldable pub get_tick_from_array : TickArrayData Key → ℤ → ℕ → Result TickData
  get_tick_from_array tick_array tick_index tick_spacing = tick_or_throw (
      tick_at tick_array.ticks
        (tick_index_to_inner_index tick_array.start_tick_index tick_index tick_spacing))

  -- The indexes of the missing arrays, from `i` on.
  unfoldable pub missing_from : ℕ → List (Option (TickArrayData Key)) → List ℕ
  missing_from i [] = []
  missing_from i (none ∷ tick_arrays) = i ∷ missing_from (i + 1) tick_arrays
  missing_from i (some tick_array ∷ tick_arrays) = missing_from (i + 1) tick_arrays

  unfoldable pub get_uninitialized_arrays : List (Option (TickArrayData Key)) → List ℕ
  get_uninitialized_arrays tick_arrays = missing_from 0 tick_arrays

-- The start indexes of a sequence of arrays, for the multiples of the offset from `i` on.
unfoldable pub start_ticks_from : ℕ → ℕ → ℤ → ℕ → Bool → Result (List ℤ)
start_ticks_from zero i tick tick_spacing a_to_b = ok []
start_ticks_from (suc num) i tick tick_spacing a_to_b = do
  start_tick ← get_start_tick_index tick tick_spacing (if a_to_b then pos 0 -ℤ pos i else pos i)
  rest ← start_ticks_from num (i + 1) tick tick_spacing a_to_b
  ok (start_tick ∷ rest)

-- getTickArrayPDAs, up to the addresses that PDAUtil derives from the start indexes.
unfoldable pub get_tick_array_start_ticks : ℤ → ℕ → ℕ → Bool → Result (List ℤ)
get_tick_array_start_ticks tick tick_spacing num_of_tick_arrays a_to_b =
    start_ticks_from num_of_tick_arrays 0 tick tick_spacing a_to_b
