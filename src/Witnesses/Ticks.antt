-- ===== src/Witnesses/Ticks.antt =====
-- The theorem on the ticks of an array at a concrete input.
use whirlpools.Prelude.{
  ℕ, suc, ◌≤◌, ◌<◌, ◌≡◌, ◌⊎◌, refl, arith, Bool, true, false, none, some, [], ◌∷◌, length, pos,
  negsuc, ◌-ℤ◌,
}
use whirlpools.Errors.{ok}
use whirlpools.AnchorTypes.{TickData, TickArrayData}
use whirlpools.TickUtil.Arrays.{
  tick_index_to_inner_index, find_previous_initialized_tick_index,
  find_next_initialized_tick_index_within,
}
use whirlpools.TickUtil.Nearest.{initialized_at, ClearFrom, index_at, find_initialized_tick-nearest}

abbrev tick_of : Bool → TickData
tick_of is_on = record {
  initialized = is_on;
  liquidity_net = pos 0;
  liquidity_gross = pos 0;
  fee_growth_outside_a = pos 0;
  fee_growth_outside_b = pos 0;
  reward_growths_outside = [];
}

-- The ticks -8, 0 and 8 of a spacing of 8, of which the outer two are initialized.
abbrev three_ticks : TickArrayData ℕ
three_ticks = record {
  whirlpool = 1;
  start_tick_index = negsuc 7;
  ticks = tick_of true ∷ tick_of false ∷ tick_of true ∷ [];
}

at_zero : tick_index_to_inner_index (negsuc 7) (pos 3) 8 ≡ pos 1
unfolding tick_index_to_inner_index ◌-ℤ◌
at_zero = refl

find_initialized_tick-nearest_example :
    (((find_previous_initialized_tick_index three_ticks (pos 3) 8 ≡ ok none)
        × ClearFrom three_ticks.ticks 0 2)
      ⊎ ((j : ℕ) × (find_previous_initialized_tick_index three_ticks (pos 3) 8
            ≡ ok (some (index_at three_ticks 8 j)))
          × (j ≤ 1)
          × (initialized_at three_ticks.ticks j ≡ true)
          × ClearFrom three_ticks.ticks (suc j) 2))
    × (((find_next_initialized_tick_index_within three_ticks (pos 3) 8 ≡ ok none)
          × ClearFrom three_ticks.ticks 2 (length three_ticks.ticks))
        ⊎ ((j : ℕ) × (find_next_initialized_tick_index_within three_ticks (pos 3) 8
              ≡ ok (some (index_at three_ticks 8 j)))
            × (1 < j)
            × (initialized_at three_ticks.ticks j ≡ true)
            × ClearFrom three_ticks.ticks 2 j))
find_initialized_tick-nearest_example =
    find_initialized_tick-nearest three_ticks (pos 3) 8 1 at_zero (omega arith)
