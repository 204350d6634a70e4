-- ===== src/Witnesses/Swaps.antt =====
-- The theorems on the search for ticks and on the loop of a swap at concrete inputs.
use whirlpools.Prelude.{ℕ, ◌≤◌, ◌≡◌, refl, ◌^◌, true, false, pos, negsuc, arith}
use whirlpools.Errors.{Result, ok, ◌>>=◌}
use whirlpools.Sdk.{plain_sdk}
use whirlpools.TickArrayIndex.{to_tick_index}
use whirlpools.TickArraySequence.{get_local_array_index}
use whirlpools.TickArraySequence.Passes.{find_next_initialized_tick_index-clear}
use whirlpools.SwapManager.{SwapState, compute_swap, args_of, start_of, result_of}
use whirlpools.SwapManager.Ends.{Runs, compute_swap-ends}
use whirlpools.Witnesses.{two_arrays, tick, at_minus_80, found_is}
use whirlpools.Witnesses.Quotes.{pool}

find_next_initialized_tick_index-clear_example : (tick false).initialized ≡ false
unfolding get_local_array_index to_tick_index
find_next_initialized_tick_index-clear_example =
    find_next_initialized_tick_index-clear (two_arrays true false) (two_arrays true true) (pos 3)
      at_minus_80 (negsuc 0) 80 (tick false) (omega arith) (omega arith) (omega arith) (omega arith)
      found_is (omega arith, omega arith) refl

compute_swap-ends_example :
    (r : Result (SwapState ℕ)) × (k : ℕ) × Runs plain_sdk
      (args_of plain_sdk pool (pos (2 ^ 63)) true true)
      k
      (start_of plain_sdk pool (two_arrays true false) (pos 1_000_000) true)
      r
    × (k ≤ 178)
    × (compute_swap plain_sdk 200 pool
          (two_arrays true false)
          (pos 1_000_000)
          (pos (2 ^ 63))
          true
          true
        ≡ (r >>= λ last. ok (result_of plain_sdk (pos 1_000_000) true true last)))
compute_swap-ends_example =
    compute_swap-ends plain_sdk 200 pool (two_arrays true false) (pos 1_000_000) (pos (2 ^ 63))
      (omega arith) (omega arith) (omega arith) (omega arith)
