-- ===== src/Partition.antt =====
-- utils/math/k-smallest-partition.ts: the selection of Floyd and Rivest. An array is the function of
-- its indexes; the sample of a long range, which the source computes with floating point numbers, is
-- the parameter `sample`. `fuel` bounds the rounds of each loop and the depth of the calls. An index
-- of -1, the end of an empty range, is 0 here, and so is the end before index 0.
pub mod Climbs
pub mod Swaps
pub mod Rounds
pub mod Settles
pub mod Pivots
pub mod Selects
pub mod Whole
use Prim.Native.Nat.{compare, Ordering}
use whirlpools.Prelude.{
  ℕ, zero, suc, ◌+◌, ◌-◌, ◌==◌, ltb, leb, Bool, true, false, if◌then◌else◌, max, min,
}
use whirlpools.Errors.{Result, ok, err, out_of_fuel, ◌>>=◌}

abbrev pub recursion_breakpoint : ℕ
recursion_breakpoint = 600

-- `Math.floor(k - (i * s) / n + sd)` and `Math.floor(k + ((n - i) * s) / n + sd)`.
pub record Sample : Type 0 where
  pub low : ℕ → ℕ → ℕ → ℕ
  pub high : ℕ → ℕ → ℕ → ℕ

module _ {A : Type 0} where
  -- `arr[i]` and `arr[j]` exchanged.
  unfoldable pub swap : (ℕ → A) → ℕ → ℕ → ℕ → A
  swap arr i j k = if k == j then arr i else if k == i then arr j else arr k

  -- `compare(a, b)` against 0.
  module _ (order : A → A → Ordering) where
    abbrev pub is_below : A → A → Bool
    is_below a t = elim (order a t) [ Ordering.lt ↦ true | _ ↦ false ]

    abbrev pub is_above : A → A → Bool
    is_above a t = elim (order a t) [ Ordering.gt ↦ true | _ ↦ false ]

    abbrev pub is_same : A → A → Bool
    is_same a t = elim (order a t) [ Ordering.eq ↦ true | _ ↦ false ]

    -- `while (compare(array[i], t) < 0) { i++; }`
    unfoldable pub climb : ℕ → (ℕ → A) → A → ℕ → Result ℕ
    climb zero array t i = err out_of_fuel
    climb (suc fuel) array t i =
        let rest = climb fuel array t (i + 1) in if is_below (array i) t then rest else ok i

    -- `while (compare(array[j], t) > 0) { j--; }`
    unfoldable pub descend : ℕ → (ℕ → A) → A → ℕ → Result ℕ
    descend zero array t j = err out_of_fuel
    descend (suc fuel) array t j =
        let rest = descend fuel array t (j - 1) in if is_above (array j) t then rest else ok j

    -- `while (i < j) { ... }`, with its array and indexes at the end.
    unfoldable pub exchange : ℕ → ℕ → (ℕ → A) → A → ℕ → ℕ → Result ((ℕ → A) × ℕ × ℕ)
    exchange size zero array t i j = err out_of_fuel
    exchange size (suc fuel) array t i j =
        let rest = (do
          let exchanged = swap array i j
          i' ← climb size exchanged t (i + 1)
          j' ← descend size exchanged t (j - 1)
          exchange size fuel exchanged t i' j') in
        if ltb i j then rest else ok (array, i, j)

    -- The rest of a round: the array, and the index that `t` ends at.
    unfoldable pub settle : A → ℕ → ℕ → (ℕ → A) × ℕ × ℕ → (ℕ → A) × ℕ
    settle t left right (array, i, j) =
        if is_same (array left) t then (swap array left j, j) else (swap array (j + 1) right, j + 1)

    -- A round on `left` to `right`, up to the boundaries.
    unfoldable pub partition_around : (ℕ → A) → ℕ → ℕ → ℕ → Result ((ℕ → A) × ℕ)
    partition_around array k left right = do
      let t = array k
      let placed = swap array left k
      let ordered = if is_above (placed right) t then swap placed left right else placed
      ended ← exchange (suc right) (suc right) ordered t left right
      ok (settle t left right ended)

  module _ (order : A → A → Ordering) (sample : Sample) where
    unfoldable pub k_smallest_partition : ℕ → (ℕ → A) → ℕ → ℕ → ℕ → Result (ℕ → A)
    k_smallest_partition zero array k left right = err out_of_fuel
    k_smallest_partition (suc fuel) array k left right =
        let sampled =
          k_smallest_partition fuel array k (max left (sample.low k left right))
            (min right (sample.high k left right)) in
        let rest = (do
          array' ← if ltb recursion_breakpoint (right - left) then sampled else ok array
          (array'', j) ← partition_around order array' k left right
          k_smallest_partition fuel array'' k (if leb j k then j + 1 else left)
              (if leb k j then j - 1 else right)) in
        if ltb left right then rest else ok array
