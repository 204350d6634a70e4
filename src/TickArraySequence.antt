-- ===== src/TickArraySequence.antt =====
-- quotes/swap/tick-array-sequence.ts: the tick arrays a swap walks through. The object is a record,
-- and a method that writes to it returns the new one; an exception ends the swap, so what was
-- written before it is not kept.
pub mod Moves
pub mod Reads
pub mod Lands
pub mod Passes
pub mod Onward
pub mod Search
use whirlpools.Prelude.{
  ℕ, zero, suc, ◌-◌, ◌*◌, Bool, true, false, not, ◌&&◌, if◌then◌else◌, Option, none, some, List, [],
  ◌∷◌, ◌++◌, length, get_elem?, set, replicate, ℤ, pos, negsuc, ◌+ℤ◌, ◌-ℤ◌, ltb_ℤ, leb_ℤ, min_ℤ,
  max_ℤ,
}
use whirlpools.Errors.{
  swap, SwapErrorCode, plain, type_error, out_of_fuel, Result, ok, err, ◌>>=◌, ◌>>◌, throw_if,
}
use whirlpools.Constants.{tick_array_size, max_tick_index, min_tick_index}
use whirlpools.AnchorTypes.{TickData, TickArrayData, TickArray}
use whirlpools.TickArrayIndex.{
  TickArrayIndex, from_tick_index, to_tick_index, to_next_initializable_tick_index,
  to_prev_initializable_tick_index,
}

-- A read of an array at a JavaScript number.
abbrev pub elem_at {ℓ} : {A : Type ℓ} → List A → ℤ → Option A
elem_at xs (pos i) = get_elem? xs i
elem_at xs (negsuc i) = none

abbrev pub set_at {ℓ} : {A : Type ℓ} → List A → ℤ → A → List A
set_at xs (pos i) v = set xs i v
set_at xs (negsuc i) v = xs

-- A read of a field of an object that may be undefined.
abbrev pub require {ℓ} : {A : Type ℓ} → Option A → Result A
require (some a) = ok a
require none = err type_error

pub record InitializedTickArray (Key : Type 0) : Type 0 where
  pub address : Key
  pub tick_array_data : TickArrayData Key

pub record TickArraySequence (Key : Type 0) : Type 0 where
  pub sequence : List (InitializedTickArray Key)
  pub touched_arrays : List Bool
  pub start_array_index : ℤ
  pub tick_spacing : ℕ
  pub a_to_b : Bool

abbrev pub count_true : List Bool → ℕ
count_true [] = 0
count_true (b ∷ bs) = if b then suc (count_true bs) else count_true bs

pub record NextTick : Type 0 where
  pub next_index : ℤ
  pub next_tick_data : Option TickData

module _ {Key : Type 0} where
  -- The tick arrays before the first one without data.
  abbrev pub initialized_prefix : List (TickArray Key) → List (InitializedTickArray Key)
  initialized_prefix [] = []
  initialized_prefix (t ∷ ts) = elim t.tick_array_data [
    | none ↦ []
    | some d ↦ record { address = t.address; tick_array_data = d } ∷ initialized_prefix ts
  ]

  -- The constructor of the class.
  unfoldable pub new_tick_array_sequence :
      List (TickArray Key) → ℕ → Bool → Result (TickArraySequence Key)
  new_tick_array_sequence tick_arrays tick_spacing a_to_b = elim (initialized_prefix tick_arrays) [
    | [] ↦ err plain
    | first ∷ rest ↦
        from_tick_index first.tick_array_data.start_tick_index tick_spacing >>= λ start.
        ok (record {
          sequence = first ∷ rest;
          touched_arrays = replicate (length (first ∷ rest)) false;
          start_array_index = start.array_index;
          tick_spacing = tick_spacing;
          a_to_b = a_to_b;
        })
  ]

  unfoldable pub get_local_array_index : TickArraySequence Key → ℤ → ℤ
  unfolding ◌-ℤ◌
  get_local_array_index s array_index =
      if s.a_to_b then s.start_array_index -ℤ array_index else array_index -ℤ s.start_array_index

  unfoldable pub is_array_index_in_bounds : TickArraySequence Key → TickArrayIndex → Bool
  is_array_index_in_bounds s index =
      let local_array_index = get_local_array_index s index.array_index in
      leb_ℤ (pos 0) local_array_index && ltb_ℤ local_array_index (pos (length s.sequence))

  unfoldable pub check_if_index_is_in_tick_array_range : TickArraySequence Key → ℤ → ℤ → Bool
  unfolding ◌+ℤ◌
  check_if_index_is_in_tick_array_range s start_tick tick_index =
      let upper_bound = start_tick +ℤ pos (s.tick_spacing * tick_array_size) in
      leb_ℤ start_tick tick_index && ltb_ℤ tick_index upper_bound

  unfoldable pub is_valid_tick_array0 : TickArraySequence Key → ℤ → Result Bool
  unfolding ◌+ℤ◌
  is_valid_tick_array0 s tick_current_index = do
    let shift = if s.a_to_b then pos 0 else pos s.tick_spacing
    first ← require (get_elem? s.sequence 0)
    ok (
        check_if_index_is_in_tick_array_range s first.tick_array_data.start_tick_index
          (tick_current_index +ℤ shift))

  abbrev pub get_num_of_touched_arrays : TickArraySequence Key → ℕ
  get_num_of_touched_arrays s = count_true s.touched_arrays

  -- The addresses at the indexes that are marked.
  abbrev pub touched_addresses : List (InitializedTickArray Key) → List Bool → List Key
  touched_addresses [] bs = []
  touched_addresses (a ∷ rest) [] = []
  touched_addresses (a ∷ rest) (b ∷ bs) =
      if b then a.address ∷ touched_addresses rest bs else touched_addresses rest bs

  abbrev pub last_of : Key → List Key → Key
  last_of k [] = k
  last_of k (x ∷ xs) = last_of x xs

  abbrev pub pad : ℕ → List Key → List Key
  pad min_array_size [] = []
  pad min_array_size (k ∷ ks) =
      (k ∷ ks) ++ replicate (min_array_size - length (k ∷ ks)) (last_of k ks)

  unfoldable pub get_touched_arrays : TickArraySequence Key → ℕ → List Key
  get_touched_arrays s min_array_size =
      pad min_array_size (touched_addresses s.sequence s.touched_arrays)

  -- `this.touchedArrays[i] = true`
  abbrev pub touch : TickArraySequence Key → ℤ → TickArraySequence Key
  touch s i = record {
    sequence = s.sequence;
    touched_arrays = set_at s.touched_arrays i true;
    start_array_index = s.start_array_index;
    tick_spacing = s.tick_spacing;
    a_to_b = s.a_to_b;
  }

  unfoldable pub get_tick :
      TickArraySequence Key → ℤ → Result (Option TickData × TickArraySequence Key)
  get_tick s index = do
    target ← from_tick_index index s.tick_spacing
    throw_if (not (is_array_index_in_bounds s target)) plain
    let local_array_index = get_local_array_index s target.array_index
    tick_array ← require (elem_at s.sequence local_array_index)
    throw_if
        (not (
          check_if_index_is_in_tick_array_range s tick_array.tick_array_data.start_tick_index
            index))
        (swap SwapErrorCode.tick_array_sequence_invalid)
    ok (elem_at tick_array.tick_array_data.ticks target.offset_index, touch s local_array_index)

  -- The index that is returned where the sequence ends.
  unfoldable pub last_index_in_array : TickArraySequence Key → TickArrayIndex → ℤ
  unfolding ◌+ℤ◌ ◌-ℤ◌
  last_index_in_array s curr =
      max_ℤ
        (min_ℤ
          (if s.a_to_b
            then to_tick_index curr +ℤ pos s.tick_spacing
            else to_tick_index curr -ℤ pos 1)
          max_tick_index)
        min_tick_index

  unfoldable pub step_index : TickArraySequence Key → TickArrayIndex → Result TickArrayIndex
  step_index s curr =
      if s.a_to_b
      then to_prev_initializable_tick_index curr
      else to_next_initializable_tick_index curr

  -- The `while` loop.
  unfoldable pub search :
      ℕ → TickArraySequence Key → TickArrayIndex → Result (NextTick × TickArraySequence Key)
  search zero s curr = err out_of_fuel
  search (suc fuel) s curr = elim (is_array_index_in_bounds s curr) [
    | false ↦ ok (record { next_index = last_index_in_array s curr; next_tick_data = none }, s)
    | true ↦ get_tick s (to_tick_index curr) >>= λ got. require got.0 >>= λ tick.
        elim tick.initialized [
          | true ↦
              ok (record { next_index = to_tick_index curr; next_tick_data = some tick }, got.1)
          | false ↦ step_index s curr >>= λ next. search fuel got.1 next
        ]
  ]

  -- One round for each tick of the sequence, and one more to leave it.
  abbrev pub search_fuel : TickArraySequence Key → ℕ
  search_fuel s = suc (88 * length s.sequence)

  unfoldable pub find_next_initialized_tick_index :
      TickArraySequence Key → ℤ → Result (NextTick × TickArraySequence Key)
  unfolding ◌+ℤ◌
  find_next_initialized_tick_index s curr_index = do
    let search_index = if s.a_to_b then curr_index else curr_index +ℤ pos s.tick_spacing
    curr ← from_tick_index search_index s.tick_spacing
    throw_if (not (is_array_index_in_bounds s curr))
        (swap SwapErrorCode.tick_array_sequence_invalid)
    search (search_fuel s) s curr
