-- ===== src/TickArraySequence/Reads.antt =====
-- What a read of a tick (tick-array-sequence.ts) returns, and what it leaves of the sequence.
use mathlib.Core.Path.{subst}
use whirlpools.Prelude.{
  ℕ, ◌<◌, ◌≡◌, refl, ap, ◌∙◌, Bool, true, false, not, Option, none, some, ℤ, pos,
}
use whirlpools.Errors.{swap, SwapErrorCode, plain, Result, ok, ◌>>=◌, ◌>>◌, throw_if, ok_injective}
use whirlpools.AnchorTypes.{TickData}
use whirlpools.TickArrayIndex.{to_tick_index}
use whirlpools.TickArrayIndex.Split.{at}
use whirlpools.TickArrayIndex.Steps.{from-to_tick_index, from_tick_index-Holds}
use whirlpools.TickArraySequence.{
  InitializedTickArray, TickArraySequence, elem_at, require, touch, get_local_array_index,
  is_array_index_in_bounds, check_if_index_is_in_tick_array_range, get_tick,
}

module _ {Key : Type 0} where
  -- The tick that the sequence holds at an array index and an offset.
  abbrev pub tick_of : Option (InitializedTickArray Key) → ℕ → Option TickData
  tick_of none o = none
  tick_of (some a) o = elem_at a.tick_array_data.ticks (pos o)

  abbrev pub tick_at : TickArraySequence Key → ℤ → ℕ → Option TickData
  tick_at s a o = tick_of (elem_at s.sequence (get_local_array_index s a)) o

  -- Two states of one sequence, which differ in the arrays that are touched.
  pub record SameArrays (s s' : TickArraySequence Key) : Type 0 where
    pub sequence_is : s'.sequence ≡ s.sequence
    pub start_is : s'.start_array_index ≡ s.start_array_index
    pub spacing_is : s'.tick_spacing ≡ s.tick_spacing
    pub direction_is : s'.a_to_b ≡ s.a_to_b

  pub SameArrays-trans :
      {s s' s'' : TickArraySequence Key} → SameArrays s s' → SameArrays s' s'' → SameArrays s s''
  SameArrays-trans x y = record {
    sequence_is = y.sequence_is ∙ x.sequence_is;
    start_is = y.start_is ∙ x.start_is;
    spacing_is = y.spacing_is ∙ x.spacing_is;
    direction_is = y.direction_is ∙ x.direction_is;
  }

  pub SameArrays-refl : (s : TickArraySequence Key) → SameArrays s s
  SameArrays-refl s = record {
    sequence_is = refl;
    start_is = refl;
    spacing_is = refl;
    direction_is = refl;
  }

  pub touch-SameArrays : (s : TickArraySequence Key) (i : ℤ) → SameArrays s (touch s i)
  touch-SameArrays s i = record {
    sequence_is = refl;
    start_is = refl;
    spacing_is = refl;
    direction_is = refl;
  }

  abbrev read_back :
      TickArraySequence Key → ℤ → Option TickData → Result (Option TickData × TickArraySequence Key)
  read_back s i x = ok (x, touch s i)

  -- A read that returns has returned the tick of the sequence.
  value_in_range :
      (s s' : TickArraySequence Key) (i : ℤ) (c : Bool) (x t : Option TickData)
      → (throw_if (not c) (swap SwapErrorCode.tick_array_sequence_invalid) >> read_back s i x)
        ≡ ok (t, s')
      → (x ≡ t) × SameArrays s s'
  value_in_range s s' i true x t e =
      let same = ok_injective e in
      (
        ap (λ (r : Option TickData × TickArraySequence Key). r.0) same,
        subst (SameArrays s) (ap (λ (r : Option TickData × TickArraySequence Key). r.1) same)
            (touch-SameArrays s i),
      )
  value_in_range s s' i false x t e = cc

  value_by_parts :
      (s s' : TickArraySequence Key) (i : ℤ) (b : Bool) (arr : Option (InitializedTickArray Key))
      (c : InitializedTickArray Key → Bool) (o : ℕ) (t : Option TickData)
      → (throw_if (not b) plain
          >> (require arr >>= λ a.
              throw_if (not (c a)) (swap SwapErrorCode.tick_array_sequence_invalid)
              >> read_back s i (elem_at a.tick_array_data.ticks (pos o))))
        ≡ ok (t, s')
      → (tick_of arr o ≡ t) × SameArrays s s'
  value_by_parts s s' i false arr c o t e = cc
  value_by_parts s s' i true none c o t e = cc
  value_by_parts s s' i true (some a) c o t e =
      value_in_range s s' i (c a) (elem_at a.tick_array_data.ticks (pos o)) t e

  pub get_tick-tick_at :
      (s s' : TickArraySequence Key) (a : ℤ) (o : ℕ) (t : Option TickData)
      → 0 < s.tick_spacing
      → o < 88
      → get_tick s (to_tick_index (at a o s.tick_spacing)) ≡ ok (t, s')
      → (tick_at s a o ≡ t) × SameArrays s s'
  unfolding get_tick
  get_tick-tick_at s s' a o t hs ho e =
      value_by_parts s s' (get_local_array_index s a)
        (is_array_index_in_bounds s (at a o s.tick_spacing))
        (elem_at s.sequence (get_local_array_index s a))
        (λ ta.
          check_if_index_is_in_tick_array_range s ta.tick_array_data.start_tick_index
            (to_tick_index (at a o s.tick_spacing)))
        o t (rw (from-to_tick_index s.tick_spacing hs a o ho) at e)

  -- A read leaves the arrays as they are.
  pub get_tick-SameArrays :
      (s s' : TickArraySequence Key) (i : ℤ) (t : Option TickData)
      → 0 < s.tick_spacing
      → get_tick s i ≡ ok (t, s')
      → SameArrays s s'
  unfolding get_tick
  get_tick-SameArrays s s' i t hs e =
      let (x, x_is, h) = from_tick_index-Holds i s.tick_spacing hs in
      (value_by_parts s s' (get_local_array_index s h.array)
        (is_array_index_in_bounds s (at h.array h.offset s.tick_spacing))
        (elem_at s.sequence (get_local_array_index s h.array))
        (λ ta. check_if_index_is_in_tick_array_range s ta.tick_array_data.start_tick_index i)
        h.offset t (rw (x_is, h.is_at) at e)).1
