-- ===== src/TickArraySequence/Moves.antt =====
-- The moves of the search for the next initialized tick (tick-array-sequence.ts): a read of a tick,
-- and the step to the next place.
use native.Mathlib.Decide.{dec_lt}
use whirlpools.Prelude.{
  ℕ, zero, suc, ◌+◌, ◌-◌, ◌*◌, ◌<◌, ◌≡◌, ◌≢◌, refl, ap, ◌⊎◌, inl, inr, arith, Bool, true, false,
  not, Bool-cases, Option, none, some, length, ℤ, pos, ◌+ℤ◌, ◌-ℤ◌, ◌≤ℤ◌, int_laws, pos_part,
  neg_part,
}
use whirlpools.Errors.{
  Error, out_of_fuel, swap, SwapErrorCode, plain, type_error, Result, ok, err, ◌>>=◌, ◌>>◌,
  throw_if,
}
use whirlpools.AnchorTypes.{TickData}
use whirlpools.TickArrayIndex.{to_tick_index}
use whirlpools.TickArrayIndex.Split.{at}
use whirlpools.TickArrayIndex.Steps.{
  from-to_tick_index, tick_within, tick_over, tick_before, tick_under,
  to_next_initializable_tick_index-within, to_next_initializable_tick_index-over,
  to_prev_initializable_tick_index-within, to_prev_initializable_tick_index-over,
}
use whirlpools.TickArraySequence.{
  InitializedTickArray, TickArraySequence, elem_at, require, touch, get_local_array_index,
  is_array_index_in_bounds, check_if_index_is_in_tick_array_range, get_tick, step_index,
}

-- The rounds that are left at the offset `o` of the array with the local index `k`.
abbrev pub rounds : Bool → ℕ → ℕ → ℕ → ℕ
rounds true len k o = (len - k) * 88 + o - 87
rounds false len k o = (len - k) * 88 - o

pub rounds_fit : (b : Bool) (len k o : ℕ) → o < 88 → rounds b len k o < suc (88 * len)
rounds_fit true len k o ho = omega arith
rounds_fit false len k o ho = omega arith

module _ {Key : Type 0} where
  -- A read of a tick fails with an error of the program, or marks the array at `i`.
  abbrev pub Read :
      Result (Option TickData × TickArraySequence Key) → TickArraySequence Key → ℤ → Type 0
  Read r s i =
      ((e : Error) × (r ≡ err e) × (e ≢ out_of_fuel))
      ⊎ ((t : Option TickData) × (r ≡ ok (t, touch s i)))

  get_in_range :
      (s : TickArraySequence Key) (i : ℤ) (c : Bool) (t : Option TickData)
      → Read
          (throw_if (not c) (swap SwapErrorCode.tick_array_sequence_invalid) >> ok (t, touch s i))
          s
          i
  get_in_range s i true t = inr (t, refl)
  get_in_range s i false t = inl (swap SwapErrorCode.tick_array_sequence_invalid, refl, λ e. cc)

  get_by_parts :
      (s : TickArraySequence Key) (i : ℤ) (b : Bool) (arr : Option (InitializedTickArray Key))
      (c : InitializedTickArray Key → Bool) (t : InitializedTickArray Key → Option TickData)
      → Read
          (throw_if (not b) plain
            >> (require arr >>= λ a.
                throw_if (not (c a)) (swap SwapErrorCode.tick_array_sequence_invalid)
                >> ok (t a, touch s i)))
          s
          i
  get_by_parts s i false arr c t = inl (plain, refl, λ e. cc)
  get_by_parts s i true none c t = inl (type_error, refl, λ e. cc)
  get_by_parts s i true (some a) c t = get_in_range s i (c a) (t a)

  pub get_tick-Read :
      (s : TickArraySequence Key) (a : ℤ) (o : ℕ)
      → 0 < s.tick_spacing
      → o < 88
      → Read (get_tick s (to_tick_index (at a o s.tick_spacing))) s (get_local_array_index s a)
  unfolding get_tick
  get_tick-Read s a o hs ho = rw (from-to_tick_index s.tick_spacing hs a o ho) (
      get_by_parts s (get_local_array_index s a)
        (is_array_index_in_bounds s (at a o s.tick_spacing))
        (elem_at s.sequence (get_local_array_index s a))
        (λ ta.
          check_if_index_is_in_tick_array_range s ta.tick_array_data.start_tick_index
            (to_tick_index (at a o s.tick_spacing)))
        (λ ta. elem_at ta.tick_array_data.ticks (pos o)))

  local_prev :
      (s : TickArraySequence Key) (a : ℤ) (k : ℕ)
      → s.a_to_b ≡ true
      → get_local_array_index s a ≡ pos k
      → get_local_array_index s (a -ℤ pos 1) ≡ pos (suc k)
  unfolding get_local_array_index
  local_prev s a k d e = rw d (
      let e' : s.start_array_index -ℤ a ≡ pos k = rw d at e in
      omega (int_laws, ap pos_part e', ap neg_part e'))

  local_next :
      (s : TickArraySequence Key) (a : ℤ) (k : ℕ)
      → s.a_to_b ≡ false
      → get_local_array_index s a ≡ pos k
      → get_local_array_index s (a +ℤ pos 1) ≡ pos (suc k)
  unfolding get_local_array_index
  local_next s a k d e = rw d (
      let e' : a -ℤ s.start_array_index ≡ pos k = rw d at e in
      omega (int_laws, ap pos_part e', ap neg_part e'))

  -- The next place of the search: its local index, with fewer rounds left, further on in the
  -- direction of the swap.
  pub record Moved (s : TickArraySequence Key) (a : ℤ) (o k : ℕ) : Type 0 where
    pub array : ℤ
    pub offset : ℕ
    pub local : ℕ
    pub step_is : step_index s (at a o s.tick_spacing) ≡ ok (at array offset s.tick_spacing)
    pub offset_lt : offset < 88
    pub local_is : get_local_array_index s array ≡ pos local
    pub fewer :
        k < length s.sequence
        → rounds s.a_to_b (length s.sequence) local offset < rounds s.a_to_b (length s.sequence) k o
    pub down :
        s.a_to_b ≡ true
        → to_tick_index (at array offset s.tick_spacing) ≤ℤ to_tick_index (at a o s.tick_spacing)
    pub up :
        s.a_to_b ≡ false
        → to_tick_index (at a o s.tick_spacing) ≤ℤ to_tick_index (at array offset s.tick_spacing)
    pub spaced_down :
        s.a_to_b ≡ true
        → to_tick_index (at array offset s.tick_spacing) +ℤ pos s.tick_spacing
          ≡ to_tick_index (at a o s.tick_spacing)
    pub spaced_up :
        s.a_to_b ≡ false
        → to_tick_index (at a o s.tick_spacing) +ℤ pos s.tick_spacing
          ≡ to_tick_index (at array offset s.tick_spacing)

  move_down :
      (s : TickArraySequence Key) (a : ℤ) (o k : ℕ)
      → s.a_to_b ≡ true
      → 0 < s.tick_spacing
      → o < 88
      → get_local_array_index s a ≡ pos k
      → Moved s a o k
  unfolding step_index
  move_down s a zero k d hs ho local_is = record {
    array = a -ℤ pos 1;
    offset = 87;
    local = suc k;
    step_is = rw d (to_prev_initializable_tick_index-over s.tick_spacing hs a);
    offset_lt = omega arith;
    local_is = local_prev s a k d local_is;
    fewer = λ lt. rw d (omega arith);
    down = λ e.
        let t = tick_under s.tick_spacing hs a in omega (int_laws, ap pos_part t, ap neg_part t);
    up = λ e. cc;
    spaced_down = λ e.
        let t = tick_under s.tick_spacing hs a in omega (int_laws, ap pos_part t, ap neg_part t);
    spaced_up = λ e. cc;
  }
  move_down s a (suc o) k d hs ho local_is = record {
    array = a;
    offset = o;
    local = k;
    step_is = rw d (to_prev_initializable_tick_index-within s.tick_spacing hs a o (omega arith));
    offset_lt = omega arith;
    local_is = local_is;
    fewer = λ lt. rw d (omega arith);
    down = λ e.
        let t = tick_before s.tick_spacing hs a o in omega (int_laws, ap pos_part t, ap neg_part t);
    up = λ e. cc;
    spaced_down = λ e.
        let t = tick_before s.tick_spacing hs a o in omega (int_laws, ap pos_part t, ap neg_part t);
    spaced_up = λ e. cc;
  }

  move_up :
      (s : TickArraySequence Key) (a : ℤ) (o k : ℕ)
      → s.a_to_b ≡ false
      → 0 < s.tick_spacing
      → o < 88
      → get_local_array_index s a ≡ pos k
      → Moved s a o k
  unfolding step_index
  move_up s a o k d hs ho local_is = elim (dec_lt o 87) [
    | yes lt ↦ record {
      array = a;
      offset = suc o;
      local = k;
      step_is = rw d (to_next_initializable_tick_index-within s.tick_spacing hs a o lt);
      offset_lt = omega arith;
      local_is = local_is;
      fewer = λ lt. rw d (omega arith);
      down = λ e. cc;
      up = λ e.
          let t = tick_within s.tick_spacing hs a o in
          omega (int_laws, ap pos_part t, ap neg_part t);
      spaced_down = λ e. cc;
      spaced_up = λ e. tick_within s.tick_spacing hs a o;
    }
    | no last ↦
        let o_is : o ≡ 87 = omega arith in
        rw o_is (record {
          array = a +ℤ pos 1;
          offset = 0;
          local = suc k;
          step_is = rw d (to_next_initializable_tick_index-over s.tick_spacing hs a);
          offset_lt = omega arith;
          local_is = local_next s a k d local_is;
          fewer = λ lt. rw d (omega arith);
          down = λ e. cc;
          up = λ e.
              let t = tick_over s.tick_spacing hs a in
              omega (int_laws, ap pos_part t, ap neg_part t);
          spaced_down = λ e. cc;
          spaced_up = λ e. tick_over s.tick_spacing hs a;
        })
  ]

  pub move :
      (s : TickArraySequence Key) (a : ℤ) (o k : ℕ)
      → 0 < s.tick_spacing
      → o < 88
      → get_local_array_index s a ≡ pos k
      → Moved s a o k
  move s a o k hs ho local_is = elim (Bool-cases s.a_to_b) [
    | inl d ↦ move_down s a o k d hs ho local_is
    | inr d ↦ move_up s a o k d hs ho local_is
  ]
