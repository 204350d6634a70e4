-- ===== src/TickArraySequence/Passes.antt =====
-- What the search for the next initialized tick passes over (tick-array-sequence.ts): from the tick
-- index that it is given up to the one that it returns, no tick of the sequence is initialized.
use whirlpools.Prelude.{
  ℕ, ◌<◌, ◌≡◌, refl, ap, ◌∙◌, inl, inr, arith, Bool, true, false, Bool-cases, some, length, ℤ, pos,
  ◌+ℤ◌, ◌-ℤ◌, ◌≤ℤ◌, int_laws, pos_part, neg_part, min_ℤ, max_ℤ,
}
use whirlpools.Errors.{ok}
use whirlpools.Constants.{min_tick_index, max_tick_index}
use whirlpools.AnchorTypes.{TickData}
use whirlpools.TickArrayIndex.{TickArrayIndex, to_tick_index}
use whirlpools.TickArrayIndex.Split.{at}
use whirlpools.TickArrayIndex.Steps.{from_tick_index-Holds}
use whirlpools.TickArrayIndex.Unique.{tick_gap}
use whirlpools.TickArraySequence.{
  TickArraySequence, NextTick, get_local_array_index, is_array_index_in_bounds, search_fuel,
  find_next_initialized_tick_index, last_index_in_array,
}
use whirlpools.TickArraySequence.Reads.{tick_at}
use whirlpools.TickArraySequence.Search.{
  in_bounds-local, in_bounds-lt, search_index, search_index-down, search_index-up,
}
use whirlpools.TickArraySequence.Lands.{Passed, Stop, at_tick, past_end, Lands, search-Lands}

-- A swap that moves from the tick index `i` to the tick index `j` passes over `t`: down over
-- everything above `j` and not above `i`, up over everything above `i` and below `j`.
abbrev pub PassesOver : Bool → ℤ → ℤ → ℤ → Type 0
PassesOver true i j t = (t ≤ℤ i) × (j +ℤ pos 1 ≤ℤ t)
PassesOver false i j t = (i +ℤ pos 1 ≤ℤ t) × (t +ℤ pos 1 ≤ℤ j)

clamp-below :
    (x t : ℤ)
    → t ≤ℤ max_tick_index
    → max_ℤ (min_ℤ x max_tick_index) min_tick_index +ℤ pos 1 ≤ℤ t
    → x +ℤ pos 1 ≤ℤ t
unfolding ◌+ℤ◌
clamp-below x t high h = ground arith

clamp-above :
    (x t : ℤ)
    → min_tick_index ≤ℤ t
    → t +ℤ pos 1 ≤ℤ max_ℤ (min_ℤ x max_tick_index) min_tick_index
    → t +ℤ pos 1 ≤ℤ x
unfolding ◌+ℤ◌
clamp-above x t low h = ground arith

module _ {Key : Type 0} where
  -- Where the search started, and where it stopped.
  pub record Found (s : TickArraySequence Key) (i : ℤ) (n : NextTick) (s' : TickArraySequence Key)
      : Type 0 where
    pub array : ℤ
    pub offset : ℕ
    pub local : ℕ
    pub offset_lt : offset < 88
    pub local_is : get_local_array_index s array ≡ pos local
    pub local_lt : local < length s.sequence
    pub from_below : to_tick_index (at array offset s.tick_spacing) ≤ℤ search_index s i
    pub from_above :
        search_index s i +ℤ pos 1
        ≤ℤ to_tick_index (at array offset s.tick_spacing) +ℤ pos s.tick_spacing
    pub lands : Lands s array offset local n s'

  pub find_next_initialized_tick_index-Found :
      (s s' : TickArraySequence Key) (i : ℤ) (n : NextTick)
      → 0 < s.tick_spacing
      → find_next_initialized_tick_index s i ≡ ok (n, s')
      → Found s i n s'
  unfolding find_next_initialized_tick_index
  find_next_initialized_tick_index-Found s s' i n hs e =
      let (t, t_is, h) = from_tick_index-Holds (search_index s i) s.tick_spacing hs in
      elim (Bool-cases (is_array_index_in_bounds s t)) [
        | inr outside ↦ let bad = rw (t_is, outside) at e in cc
        | inl inside ↦
            let (k, local_is) = in_bounds-local s t inside in
            let local_is' = rw h.is_at at local_is in
            record {
              array = h.array;
              offset = h.offset;
              local = k;
              offset_lt = h.offset_lt;
              local_is = local_is';
              local_lt = in_bounds-lt s h.array h.offset k local_is' (rw h.is_at at inside);
              from_below = rw h.is_at at h.from_below;
              from_above = rw h.is_at at h.from_above;
              lands =
                  search-Lands (search_fuel s) s s' h.array h.offset k n hs h.offset_lt local_is'
                    (rw (t_is, inside, h.is_at) at e);
            }
      ]

  pub last_index_in_array-down :
      (s : TickArraySequence Key) (c : TickArrayIndex)
      → s.a_to_b ≡ true
      → last_index_in_array s c
        ≡ max_ℤ (min_ℤ (to_tick_index c +ℤ pos s.tick_spacing) max_tick_index) min_tick_index
  unfolding last_index_in_array ◌+ℤ◌
  last_index_in_array-down s c d = rw d refl

  pub last_index_in_array-up :
      (s : TickArraySequence Key) (c : TickArrayIndex)
      → s.a_to_b ≡ false
      → last_index_in_array s c
        ≡ max_ℤ (min_ℤ (to_tick_index c -ℤ pos 1) max_tick_index) min_tick_index
  unfolding last_index_in_array ◌-ℤ◌
  last_index_in_array-up s c d = rw d refl

  -- What lies beyond the returned index lies beyond the stop.
  stop-down :
      (s : TickArraySequence Key) (t a : ℤ) (o k : ℕ) (n : NextTick)
      → s.a_to_b ≡ true
      → t ≤ℤ max_tick_index
      → Stop s a o k n
      → n.next_index +ℤ pos 1 ≤ℤ t
      → to_tick_index (at a o s.tick_spacing) +ℤ pos 1 ≤ℤ t
  stop-down s t a o k n d high (at_tick u lt index data_is tick_is init) over =
      omega (int_laws, ap pos_part index, ap neg_part index)
  stop-down s t a o k n d high (past_end le index data_is) over =
      let same = index ∙ last_index_in_array-down s (at a o s.tick_spacing) d in
      let far =
        clamp-below (to_tick_index (at a o s.tick_spacing) +ℤ pos s.tick_spacing) t high
          (omega (int_laws, ap pos_part same, ap neg_part same)) in
      omega int_laws

  stop-up :
      (s : TickArraySequence Key) (t a : ℤ) (o k : ℕ) (n : NextTick)
      → s.a_to_b ≡ false
      → min_tick_index ≤ℤ t
      → Stop s a o k n
      → t +ℤ pos 1 ≤ℤ n.next_index
      → t +ℤ pos 1 ≤ℤ to_tick_index (at a o s.tick_spacing)
  stop-up s t a o k n d low (at_tick u lt index data_is tick_is init) over =
      omega (int_laws, ap pos_part index, ap neg_part index)
  stop-up s t a o k n d low (past_end le index data_is) over =
      let same = index ∙ last_index_in_array-up s (at a o s.tick_spacing) d in
      let far =
        clamp-above (to_tick_index (at a o s.tick_spacing) -ℤ pos 1) t low
          (omega (int_laws, ap pos_part same, ap neg_part same)) in
      omega int_laws

  -- What the search passes over lies between the place where it started and the one where it
  -- stopped.
  Found-Passed :
      (s s' : TickArraySequence Key) (i : ℤ) (n : NextTick) (b : ℤ) (p : ℕ) (f : Found s i n s')
      → 0 < s.tick_spacing
      → min_tick_index ≤ℤ i
      → i ≤ℤ max_tick_index
      → PassesOver s.a_to_b i n.next_index (to_tick_index (at b p s.tick_spacing))
      → Passed s.a_to_b
          (to_tick_index (at f.array f.offset s.tick_spacing))
          (to_tick_index (at f.lands.array f.lands.offset s.tick_spacing))
          (to_tick_index (at b p s.tick_spacing))
  Found-Passed s s' i n b p f hs low high over =
      let there : ℤ = to_tick_index (at b p s.tick_spacing) in
      elim (Bool-cases s.a_to_b) [
        | inl d ↦
            let (near, far) = rw d at over in
            let is_i = search_index-down s i d in
            rw d (
              tick_gap s.tick_spacing hs f.array b f.offset p
                  (omega (int_laws, f.from_above, ap pos_part is_i, ap neg_part is_i)),
              stop-down s there f.lands.array f.lands.offset f.lands.local n d (omega arith)
                  f.lands.stop far,
            )
        | inr d ↦
            let (near, far) = rw d at over in
            let is_i = search_index-up s i d in
            rw d (
              tick_gap s.tick_spacing hs b f.array p f.offset
                  (omega (int_laws, f.from_below, ap pos_part is_i, ap neg_part is_i)),
              stop-up s there f.lands.array f.lands.offset f.lands.local n d (omega int_laws)
                  f.lands.stop far,
            )
      ]

  -- For a positive spacing and a tick index within the bounds, the search passes over no
  -- initialized tick: every tick of the sequence between the given index and the returned one is
  -- not initialized.
  pub find_next_initialized_tick_index-clear :
      (s s' : TickArraySequence Key) (i : ℤ) (n : NextTick) (b : ℤ) (p : ℕ) (t : TickData)
      → 0 < s.tick_spacing
      → min_tick_index ≤ℤ i
      → i ≤ℤ max_tick_index
      → p < 88
      → find_next_initialized_tick_index s i ≡ ok (n, s')
      → PassesOver s.a_to_b i n.next_index (to_tick_index (at b p s.tick_spacing))
      → tick_at s b p ≡ some t
      → t.initialized ≡ false
  find_next_initialized_tick_index-clear s s' i n b p t hs low high hp e over t_is =
      let f : Found s i n s' = find_next_initialized_tick_index-Found s s' i n hs e in
      f.lands.clear b p t hp (Found-Passed s s' i n b p f hs low high over) t_is
