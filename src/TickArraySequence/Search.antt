-- ===== src/TickArraySequence/Search.antt =====
-- The search for the next initialized tick (tick-array-sequence.ts): it ends within its rounds, and
-- what it finds lies on the side of the current tick that the swap moves to.
use whirlpools.Prelude.{
  ℕ, zero, suc, ◌<◌, ◌≡◌, ◌≢◌, refl, ap, ◌∙◌, inl, inr, arith, Bool, true, false, ◌&&◌, Bool-cases,
  none, some, length, ℤ, pos, negsuc, ◌+ℤ◌, ◌≤ℤ◌, leb_ℤ, int_laws, pos_part, neg_part,
  if◌then◌else◌,
}
use whirlpools.Errors.{
  Error, out_of_fuel, swap, SwapErrorCode, type_error, Result, ok, err, ok_injective,
}
use whirlpools.AnchorTypes.{TickData}
use whirlpools.TickArrayIndex.{TickArrayIndex, to_tick_index}
use whirlpools.TickArrayIndex.Split.{at}
use whirlpools.TickArrayIndex.Steps.{from_tick_index-Holds}
use whirlpools.TickArraySequence.{
  TickArraySequence, NextTick, touch, get_local_array_index, is_array_index_in_bounds, search,
  search_fuel, find_next_initialized_tick_index,
}
use whirlpools.TickArraySequence.Moves.{rounds, rounds_fit, get_tick-Read, Moved, move}

natural : (z : ℤ) (b : Bool) → (leb_ℤ (pos 0) z && b) ≡ true → (k : ℕ) × (z ≡ pos k)
natural (pos k) b h = (k, refl)
natural (negsuc k) b h = cc

module _ {Key : Type 0} where
  -- What a search that starts at the tick index `i` ends with: not by running out of rounds, and
  -- a tick that it finds is initialized and not behind `i`.
  pub record Ends (a_to_b : Bool) (i : ℤ) (r : Result (NextTick × TickArraySequence Key))
      : Type 0 where
    pub never_out_of_fuel : r ≢ err out_of_fuel
    pub found_is_initialized :
        (n : NextTick) (s' : TickArraySequence Key) (t : TickData)
        → r ≡ ok (n, s')
        → n.next_tick_data ≡ some t
        → t.initialized ≡ true
    pub found_down :
        (n : NextTick) (s' : TickArraySequence Key) (t : TickData)
        → a_to_b ≡ true
        → r ≡ ok (n, s')
        → n.next_tick_data ≡ some t
        → n.next_index ≤ℤ i
    pub found_up :
        (n : NextTick) (s' : TickArraySequence Key) (t : TickData)
        → a_to_b ≡ false
        → r ≡ ok (n, s')
        → n.next_tick_data ≡ some t
        → i ≤ℤ n.next_index

  stop_with_error : (b : Bool) (i : ℤ) (e : Error) → e ≢ out_of_fuel → Ends b i (err e)
  stop_with_error b i e other = record {
    never_out_of_fuel = λ is. other (cc);
    found_is_initialized = λ n s' t is some_t. cc;
    found_down = λ n s' t d is some_t. cc;
    found_up = λ n s' t d is some_t. cc;
  }

  stop_at_end :
      (b : Bool) (i last : ℤ) (s : TickArraySequence Key)
      → Ends b i (ok (record { next_index = last; next_tick_data = none }, s))
  stop_at_end b i last s = record {
    never_out_of_fuel = λ is. cc;
    found_is_initialized = λ n s' t is some_t. cc;
    found_down = λ n s' t d is some_t. cc;
    found_up = λ n s' t d is some_t. cc;
  }

  stop_at_tick :
      (b : Bool) (i : ℤ) (t : TickData) (s : TickArraySequence Key)
      → t.initialized ≡ true
      → Ends b i (ok (record { next_index = i; next_tick_data = some t }, s))
  stop_at_tick b i t s initialized = record {
    never_out_of_fuel = λ is. cc;
    found_is_initialized = λ n s' u is some_t. cc;
    found_down = λ n s' u d is some_t.
        let same =
          ap (λ (p : NextTick × TickArraySequence Key). p.0.next_index) (ok_injective is) in
        omega (arith, ap pos_part same, ap neg_part same);
    found_up = λ n s' u d is some_t.
        let same =
          ap (λ (p : NextTick × TickArraySequence Key). p.0.next_index) (ok_injective is) in
        omega (arith, ap pos_part same, ap neg_part same);
  }

  stop_later :
      (b : Bool) (i j : ℤ) {r : Result (NextTick × TickArraySequence Key)}
      → (b ≡ true → j ≤ℤ i)
      → (b ≡ false → i ≤ℤ j)
      → Ends b j r
      → Ends b i r
  stop_later b i j down up ends = record {
    never_out_of_fuel = ends.never_out_of_fuel;
    found_is_initialized = ends.found_is_initialized;
    found_down = λ n s' t d is some_t. omega (arith, down d, ends.found_down n s' t d is some_t);
    found_up = λ n s' t d is some_t. omega (arith, up d, ends.found_up n s' t d is some_t);
  }

  pub in_bounds-lt :
      (s : TickArraySequence Key) (a : ℤ) (o k : ℕ)
      → get_local_array_index s a ≡ pos k
      → is_array_index_in_bounds s (at a o s.tick_spacing) ≡ true
      → k < length s.sequence
  unfolding is_array_index_in_bounds
  in_bounds-lt s a o k local_is inside = ground (arith, rw local_is at inside)

  pub local_touch :
      (s : TickArraySequence Key) (i a : ℤ)
      → get_local_array_index (touch s i) a ≡ get_local_array_index s a
  unfolding get_local_array_index
  local_touch s i a = refl

  search-Ends :
      (fuel : ℕ) (s : TickArraySequence Key) (a : ℤ) (o k : ℕ)
      → 0 < s.tick_spacing
      → o < 88
      → get_local_array_index s a ≡ pos k
      → rounds s.a_to_b (length s.sequence) k o < fuel
      → Ends s.a_to_b
          (to_tick_index (at a o s.tick_spacing))
          (search fuel s (at a o s.tick_spacing))
  unfolding search
  search-Ends zero s a o k hs ho local_is enough = elim enough [ ]
  search-Ends (suc fuel) s a o k hs ho local_is enough =
      let here : ℤ = to_tick_index (at a o s.tick_spacing) in
      elim (Bool-cases (is_array_index_in_bounds s (at a o s.tick_spacing))) [
        | inr outside ↦ rw (outside, search) (stop_at_end s.a_to_b here _ s)
        | inl inside ↦
            rw (inside, search)
              (elim (get_tick-Read s a o hs ho) [
                | inl (e, got, other) ↦ rw (got, search) (stop_with_error s.a_to_b here e other)
                | inr (none, got) ↦
                    rw (got, search) (stop_with_error s.a_to_b here type_error (λ e. cc))
                | inr (some t, got) ↦
                    rw (got, search)
                      (elim (Bool-cases t.initialized) [
                        | inl initialized ↦
                            rw (initialized, search) (stop_at_tick s.a_to_b here t _ initialized)
                        | inr plain_tick ↦
                            let m : Moved s a o k = move s a o k hs ho local_is in
                            rw (plain_tick, m.step_is, search)
                              (stop_later s.a_to_b here
                                (to_tick_index (at m.array m.offset s.tick_spacing)) m.down m.up
                                (search-Ends fuel (touch s (get_local_array_index s a)) m.array
                                  m.offset m.local hs m.offset_lt
                                  (local_touch s (get_local_array_index s a) m.array ∙ m.local_is)
                                  (omega (arith, m.fewer (in_bounds-lt s a o k local_is inside)))))
                      ])
              ])
      ]

  -- A search in bounds has a local index, and its rounds fit into the bound.
  pub in_bounds-local :
      (s : TickArraySequence Key) (t : TickArrayIndex)
      → is_array_index_in_bounds s t ≡ true
      → (k : ℕ) × (get_local_array_index s t.array_index ≡ pos k)
  unfolding is_array_index_in_bounds
  in_bounds-local s t inside = natural (get_local_array_index s t.array_index) _ inside

  -- Where a search from the tick index `i` starts.
  abbrev pub search_index : TickArraySequence Key → ℤ → ℤ
  search_index s i = if s.a_to_b then i else i +ℤ pos s.tick_spacing

  pub search_index-down :
      (s : TickArraySequence Key) (i : ℤ) → s.a_to_b ≡ true → search_index s i ≡ i
  search_index-down s i d = rw d refl

  pub search_index-up :
      (s : TickArraySequence Key) (i : ℤ)
      → s.a_to_b ≡ false
      → search_index s i ≡ i +ℤ pos s.tick_spacing
  search_index-up s i d = rw d refl

  record Finds (s : TickArraySequence Key) (i : ℤ) (r : Result (NextTick × TickArraySequence Key))
      : Type 0 where
    place : ℤ
    below : place ≤ℤ search_index s i
    above : search_index s i +ℤ pos 1 ≤ℤ place +ℤ pos s.tick_spacing
    ends : Ends s.a_to_b place r

  find-Finds :
      (s : TickArraySequence Key) (i : ℤ)
      → 0 < s.tick_spacing
      → Finds s i (find_next_initialized_tick_index s i)
  unfolding find_next_initialized_tick_index
  find-Finds s i hs =
      let (t, t_is, h) = from_tick_index-Holds (search_index s i) s.tick_spacing hs in
      record {
        place = to_tick_index t;
        below = h.from_below;
        above = h.from_above;
        ends = rw t_is (elim (Bool-cases (is_array_index_in_bounds s t)) [
          | inr outside ↦ rw outside (
              stop_with_error s.a_to_b (to_tick_index t)
                (swap SwapErrorCode.tick_array_sequence_invalid) (λ e. cc))
          | inl inside ↦
              let (k, local_is) = in_bounds-local s t inside in
              rw (inside, h.is_at)
                (search-Ends (search_fuel s) s h.array h.offset k hs h.offset_lt
                  (rw h.is_at at local_is)
                  (rounds_fit s.a_to_b (length s.sequence) k h.offset h.offset_lt))
        ]);
      }

  -- For a positive spacing the search ends within the rounds that it is given.
  pub find_next_initialized_tick_index-ends :
      (s : TickArraySequence Key) (i : ℤ)
      → 0 < s.tick_spacing
      → find_next_initialized_tick_index s i ≢ err out_of_fuel
  find_next_initialized_tick_index-ends s i hs = (find-Finds s i hs).ends.never_out_of_fuel

  -- For a positive spacing, a tick that the search finds is initialized, and its index is at or
  -- below the given one where the swap lowers the price, and above it where the swap raises it.
  pub find_next_initialized_tick_index-found :
      (s s' : TickArraySequence Key) (i : ℤ) (n : NextTick) (t : TickData)
      → 0 < s.tick_spacing
      → find_next_initialized_tick_index s i ≡ ok (n, s')
      → n.next_tick_data ≡ some t
      → (t.initialized ≡ true)
        × (if s.a_to_b then n.next_index ≤ℤ i else i +ℤ pos 1 ≤ℤ n.next_index)
  find_next_initialized_tick_index-found s s' i n t hs e some_t =
      let f : Finds s i (find_next_initialized_tick_index s i) = find-Finds s i hs in
      (
        f.ends.found_is_initialized n s' t e some_t,
        elim (Bool-cases s.a_to_b) [
          | inl d ↦
              let at_i = search_index-down s i d in
              rw d (
                omega (
                  arith,
                  f.below,
                  ap pos_part at_i,
                  ap neg_part at_i,
                  f.ends.found_down n s' t d e some_t,
                ))
          | inr d ↦
              let at_i = search_index-up s i d in
              rw d (
                omega (
                  int_laws,
                  f.above,
                  ap pos_part at_i,
                  ap neg_part at_i,
                  f.ends.found_up n s' t d e some_t,
                ))
        ],
      )
