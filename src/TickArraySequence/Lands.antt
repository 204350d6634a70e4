-- ===== src/TickArraySequence/Lands.antt =====
-- Where the search for the next initialized tick ends (tick-array-sequence.ts): at an initialized
-- tick of the sequence, or past its end, with no initialized tick passed over.
use mathlib.Core.Path.{subst}
use native.Mathlib.Decide.{dec_le}
use whirlpools.Prelude.{
  ℕ, eq_of_parts, zero, suc, ◌+◌, ◌≤◌, ◌<◌, ◌≡◌, ap, sym, ◌∙◌, ◌⊎◌, inl, inr, arith, Bool, true,
  false, Bool-cases, none, some, length, ℤ, pos, ◌+ℤ◌, ◌≤ℤ◌, int_laws, pos_part, neg_part,
}
use whirlpools.Errors.{ok, ok_injective}
use whirlpools.AnchorTypes.{TickData}
use whirlpools.TickArrayIndex.{to_tick_index}
use whirlpools.TickArrayIndex.Split.{at}
use whirlpools.TickArrayIndex.Unique.{tick_gap, cell_unique}
use whirlpools.TickArraySequence.{
  TickArraySequence, NextTick, touch, get_local_array_index, is_array_index_in_bounds, search,
  last_index_in_array,
}
use whirlpools.TickArraySequence.Moves.{rounds, Moved, move, get_tick-Read}
use whirlpools.TickArraySequence.Search.{in_bounds-lt, local_touch}
use whirlpools.TickArraySequence.Reads.{
  tick_at, SameArrays, SameArrays-refl, SameArrays-trans, touch-SameArrays, get_tick-tick_at,
}

-- `i` lies from `start` up to `end`, which is not included, on the way that the swap goes.
abbrev pub Passed : Bool → ℤ → ℤ → ℤ → Type 0
Passed true start end i = (i ≤ℤ start) × (end +ℤ pos 1 ≤ℤ i)
Passed false start end i = (start ≤ℤ i) × (i +ℤ pos 1 ≤ℤ end)

-- Nothing lies between a place and itself.
none_passed : (d : Bool) (i j : ℤ) {P : Type 0} → Passed d i i j → P
none_passed true i j h = absurd (omega int_laws)
none_passed false i j h = absurd (omega int_laws)

module _ {Key : Type 0} where
  -- How the result stands to the place where the search stopped.
  pub data Stop (s : TickArraySequence Key) (a : ℤ) (o k : ℕ) (n : NextTick) : Type 0 where
    at_tick :
        (t : TickData)
        → k < length s.sequence
        → n.next_index ≡ to_tick_index (at a o s.tick_spacing)
        → n.next_tick_data ≡ some t
        → tick_at s a o ≡ some t
        → t.initialized ≡ true
        → Stop s a o k n
    past_end :
        length s.sequence ≤ k
        → n.next_index ≡ last_index_in_array s (at a o s.tick_spacing)
        → n.next_tick_data ≡ none
        → Stop s a o k n

  -- The place where a search that started at (a, o) stopped.
  pub record Lands (s : TickArraySequence Key) (a : ℤ) (o k : ℕ) (n : NextTick)
      (s' : TickArraySequence Key) : Type 0 where
    pub same : SameArrays s s'
    pub array : ℤ
    pub offset : ℕ
    pub local : ℕ
    pub offset_lt : offset < 88
    pub local_is : get_local_array_index s array ≡ pos local
    pub not_more :
        rounds s.a_to_b (length s.sequence) local offset ≤ rounds s.a_to_b (length s.sequence) k o
    pub stop : Stop s array offset local n
    pub clear :
        (b : ℤ) (p : ℕ) (t : TickData)
        → p < 88
        → Passed s.a_to_b
            (to_tick_index (at a o s.tick_spacing))
            (to_tick_index (at array offset s.tick_spacing))
            (to_tick_index (at b p s.tick_spacing))
        → tick_at s b p ≡ some t
        → t.initialized ≡ false

  arrive_here :
      (s s' : TickArraySequence Key) (a : ℤ) (o k : ℕ) (n : NextTick)
      → o < 88
      → get_local_array_index s a ≡ pos k
      → SameArrays s s'
      → Stop s a o k n
      → Lands s a o k n s'
  arrive_here s s' a o k n ho local_is same stop = record {
    same = same;
    array = a;
    offset = o;
    local = k;
    offset_lt = ho;
    local_is = local_is;
    not_more = omega arith;
    stop = stop;
    clear = λ b p t hp between t_is. none_passed s.a_to_b _ _ between;
  }

  unmark_end :
      (s : TickArraySequence Key) (i a : ℤ) (o k : ℕ) (n : NextTick)
      → Stop (touch s i) a o k n
      → Stop s a o k n
  unfolding get_local_array_index last_index_in_array
  unmark_end s i a o k n (at_tick t lt index data_is tick_is init) =
      at_tick t lt index data_is tick_is init
  unmark_end s i a o k n (past_end le index data_is) = past_end le index data_is

  -- A tick on the way from a place is the tick of the place, or is on the way from the next place.
  on_the_way :
      (s : TickArraySequence Key) (a b : ℤ) (o p k : ℕ) (end : ℤ) (m : Moved s a o k)
      → 0 < s.tick_spacing
      → Passed s.a_to_b
          (to_tick_index (at a o s.tick_spacing))
          end
          (to_tick_index (at b p s.tick_spacing))
      → (to_tick_index (at a o s.tick_spacing) ≡ to_tick_index (at b p s.tick_spacing))
        ⊎ Passed s.a_to_b
            (to_tick_index (at m.array m.offset s.tick_spacing))
            end
            (to_tick_index (at b p s.tick_spacing))
  on_the_way s a b o p k end m hs passed = elim (Bool-cases s.a_to_b) [
    | inl d ↦
        let (low, high) = rw d at passed in
        let step = m.spaced_down d in
        let here : ℤ = to_tick_index (at a o s.tick_spacing) in
        let there : ℤ = to_tick_index (at b p s.tick_spacing) in
        let next : ℤ = to_tick_index (at m.array m.offset s.tick_spacing) in
        elim (dec_le (pos_part there + neg_part next) (pos_part next + neg_part there)) [
          | yes le ↦ inr (rw d (le, high))
          | no more ↦
              let gap : here ≤ℤ there =
                tick_gap s.tick_spacing hs b a p o
                  (omega (int_laws, ap pos_part step, ap neg_part step)) in
              inl (eq_of_parts here there (omega arith))
        ]
    | inr d ↦
        let (low, high) = rw d at passed in
        let step = m.spaced_up d in
        let here : ℤ = to_tick_index (at a o s.tick_spacing) in
        let there : ℤ = to_tick_index (at b p s.tick_spacing) in
        let next : ℤ = to_tick_index (at m.array m.offset s.tick_spacing) in
        elim (dec_le (pos_part next + neg_part there) (pos_part there + neg_part next)) [
          | yes le ↦ inr (rw d (le, high))
          | no more ↦
              let gap : there ≤ℤ here =
                tick_gap s.tick_spacing hs a b o p
                  (omega (int_laws, ap pos_part step, ap neg_part step)) in
              inl (eq_of_parts here there (omega arith))
        ]
  ]

  -- The search goes on from the next place.
  arrive_later :
      (s s' : TickArraySequence Key) (i a : ℤ) (o k : ℕ) (n : NextTick) (m : Moved s a o k)
      (t : TickData)
      → 0 < s.tick_spacing
      → o < 88
      → k < length s.sequence
      → tick_at s a o ≡ some t
      → t.initialized ≡ false
      → Lands (touch s i) m.array m.offset m.local n s'
      → Lands s a o k n s'
  unfolding get_local_array_index
  arrive_later s s' i a o k n m t hs ho lt tick_is plain_tick l = record {
    same = SameArrays-trans (touch-SameArrays s i) l.same;
    array = l.array;
    offset = l.offset;
    local = l.local;
    offset_lt = l.offset_lt;
    local_is = l.local_is;
    not_more = omega (arith, l.not_more, m.fewer lt);
    stop = unmark_end s i l.array l.offset l.local n l.stop;
    clear = λ b p u hp between u_is. elim (on_the_way s a b o p k _ m hs between) [
      | inl here ↦
          let (array_is, offset_is) = cell_unique s.tick_spacing hs a b o p ho hp here in cc
      | inr later ↦ l.clear b p u hp later u_is
    ];
  }

  out_of_bounds-le :
      (s : TickArraySequence Key) (a : ℤ) (o k : ℕ)
      → get_local_array_index s a ≡ pos k
      → is_array_index_in_bounds s (at a o s.tick_spacing) ≡ false
      → length s.sequence ≤ k
  unfolding is_array_index_in_bounds
  out_of_bounds-le s a o k local_is outside = ground (arith, rw local_is at outside)

  pub search-Lands :
      (fuel : ℕ) (s s' : TickArraySequence Key) (a : ℤ) (o k : ℕ) (n : NextTick)
      → 0 < s.tick_spacing
      → o < 88
      → get_local_array_index s a ≡ pos k
      → search fuel s (at a o s.tick_spacing) ≡ ok (n, s')
      → Lands s a o k n s'
  unfolding search
  search-Lands zero s s' a o k n hs ho local_is e = cc
  search-Lands (suc fuel) s s' a o k n hs ho local_is e =
      elim (Bool-cases (is_array_index_in_bounds s (at a o s.tick_spacing))) [
        | inr outside ↦
            let same = ok_injective (rw (outside, search) at e) in
            arrive_here s s' a o k n ho local_is
              (subst (SameArrays s) (ap (λ (r : NextTick × TickArraySequence Key). r.1) same)
                (SameArrays-refl s))
              (past_end (out_of_bounds-le s a o k local_is outside)
                (sym (ap (λ (r : NextTick × TickArraySequence Key). r.0.next_index) same))
                (sym (ap (λ (r : NextTick × TickArraySequence Key). r.0.next_tick_data) same)))
        | inl inside ↦
            let lt : k < length s.sequence = in_bounds-lt s a o k local_is inside in
            elim (get_tick-Read s a o hs ho) [
              | inl (other, got, x) ↦ let bad = rw (inside, got, search) at e in cc
              | inr (none, got) ↦ let bad = rw (inside, got, search) at e in cc
              | inr (some t, got) ↦
                  let (tick_is, kept) =
                    get_tick-tick_at s (touch s (get_local_array_index s a)) a o (some t) hs ho
                      got in
                  elim (Bool-cases t.initialized) [
                    | inl initialized ↦
                        let same = ok_injective (rw (inside, got, initialized, search) at e) in
                        arrive_here s s' a o k n ho local_is
                          (subst (SameArrays s)
                            (ap (λ (r : NextTick × TickArraySequence Key). r.1) same) kept)
                          (at_tick t lt
                            (sym
                              (ap (λ (r : NextTick × TickArraySequence Key). r.0.next_index) same))
                            (sym (
                              ap (λ (r : NextTick × TickArraySequence Key). r.0.next_tick_data)
                                same))
                            tick_is initialized)
                    | inr plain_tick ↦
                        let m : Moved s a o k = move s a o k hs ho local_is in
                        arrive_later s s' (get_local_array_index s a) a o k n m t hs ho lt tick_is
                          plain_tick
                          (search-Lands fuel (touch s (get_local_array_index s a)) s' m.array
                            m.offset m.local n hs m.offset_lt
                            (local_touch s (get_local_array_index s a) m.array ∙ m.local_is)
                            (rw (inside, got, plain_tick, m.step_is, search) at e))
                  ]
            ]
      ]
