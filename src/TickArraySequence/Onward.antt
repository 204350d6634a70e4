-- ===== src/TickArraySequence/Onward.antt =====
-- Two searches of a swap, one after the other (tick-array-sequence.ts, swap-manager.ts): the second
-- one, from the index that the first one returned, has fewer ticks of the sequence before it.
use mathlib.Core.Path.{subst}
use whirlpools.Prelude.{
  ℕ, ◌≤◌, ◌<◌, ◌≡◌, refl, ap, sym, ◌∙◌, ◌⊎◌, inl, inr, arith, Bool, true, false, Bool-cases, length,
  ℤ, pos, ◌+ℤ◌, ◌-ℤ◌, ◌≤ℤ◌, int_laws, pos_part, neg_part, if◌then◌else◌, min_ℤ, max_ℤ, List,
}
use whirlpools.Constants.{min_tick_index, max_tick_index}
use whirlpools.TickArrayIndex.{to_tick_index}
use whirlpools.TickArrayIndex.Split.{at}
use whirlpools.TickArrayIndex.Unique.{tick_eq, cell_unique, cells-le}
use whirlpools.TickArraySequence.{
  TickArraySequence, NextTick, get_local_array_index, last_index_in_array,
}
use whirlpools.TickArraySequence.Moves.{rounds, Moved, move}
use whirlpools.TickArraySequence.Reads.{SameArrays}
use whirlpools.TickArraySequence.Search.{search_index}
use whirlpools.TickArraySequence.Lands.{Stop, at_tick, past_end}
use whirlpools.TickArraySequence.Passes.{Found, last_index_in_array-down, last_index_in_array-up}

less : {a b c : ℕ} → a < b → b ≤ c → a < c
less h k = omega arith

-- A bounded index is the bound, or on its side of it.
clamp-low :
    (x : ℤ)
    → (max_ℤ (min_ℤ x max_tick_index) min_tick_index ≡ min_tick_index)
      ⊎ (max_ℤ (min_ℤ x max_tick_index) min_tick_index ≤ℤ x)
clamp-low x = ground arith

clamp-high :
    (x : ℤ)
    → (max_ℤ (min_ℤ x max_tick_index) min_tick_index ≡ max_tick_index)
      ⊎ (x ≤ℤ max_ℤ (min_ℤ x max_tick_index) min_tick_index)
clamp-high x = ground arith

-- Where the next search of the swap looks from.
abbrev pub next_from : Bool → ℤ → ℤ
next_from d next_index = if d then next_index -ℤ pos 1 else next_index

-- The bound of the tick indexes that the swap moves to.
abbrev pub last_tick : Bool → ℤ
last_tick d = if d then min_tick_index else max_tick_index

module _ {Key : Type 0} where
  abbrev with_touched : TickArraySequence Key → List Bool → TickArraySequence Key
  with_touched s bs = record {
    sequence = s.sequence;
    touched_arrays = bs;
    start_array_index = s.start_array_index;
    tick_spacing = s.tick_spacing;
    a_to_b = s.a_to_b;
  }

  SameArrays-eq :
      {s s' : TickArraySequence Key} → SameArrays s s' → s' ≡ with_touched s s'.touched_arrays
  SameArrays-eq same =
      rw (← same.sequence_is, ← same.start_is, ← same.spacing_is, ← same.direction_is) refl

  -- Where a search from the tick index `i` starts, inside the sequence.
  pub record Start (s : TickArraySequence Key) (i : ℤ) : Type 0 where
    pub array : ℤ
    pub offset : ℕ
    pub local : ℕ
    pub offset_lt : offset < 88
    pub local_is : get_local_array_index s array ≡ pos local
    pub local_lt : local < length s.sequence
    pub from_below : to_tick_index (at array offset s.tick_spacing) ≤ℤ search_index s i
    pub from_above :
        search_index s i +ℤ pos 1
        ≤ℤ to_tick_index (at array offset s.tick_spacing) +ℤ pos s.tick_spacing

  abbrev pub rounds_from : (s : TickArraySequence Key) (i : ℤ) → Start s i → ℕ
  rounds_from s i b = rounds s.a_to_b (length s.sequence) b.local b.offset

  abbrev pub start_of_search :
      (s s' : TickArraySequence Key) (i : ℤ) (n : NextTick) → Found s i n s' → Start s i
  start_of_search s s' i n f = record {
    array = f.array;
    offset = f.offset;
    local = f.local;
    offset_lt = f.offset_lt;
    local_is = f.local_is;
    local_lt = f.local_lt;
    from_below = f.from_below;
    from_above = f.from_above;
  }

  -- The tick index that the next search starts at.
  next_from-down :
      (s : TickArraySequence Key) (n : ℤ)
      → s.a_to_b ≡ true
      → search_index s (next_from s.a_to_b n) +ℤ pos 1 ≡ n
  unfolding ◌+ℤ◌ ◌-ℤ◌
  next_from-down s n d = rw d (ground arith)

  next_from-up :
      (s : TickArraySequence Key) (n : ℤ)
      → s.a_to_b ≡ false
      → search_index s (next_from s.a_to_b n) ≡ n +ℤ pos s.tick_spacing
  next_from-up s n d = rw d refl

  start_tick :
      (s : TickArraySequence Key) (a : ℤ) (o k : ℕ) (n : ℤ)
      → 0 < s.tick_spacing
      → n ≡ to_tick_index (at a o s.tick_spacing)
      → (m : Moved s a o k) → (b : Start s (next_from s.a_to_b n))
      → to_tick_index (at b.array b.offset s.tick_spacing)
        ≡ to_tick_index (at m.array m.offset s.tick_spacing)
  start_tick s a o k n hs n_is m b = elim (Bool-cases s.a_to_b) [
    | inl d ↦
        let step = m.spaced_down d in
        let from_is = next_from-down s n d in
        tick_eq s.tick_spacing hs m.array b.array m.offset b.offset
          (omega (
            int_laws,
            b.from_below,
            ap pos_part n_is,
            ap neg_part n_is,
            ap pos_part step,
            ap neg_part step,
            ap pos_part from_is,
            ap neg_part from_is,
          ))
          (omega (
            int_laws,
            b.from_above,
            ap pos_part n_is,
            ap neg_part n_is,
            ap pos_part step,
            ap neg_part step,
            ap pos_part from_is,
            ap neg_part from_is,
          ))
    | inr d ↦
        let step = m.spaced_up d in
        let from_is = next_from-up s n d in
        tick_eq s.tick_spacing hs m.array b.array m.offset b.offset
          (omega (
            int_laws,
            b.from_below,
            ap pos_part n_is,
            ap neg_part n_is,
            ap pos_part step,
            ap neg_part step,
            ap pos_part from_is,
            ap neg_part from_is,
          ))
          (omega (
            int_laws,
            b.from_above,
            ap pos_part n_is,
            ap neg_part n_is,
            ap pos_part step,
            ap neg_part step,
            ap pos_part from_is,
            ap neg_part from_is,
          ))
  ]

  -- A start at the place that the search moves to from an initialized tick.
  start-Moved :
      (s : TickArraySequence Key) (a : ℤ) (o k : ℕ) (n : ℤ)
      → 0 < s.tick_spacing
      → o < 88
      → get_local_array_index s a ≡ pos k
      → k < length s.sequence
      → n ≡ to_tick_index (at a o s.tick_spacing)
      → (b : Start s (next_from s.a_to_b n))
      → rounds_from s (next_from s.a_to_b n) b < rounds s.a_to_b (length s.sequence) k o
  start-Moved s a o k n hs ho local_is lt n_is b =
      let m : Moved s a o k = move s a o k hs ho local_is in
      let (array_is, offset_is) =
        cell_unique s.tick_spacing hs b.array m.array b.offset m.offset b.offset_lt m.offset_lt
          (start_tick s a o k n hs n_is m b) in
      let local_is : pos b.local ≡ pos m.local =
        sym b.local_is ∙ ap (get_local_array_index s) array_is ∙ m.local_is in
      let fewer = m.fewer lt in rw (offset_is, ap pos_part local_is) fewer

  -- The array indexes that follow a tick index on the way of the swap.
  not_before :
      (s : TickArraySequence Key) (a : ℤ) (o k : ℕ)
      → s.a_to_b ≡ true
      → (b : ℤ) (p j : ℕ) → 0 < s.tick_spacing
      → o < 88
      → get_local_array_index s a ≡ pos k
      → get_local_array_index s b ≡ pos j
      → to_tick_index (at b p s.tick_spacing) +ℤ pos 1
        ≤ℤ to_tick_index (at a o s.tick_spacing) +ℤ pos s.tick_spacing
      → j < k
      → ⊥
  unfolding get_local_array_index
  not_before s a o k d b p j hs ho a_is b_is le lt =
      let cells = cells-le s.tick_spacing hs a b o p le in
      let a' : s.start_array_index -ℤ a ≡ pos k = rw d at a_is in
      let b' : s.start_array_index -ℤ b ≡ pos j = rw d at b_is in
      omega (int_laws, cells, ap pos_part a', ap neg_part a', ap pos_part b', ap neg_part b')

  not_after :
      (s : TickArraySequence Key) (a : ℤ) (o k : ℕ)
      → s.a_to_b ≡ false
      → (b : ℤ) (p j : ℕ) → 0 < s.tick_spacing
      → p < 88
      → get_local_array_index s a ≡ pos k
      → get_local_array_index s b ≡ pos j
      → to_tick_index (at a o s.tick_spacing) +ℤ pos 1
        ≤ℤ to_tick_index (at b p s.tick_spacing) +ℤ pos s.tick_spacing
      → j < k
      → ⊥
  unfolding get_local_array_index
  not_after s a o k d b p j hs hp a_is b_is le lt =
      let cells = cells-le s.tick_spacing hs b a p o le in
      let a' : a -ℤ s.start_array_index ≡ pos k = rw d at a_is in
      let b' : b -ℤ s.start_array_index ≡ pos j = rw d at b_is in
      omega (int_laws, cells, ap pos_part a', ap neg_part a', ap pos_part b', ap neg_part b')

  -- No start beyond the end of the sequence.
  no_start :
      (s : TickArraySequence Key) (a : ℤ) (o k : ℕ) (n : ℤ)
      → 0 < s.tick_spacing
      → o < 88
      → get_local_array_index s a ≡ pos k
      → length s.sequence ≤ k
      → n ≡ last_index_in_array s (at a o s.tick_spacing)
      → Start s (next_from s.a_to_b n)
      → n ≡ last_tick s.a_to_b
  no_start s a o k n hs ho local_is le n_is b = elim (Bool-cases s.a_to_b) [
    | inl d ↦
        let last = n_is ∙ last_index_in_array-down s (at a o s.tick_spacing) d in
        let from_is = next_from-down s n d in
        elim (clamp-low (to_tick_index (at a o s.tick_spacing) +ℤ pos s.tick_spacing)) [
          | inl at_end ↦ rw d (last ∙ at_end)
          | inr near ↦ absurd (
              not_before s a o k d b.array b.offset b.local hs ho local_is b.local_is
                (omega (
                  int_laws,
                  b.from_below,
                  ap pos_part last,
                  ap neg_part last,
                  ap pos_part from_is,
                  ap neg_part from_is,
                ))
                (omega arith))
        ]
    | inr d ↦
        let last = n_is ∙ last_index_in_array-up s (at a o s.tick_spacing) d in
        let from_is = next_from-up s n d in
        elim (clamp-high (to_tick_index (at a o s.tick_spacing) -ℤ pos 1)) [
          | inl at_end ↦ rw d (last ∙ at_end)
          | inr near ↦ absurd (
              not_after s a o k d b.array b.offset b.local hs b.offset_lt local_is b.local_is
                (omega (
                  int_laws,
                  b.from_above,
                  ap pos_part last,
                  ap neg_part last,
                  ap pos_part from_is,
                  ap neg_part from_is,
                ))
                (omega arith))
        ]
  ]

  Stop-Start :
      (s : TickArraySequence Key) (a : ℤ) (o k : ℕ) (n : NextTick)
      → 0 < s.tick_spacing
      → o < 88
      → get_local_array_index s a ≡ pos k
      → Stop s a o k n
      → (b : Start s (next_from s.a_to_b n.next_index))
      → (rounds_from s (next_from s.a_to_b n.next_index) b
          < rounds s.a_to_b (length s.sequence) k o)
        ⊎ (n.next_index ≡ last_tick s.a_to_b)
  Stop-Start s a o k n hs ho local_is (at_tick t lt index data_is tick_is init) b =
      inl (start-Moved s a o k n.next_index hs ho local_is lt index b)
  Stop-Start s a o k n hs ho local_is (past_end le index data_is) b =
      inr (no_start s a o k n.next_index hs ho local_is le index b)

  abbrev untouched :
      (s : TickArraySequence Key) (bs : List Bool) (i : ℤ) → Start (with_touched s bs) i → Start s i
  unfolding get_local_array_index
  untouched s bs i b = record {
    array = b.array;
    offset = b.offset;
    local = b.local;
    offset_lt = b.offset_lt;
    local_is = b.local_is;
    local_lt = b.local_lt;
    from_below = b.from_below;
    from_above = b.from_above;
  }

  rounds_from-next_from :
      (s s' s'' : TickArraySequence Key) (i : ℤ) (n : NextTick)
      → 0 < s.tick_spacing
      → (f : Found s i n s') → SameArrays s s''
      → (b : Start s'' (next_from s.a_to_b n.next_index))
      → (rounds_from s'' (next_from s.a_to_b n.next_index) b
          < rounds_from s i (start_of_search s s' i n f))
        ⊎ (n.next_index ≡ last_tick s.a_to_b)
  unfolding untouched
  rounds_from-next_from s s' s'' i n hs f same =
      subst
        (λ z.
          (b : Start z (next_from s.a_to_b n.next_index))
          → (rounds_from z (next_from s.a_to_b n.next_index) b
              < rounds_from s i (start_of_search s s' i n f))
            ⊎ (n.next_index ≡ last_tick s.a_to_b))
        (sym (SameArrays-eq same))
        (λ b.
          elim (Stop-Start s f.lands.array f.lands.offset f.lands.local n hs f.lands.offset_lt
            f.lands.local_is f.lands.stop
            (untouched s s''.touched_arrays (next_from s.a_to_b n.next_index) b)) [
              | inl fewer ↦ inl (less fewer f.lands.not_more)
              | inr at_end ↦ inr at_end
            ])

  -- The next search has fewer rounds before it, unless the last one ended at the bound of the tick
  -- indexes.
  pub rounds_from-next :
      (s s' s'' : TickArraySequence Key) (i j : ℤ) (n : NextTick)
      → 0 < s.tick_spacing
      → (f : Found s i n s') → SameArrays s s''
      → j ≡ next_from s.a_to_b n.next_index
      → (b : Start s'' j)
      → (rounds_from s'' j b < rounds_from s i (start_of_search s s' i n f))
        ⊎ (n.next_index ≡ last_tick s.a_to_b)
  rounds_from-next s s' s'' i j n hs f same j_is =
      subst
        (λ j.
          (b : Start s'' j)
          → (rounds_from s'' j b < rounds_from s i (start_of_search s s' i n f))
            ⊎ (n.next_index ≡ last_tick s.a_to_b))
        (sym j_is) (rounds_from-next_from s s' s'' i n hs f same)
