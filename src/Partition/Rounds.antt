-- ===== src/Partition/Rounds.antt =====
-- One round of k-smallest-partition.ts: the loop that exchanges elements around `t`.
use Prim.Native.Nat.{Ordering}
use native.Mathlib.Decide.{ℕ_discrete, dec_lt}
use whirlpools.Prelude.{
  ℕ, zero, suc, ◌+◌, ◌-◌, ◌≤◌, ◌<◌, ◌≡◌, ◌⊎◌, refl, sym, subst, ap, ◌∙◌, arith, true, false, ltb,
  Bool-cases, inl, inr,
}
use whirlpools.Errors.{ok}
use whirlpools.Partition.{swap, is_below, is_same, climb, descend, exchange}
use whirlpools.Partition.Swaps.{
  IsOrder, swap_first, swap_second, swap_third, Swaps, done, exchanged, NotAbove, not_below,
  below_lem, above_lem,
}
use whirlpools.Partition.Climbs.{climb_stops, descend_stops}

module _ {A : Type 0} (order : A → A → Ordering) (is_order : IsOrder order) where
  module _ (t : A) (left right : ℕ) where
    pub record Split (array : ℕ → A) (i j : ℕ) : Type 0 where
      pub i_low : left ≤ i
      pub i_high : i ≤ right
      pub j_low : left ≤ j
      pub j_high : j ≤ right
      pub at_i : NotAbove order t (array i)
      pub at_j : NotAbove order (array j) t
      pub below : (m : ℕ) → left ≤ m → m < i → NotAbove order (array m) t
      pub above : (m : ℕ) → j < m → m ≤ right → NotAbove order t (array m)

    pub round-Split :
        (size : ℕ) (array : ℕ → A) (i j : ℕ)
        → right < size
        → i < j
        → Split array i j
        → (i' : ℕ) × (j' : ℕ) × (climb order size (swap array i j) t (i + 1) ≡ ok i')
          × (descend order size (swap array i j) t (j - 1) ≡ ok j')
          × (i < i')
          × (j' < j)
          × Split (swap array i j) i' j'
    round-Split size array i j roomy apart s =
        let after = swap array i j in
        let at_j' : is_below order (after j) t ≡ false =
          sym (is_order.flip t (after j))
          ∙ subst (λ x. NotAbove order t x) (sym (swap_second array i j)) s.at_i in
        let at_i' : NotAbove order (after i) t =
          subst (λ x. NotAbove order x t) (sym (swap_first array i j)) s.at_j in
        let i_low = s.i_low in
        let j_high = s.j_high in
        let (i', climbs, i_from, i_to, i_at, i_passed) =
          climb_stops order after t size (i + 1) j at_j' (omega arith) (omega arith) in
        let (j', descends, j_from, j_to, j_at, j_passed) =
          descend_stops order after t size (j - 1) i at_i' (omega arith) (omega arith) in
        (
          i',
          j',
          climbs,
          descends,
          omega arith,
          omega arith,
          record {
            i_low = omega arith;
            i_high = omega arith;
            j_low = omega arith;
            j_high = omega arith;
            at_i = not_below order is_order (after i') t i_at;
            at_j = j_at;
            below = λ m from to. elim (ℕ_discrete m i) [
              | yes same ↦ subst (λ x. NotAbove order (after x) t) (sym same) at_i'
              | no other ↦ elim (dec_lt m i) [
                | yes before ↦
                    subst (λ x. NotAbove order x t)
                      (sym (swap_third array i j m other (λ e. absurd (omega arith))))
                      (s.below m from before)
                | no after_i ↦ below_lem order is_order (after m) t (i_passed m (omega arith) to)
              ]
            ];
            above = λ m from to. elim (ℕ_discrete m j) [
              | yes same ↦
                  subst (λ x. NotAbove order t (after x)) (sym same)
                    (not_below order is_order (after j) t at_j')
              | no other ↦ elim (dec_lt j m) [
                | yes behind ↦
                    subst (λ x. NotAbove order t x)
                      (sym (swap_third array i j m (λ e. absurd (omega arith)) other))
                      (s.above m behind to)
                | no before_j ↦ above_lem order is_order (after m) t (j_passed m from (omega arith))
              ]
            ];
          },
        )

    -- One end of the range is the same as `t`.
    abbrev pub Marks : (ℕ → A) → Type 0
    Marks array = (is_same order (array left) t ≡ true) ⊎ (is_same order (array right) t ≡ true)

    -- The end of the loop.
    pub record IsExchanged (array last : ℕ → A) (i j : ℕ) : Type 0 where
      pub split : Split last i j
      pub marks : Marks last
      pub i_after : left < i
      pub j_before : j < right
      pub crossed : j ≤ i
      pub swaps : Swaps left right array last

    abbrev pub Exchanges : ℕ → ℕ → (ℕ → A) → ℕ → ℕ → Type 0
    Exchanges size fuel array i j =
        (last : ℕ → A) × (i' : ℕ) × (j' : ℕ) × (exchange order size fuel array t i j
          ≡ ok (last, i', j'))
        × IsExchanged array last i' j'

    crossed-Exchanges :
        (size fuel : ℕ) (array : ℕ → A) (i j : ℕ)
        → left < i
        → j < right
        → Split array i j
        → Marks array
        → ltb i j ≡ false
        → Exchanges size (suc fuel) array i j
    unfolding exchange
    crossed-Exchanges size fuel array i j i_after j_before s marks crossed = (
      array,
      i,
      j,
      rw crossed refl,
      record {
        split = s;
        marks = marks;
        i_after = i_after;
        j_before = j_before;
        crossed = ground arith;
        swaps = done array;
      },
    )

    swap-Marks :
        (array : ℕ → A) (i j : ℕ)
        → left < i
        → i < j
        → j < right
        → Marks array
        → Marks (swap array i j)
    swap-Marks array i j after apart before (inl m) = inl (
        ap (λ x. is_same order x t)
          (swap_third array i j left (λ e. absurd (omega arith)) (λ e. absurd (omega arith)))
        ∙ m)
    swap-Marks array i j after apart before (inr m) = inr (
        ap (λ x. is_same order x t)
          (swap_third array i j right (λ e. absurd (omega arith)) (λ e. absurd (omega arith)))
        ∙ m)

    pub exchange-IsExchanged :
        (size fuel : ℕ) (array : ℕ → A) (i j : ℕ)
        → right < size
        → j ≤ i + fuel
        → left < i
        → j < right
        → Split array i j
        → Marks array
        → Exchanges size (suc fuel) array i j
    unfolding exchange
    exchange-IsExchanged size zero array i j roomy enough i_after j_before s marks =
        crossed-Exchanges size zero array i j i_after j_before s marks (ground arith)
    exchange-IsExchanged size (suc fuel) array i j roomy enough i_after j_before s marks =
        elim (Bool-cases (ltb i j)) [
          | inr crossed ↦
              crossed-Exchanges size (suc fuel) array i j i_after j_before s marks crossed
          | inl apart ↦
              let closer : i < j = ground arith in
              let (i', j', climbs, descends, i_up, j_down, next) =
                round-Split size array i j roomy closer s in
              let (last, i_last, j_last, returns, x) =
                exchange-IsExchanged size fuel (swap array i j) i' j' roomy (omega arith)
                  (omega arith) (omega arith) next
                  (swap-Marks array i j i_after closer j_before marks) in
              (
                last,
                i_last,
                j_last,
                rw (apart, climbs, descends) returns,
                record {
                  split = x.split;
                  marks = x.marks;
                  i_after = x.i_after;
                  j_before = x.j_before;
                  crossed = x.crossed;
                  swaps =
                      exchanged array last i j (omega arith) (omega arith) (omega arith)
                        (omega arith) x.swaps;
                },
              )
        ]
