-- ===== src/Partition/Settles.antt =====
-- A whole round of k-smallest-partition.ts: where `t` ends, and what stands on its two sides.
use Prim.Native.Nat.{Ordering}
use native.Mathlib.Decide.{ℕ_discrete, dec_lt}
use whirlpools.Prelude.{ℕ, suc, ◌+◌, ◌≤◌, ◌<◌, ◌≡◌, sym, subst, ap, ◌∙◌, arith, true, ltb, inl, inr}
use whirlpools.Partition.{swap, is_same, exchange}
use whirlpools.Partition.Swaps.{IsOrder, swap_first, swap_second, swap_third, exchanged, NotAbove}
use whirlpools.Partition.Rounds.{
  Split, Marks, IsExchanged, Exchanges, round-Split, exchange-IsExchanged,
}

module _ {A : Type 0} (order : A → A → Ordering) (is_order : IsOrder order) (t : A)
    (left right : ℕ) where
  -- `t` stands at `p`, with nothing above it before `p` and nothing below it behind `p`.
  pub record IsPivoted (array : ℕ → A) (p : ℕ) : Type 0 where
    pub from : left ≤ p
    pub to : p ≤ right
    pub here : is_same order (array p) t ≡ true
    pub before : (m : ℕ) → left ≤ m → m < p → NotAbove order (array m) t
    pub behind : (m : ℕ) → p < m → m ≤ right → NotAbove order t (array m)

  -- The first exchange is that of the two ends.
  pub ends-Exchanges :
      (size fuel : ℕ) (array : ℕ → A)
      → left < right
      → right < size
      → right ≤ suc fuel
      → Split order is_order t left right array left right
      → Marks order is_order t left right array
      → Exchanges order is_order t left right size (suc (suc fuel)) array left right
  unfolding exchange
  ends-Exchanges size fuel array apart roomy enough s marks =
      let closer : ltb left right ≡ true = ground arith in
      let (i', j', climbs, descends, i_up, j_down, next) =
        round-Split order is_order t left right size array left right roomy apart s in
      let (last, i_last, j_last, returns, x) =
        exchange-IsExchanged order is_order t left right size fuel (swap array left right) i' j'
          roomy (omega arith) i_up j_down next (turned marks) in
      (
        last,
        i_last,
        j_last,
        rw (closer, climbs, descends) returns,
        record {
          split = x.split;
          marks = x.marks;
          i_after = x.i_after;
          j_before = x.j_before;
          crossed = x.crossed;
          swaps =
              exchanged array last left right (omega arith) (omega arith) (omega arith)
                (omega arith) x.swaps;
        },
      )
    where
      turned :
          Marks order is_order t left right array
          → Marks order is_order t left right (swap array left right)
      turned (inl m) = inr (ap (λ x. is_same order x t) (swap_second array left right) ∙ m)
      turned (inr m) = inl (ap (λ x. is_same order x t) (swap_first array left right) ∙ m)

  pub settle-left :
      (array last : ℕ → A) (i j : ℕ)
      → IsExchanged order is_order t left right array last i j
      → is_same order (last left) t ≡ true
      → IsPivoted (swap last left j) j
  settle-left array last i j x m = record {
    from = x.split.j_low;
    to = x.split.j_high;
    here = ap (λ x. is_same order x t) (swap_second last left j) ∙ m;
    before = λ n low high. elim (ℕ_discrete n left) [
      | yes first ↦
          subst (λ x. NotAbove order x t)
            (sym (ap (swap last left j) first ∙ swap_first last left j)) x.split.at_j
      | no other ↦
          let crossed = x.crossed in
          subst (λ x. NotAbove order x t)
            (sym (swap_third last left j n other (λ e. absurd (omega arith))))
            (x.split.below n low (omega arith))
    ];
    behind = λ n low high.
        let at_least = x.split.j_low in
        subst (λ x. NotAbove order t x)
          (sym (swap_third last left j n (λ e. absurd (omega arith)) (λ e. absurd (omega arith))))
          (x.split.above n low high);
  }

  pub settle-right :
      (array last : ℕ → A) (i j : ℕ)
      → IsExchanged order is_order t left right array last i j
      → is_same order (last right) t ≡ true
      → IsPivoted (swap last (j + 1) right) (j + 1)
  settle-right array last i j x m =
      let j_before = x.j_before in
      let j_low = x.split.j_low in
      record {
        from = omega arith;
        to = omega arith;
        here = ap (λ x. is_same order x t) (swap_first last (j + 1) right) ∙ m;
        before = λ n low high.
            subst (λ x. NotAbove order x t)
              (sym (
                swap_third last (j + 1) right n (λ e. absurd (omega arith))
                  (λ e. absurd (omega arith))))
              (elim (dec_lt n i) [
                | yes below ↦ x.split.below n low below
                | no not_below ↦
                    let crossed = x.crossed in
                    let at_j : n ≡ j = omega arith in
                    subst (λ x. NotAbove order (last x) t) (sym at_j) x.split.at_j
              ]);
        behind = λ n low high. elim (ℕ_discrete n right) [
          | yes at_right ↦
              subst (λ x. NotAbove order t x)
                (sym (ap (swap last (j + 1) right) at_right ∙ swap_second last (j + 1) right))
                (x.split.above (j + 1) (omega arith) (omega arith))
          | no other ↦
              subst (λ x. NotAbove order t x)
                (sym (swap_third last (j + 1) right n (λ e. absurd (omega arith)) other))
                (x.split.above n (omega arith) high)
        ];
      }
