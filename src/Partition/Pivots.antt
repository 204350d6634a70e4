-- ===== src/Partition/Pivots.antt =====
-- A round of k-smallest-partition.ts always ends, with `t` between its two sides.
use Prim.Native.Nat.{Ordering}
use whirlpools.Prelude.{
  ℕ, zero, suc, ◌+◌, ◌≤◌, ◌<◌, ◌≡◌, refl, sym, subst, ap, ◌∙◌, arith, true, false, if◌then◌else◌,
  Bool-cases, inl, inr,
}
use whirlpools.Errors.{ok}
use whirlpools.Partition.{swap, is_above, is_same, settle, partition_around}
use whirlpools.Partition.Swaps.{
  IsOrder, swap_first, swap_second, Swaps, done, exchanged, Swaps-trans, NotAbove, above_lem,
  same_lem,
}
use whirlpools.Partition.Rounds.{Split, Marks, IsExchanged, Exchanges}
use whirlpools.Partition.Settles.{IsPivoted, ends-Exchanges, settle-left, settle-right}

module _ {A : Type 0} (order : A → A → Ordering) (is_order : IsOrder order) where
  module _ (t : A) (left right : ℕ) where
    ends-Split :
        (array : ℕ → A)
        → left ≤ right
        → NotAbove order t (array left)
        → NotAbove order (array right) t
        → Split order is_order t left right array left right
    ends-Split array some low high = record {
      i_low = omega arith;
      i_high = some;
      j_low = some;
      j_high = omega arith;
      at_i = low;
      at_j = high;
      below = λ m from to. absurd (omega arith);
      above = λ m from to. absurd (omega arith);
    }

    -- Either end of the range may hold `t` when the loop is done.
    abbrev Settled : (ℕ → A) → (ℕ → A) × ℕ × ℕ → Type 0
    Settled array (last, i, j) =
        (array' : ℕ → A) × (p : ℕ) × (settle order t left right (last, i, j) ≡ (array', p))
        × IsPivoted order is_order t left right array' p
        × Swaps left right array array'

    settle-Settled :
        (array last : ℕ → A) (i j : ℕ)
        → left < right
        → IsExchanged order is_order t left right array last i j
        → Settled array (last, i, j)
    unfolding settle
    settle-Settled array last i j apart x =
        let j_low = x.split.j_low in
        let j_before = x.j_before in
        elim (Bool-cases (is_same order (last left) t)) [
          | inl m ↦ (
            swap last left j,
            j,
            rw m refl,
            settle-left order is_order t left right array last i j x m,
            Swaps-trans left right array last (swap last left j) x.swaps (
                exchanged last (swap last left j) left j (omega arith) (omega arith) (omega arith)
                  (omega arith) (done (swap last left j))),
          )
          | inr n ↦ (
            swap last (j + 1) right,
            j + 1,
            rw n refl,
            settle-right order is_order t left right array last i j x (other n x.marks),
            Swaps-trans left right array last (swap last (j + 1) right) x.swaps (
                exchanged last (swap last (j + 1) right) (j + 1) right (omega arith) (omega arith)
                  (omega arith) (omega arith) (done (swap last (j + 1) right))),
          )
        ]
      where
        other :
            is_same order (last left) t ≡ false
            → Marks order is_order t left right last
            → is_same order (last right) t ≡ true
        other n (inl m) = cc
        other n (inr m) = m

  -- The result of a round around `array[k]`.
  abbrev pub Pivots : (ℕ → A) → ℕ → ℕ → ℕ → Type 0
  Pivots array k left right =
      (array' : ℕ → A) × (p : ℕ) × (partition_around order array k left right ≡ ok (array', p))
      × IsPivoted order is_order (array k) left right array' p
      × Swaps left right array array'

  ordered-Exchanges :
      (array : ℕ → A) (k left right : ℕ)
      → left ≤ k
      → k ≤ right
      → left < right
      → (ordered : ℕ → A) × ((if is_above order (swap array left k right) (array k)
            then swap (swap array left k) left right
            else swap array left k)
          ≡ ordered)
        × Swaps left right array ordered
        × Exchanges order is_order (array k) left right (suc right) (suc right) ordered left right
  ordered-Exchanges array k left zero low high apart = absurd (omega arith)
  ordered-Exchanges array k left (suc r) low high apart =
      let right = suc r in
      let t = array k in
      let placed = swap array left k in
      let (t_low, t_high) = same_lem order is_order t t (is_order.same t) in
      elim (Bool-cases (is_above order (placed right) t)) [
        | inl above ↦
            let ordered = swap placed left right in
            let at_right : ordered right ≡ t =
              swap_second placed left right ∙ swap_first array left k in
            let at_left : ordered left ≡ placed right = swap_first placed left right in
            (
              ordered,
              rw above refl,
              exchanged array ordered left k (omega arith) (omega arith) low high (
                  exchanged placed ordered left right (omega arith) (omega arith) (omega arith)
                    (omega arith) (done ordered)),
              ends-Exchanges order is_order t left right (suc right) r ordered apart (omega arith)
                  (omega arith)
                  (ends-Split t left right ordered (omega arith)
                    (subst (λ x. NotAbove order t x) (sym at_left)
                      (above_lem order is_order (placed right) t above))
                    (subst (λ x. NotAbove order x t) (sym at_right) t_low))
                  (inr (ap (λ x. is_same order x t) at_right ∙ is_order.same t)),
            )
        | inr not_above ↦
            let at_left : placed left ≡ t = swap_first array left k in
            (
              placed,
              rw not_above refl,
              exchanged array placed left k (omega arith) (omega arith) low high (done placed),
              ends-Exchanges order is_order t left right (suc right) r placed apart (omega arith)
                  (omega arith)
                  (ends-Split t left right placed (omega arith)
                    (subst (λ x. NotAbove order t x) (sym at_left) t_low) not_above)
                  (inl (ap (λ x. is_same order x t) at_left ∙ is_order.same t)),
            )
      ]

  -- A round on a range that holds `k` returns: `t` stands between elements not above it and elements
  -- not below it, and the array is reached by exchanges within the range.
  pub partition_around-Pivots :
      (array : ℕ → A) (k left right : ℕ)
      → left ≤ k
      → k ≤ right
      → left < right
      → Pivots array k left right
  unfolding partition_around
  partition_around-Pivots array k left right low high apart =
      let (ordered, same, before, (last, i, j, returns, x)) =
        ordered-Exchanges array k left right low high apart in
      let (array', p, settles, pivoted, swaps) =
        settle-Settled (array k) left right ordered last i j apart x in
      (
        array',
        p,
        rw (same, returns, settles) refl,
        pivoted,
        Swaps-trans left right array ordered array' before swaps,
      )
