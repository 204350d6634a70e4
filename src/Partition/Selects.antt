-- ===== src/Partition/Selects.antt =====
-- The whole of k-smallest-partition.ts: it ends, with the k smallest elements in front.
use Prim.Native.Nat.{Ordering}
use native.Mathlib.Decide.{ℕ_discrete, dec_lt}
use whirlpools.Prelude.{ℕ, ◌+◌, ◌-◌, ◌≤◌, ◌<◌, ◌⊎◌, sym, subst, arith, inl, inr}
use whirlpools.Partition.{Sample, recursion_breakpoint}
use whirlpools.Partition.Swaps.{
  IsOrder, Swaps, done, Swaps-outside, Swaps-inside, Swaps-wider, NotAbove, same_lem,
}
use whirlpools.Partition.Settles.{IsPivoted}

-- The bounds of a sample stand around `k`, and leave out an end of the range.
pub record IsSample (sample : Sample) : Type 0 where
  pub low :
      (k left right : ℕ)
      → left ≤ k
      → k ≤ right
      → recursion_breakpoint < right - left
      → sample.low k left right ≤ k
  pub high :
      (k left right : ℕ)
      → left ≤ k
      → k ≤ right
      → recursion_breakpoint < right - left
      → k ≤ sample.high k left right
  pub narrower :
      (k left right : ℕ)
      → left ≤ k
      → k ≤ right
      → recursion_breakpoint < right - left
      → (left < sample.low k left right) ⊎ (sample.high k left right < right)

module _ {A : Type 0} (order : A → A → Ordering) (is_order : IsOrder order) where
  -- No element before `k` is above one from `k` on, and the array is reached by exchanges.
  pub record IsSelected (k left right : ℕ) (array array' : ℕ → A) : Type 0 where
    pub swaps : Swaps left right array array'
    pub selected :
        (m n : ℕ) → left ≤ m → m < k → k ≤ n → n ≤ right → NotAbove order (array' m) (array' n)

  -- The part of the range that holds `k` is selected, and with it the range.
  pub behind-IsSelected :
      (array last : ℕ → A) (t : A) (k p left right : ℕ)
      → p < k
      → IsPivoted order is_order t left right array p
      → IsSelected k (p + 1) right array last
      → IsSelected k left right array last
  behind-IsSelected array last t k p left right over v s =
      let from = v.from in
      record {
        swaps = Swaps-wider (p + 1) right left right array last (omega arith) (omega arith) s.swaps;
        selected = λ m n m_low m_high n_low n_high. elim (dec_lt p m) [
          | yes past ↦ s.selected m n (omega arith) m_high n_low n_high
          | no within ↦
              is_order.trans (last m) t (last n)
                (subst (λ x. NotAbove order x t)
                  (sym (Swaps-outside (p + 1) right array last s.swaps m (inl (omega arith))))
                  (up_to m m_low within))
                (Swaps-inside (p + 1) right (λ x. NotAbove order t x) array last s.swaps
                  (λ o low high. v.behind o (omega arith) high) n (omega arith) n_high)
        ];
      }
    where
      up_to : (m : ℕ) → left ≤ m → (p < m → ⊥) → NotAbove order (array m) t
      up_to m low within = elim (ℕ_discrete m p) [
        | yes e ↦
            let (below, above) = same_lem order is_order (array p) t v.here in
            subst (λ x. NotAbove order (array x) t) (sym e) below
        | no other ↦ v.before m low (omega arith)
      ]

  pub before-IsSelected :
      (array last : ℕ → A) (t : A) (k p left right : ℕ)
      → k < p
      → IsPivoted order is_order t left right array p
      → IsSelected k left (p - 1) array last
      → IsSelected k left right array last
  before-IsSelected array last t k p left right under v s =
      let to = v.to in
      record {
        swaps = Swaps-wider left (p - 1) left right array last (omega arith) (omega arith) s.swaps;
        selected = λ m n m_low m_high n_low n_high. elim (dec_lt n p) [
          | yes within ↦ s.selected m n m_low m_high n_low (omega arith)
          | no past ↦
              is_order.trans (last m) t (last n)
                (Swaps-inside left (p - 1) (λ x. NotAbove order x t) array last s.swaps
                  (λ o low high. v.before o low (omega arith)) m m_low (omega arith))
                (subst (λ x. NotAbove order t x)
                  (sym (Swaps-outside left (p - 1) array last s.swaps n (inr (omega arith))))
                  (from_on n n_high past))
        ];
      }
    where
      from_on : (n : ℕ) → n ≤ right → (n < p → ⊥) → NotAbove order t (array n)
      from_on n high past = elim (ℕ_discrete n p) [
        | yes e ↦
            let (below, above) = same_lem order is_order (array p) t v.here in
            subst (λ x. NotAbove order t (array x)) (sym e) above
        | no other ↦ v.behind n (omega arith) high
      ]

  pub here-IsSelected :
      (array : ℕ → A) (t : A) (k left right : ℕ)
      → IsPivoted order is_order t left right array k
      → IsSelected k left right array array
  here-IsSelected array t k left right v = record {
    swaps = done array;
    selected = λ m n m_low m_high n_low n_high.
        is_order.trans (array m) t (array n) (v.before m m_low m_high) (elim (ℕ_discrete n k) [
          | yes e ↦
              let (below, above) = same_lem order is_order (array k) t v.here in
              subst (λ x. NotAbove order t (array x)) (sym e) above
          | no other ↦ v.behind n (omega arith) n_high
        ]);
  }
