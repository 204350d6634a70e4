-- ===== src/Partition/Whole.antt =====
-- k-smallest-partition.ts from its call to its return.
use Prim.Native.Nat.{Ordering}
use native.Mathlib.Decide.{dec_lt}
use whirlpools.Prelude.{
  ℕ, zero, suc, ◌+◌, ◌-◌, ◌≤◌, ◌<◌, ◌≡◌, ◌⊎◌, refl, subst, arith, true, false, if◌then◌else◌, ltb,
  leb, max, min, Bool-cases, inl, inr,
}
use whirlpools.Errors.{ok}
use whirlpools.Partition.{Sample, recursion_breakpoint, k_smallest_partition}
use whirlpools.Partition.Swaps.{IsOrder, Swaps, done, Swaps-trans, Swaps-wider}
use whirlpools.Partition.Settles.{IsPivoted}
use whirlpools.Partition.Pivots.{partition_around-Pivots}
use whirlpools.Partition.Selects.{
  IsSample, IsSelected, behind-IsSelected, before-IsSelected, here-IsSelected,
}

module _ {A : Type 0} (order : A → A → Ordering) (is_order : IsOrder order) (sample : Sample)
    (is_sample : IsSample sample) where
  abbrev pub Selects : ℕ → (ℕ → A) → ℕ → ℕ → ℕ → Type 0
  Selects fuel array k left right =
      (array' : ℕ → A) × (k_smallest_partition order sample fuel array k left right ≡ ok array')
      × IsSelected order is_order k left right array array'

  -- What the calls with less fuel return.
  abbrev Below : ℕ → ℕ → Type 0
  Below fuel k =
      (array : ℕ → A) (left right : ℕ)
      → left ≤ k
      → k ≤ right
      → right - left < fuel
      → Selects fuel array k left right

  empty_range :
      (fuel : ℕ) (array : ℕ → A) (k left right : ℕ)
      → 0 < fuel
      → right ≤ left
      → k_smallest_partition order sample fuel array k left right ≡ ok array
  unfolding k_smallest_partition
  empty_range zero array k left right some over = absurd (omega arith)
  empty_range (suc fuel) array k left right some over =
      let over' : ltb left right ≡ false = ground arith in rw over' refl

  -- The range of the sample is shorter, and holds `k`.
  sampled :
      (fuel : ℕ) (array : ℕ → A) (k left right : ℕ)
      → left ≤ k
      → k ≤ right
      → right - left < suc fuel
      → Below fuel k
      → (array' : ℕ → A) × ((if ltb recursion_breakpoint (right - left)
            then k_smallest_partition order sample fuel array k
                (max left (sample.low k left right))
                (min right (sample.high k left right))
            else ok array)
          ≡ ok array')
        × Swaps left right array array'
  sampled fuel array k left right low high enough below =
      elim (Bool-cases (ltb recursion_breakpoint (right - left))) [
        | inr short ↦ (array, rw short refl, done array)
        | inl long ↦
            let long' : recursion_breakpoint < right - left = ground arith in
            let s_low = is_sample.low k left right low high long' in
            let s_high = is_sample.high k left right low high long' in
            let new_left = max left (sample.low k left right) in
            let new_right = min right (sample.high k left right) in
            let (array', returns, s) =
              below array new_left new_right (ground arith) (ground arith)
                (shorter (is_sample.narrower k left right low high long') s_low s_high long') in
            (
              array',
              rw (long, returns) refl,
              Swaps-wider new_left new_right left right array array' (ground arith) (ground arith)
                  s.swaps,
            )
      ]
    where
      shorter :
          (left < sample.low k left right) ⊎ (sample.high k left right < right)
          → sample.low k left right ≤ k
          → k ≤ sample.high k left right
          → recursion_breakpoint < right - left
          → min right (sample.high k left right) - max left (sample.low k left right) < fuel
      shorter (inl l) sl sh long = ground arith
      shorter (inr h) sl sh long = ground arith

  -- After a round, the part that holds `k` is left.
  remaining :
      (fuel : ℕ) (array : ℕ → A) (t : A) (k p left right : ℕ)
      → left ≤ k
      → k ≤ right
      → left < right
      → right - left < suc fuel
      → IsPivoted order is_order t left right array p
      → Below fuel k
      → (last : ℕ → A) × (k_smallest_partition order sample fuel array k
            (if leb p k then p + 1 else left)
            (if leb k p then p - 1 else right)
          ≡ ok last)
        × IsSelected order is_order k left right array last
  remaining fuel array t k p left right low high apart enough v below =
      let from = v.from in
      let to = v.to in
      elim (dec_lt p k) [
        | yes over ↦
            let e : leb p k ≡ true = ground arith in
            let f : leb k p ≡ false = ground arith in
            let (last, returns, s) = below array (p + 1) right (omega arith) high (omega arith) in
            (
              last,
              rw (e, f) returns,
              behind-IsSelected order is_order array last t k p left right over v s,
            )
        | no not_over ↦ elim (dec_lt k p) [
          | yes under ↦
              let e : leb p k ≡ false = ground arith in
              let f : leb k p ≡ true = ground arith in
              let (last, returns, s) = below array left (p - 1) low (omega arith) (omega arith) in
              (
                last,
                rw (e, f) returns,
                before-IsSelected order is_order array last t k p left right under v s,
              )
          | no not_under ↦
              let e : leb p k ≡ true = ground arith in
              let f : leb k p ≡ true = ground arith in
              let at_k : p ≡ k = omega arith in
              (
                array,
                rw (e, f) (empty_range fuel array k (p + 1) (p - 1) (omega arith) (omega arith)),
                here-IsSelected order is_order array t k left right
                    (subst (λ x. IsPivoted order is_order t left right array x) at_k v),
              )
        ]
      ]

  -- On a range that holds `k`, with an order and a sample around `k`, fuel beyond the range's length
  -- is enough: the function returns an array reached by exchanges within the range, and no element
  -- before `k` is above one from `k` on.
  pub k_smallest_partition-IsSelected :
      (fuel : ℕ) (array : ℕ → A) (k left right : ℕ)
      → left ≤ k
      → k ≤ right
      → right - left < fuel
      → Selects fuel array k left right
  unfolding k_smallest_partition
  k_smallest_partition-IsSelected zero array k left right low high enough = absurd (omega arith)
  k_smallest_partition-IsSelected (suc fuel) array k left right low high enough =
      let below : Below fuel k =
        λ array left right. k_smallest_partition-IsSelected fuel array k left right in
      elim (Bool-cases (ltb left right)) [
        | inr over ↦ (
          array,
          rw over refl,
          record {
            swaps = done array;
            selected = λ m n m_low m_high n_low n_high. absurd (ground arith);
          },
        )
        | inl apart ↦
            let apart' : left < right = ground arith in
            let (array1, samples, swaps1) = sampled fuel array k left right low high enough below in
            let (array2, p, pivots, v, swaps2) =
              partition_around-Pivots order is_order array1 k left right low high apart' in
            let (last, returns, s) =
              remaining fuel array2 (array1 k) k p left right low high apart' enough v below in
            (
              last,
              rw (apart, samples, pivots) returns,
              record {
                swaps =
                    Swaps-trans left right array array1 last swaps1
                      (Swaps-trans left right array1 array2 last swaps2 s.swaps);
                selected = s.selected;
              },
            )
      ]
