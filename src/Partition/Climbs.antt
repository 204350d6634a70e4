-- ===== src/Partition/Climbs.antt =====
-- The two inner loops of k-smallest-partition.ts end at an element that stops them.
use Prim.Native.Nat.{Ordering}
use native.Mathlib.Decide.{ℕ_discrete}
use whirlpools.Prelude.{
  ℕ, zero, suc, ◌+◌, ◌-◌, ◌≤◌, ◌<◌, ◌≡◌, refl, ap, ◌∙◌, arith, true, false, Bool-cases, inl, inr,
}
use whirlpools.Errors.{ok}
use whirlpools.Partition.{is_below, is_above, climb, descend}

module _ {A : Type 0} (order : A → A → Ordering) (array : ℕ → A) (t : A) where
  pub climb_stops :
      (fuel i stop : ℕ)
      → is_below order (array stop) t ≡ false
      → i ≤ stop
      → stop < i + fuel
      → (i' : ℕ) × (climb order fuel array t i ≡ ok i')
        × (i ≤ i')
        × (i' ≤ stop)
        × (is_below order (array i') t ≡ false)
        × ((m : ℕ) → i ≤ m → m < i' → is_below order (array m) t ≡ true)
  unfolding climb
  climb_stops zero i stop stops before enough = absurd (omega arith)
  climb_stops (suc fuel) i stop stops before enough =
      elim (Bool-cases (is_below order (array i) t)) [
        | inr here ↦
            (i, rw here refl, omega arith, before, here, λ m from below. absurd (omega arith))
        | inl on ↦
            let other : i < stop = differ i stop on stops before in
            let (i', ends, past, within, stopped, passed) =
              climb_stops fuel (i + 1) stop stops (omega arith) (omega arith) in
            (
              i',
              rw on ends,
              omega arith,
              within,
              stopped,
              λ m from below. elim (ℕ_discrete m i) [
                | yes same ↦ ap (λ x. is_below order (array x) t) same ∙ on
                | no later ↦ passed m (omega arith) below
              ],
            )
      ]
    where
      differ :
          (i stop : ℕ)
          → is_below order (array i) t ≡ true
          → is_below order (array stop) t ≡ false
          → i ≤ stop
          → i < stop
      differ i stop on stops before = elim (ℕ_discrete i stop) [
        | yes same ↦ cc (ap (λ x. is_below order (array x) t) same)
        | no other ↦ omega arith
      ]

  pub descend_stops :
      (fuel j stop : ℕ)
      → is_above order (array stop) t ≡ false
      → stop ≤ j
      → j < stop + fuel
      → (j' : ℕ) × (descend order fuel array t j ≡ ok j')
        × (stop ≤ j')
        × (j' ≤ j)
        × (is_above order (array j') t ≡ false)
        × ((m : ℕ) → j' < m → m ≤ j → is_above order (array m) t ≡ true)
  unfolding descend
  descend_stops zero j stop stops before enough = absurd (omega arith)
  descend_stops (suc fuel) j stop stops before enough =
      elim (Bool-cases (is_above order (array j) t)) [
        | inr here ↦
            (j, rw here refl, before, omega arith, here, λ m from below. absurd (omega arith))
        | inl on ↦
            let other : stop < j = differ j stop on stops before in
            let (j', ends, past, within, stopped, passed) =
              descend_stops fuel (j - 1) stop stops (omega arith) (omega arith) in
            (
              j',
              rw on ends,
              past,
              omega arith,
              stopped,
              λ m from below. elim (ℕ_discrete m j) [
                | yes same ↦ ap (λ x. is_above order (array x) t) same ∙ on
                | no later ↦ passed m from (omega arith)
              ],
            )
      ]
    where
      differ :
          (j stop : ℕ)
          → is_above order (array j) t ≡ true
          → is_above order (array stop) t ≡ false
          → stop ≤ j
          → stop < j
      differ j stop on stops before = elim (ℕ_discrete j stop) [
        | yes same ↦ cc (ap (λ x. is_above order (array x) t) same)
        | no other ↦ omega arith
      ]
