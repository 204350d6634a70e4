-- ===== src/TickUtil/Nearest.antt =====
-- The search for an initialized tick within one tick array (tick-utils.ts).
use native.Mathlib.Decide.{ℕ_discrete}
use whirlpools.Prelude.{
  ℕ, zero, suc, ◌+◌, ◌≤◌, ◌<◌, ◌≡◌, ◌⊎◌, inl, inr, refl, ap, ◌∙◌, arith, Bool, true, false, Option,
  none, some, List, length, get_elem?, leb, ltb, Bool-cases, ℤ, pos, ◌+ℤ◌, sub_ℕ,
}
use whirlpools.Errors.{Result, ok}
use whirlpools.AnchorTypes.{TickData, TickArrayData}
use whirlpools.TickUtil.Arrays.{
  left, right, tick_index_to_inner_index, inner_index_to_tick_index, is_initialized,
  step_to_initialized, find_initialized_tick, find_previous_initialized_tick_index,
  find_next_initialized_tick_index_within,
}

module _ (ticks : List TickData) where
  abbrev pub initialized_at : ℕ → Bool
  initialized_at i = is_initialized (get_elem? ticks i)

  -- No tick from `n` on and before `end` is initialized.
  abbrev pub ClearFrom : ℕ → ℕ → Type 0
  ClearFrom n end = (k : ℕ) → n ≤ k → k < end → initialized_at k ≡ false

  abbrev Rightwards : ℕ → Result (Option ℤ) → Type 0
  Rightwards n result =
      ((result ≡ ok none) × ClearFrom n (length ticks))
      ⊎ ((j : ℕ) × (result ≡ ok (some (pos j)))
          × (n ≤ j)
          × (j < length ticks)
          × (initialized_at j ≡ true)
          × ClearFrom n j)

  abbrev Leftwards : ℕ → Result (Option ℤ) → Type 0
  Leftwards n result =
      ((result ≡ ok none) × ClearFrom 0 (suc n))
      ⊎ ((j : ℕ) × (result ≡ ok (some (pos j)))
          × (j ≤ n)
          × (initialized_at j ≡ true)
          × ClearFrom (suc j) (suc n))

  ClearFrom-first : (n end : ℕ) → initialized_at n ≡ false → ClearFrom (n + 1) end → ClearFrom n end
  ClearFrom-first n end not_here later k from before = elim (ℕ_discrete k n) [
    | yes same ↦ ap initialized_at same ∙ not_here
    | no other ↦ later k (omega arith) before
  ]

  ClearFrom-last :
      (start n : ℕ) → initialized_at n ≡ false → ClearFrom start n → ClearFrom start (suc n)
  ClearFrom-last start n not_here earlier k from before = elim (ℕ_discrete k n) [
    | yes same ↦ ap initialized_at same ∙ not_here
    | no other ↦ earlier k from (omega arith)
  ]

  zero-leb : (n : ℕ) → leb 0 n ≡ true
  zero-leb n = ground arith

  Rightwards-first :
      (n : ℕ) (result : Result (Option ℤ))
      → initialized_at n ≡ false
      → Rightwards (n + 1) result
      → Rightwards n result
  Rightwards-first n result not_here (inl (is_none, clear)) =
      inl (is_none, ClearFrom-first n (length ticks) not_here clear)
  Rightwards-first n result not_here (inr (j, is_j, past, inside, is_on, clear)) =
      inr (j, is_j, omega arith, inside, is_on, ClearFrom-first n j not_here clear)

  round-Rightwards :
      (fuel n : ℕ)
      → (n < length ticks → Rightwards (n + 1) (step_to_initialized ticks right fuel (pos (n + 1))))
      → Rightwards n (step_to_initialized ticks right (suc fuel) (pos n))
  unfolding step_to_initialized ◌+ℤ◌
  round-Rightwards fuel n goes_on = elim (Bool-cases (ltb n (length ticks))) [
    | inr outside ↦ rw (zero-leb n, outside) (inl (refl, λ k from before. absurd (ground arith)))
    | inl inside ↦
        rw (zero-leb n, inside)
          (elim (Bool-cases (initialized_at n)) [
            | inl is_on ↦ rw is_on (
                inr (
                  n,
                  refl,
                  omega arith,
                  ground arith,
                  is_on,
                  λ k from before. absurd (omega arith),
                ))
            | inr is_off ↦ rw is_off (Rightwards-first n _ is_off (goes_on (ground arith)))
          ])
  ]

  step-Rightwards :
      (fuel n : ℕ)
      → length ticks ≤ n + fuel
      → Rightwards n (step_to_initialized ticks right (suc fuel) (pos n))
  step-Rightwards zero n enough = round-Rightwards zero n (λ inside. absurd (omega arith))
  step-Rightwards (suc fuel) n enough =
      round-Rightwards (suc fuel) n (λ inside. step-Rightwards fuel (n + 1) (omega arith))

  below : (n : ℕ) → n < length ticks → ltb n (length ticks) ≡ true
  below n h = ground arith

  Leftwards-last :
      (n : ℕ) (result : Result (Option ℤ))
      → initialized_at (suc n) ≡ false
      → Leftwards n result
      → Leftwards (suc n) result
  Leftwards-last n result not_here (inl (is_none, clear)) =
      inl (is_none, ClearFrom-last 0 (suc n) not_here clear)
  Leftwards-last n result not_here (inr (j, is_j, past, is_on, clear)) =
      inr (j, is_j, omega arith, is_on, ClearFrom-last (suc j) (suc n) not_here clear)

  one_left : (n : ℕ) → sub_ℕ (suc n) 1 ≡ pos n
  one_left n = ground arith

  round-Leftwards :
      (fuel n : ℕ)
      → suc n < length ticks
      → Leftwards n (step_to_initialized ticks left fuel (pos n))
      → Leftwards (suc n) (step_to_initialized ticks left (suc fuel) (pos (suc n)))
  unfolding step_to_initialized ◌+ℤ◌
  round-Leftwards fuel n inside goes_on =
      rw (zero-leb (suc n), below (suc n) inside)
        (elim (Bool-cases (initialized_at (suc n))) [
          | inl is_on ↦
              rw is_on
                (inr (suc n, refl, omega arith, is_on, λ k from before. absurd (omega arith)))
          | inr is_off ↦ rw (is_off, one_left n) (Leftwards-last n _ is_off goes_on)
        ])

  first-Leftwards :
      (fuel : ℕ)
      → 0 < length ticks
      → Leftwards 0 (step_to_initialized ticks left (suc (suc fuel)) (pos 0))
  unfolding step_to_initialized ◌+ℤ◌
  first-Leftwards fuel inside = rw (below zero inside) (elim (Bool-cases (initialized_at 0)) [
    | inl is_on ↦
        rw is_on (inr (0, refl, omega arith, is_on, λ k from before. absurd (omega arith)))
    | inr is_off ↦
        rw is_off (inl (refl, ClearFrom-last 0 0 is_off (λ k from before. absurd (omega arith))))
  ])

  step-Leftwards :
      (fuel n : ℕ)
      → n < length ticks
      → n ≤ fuel
      → Leftwards n (step_to_initialized ticks left (suc (suc fuel)) (pos n))
  step-Leftwards fuel zero inside enough = first-Leftwards fuel inside
  step-Leftwards zero (suc n) inside enough = absurd (omega arith)
  step-Leftwards (suc fuel) (suc n) inside enough =
      round-Leftwards (suc (suc fuel)) n inside (step-Leftwards fuel n (omega arith) (omega arith))

  all-Leftwards :
      (size n : ℕ)
      → size ≡ length ticks
      → n < length ticks
      → Leftwards n (step_to_initialized ticks left (suc size) (pos n))
  all-Leftwards zero n is_size inside = absurd (omega arith)
  all-Leftwards (suc size) n is_size inside = step-Leftwards size n inside (omega arith)

-- The tick index of a place of an array.
abbrev pub index_at : {Key : Type 0} → TickArrayData Key → ℕ → ℕ → ℤ
index_at account tick_spacing j =
    inner_index_to_tick_index account.start_tick_index (pos j) tick_spacing

module _ {Key : Type 0} (account : TickArrayData Key) (current_tick_index : ℤ) (tick_spacing c : ℕ)
    (at_c : tick_index_to_inner_index account.start_tick_index current_tick_index tick_spacing
      ≡ pos c)
    (inside : c < length account.ticks) where
  -- Where the current tick is at a place of the array, the search to the left gives the first
  -- initialized tick at the place or before it, and the search to the right the first one after it,
  -- each at its tick index; they give nothing exactly where there is no such tick.
  pub find_initialized_tick-nearest :
      (((find_previous_initialized_tick_index account current_tick_index tick_spacing ≡ ok none)
          × ClearFrom account.ticks 0 (suc c))
        ⊎ ((j : ℕ) × (find_previous_initialized_tick_index account current_tick_index tick_spacing
              ≡ ok (some (index_at account tick_spacing j)))
            × (j ≤ c)
            × (initialized_at account.ticks j ≡ true)
            × ClearFrom account.ticks (suc j) (suc c)))
      × (((find_next_initialized_tick_index_within account current_tick_index tick_spacing
              ≡ ok none)
            × ClearFrom account.ticks (suc c) (length account.ticks))
          ⊎ ((j : ℕ) × (find_next_initialized_tick_index_within account current_tick_index
                  tick_spacing
                ≡ ok (some (index_at account tick_spacing j)))
              × (c < j)
              × (initialized_at account.ticks j ≡ true)
              × ClearFrom account.ticks (suc c) j))
  unfolding find_previous_initialized_tick_index find_next_initialized_tick_index_within
      find_initialized_tick ◌+ℤ◌
  find_initialized_tick-nearest = (
    elim (all-Leftwards account.ticks (length account.ticks) c refl inside) [
      | inl (is_none, clear) ↦ inl (rw (at_c, is_none) refl, clear)
      | inr (j, is_j, before, is_on, clear) ↦ inr (j, rw (at_c, is_j) refl, before, is_on, clear)
    ],
    elim (step-Rightwards account.ticks (length account.ticks) (c + 1) (omega arith)) [
      | inl (is_none, clear) ↦
          inl (rw (at_c, is_none) refl, λ k from before. clear k (omega arith) before)
      | inr (j, is_j, after, in_array, is_on, clear) ↦ inr (
        j,
        rw (at_c, is_j) refl,
        omega arith,
        is_on,
        λ k from before. clear k (omega arith) before,
      )
    ],
  )
