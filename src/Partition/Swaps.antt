-- ===== src/Partition/Swaps.antt =====
-- The orders and the exchanges that k-smallest-partition.ts works by.
use Prim.Native.Nat.{Ordering}
use native.Mathlib.Decide.{ℕ_discrete}
use whirlpools.Prelude.{
  ℕ, ◌≤◌, ◌<◌, ◌≡◌, ◌≢◌, ◌⊎◌, refl, sym, subst, ap, ◌∙◌, arith, true, false, ◌==◌, inl, inr,
}
use whirlpools.Partition.{swap, is_below, is_above, is_same}

-- A comparison with the signs of an order.
pub record IsOrder {A : Type 0} (order : A → A → Ordering) : Type 0 where
  pub same : (a : A) → is_same order a a ≡ true
  pub flip : (a b : A) → is_above order a b ≡ is_below order b a
  pub trans :
      (a b c : A)
      → is_above order a b ≡ false
      → is_above order b c ≡ false
      → is_above order a c ≡ false

module _ {A : Type 0} where
  pub swap_first : (array : ℕ → A) (i j : ℕ) → swap array i j i ≡ array j
  unfolding swap
  swap_first array i j = elim (ℕ_discrete i j) [
    | yes same ↦ let e : (i == j) ≡ true = ground arith in rw e (ap array same)
    | no other ↦
        let e : (i == j) ≡ false = ground arith in
        let f : (i == i) ≡ true = ground arith in rw (e, f) refl
  ]

  pub swap_second : (array : ℕ → A) (i j : ℕ) → swap array i j j ≡ array i
  unfolding swap
  swap_second array i j = let f : (j == j) ≡ true = ground arith in rw f refl

  pub swap_third : (array : ℕ → A) (i j k : ℕ) → k ≢ i → k ≢ j → swap array i j k ≡ array k
  unfolding swap
  swap_third array i j k not_i not_j =
      let e : (k == j) ≡ false = ground arith in
      let f : (k == i) ≡ false = ground arith in rw (e, f) refl

  -- A sequence of exchanges of elements from `left` to `right`.
  pub data Swaps (left right : ℕ) : (ℕ → A) → (ℕ → A) → Type 0 where
    done : (array : ℕ → A) → Swaps left right array array
    exchanged :
        (array last : ℕ → A) (i j : ℕ)
        → left ≤ i
        → i ≤ right
        → left ≤ j
        → j ≤ right
        → Swaps left right (swap array i j) last
        → Swaps left right array last

  pub Swaps-trans :
      (left right : ℕ) (a b c : ℕ → A)
      → Swaps left right a b
      → Swaps left right b c
      → Swaps left right a c
  Swaps-trans left right a b c (done _) more = more
  Swaps-trans left right a b c (exchanged _ _ i j il ir jl jr rest) more =
      exchanged a c i j il ir jl jr (Swaps-trans left right (swap a i j) b c rest more)

  -- An element outside the range is left alone.
  pub Swaps-outside :
      (left right : ℕ) (a b : ℕ → A)
      → Swaps left right a b
      → (m : ℕ) → (m < left) ⊎ (right < m)
      → b m ≡ a m
  Swaps-outside left right a b (done _) m out = refl
  Swaps-outside left right a b (exchanged _ _ i j il ir jl jr rest) m out =
      Swaps-outside left right (swap a i j) b rest m out
      ∙ swap_third a i j m (λ e. away m out i il ir e) (λ e. away m out j jl jr e)
    where
      away : (m : ℕ) → (m < left) ⊎ (right < m) → (i : ℕ) → left ≤ i → i ≤ right → m ≡ i → ⊥
      away m (inl low) i from to e = omega arith
      away m (inr high) i from to e = omega arith

  -- A property of all elements of the range is kept.
  pub Swaps-inside :
      (left right : ℕ) (P : A → Type 0) (a b : ℕ → A)
      → Swaps left right a b
      → ((m : ℕ) → left ≤ m → m ≤ right → P (a m))
      → (m : ℕ) → left ≤ m
      → m ≤ right
      → P (b m)
  Swaps-inside left right P a b (done _) all = all
  Swaps-inside left right P a b (exchanged _ _ i j il ir jl jr rest) all =
      Swaps-inside left right P (swap a i j) b rest (λ m from to. elim (ℕ_discrete m i) [
        | yes at_i ↦ subst P (sym (ap (swap a i j) at_i ∙ swap_first a i j)) (all j jl jr)
        | no not_i ↦ elim (ℕ_discrete m j) [
          | yes at_j ↦ subst P (sym (ap (swap a i j) at_j ∙ swap_second a i j)) (all i il ir)
          | no not_j ↦ subst P (sym (swap_third a i j m not_i not_j)) (all m from to)
        ]
      ])

  pub Swaps-wider :
      (left right low high : ℕ) (a b : ℕ → A)
      → low ≤ left
      → right ≤ high
      → Swaps left right a b
      → Swaps low high a b
  Swaps-wider left right low high a b below above (done _) = done a
  Swaps-wider left right low high a b below above (exchanged _ _ i j il ir jl jr rest) =
      exchanged a b i j (omega arith) (omega arith) (omega arith) (omega arith)
        (Swaps-wider left right low high (swap a i j) b below above rest)

lt_not_gt :
    (o : Ordering)
    → (elim o [ Ordering.lt ↦ true | _ ↦ false ]) ≡ true
    → (elim o [ Ordering.gt ↦ true | _ ↦ false ]) ≡ false
lt_not_gt Ordering.lt h = refl
lt_not_gt Ordering.eq h = refl
lt_not_gt Ordering.gt h = cc

gt_not_lt :
    (o : Ordering)
    → (elim o [ Ordering.gt ↦ true | _ ↦ false ]) ≡ true
    → (elim o [ Ordering.lt ↦ true | _ ↦ false ]) ≡ false
gt_not_lt Ordering.lt h = cc
gt_not_lt Ordering.eq h = refl
gt_not_lt Ordering.gt h = refl

eq_not_other :
    (o : Ordering)
    → (elim o [ Ordering.eq ↦ true | _ ↦ false ]) ≡ true
    → ((elim o [ Ordering.lt ↦ true | _ ↦ false ]) ≡ false)
      × ((elim o [ Ordering.gt ↦ true | _ ↦ false ]) ≡ false)
eq_not_other Ordering.lt h = cc
eq_not_other Ordering.eq h = (refl, refl)
eq_not_other Ordering.gt h = cc

module _ {A : Type 0} (order : A → A → Ordering) where
  abbrev pub NotAbove : A → A → Type 0
  NotAbove a b = is_above order a b ≡ false

module _ {A : Type 0} (order : A → A → Ordering) (is_order : IsOrder order) where
  pub not_below : (a t : A) → is_below order a t ≡ false → NotAbove order t a
  not_below a t h = is_order.flip t a ∙ h

  pub below_lem : (a t : A) → is_below order a t ≡ true → NotAbove order a t
  below_lem a t h = lt_not_gt (order a t) h

  pub above_lem : (a t : A) → is_above order a t ≡ true → NotAbove order t a
  above_lem a t h = is_order.flip t a ∙ gt_not_lt (order a t) h

  -- An element that compares as the same stands on both sides.
  pub same_lem : (a t : A) → is_same order a t ≡ true → NotAbove order a t × NotAbove order t a
  same_lem a t h =
      let (not_lt, not_gt) = eq_not_other (order a t) h in (not_gt, is_order.flip t a ∙ not_lt)
