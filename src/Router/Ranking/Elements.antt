-- ===== src/Router/Ranking/Elements.antt =====
-- Lists and the arrays of their elements, and what the sort of the routes keeps.
use mathlib.Core.List.{Memᴰ}
use mathlib.Core.List.Memᴰ
use native.Mathlib.Decide.{ℕ_discrete}
use whirlpools.Prelude.{
  ℕ, zero, suc, ◌≤◌, ◌<◌, ◌≡◌, refl, sym, ap, ◌∙◌, arith, Bool, List, [], ◌∷◌, length, Bool-cases,
  inl, inr,
}
use whirlpools.Prelude.Predicates.{All}
use whirlpools.Partition.{swap}
use whirlpools.Partition.Swaps.{Swaps, done, exchanged, swap_first, swap_second, swap_third}
use whirlpools.Router.Quotes.{insert_by, sort_by}
use whirlpools.Router.Ranking.{element, front}

module _ {A : Type 0} where
  pub element-Memᴰ :
      (first : A) (xs : List A) (i : ℕ) → i < length xs → Memᴰ (element first xs i) xs
  element-Memᴰ first [] i within = absurd (omega arith)
  element-Memᴰ first (x ∷ xs) zero within = Memᴰ.head refl
  element-Memᴰ first (x ∷ xs) (suc i) within = Memᴰ.tail (element-Memᴰ first xs i (omega arith))

  pub Memᴰ-element :
      (first y : A) (xs : List A) → Memᴰ y xs → (i : ℕ) × (i < length xs) × (element first xs i ≡ y)
  Memᴰ-element first y [] m = absurd (Memᴰ.not-nil m)
  Memᴰ-element first y (x ∷ xs) m = elim (Memᴰ.cases_cons m) [
    | inl here ↦ (0, omega arith, sym here)
    | inr later ↦ let (i, within, is) = Memᴰ-element first y xs later in (suc i, omega arith, is)
  ]

  pub All-front {κ} :
      (P : A → Type κ) (n : ℕ) (array : ℕ → A)
      → ((i : ℕ) → i < n → P (array i))
      → All P (front n array)
  All-front P zero array all = tt
  All-front P (suc n) array all = (
    all 0 (omega arith),
    All-front P n (λ i. array (suc i)) (λ i within. all (suc i) (omega arith)),
  )

  pub front-Memᴰ : (n : ℕ) (array : ℕ → A) (i : ℕ) → i < n → Memᴰ (array i) (front n array)
  front-Memᴰ zero array i within = absurd (omega arith)
  front-Memᴰ (suc n) array zero within = Memᴰ.head refl
  front-Memᴰ (suc n) array (suc i) within =
      Memᴰ.tail (front-Memᴰ n (λ i. array (suc i)) i (omega arith))

  pub length-front : (n : ℕ) (array : ℕ → A) → length (front n array) ≡ n
  length-front zero array = refl
  length-front (suc n) array = ap suc (length-front n (λ i. array (suc i)))

  -- Exchanges lose no element of the range.
  pub Swaps-found :
      (left right : ℕ) (a b : ℕ → A)
      → Swaps left right a b
      → (m : ℕ) → left ≤ m
      → m ≤ right
      → (n : ℕ) × (left ≤ n) × (n ≤ right) × (b n ≡ a m)
  Swaps-found left right a b (done _) m low high = (m, low, high, refl)
  Swaps-found left right a b (exchanged _ _ i j il ir jl jr rest) m low high =
      let later = Swaps-found left right (swap a i j) b rest in
      elim (ℕ_discrete m i) [
        | yes at_i ↦
            let (n, from, to, is) = later j jl jr in
            (n, from, to, is ∙ swap_second a i j ∙ ap a (sym at_i))
        | no not_i ↦ elim (ℕ_discrete m j) [
          | yes at_j ↦
              let (n, from, to, is) = later i il ir in
              (n, from, to, is ∙ swap_first a i j ∙ ap a (sym at_j))
          | no not_j ↦
              let (n, from, to, is) = later m low high in
              (n, from, to, is ∙ swap_third a i j m not_i not_j)
        ]
      ]

  module _ (before : A → A → Bool) where
    insert_by-Memᴰ : (x y : A) (xs : List A) → Memᴰ y (x ∷ xs) → Memᴰ y (insert_by before x xs)
    unfolding insert_by
    insert_by-Memᴰ x y [] m = m
    insert_by-Memᴰ x y (z ∷ zs) m = elim (Bool-cases (before x z)) [
      | inl goes ↦ rw goes m
      | inr stays ↦ rw stays (elim (Memᴰ.cases_cons m) [
        | inl here ↦ Memᴰ.tail (insert_by-Memᴰ x y zs (Memᴰ.head here))
        | inr later ↦ elim (Memᴰ.cases_cons later) [
          | inl next ↦ Memᴰ.head next
          | inr further ↦ Memᴰ.tail (insert_by-Memᴰ x y zs (Memᴰ.tail further))
        ]
      ])
    ]

    pub sort_by-Memᴰ : (y : A) (xs : List A) → Memᴰ y xs → Memᴰ y (sort_by before xs)
    unfolding sort_by
    sort_by-Memᴰ y [] m = m
    sort_by-Memᴰ y (x ∷ xs) m = elim (Memᴰ.cases_cons m) [
      | inl here ↦ insert_by-Memᴰ x y (sort_by before xs) (Memᴰ.head here)
      | inr later ↦ insert_by-Memᴰ x y (sort_by before xs) (Memᴰ.tail (sort_by-Memᴰ y xs later))
    ]

    length-insert_by : (x : A) (xs : List A) → length (insert_by before x xs) ≡ suc (length xs)
    unfolding insert_by
    length-insert_by x [] = refl
    length-insert_by x (z ∷ zs) = elim (Bool-cases (before x z)) [
      | inl goes ↦ rw goes refl
      | inr stays ↦ rw stays (ap suc (length-insert_by x zs))
    ]

    pub length-sort_by : (xs : List A) → length (sort_by before xs) ≡ length xs
    unfolding sort_by
    length-sort_by [] = refl
    length-sort_by (x ∷ xs) = length-insert_by x (sort_by before xs) ∙ ap suc (length-sort_by xs)
