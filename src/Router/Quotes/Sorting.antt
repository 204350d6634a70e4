-- ===== src/Router/Quotes/Sorting.antt =====
-- What the sort of quote-map.ts keeps, and that it sorts.
use mathlib.Core.List.{Memᴰ}
use mathlib.Core.List.Memᴰ
use whirlpools.Prelude.{
  refl, ap, ◌⊎◌, ℕ, zero, suc, ◌≤◌, ◌≡◌, arith, Bool, true, false, List, [], ◌∷◌, length, take,
  Bool-cases, inl, inr,
}
use whirlpools.Prelude.Predicates.{All, Pairwise, All-imp, All-Memᴰ}
use whirlpools.Router.Quotes.{insert_by, sort_by}

module _ {ℓ} {A : Type ℓ} (before : A → A → Bool) where
  module _ {κ} (P : A → Type κ) where
    All-insert_by : (x : A) (xs : List A) → P x → All P xs → All P (insert_by before x xs)
    unfolding insert_by
    All-insert_by x [] first all = (first, tt)
    All-insert_by x (y ∷ ys) first all = elim (Bool-cases (before x y)) [
      | inl goes ↦ rw goes (first, all)
      | inr stays ↦ rw stays (all.0, All-insert_by x ys first all.1)
    ]

    pub All-sort_by : (xs : List A) → All P xs → All P (sort_by before xs)
    unfolding sort_by
    All-sort_by [] all = tt
    All-sort_by (x ∷ xs) all = All-insert_by x (sort_by before xs) all.0 (All-sort_by xs all.1)

    pub All-take : (n : ℕ) (xs : List A) → All P xs → All P (take n xs)
    All-take zero xs all = tt
    All-take (suc n) [] all = tt
    All-take (suc n) (x ∷ xs) all = (all.0, All-take n xs all.1)

  -- Each element may stand before every later one.
  abbrev pub IsSorted : List A → Type 0
  IsSorted = Pairwise (λ x y. before x y ≡ true)

  module _ (total : (x y : A) → before x y ≡ false → before y x ≡ true)
      (trans : (x y z : A) → before x y ≡ true → before y z ≡ true → before x z ≡ true) where
    insert_by-IsSorted : (x : A) (xs : List A) → IsSorted xs → IsSorted (insert_by before x xs)
    unfolding insert_by
    insert_by-IsSorted x [] sorted = (tt, tt)
    insert_by-IsSorted x (y ∷ ys) sorted = elim (Bool-cases (before x y)) [
      | inl goes ↦ rw goes (
        (
          goes,
          All-imp (λ z. before y z ≡ true) (λ z. before x z ≡ true)
              (λ z later. trans x y z goes later) ys sorted.0,
        ),
        sorted,
      )
      | inr stays ↦ rw stays (
        All-insert_by (λ z. before y z ≡ true) x ys (total x y stays) sorted.0,
        insert_by-IsSorted x ys sorted.1,
      )
    ]

    pub sort_by-IsSorted : (xs : List A) → IsSorted (sort_by before xs)
    unfolding sort_by
    sort_by-IsSorted [] = tt
    sort_by-IsSorted (x ∷ xs) = insert_by-IsSorted x (sort_by before xs) (sort_by-IsSorted xs)

  pub take-IsSorted : (n : ℕ) (xs : List A) → IsSorted xs → IsSorted (take n xs)
  take-IsSorted zero xs sorted = tt
  take-IsSorted (suc n) [] sorted = tt
  take-IsSorted (suc n) (x ∷ xs) sorted =
      (All-take (λ y. before x y ≡ true) n xs sorted.0, take-IsSorted n xs sorted.1)

-- An element of a sorted list is among the first `n`, or they are `n` and may all stand before it.
pub take-others {ℓ} :
    {A : Type ℓ} (before : A → A → Bool) (n : ℕ) (xs : List A) (q : A)
    → IsSorted before xs
    → Memᴰ q xs
    → Memᴰ q (take n xs) ⊎ ((length (take n xs) ≡ n) × All (λ b. before b q ≡ true) (take n xs))
take-others before zero xs q sorted listed = inr (refl, tt)
take-others before (suc n) [] q sorted listed = absurd (Memᴰ.not-nil listed)
take-others before (suc n) (x ∷ xs) q sorted listed = elim (Memᴰ.cases_cons listed) [
  | inl here ↦ inl (Memᴰ.head here)
  | inr later ↦ elim (take-others before n xs q sorted.1 later) [
    | inl kept ↦ inl (Memᴰ.tail kept)
    | inr (many, all) ↦
        inr (ap suc many, (All-Memᴰ (λ y. before x y ≡ true) q xs sorted.0 later, all))
  ]
]

pub length-take_le {ℓ} : {A : Type ℓ} (n : ℕ) (xs : List A) → length (take n xs) ≤ n
length-take_le zero xs = omega arith
length-take_le (suc n) [] = omega arith
length-take_le (suc n) (x ∷ xs) = omega (arith, length-take_le n xs)
