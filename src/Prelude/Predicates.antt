-- ===== src/Prelude/Predicates.antt =====
-- Predicates on lists by recursion, and the Boolean test `some` of arrays.
use mathlib.Core.Path.{◌≡◌, refl, sym, ap, subst}
use mathlib.Core.Bool.{Bool, true, false, ◌||◌}
use mathlib.Core.Logic.{◌↔◌, inl, inr}
use mathlib.Core.List.{List, [], ◌∷◌, ◌++◌, map, reverse, reverse_aux, Memᴰ}
use mathlib.Core.List.Memᴰ
use native.Mathlib.Omega.{arith}
use whirlpools.Prelude.Tests.{if◌then◌else◌, Bool-cases}
use whirlpools.Prelude.Lists.{keys}

module _ {ℓ} {A : Type ℓ} where
  abbrev pub All {κ} : (A → Type κ) → List A → Type κ
  All P [] = Unit
  All P (x ∷ xs) = P x × All P xs

  -- Each element with each later one.
  abbrev pub Pairwise {κ} : (A → A → Type κ) → List A → Type κ
  Pairwise R [] = Unit
  Pairwise R (x ∷ xs) = All (R x) xs × Pairwise R xs

  -- `xs.some(test)`
  unfoldable pub any : (A → Bool) → List A → Bool
  any test [] = false
  any test (x ∷ xs) = test x || any test xs

  -- `xs.filter(test)`
  unfoldable pub filter : (A → Bool) → List A → List A
  filter test [] = []
  filter test (x ∷ xs) = let rest = filter test xs in if test x then x ∷ rest else rest

  pub All-append {κ} : (P : A → Type κ) (xs ys : List A) → All P xs → All P ys → All P (xs ++ ys)
  All-append P [] ys left right = right
  All-append P (x ∷ xs) ys left right = (left.0, All-append P xs ys left.1 right)

  pub Pairwise-snoc {κ} :
      (R : A → A → Type κ) (xs : List A) (y : A)
      → Pairwise R xs
      → All (λ x. R x y) xs
      → Pairwise R (xs ++ y ∷ [])
  Pairwise-snoc R [] y pairs all = (tt, tt)
  Pairwise-snoc R (x ∷ xs) y pairs all =
      (All-append (R x) xs (y ∷ []) pairs.0 (all.0, tt), Pairwise-snoc R xs y pairs.1 all.1)

  pub All-imp {κ κ'} :
      (P : A → Type κ) (Q : A → Type κ')
      → ((x : A) → P x → Q x)
      → (xs : List A) → All P xs
      → All Q xs
  All-imp P Q f [] all = tt
  All-imp P Q f (x ∷ xs) all = (f x all.0, All-imp P Q f xs all.1)

  pub All-both {κ κ'} :
      (P : A → Type κ) (Q : A → Type κ') (xs : List A)
      → All P xs
      → All Q xs
      → All (λ x. P x × Q x) xs
  All-both P Q [] all more = tt
  All-both P Q (x ∷ xs) all more = ((all.0, more.0), All-both P Q xs all.1 more.1)

  pub All-Memᴰ {κ} : (P : A → Type κ) (y : A) (xs : List A) → All P xs → Memᴰ y xs → P y
  All-Memᴰ P y [] all m = absurd (Memᴰ.not-nil m)
  All-Memᴰ P y (x ∷ xs) all m = elim (Memᴰ.cases_cons m) [
    | inl same ↦ subst P (sym same) all.0
    | inr later ↦ All-Memᴰ P y xs all.1 later
  ]

  -- No element passes a test that no element of the list passes.
  pub any-false :
      (test : A → Bool) (xs : List A) → any test xs ≡ false → All (λ x. test x ≡ false) xs
  unfolding any
  any-false test [] h = tt
  any-false test (x ∷ xs) h = (ground arith, any-false test xs (ground arith))

  pub any-Memᴰ :
      (test : A → Bool) (x : A) (xs : List A) → Memᴰ x xs → test x ≡ true → any test xs ≡ true
  unfolding any
  any-Memᴰ test x [] m h = absurd (Memᴰ.not-nil m)
  any-Memᴰ test x (y ∷ ys) m h = elim (Memᴰ.cases_cons m) [
    | inl same ↦ rw (← same, h)
    | inr later ↦ let found = any-Memᴰ test x ys later h in ground arith
  ]

  pub All-of_Memᴰ {κ} : (P : A → Type κ) (xs : List A) → ((x : A) → Memᴰ x xs → P x) → All P xs
  All-of_Memᴰ P [] f = tt
  All-of_Memᴰ P (x ∷ xs) f = (f x (Memᴰ.head refl), All-of_Memᴰ P xs (λ y m. f y (Memᴰ.tail m)))

  All-reverse_aux {κ} :
      (P : A → Type κ) (xs ys : List A) → All P xs → All P ys → All P (reverse_aux xs ys)
  All-reverse_aux P [] ys left right = right
  All-reverse_aux P (x ∷ xs) ys left right = All-reverse_aux P xs (x ∷ ys) left.1 (left.0, right)

  pub All-reverse {κ} : (P : A → Type κ) (xs : List A) → All P xs → All P (reverse xs)
  All-reverse P xs all = All-reverse_aux P xs [] all tt

pub Memᴰ-keys {ℓ κ} :
    {K : Type ℓ} {A : Type κ} (k : K) (a : A) (entries : List (K × A))
    → Memᴰ (k, a) entries
    → Memᴰ k (keys entries)
Memᴰ-keys k a [] m = absurd (Memᴰ.not-nil m)
Memᴰ-keys k a ((j, b) ∷ entries) m = elim (Memᴰ.cases_cons m) [
  | inl same ↦ Memᴰ.head (ap (λ entry. entry.0) same)
  | inr later ↦ Memᴰ.tail (Memᴰ-keys k a entries later)
]

pub any-append {ℓ} :
    {A : Type ℓ} (test : A → Bool) (xs : List A) (y : A)
    → any test (xs ++ y ∷ []) ≡ (any test xs || test y)
unfolding any
any-append test [] y = ground arith
any-append test (x ∷ xs) y = let rest = any-append test xs y in ground arith

module _ {ℓ} {A : Type ℓ} (test : A → Bool) where
  pub filter-Memᴰ : (x : A) (xs : List A) → Memᴰ x (filter test xs) ↔ (Memᴰ x xs × (test x ≡ true))
  unfolding filter
  filter-Memᴰ x [] = (λ m. absurd (Memᴰ.not-nil m), λ m. absurd (Memᴰ.not-nil m.0))
  filter-Memᴰ x (y ∷ ys) = (
    λ m. elim (Bool-cases (test y)) [
      | inl passes ↦ elim (Memᴰ.cases_cons (rw passes at m)) [
        | inl same ↦ (Memᴰ.head same, rw same passes)
        | inr later ↦ let (there, holds) = (filter-Memᴰ x ys).0 later in (Memᴰ.tail there, holds)
      ]
      | inr fails ↦
          let (there, holds) = (filter-Memᴰ x ys).0 (rw fails at m) in (Memᴰ.tail there, holds)
    ],
    λ (m, holds). elim (Memᴰ.cases_cons m) [
      | inl same ↦
          let passes : test y ≡ true = subst (λ z. test z ≡ true) same holds in
          rw passes (Memᴰ.head same)
      | inr later ↦
          let there = (filter-Memᴰ x ys).1 (later, holds) in
          elim (Bool-cases (test y)) [
            | inl passes ↦ rw passes (Memᴰ.tail there)
            | inr fails ↦ rw fails there
          ]
    ],
  )

  -- An element that passes, where some element does.
  pub any-some : (xs : List A) → any test xs ≡ true → (x : A) × Memᴰ x xs × (test x ≡ true)
  unfolding any
  any-some [] h = cc
  any-some (x ∷ xs) h = elim (Bool-cases (test x)) [
    | inl passes ↦ (x, Memᴰ.head refl, passes)
    | inr fails ↦ let (y, m, passes) = any-some xs (ground arith) in (y, Memᴰ.tail m, passes)
  ]

pub map-Memᴰ {ℓ κ} :
    {A : Type ℓ} {B : Type κ} (f : A → B) (y : B) (xs : List A)
    → Memᴰ y (map f xs)
    → (x : A) × Memᴰ x xs × (y ≡ f x)
map-Memᴰ f y [] m = absurd (Memᴰ.not-nil m)
map-Memᴰ f y (x ∷ xs) m = elim (Memᴰ.cases_cons m) [
  | inl same ↦ (x, Memᴰ.head refl, same)
  | inr later ↦ let (z, there, is) = map-Memᴰ f y xs later in (z, Memᴰ.tail there, is)
]
