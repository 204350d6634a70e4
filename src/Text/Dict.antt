-- ===== src/Text/Dict.antt =====
-- JavaScript objects with string keys, as association lists.
use mathlib.Core.List.{Memᴰ}
use mathlib.Core.List.Memᴰ
use whirlpools.Prelude.{
  ◌≡◌, ◌⊎◌, refl, sym, subst, ap, ◌∙◌, true, false, if◌then◌else◌, Option, none, some, is_defined,
  List, [], ◌∷◌, ◌++◌, inl, inr, Bool-cases, Option-cases,
}
use whirlpools.Text.{Text, text_eq, text_eq_self, eq_of_text_eq}

module _ {ℓ} {V : Type ℓ} where
  unfoldable pub lookup : Text → List (Text × V) → Option V
  lookup k [] = none
  lookup k ((j, v) ∷ m) = if text_eq j k then some v else lookup k m

  unfoldable pub put : Text → V → List (Text × V) → List (Text × V)
  put k v [] = (k, v) ∷ []
  put k v ((j, w) ∷ m) = if text_eq j k then (j, v) ∷ m else (j, w) ∷ put k v m

  pub lookup-put_self : (k : Text) (v : V) (m : List (Text × V)) → lookup k (put k v m) ≡ some v
  unfolding lookup put
  lookup-put_self k v [] = rw (text_eq_self k) refl
  lookup-put_self k v ((j, w) ∷ m) = elim (Bool-cases (text_eq j k)) [
    | inl same ↦ rw (same, same) refl
    | inr other ↦ rw (other, other) (lookup-put_self k v m)
  ]

  pub lookup-put_other :
      (k i : Text) (v : V) (m : List (Text × V))
      → text_eq k i ≡ false
      → lookup i (put k v m) ≡ lookup i m
  unfolding lookup put
  lookup-put_other k i v [] differs = rw differs refl
  lookup-put_other k i v ((j, w) ∷ m) differs = elim (Bool-cases (text_eq j k)) [
    | inl same ↦
        let j_differs : text_eq j i ≡ false =
          subst (λ t. text_eq t i ≡ false) (sym (eq_of_text_eq j k same)) differs in
        rw (same, j_differs) refl
    | inr other ↦ rw other (rw (lookup-put_other k i v m differs) refl)
  ]

-- `items || []`
abbrev pub or_empty {ℓ} : {A : Type ℓ} → Option (List A) → List A
or_empty none = []
or_empty (some items) = items

-- `m[k] || []`, for an object of arrays.
unfoldable pub items_at {ℓ} : {A : Type ℓ} → List (Text × List A) → Text → List A
items_at m k = or_empty (lookup k m)

pub items_at-put_self {ℓ} :
    {A : Type ℓ} (k : Text) (v : List A) (m : List (Text × List A)) → items_at (put k v m) k ≡ v
unfolding items_at
items_at-put_self k v m = ap or_empty (lookup-put_self k v m)

pub items_at-put_other {ℓ} :
    {A : Type ℓ} (k i : Text) (v : List A) (m : List (Text × List A))
    → text_eq k i ≡ false
    → items_at (put k v m) i ≡ items_at m i
unfolding items_at
items_at-put_other k i v m differs = ap or_empty (lookup-put_other k i v m differs)

-- `m[k].push(x)`
abbrev pub push_at {ℓ} : {A : Type ℓ} → Text → A → List (Text × List A) → List (Text × List A)
push_at k x m = put k (items_at m k ++ x ∷ []) m

module _ {ℓ} {A : Type ℓ} (k : Text) (x : A) (m : List (Text × List A)) where
  pub push_at_same :
      (i : Text) → text_eq k i ≡ true → items_at (push_at k x m) i ≡ items_at m i ++ x ∷ []
  push_at_same i same =
      subst (λ t. items_at (push_at k x m) t ≡ items_at m t ++ x ∷ []) (eq_of_text_eq k i same)
        (items_at-put_self k (items_at m k ++ x ∷ []) m)

  pub push_at_other : (i : Text) → text_eq k i ≡ false → items_at (push_at k x m) i ≡ items_at m i
  push_at_other i differs = items_at-put_other k i (items_at m k ++ x ∷ []) m differs

  pub push_at_cases :
      (e : A) (i : Text)
      → Memᴰ e (items_at (push_at k x m) i)
      → Memᴰ e (items_at m i) ⊎ ((k ≡ i) × (e ≡ x))
  push_at_cases e i is_there = elim (Bool-cases (text_eq k i)) [
    | inl same ↦
        elim (Memᴰ.append_cases (items_at m i) (subst (Memᴰ e) (push_at_same i same) is_there)) [
          | inl before ↦ inl before
          | inr last ↦ inr (eq_of_text_eq k i same, Memᴰ.eq_of_singleton last)
        ]
    | inr differs ↦ inl (subst (Memᴰ e) (push_at_other i differs) is_there)
  ]

  pub push_at_keeps :
      (e : A) (i : Text) → Memᴰ e (items_at m i) → Memᴰ e (items_at (push_at k x m) i)
  push_at_keeps e i is_there = elim (Bool-cases (text_eq k i)) [
    | inl same ↦ subst (Memᴰ e) (sym (push_at_same i same)) (Memᴰ.append_left (x ∷ []) is_there)
    | inr differs ↦ subst (Memᴰ e) (sym (push_at_other i differs)) is_there
  ]

  pub push_at_new : Memᴰ x (items_at (push_at k x m) k)
  push_at_new =
      subst (Memᴰ x) (sym (push_at_same k (text_eq_self k)))
        (Memᴰ.append_right (items_at m k) (Memᴰ.head refl))

defined_some {ℓ} : {V : Type ℓ} (o : Option V) (v : V) → o ≡ some v → is_defined o ≡ false → ⊥
defined_some none v e missing = cc
defined_some (some w) v e missing = cc

-- The empty list of a key that is not there.
pub items_at_missing {ℓ} :
    {A : Type ℓ} (m : List (Text × List A)) (k i : Text)
    → is_defined (lookup k m) ≡ false
    → items_at (put k [] m) i ≡ items_at m i
unfolding items_at
items_at_missing {A} m k i missing = elim (Bool-cases (text_eq k i)) [
  | inl same ↦ elim (Option-cases (lookup k m)) [
    | inl is_none ↦
        let e = eq_of_text_eq k i same in
        subst (λ t. items_at (put k [] m) t ≡ items_at m t) e
          (ap or_empty (lookup-put_self k [] m) ∙ sym (ap or_empty is_none))
    | inr found ↦ absurd (defined_some (lookup k m) found.0 found.1 missing)
  ]
  | inr differs ↦ items_at-put_other k i [] m differs
]
