-- ===== src/Router/Requests/Views.antt =====
-- The quote of a path in a quote map (router/quote-map.ts), by its percent and its index.
use whirlpools.Prelude.{
  ℕ, zero, suc, ◌==◌, ◌≡◌, ◌≢◌, refl, ap, arith, true, false, Option, none, some, List, [], ◌∷◌,
  set, replicate, Bool-cases, inl, inr,
}
use whirlpools.Router.Requests.{entry_at, put_entry, item_at}

module _ {V : Type 0} where
  pub entry_at-put_self : (k : ℕ) (v : V) (m : List (ℕ × V)) → entry_at k (put_entry k v m) ≡ some v
  unfolding entry_at put_entry
  entry_at-put_self k v [] = let e : (k == k) ≡ true = ground arith in rw e refl
  entry_at-put_self k v ((j, w) ∷ m) = elim (Bool-cases (j == k)) [
    | inl same ↦ rw (same, entry_at, same) refl
    | inr other ↦ rw (other, entry_at, other) (entry_at-put_self k v m)
  ]

  pub entry_at-put_other :
      (k i : ℕ) (v : V) (m : List (ℕ × V)) → k ≢ i → entry_at i (put_entry k v m) ≡ entry_at i m
  unfolding entry_at put_entry
  entry_at-put_other k i v [] apart = let e : (k == i) ≡ false = ground arith in rw e refl
  entry_at-put_other k i v ((j, w) ∷ m) apart =
      let ih = entry_at-put_other k i v m apart in
      elim (Bool-cases (j == k)) [
        | inl same ↦ let e : (j == i) ≡ false = ground arith in rw (same, entry_at, e) refl
        | inr other ↦ rw other (ground (arith, ih))
      ]

  pub item_at-set_other :
      (xs : List (Option V)) (i j : ℕ) (x : Option V)
      → i ≢ j
      → item_at (set xs i x) j ≡ item_at xs j
  item_at-set_other [] i j x apart = refl
  item_at-set_other (y ∷ ys) zero zero x apart = absurd (apart refl)
  item_at-set_other (y ∷ ys) zero (suc j) x apart = refl
  item_at-set_other (y ∷ ys) (suc i) zero x apart = refl
  item_at-set_other (y ∷ ys) (suc i) (suc j) x apart =
      item_at-set_other ys i j x (λ e. apart (ap suc e))

  -- What is read where it was written is what was written.
  pub item_at-set_self :
      (xs : List (Option V)) (i : ℕ) (x : Option V) {y : V}
      → item_at (set xs i x) i ≡ some y
      → x ≡ some y
  item_at-set_self [] i x e = cc
  item_at-set_self (z ∷ zs) zero x e = e
  item_at-set_self (z ∷ zs) (suc i) x e = item_at-set_self zs i x e

  pub item_at-replicate : (n i : ℕ) → item_at {V = V} (replicate n none) i ≡ none
  item_at-replicate zero i = refl
  item_at-replicate (suc n) zero = refl
  item_at-replicate (suc n) (suc i) = item_at-replicate n i

  -- `quoteMap[percent]?.[pathIndex]`
  abbrev pub item_of : Option (List (Option V)) → ℕ → Option V
  item_of none i = none
  item_of (some slots) i = item_at slots i

  abbrev pub slot_at : List (ℕ × List (Option V)) → ℕ → ℕ → Option V
  slot_at m p i = item_of (entry_at p m) i

module _ {V : Type 0} where
  pub slot_at-put_self :
      (m : List (ℕ × List (Option V))) (p i : ℕ) (slots : List (Option V))
      → slot_at (put_entry p slots m) p i ≡ item_at slots i
  slot_at-put_self m p i slots = rw (entry_at-put_self p slots m) refl

  pub slot_at-put_other :
      (m : List (ℕ × List (Option V))) (p k i : ℕ) (slots : List (Option V))
      → p ≢ k
      → slot_at (put_entry p slots m) k i ≡ slot_at m k i
  slot_at-put_other m p k i slots apart = rw (entry_at-put_other p k slots m apart) refl
