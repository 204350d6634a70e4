-- ===== src/Router/Requests/Keys.antt =====
-- The percents of a quote map (router/quote-map.ts): each is there once.
use mathlib.Core.List.{Memᴰ}
use mathlib.Core.List.Memᴰ
use whirlpools.Prelude.{
  ℕ, ◌+◌, ◌==◌, ◌≡◌, ◌≢◌, sym, ap, subst, arith, Bool, true, false, some, List, [], ◌∷◌, length, ℤ,
  Bool-cases, inl, inr, keys,
}
use whirlpools.Prelude.Predicates.{All, All-Memᴰ, Pairwise}
use whirlpools.Errors.{ok, >>=-eq-ok, ok_injective}
use whirlpools.Router.{TradePath}
use whirlpools.Router.Quotes.{InternalQuoteMap}
use whirlpools.Router.Requests.{
  Trade, QuoteRequest, entry_at, put_entry, slots_or_new, update_paths, build_requests,
}

module _ {V : Type 0} where
  put_entry-All :
      (P : ℕ → Type 0) (k : ℕ) (v : V) (m : List (ℕ × V))
      → P k
      → All P (keys m)
      → All P (keys (put_entry k v m))
  unfolding put_entry
  put_entry-All P k v [] own all = (own, tt)
  put_entry-All P k v ((j, w) ∷ m) own all = elim (Bool-cases (j == k)) [
    | inl same ↦ rw same all
    | inr other ↦ rw other (all.0, put_entry-All P k v m own all.1)
  ]

  -- Writing an entry keeps the keys apart.
  pub put_entry-once :
      (k : ℕ) (v : V) (m : List (ℕ × V))
      → Pairwise ◌≢◌ (keys m)
      → Pairwise ◌≢◌ (keys (put_entry k v m))
  unfolding put_entry
  put_entry-once k v [] once = (tt, tt)
  put_entry-once k v ((j, w) ∷ m) once = elim (Bool-cases (j == k)) [
    | inl same ↦ rw same once
    | inr other ↦
        let apart : j ≢ k = ground arith in
        rw other (put_entry-All (λ i. j ≢ i) k v m apart once.0, put_entry-once k v m once.1)
  ]

  Memᴰ-key : (p : ℕ) (v : V) (m : List (ℕ × V)) → Memᴰ (p, v) m → Memᴰ p (keys m)
  Memᴰ-key p v [] listed = absurd (Memᴰ.not-nil listed)
  Memᴰ-key p v ((j, w) ∷ m) listed = elim (Memᴰ.cases_cons listed) [
    | inl same ↦ Memᴰ.head (ap (λ x. x.0) same)
    | inr later ↦ Memᴰ.tail (Memᴰ-key p v m later)
  ]

  -- An entry is what is read at its key.
  pub entry_at-Memᴰ :
      (p : ℕ) (v : V) (m : List (ℕ × V))
      → Pairwise ◌≢◌ (keys m)
      → Memᴰ (p, v) m
      → entry_at p m ≡ some v
  unfolding entry_at
  entry_at-Memᴰ p v [] once listed = absurd (Memᴰ.not-nil listed)
  entry_at-Memᴰ p v ((j, w) ∷ m) once listed = elim (Memᴰ.cases_cons listed) [
    | inl same ↦
        let key : p ≡ j = ap (λ x. x.0) same in
        let e : (j == p) ≡ true = ground arith in rw e (ap (λ x. some x.1) (sym same))
    | inr later ↦
        let apart = All-Memᴰ (λ i. j ≢ i) p (keys m) once.0 (Memᴰ-key p v m later) in
        let e : (j == p) ≡ false = ground arith in rw e (entry_at-Memᴰ p v m once.1 later)
  ]

module _ {Key : Type 0} (input : Bool) (trade : Trade) (paths : List TradePath) (hop : ℕ) where
  pub build_requests-once :
      (count : ℕ) (amounts : List (ℕ × ℤ)) (m : InternalQuoteMap Key)
      (r : InternalQuoteMap Key × List QuoteRequest)
      → build_requests input trade paths hop count amounts m ≡ ok r
      → Pairwise ◌≢◌ (keys m)
      → Pairwise ◌≢◌ (keys r.0)
  unfolding build_requests
  build_requests-once count [] m r e once =
      subst (λ (z : InternalQuoteMap Key × List QuoteRequest). Pairwise ◌≢◌ (keys z.0))
        (ok_injective e) once
  build_requests-once count ((p, amount) ∷ amounts) m r e once =
      let slots = slots_or_new (length paths) (entry_at p m) in
      let (upd, upd_is, e1) =
        >>=-eq-ok (update_paths input trade hop p amount count 0 paths slots) _ e in
      let (later, later_is, e2) =
        >>=-eq-ok
          (build_requests input trade paths hop (count + length upd.1) amounts
            (put_entry p upd.0 m))
          _ e1 in
      subst (λ (z : InternalQuoteMap Key × List QuoteRequest). Pairwise ◌≢◌ (keys z.0))
        (ok_injective e2)
        (build_requests-once (count + length upd.1) amounts (put_entry p upd.0 m) later later_is
          (put_entry-once p upd.0 m once))
