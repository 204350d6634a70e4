-- ===== src/Router/Routes/Maps.antt =====
-- The quote maps of convert-quote-map.ts: each percent has its own quotes, and the candidates that
-- are left get fewer.
use mathlib.Core.List.{Memᴰ}
use mathlib.Core.List.Memᴰ
use whirlpools.Prelude.{
  ℕ, ◌<◌, ◌≡◌, ◌==◌, ◌≢◌, refl, sym, subst, ap, inl, inr, arith, List, [], ◌∷◌, length, keys,
  cons-eq, Bool-cases,
}
use whirlpools.Prelude.Predicates.{All, Pairwise, All-Memᴰ, Memᴰ-keys}
use whirlpools.Router.{PathQuote, QuoteMap}
use whirlpools.Router.Routes.{with_quotes, count_quotes}

module _ {Key : Type 0} where
  -- Quotes of a percent.
  abbrev pub AreOf : ℕ → List (PathQuote Key) → Type 0
  AreOf percent = All (λ q. PathQuote.split_percent q ≡ percent)

  -- Keys are there once, as in every object, and the quotes of a percent split it off.
  pub record IsQuoteMap (m : QuoteMap Key) : Type 0 where
    pub once : Pairwise ◌≢◌ (keys m)
    pub own : All (λ entry. AreOf entry.0 entry.1) m

  keys-with_quotes :
      (p : ℕ) (qs : List (PathQuote Key)) (m : QuoteMap Key) → keys (with_quotes p qs m) ≡ keys m
  unfolding with_quotes
  keys-with_quotes p qs [] = refl
  keys-with_quotes p qs ((k, ks) ∷ m) = cons-eq refl (keys-with_quotes p qs m)

  own-with_quotes :
      (p : ℕ) (qs : List (PathQuote Key)) (m : QuoteMap Key)
      → AreOf p qs
      → All (λ entry. AreOf entry.0 entry.1) m
      → All (λ entry. AreOf entry.0 entry.1) (with_quotes p qs m)
  unfolding with_quotes
  own-with_quotes p qs [] of own = tt
  own-with_quotes p qs ((k, ks) ∷ m) of own = (
    elim (Bool-cases (k == p)) [
      | inl same ↦ let e : p ≡ k = ground arith in rw same (subst (λ x. AreOf x qs) e of)
      | inr other ↦ rw other own.0
    ],
    own-with_quotes p qs m of own.1,
  )

  pub IsQuoteMap-with_quotes :
      (p : ℕ) (qs : List (PathQuote Key)) (m : QuoteMap Key)
      → AreOf p qs
      → IsQuoteMap m
      → IsQuoteMap (with_quotes p qs m)
  IsQuoteMap-with_quotes p qs m of is = record {
    once = rw (keys-with_quotes p qs m) is.once;
    own = own-with_quotes p qs m of is.own;
  }

  -- Where the percent is no key nothing is replaced.
  with_quotes_absent :
      (p : ℕ) (qs : List (PathQuote Key)) (m : QuoteMap Key)
      → All (λ k. p ≢ k) (keys m)
      → with_quotes p qs m ≡ m
  unfolding with_quotes
  with_quotes_absent p qs [] absent = refl
  with_quotes_absent p qs ((k, ks) ∷ m) absent = elim (Bool-cases (k == p)) [
    | inl same ↦ absurd (absent.0 (ground arith))
    | inr other ↦ rw other (ap (λ rest. (k, ks) ∷ rest) (with_quotes_absent p qs m absent.1))
  ]

  pub count_quotes-with_quotes :
      (p : ℕ) (old qs : List (PathQuote Key)) (m : QuoteMap Key)
      → Pairwise ◌≢◌ (keys m)
      → Memᴰ (p, old) m
      → length qs < length old
      → count_quotes (with_quotes p qs m) < count_quotes m
  unfolding with_quotes
  count_quotes-with_quotes p old qs [] once m less = absurd (Memᴰ.not-nil m)
  count_quotes-with_quotes p old qs ((k, ks) ∷ rest) once m less = elim (Memᴰ.cases_cons m) [
    | inl here ↦
        let same_key : p ≡ k = ap (λ entry. entry.0) here in
        let same_quotes : length old ≡ length ks = ap (λ entry. length entry.1) here in
        let same_rest = ap count_quotes (
          with_quotes_absent p qs rest
            (subst (λ x. All (λ y. x ≢ y) (keys rest)) (sym same_key) once.0)) in
        ground arith
    | inr later ↦
        let other : k ≢ p =
          All-Memᴰ (λ y. k ≢ y) p (keys rest) once.0 (Memᴰ-keys p old rest later) in
        ground (arith, count_quotes-with_quotes p old qs rest once.1 later less)
  ]
