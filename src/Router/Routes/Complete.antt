-- ===== src/Router/Routes/Complete.antt =====
-- Every run of `buildRoutes` (convert-quote-map.ts) returns, and each route it returns is complete.
use mathlib.Core.List.{Memᴰ}
use whirlpools.Prelude.{
  ℕ, zero, suc, ◌+◌, ◌≤◌, ◌<◌, ◌≡◌, ◌==◌, refl, sym, subst, ◌∙◌, arith, Bool, true, false, not,
  ◌||◌, if◌then◌else◌, List, [], ◌∷◌, ◌++◌, length, length-append, reverse, ==→eq, ltb,
}
use whirlpools.Prelude.Predicates.{All, All-append, All-both, All-of_Memᴰ, All-reverse}
use whirlpools.Errors.{Result, ok, ◌>>=◌}
use whirlpools.Router.{PathQuote, QuoteMap}
use whirlpools.Router.Routes.{
  InternalRoute, has_reused_pools, next_percent_is_smaller, with_quotes, extend_route, routes_with,
  over_quotes, over_percents, build_routes, count_quotes, empty_route, generate_routes,
}
use whirlpools.Router.Routes.Maps.{
  AreOf, IsQuoteMap, IsQuoteMap-with_quotes, count_quotes-with_quotes,
}
use whirlpools.Router.Routes.Parts.{IsRoute, extend_route-IsRoute}

-- A call that returns a list of such elements.
abbrev pub Delivers {ℓ κ} : {A : Type ℓ} → (A → Type κ) → Result (List A) → Type (ℓ ⊔ κ)
Delivers {A = A} P call = (xs : List A) × (call ≡ ok xs) × All P xs

Delivers-append {ℓ κ} :
    {A : Type ℓ} (P : A → Type κ) (first second : Result (List A))
    → Delivers P first
    → Delivers P second
    → Delivers P (first >>= λ xs. second >>= λ ys. ok (xs ++ ys))
Delivers-append P first second (xs, is_xs, all) (ys, is_ys, more) =
    (xs ++ ys, rw (is_xs, is_ys) refl, All-append P xs ys all more)

nothing {ℓ κ} : {A : Type ℓ} (P : A → Type κ) → Delivers P (ok [])
nothing P = ([], refl, tt)

if-Delivers {ℓ κ} :
    {A : Type ℓ} (P : A → Type κ) (test : Bool) (first second : Result (List A))
    → (test ≡ true → Delivers P first)
    → (test ≡ false → Delivers P second)
    → Delivers P (if test then first else second)
if-Delivers P true first second passes fails = passes refl
if-Delivers P false first second passes fails = fails refl

second_false : (a b : Bool) → (a || b) ≡ false → b ≡ false
second_false a b h = ground arith

module _ {Key : Type 0} (max_splits : ℕ) where
  -- A route that sends the whole amount, over at most so many paths.
  abbrev pub IsComplete : InternalRoute Key → Type 0
  IsComplete r = IsRoute r × (r.split_percent ≡ 100) × (length r.quotes ≤ max_splits)

  -- A route that can be extended.
  abbrev IsPart : InternalRoute Key → Type 0
  IsPart r = IsRoute r × (length r.quotes < max_splits)

  -- What a call for the routes from here on is expected to do, for maps of so many quotes.
  abbrev Builds :
      ℕ → (QuoteMap Key → InternalRoute Key → Result (List (InternalRoute Key))) → Type 0
  Builds fuel build =
      (m : QuoteMap Key) (r : InternalRoute Key)
      → IsQuoteMap m
      → IsPart r
      → count_quotes m < fuel
      → Delivers IsComplete (build m r)

  length-extend_route :
      (r : InternalRoute Key) (p : ℕ) (q : PathQuote Key)
      → length (extend_route r p q).quotes ≡ length r.quotes + 1
  unfolding extend_route
  length-extend_route r p q = length-append r.quotes (q ∷ [])

  percent-extend_route :
      (r : InternalRoute Key) (p : ℕ) (q : PathQuote Key) → (extend_route r p q).split_percent ≡ p
  unfolding extend_route
  percent-extend_route r p q = refl

  module _ (fuel : ℕ) (build : QuoteMap Key → InternalRoute Key → Result (List (InternalRoute Key)))
      (builds : Builds fuel build) (m : QuoteMap Key) (r : InternalRoute Key)
      (is_map : IsQuoteMap m) (part : IsPart r) (enough : count_quotes m < suc fuel) where
    extends_part :
        (p : ℕ) (q : PathQuote Key)
        → q.split_percent ≡ p
        → has_reused_pools q r.quotes ≡ false
        → next_percent_is_smaller p r.quotes ≡ false
        → IsRoute (extend_route r (r.split_percent + p) q)
    extends_part p q of_p fresh not_more =
        subst (λ x. IsRoute (extend_route r (r.split_percent + x) q)) of_p
          (extend_route-IsRoute r q part.0 fresh
            (subst (λ x. next_percent_is_smaller x r.quotes ≡ false) (sym of_p) not_more))

    routes_with-Delivers :
        (p : ℕ) (q : PathQuote Key) (old candidates : List (PathQuote Key))
        → q.split_percent ≡ p
        → Memᴰ (p, old) m
        → AreOf p candidates
        → length candidates < length old
        → next_percent_is_smaller p r.quotes ≡ false
        → Delivers IsComplete (routes_with max_splits build m r p q candidates)
    unfolding routes_with
    routes_with-Delivers p q old candidates of_p in_map of fewer not_more =
        let percent = r.split_percent + p in
        let next = extend_route r percent q in
        let longer = length-extend_route r percent q in
        let is_next =
          λ (fresh : has_reused_pools q r.quotes ≡ false). extends_part p q of_p fresh not_more in
        if-Delivers IsComplete (has_reused_pools q r.quotes) _ _ (λ _. nothing IsComplete)
          (λ fresh.
            if-Delivers IsComplete (percent == 100) _ _
              (λ whole. (
                next ∷ [],
                refl,
                (
                  (
                    is_next fresh,
                    percent-extend_route r percent q ∙ ==→eq percent 100 whole,
                    omega (arith, longer),
                  ),
                  tt,
                ),
              ))
              (λ _.
                if-Delivers IsComplete (not (length r.quotes + 1 == max_splits)) _ _
                  (λ below.
                    builds (with_quotes p candidates m) next
                      (IsQuoteMap-with_quotes p candidates m of is_map)
                      (is_next fresh, ground (arith, longer))
                      (omega (
                        arith,
                        count_quotes-with_quotes p old candidates m is_map.once in_map fewer,
                      )))
                  (λ _. nothing IsComplete)))

    over_quotes-Delivers :
        (p : ℕ) (old quotes : List (PathQuote Key))
        → Memᴰ (p, old) m
        → AreOf p quotes
        → length quotes ≤ length old
        → next_percent_is_smaller p r.quotes ≡ false
        → Delivers IsComplete (over_quotes max_splits build m r p quotes)
    unfolding over_quotes
    over_quotes-Delivers p old [] in_map of fewer not_more = ([], refl, tt)
    over_quotes-Delivers p old (q ∷ qs) in_map of fewer not_more =
        Delivers-append IsComplete (routes_with max_splits build m r p q qs)
          (over_quotes max_splits build m r p qs)
          (routes_with-Delivers p q old qs of.0 in_map of.1 fewer not_more)
          (over_quotes-Delivers p old qs in_map of.1 (omega arith) not_more)

    over_percents-Delivers :
        (entries : QuoteMap Key)
        → All (λ entry. Memᴰ entry m × AreOf entry.0 entry.1) entries
        → Delivers IsComplete (over_percents max_splits build m r entries)
    unfolding over_percents
    over_percents-Delivers [] all = ([], refl, tt)
    over_percents-Delivers ((p, quotes) ∷ entries) all =
        Delivers-append IsComplete
          (if ltb 100 (r.split_percent + p) || next_percent_is_smaller p r.quotes
            then ok []
            else over_quotes max_splits build m r p quotes)
          (over_percents max_splits build m r entries)
          (if-Delivers IsComplete _ _ _ (λ _. nothing IsComplete)
            (λ taken.
              over_quotes-Delivers p quotes quotes all.0.0 all.0.1 (omega arith)
                (second_false (ltb 100 (r.split_percent + p)) _ taken)))
          (over_percents-Delivers entries all.1)

  build_routes-Builds : (fuel : ℕ) → Builds fuel (build_routes max_splits fuel)
  unfolding build_routes
  build_routes-Builds zero m r is_map part enough = absurd (omega arith)
  build_routes-Builds (suc fuel) m r is_map part enough =
      over_percents-Delivers fuel (build_routes max_splits fuel) (build_routes-Builds fuel) m r
        is_map part enough (reverse m)
        (All-reverse (λ entry. Memᴰ entry m × AreOf entry.0 entry.1) m
          (All-both (λ entry. Memᴰ entry m) (λ entry. AreOf entry.0 entry.1) m
            (All-of_Memᴰ (λ entry. Memᴰ entry m) m (λ entry in_map. in_map)) is_map.own))

-- For a map whose keys are there once and whose quotes split off the percent of their key, and for
-- at least one path at most, the routes are returned, within the fuel, and each of them is complete:
-- the percents of its paths add up to 100 and do not grow, there are at most `max_splits` paths, no
-- two of them share a pool, and its amounts are the sums of theirs.
pub generate_routes-IsComplete :
    {Key : Type 0} (m : QuoteMap Key) (max_splits : ℕ)
    → IsQuoteMap m
    → 0 < max_splits
    → Delivers (IsComplete max_splits) (generate_routes m max_splits)
unfolding generate_routes
generate_routes-IsComplete m max_splits is_map some_path =
    build_routes-Builds max_splits (suc (count_quotes m)) m empty_route is_map
      (record { percent_is = refl; in_is = refl; out_is = refl; pairs = tt }, some_path)
      (omega arith)
