-- ===== src/Router/Quotes/Clean.antt =====
-- What the sanitized quotes of quote-map.ts are.
use mathlib.Core.List.{Memᴰ}
use whirlpools.Prelude.{
  ◌⊎◌, ℕ, ◌≤◌, ◌≡◌, refl, subst, Bool, true, false, Option, some, List, [], ◌∷◌, length, keys,
  leb_ℤ_total, leb_ℤ_trans, cons-eq, Bool-cases, inl, inr,
}
use whirlpools.Prelude.Predicates.{All, All-imp}
use whirlpools.Errors.{Error, ok, >>=-eq-ok, ok_injective}
use whirlpools.Router.{TradeHop, PathQuote, QuoteMap}
use whirlpools.Router.Quotes.{
  InternalPathQuote, InternalQuoteMap, sort_by, successes, clean_quotes, is_better, prune_quotes,
  sanitize_quote_map,
}
use whirlpools.Router.Ranking.Elements.{sort_by-Memᴰ}
use whirlpools.Router.Quotes.Sorting.{
  All-sort_by, All-take, IsSorted, sort_by-IsSorted, take-IsSorted, take-others, length-take_le,
}
use whirlpools.Router.Quotes.Cleaned.{
  cleaned_quote, IsCleaned, clean_quotes-IsCleaned, clean_quotes-complete,
}

module _ {Key : Type 0} where
  module _ (prune_n : ℕ) (is_input : Bool) where
    -- Each path whose hops have all succeeded is among the quotes, or they are `prune_n` and none of
    -- them is worse.
    abbrev pub LeavesOut : ℕ → List (Option (InternalPathQuote Key)) → List (PathQuote Key) → Type 0
    LeavesOut percent quotes best =
        (source : InternalPathQuote Key) (hop : TradeHop Key) (hops : List (TradeHop Key))
        → Memᴰ (some source) quotes
        → successes source.calculated_edge_quotes ≡ hop ∷ hops
        → length (hop ∷ hops) ≡ length source.edges_pool_addrs
        → Memᴰ (cleaned_quote percent source hop hops) best
          ⊎ ((length best ≡ prune_n)
              × All (λ b. is_better is_input b (cleaned_quote percent source hop hops) ≡ true) best)

    -- The best quotes of a percent, from the best on.
    abbrev pub AreBest : InternalQuoteMap Key → ℕ × List (PathQuote Key) → Type 0
    AreBest m entry =
        (quotes : List (Option (InternalPathQuote Key))) × Memᴰ (entry.0, quotes) m
        × All (IsCleaned entry.0 quotes) entry.1
        × IsSorted (is_better is_input) entry.1
        × (length entry.1 ≤ prune_n)
        × LeavesOut entry.0 quotes entry.1

    is_better_total :
        (a b : PathQuote Key) → is_better is_input a b ≡ false → is_better is_input b a ≡ true
    is_better_total a b h = elim (Bool-cases is_input) [
      | inl input ↦ rw input (leb_ℤ_total b.amount_out a.amount_out (rw input at h))
      | inr output ↦ rw output (leb_ℤ_total a.amount_in b.amount_in (rw output at h))
    ]

    is_better_trans :
        (a b c : PathQuote Key)
        → is_better is_input a b ≡ true
        → is_better is_input b c ≡ true
        → is_better is_input a c ≡ true
    is_better_trans a b c h k = elim (Bool-cases is_input) [
      | inl input ↦
          rw input
            (leb_ℤ_trans c.amount_out b.amount_out a.amount_out (rw input at k) (rw input at h))
      | inr output ↦
          rw output
            (leb_ℤ_trans a.amount_in b.amount_in c.amount_in (rw output at h) (rw output at k))
    ]

    prune_quotes-AreBest :
        (percent : ℕ) (quotes : List (Option (InternalPathQuote Key))) (qs : List (PathQuote Key))
        → All (IsCleaned percent quotes) qs
        → All (IsCleaned percent quotes) (prune_quotes is_input prune_n qs)
          × IsSorted (is_better is_input) (prune_quotes is_input prune_n qs)
          × (length (prune_quotes is_input prune_n qs) ≤ prune_n)
          × ((q : PathQuote Key)
              → Memᴰ q qs
              → Memᴰ q (prune_quotes is_input prune_n qs)
                ⊎ ((length (prune_quotes is_input prune_n qs) ≡ prune_n)
                    × All (λ b. is_better is_input b q ≡ true) (prune_quotes is_input prune_n qs)))
    unfolding prune_quotes
    prune_quotes-AreBest percent quotes qs all =
        let best = sort_by (is_better is_input) qs in
        let sorted = sort_by-IsSorted (is_better is_input) is_better_total is_better_trans qs in
        (
          All-take (is_better is_input) (IsCleaned percent quotes) prune_n best
              (All-sort_by (is_better is_input) (IsCleaned percent quotes) qs all),
          take-IsSorted (is_better is_input) prune_n best sorted,
          length-take_le prune_n best,
          λ q listed.
              take-others (is_better is_input) prune_n best q sorted
                (sort_by-Memᴰ (is_better is_input) q qs listed),
        )

    AreBest-tail :
        (first : ℕ × List (Option (InternalPathQuote Key))) (m : InternalQuoteMap Key)
        (entry : ℕ × List (PathQuote Key))
        → AreBest m entry
        → AreBest (first ∷ m) entry
    AreBest-tail first m entry best = (best.0, Memᴰ.tail best.1, best.2, best.3, best.4, best.5)

    -- Sanitized quotes have the percents of the map, in its order, and for each percent at most
    -- `prune_n` quotes, sorted from the best on. Each of them is of a path of that percent all of
    -- whose hops succeeded: it has the hops of the path, one for each pool, what goes into the first
    -- of them, and what comes out of the last. A path of that percent whose hops have all succeeded
    -- and that is left out is one too many, and no better than any of the quotes.
    pub sanitize_quote_map-AreBest :
        (m : InternalQuoteMap Key) (cleaned : QuoteMap Key) (codes : List (Option Error))
        → sanitize_quote_map prune_n is_input m ≡ ok (cleaned, codes)
        → (keys cleaned ≡ keys m) × All (AreBest m) cleaned
    unfolding sanitize_quote_map
    sanitize_quote_map-AreBest [] cleaned codes returns =
        subst (λ result. (keys result.0 ≡ []) × All (AreBest []) result.0) (ok_injective returns)
          (refl, tt)
    sanitize_quote_map-AreBest ((percent, quotes) ∷ m) cleaned codes returns =
        let (first, first_is, goes_on) = >>=-eq-ok (clean_quotes percent quotes) _ returns in
        let (rest, rest_is, ends) = >>=-eq-ok (sanitize_quote_map prune_n is_input m) _ goes_on in
        let (same, best) = sanitize_quote_map-AreBest m rest.0 rest.1 rest_is in
        let pruned =
          prune_quotes-AreBest percent quotes first.0
            (clean_quotes-IsCleaned percent quotes first first_is) in
        subst
          (λ result.
            (keys result.0 ≡ percent ∷ keys m) × All (AreBest ((percent, quotes) ∷ m)) result.0)
          (ok_injective ends)
          (
            cons-eq refl same,
            (
              (
                quotes,
                Memᴰ.head refl,
                pruned.0,
                pruned.1,
                pruned.2,
                λ source hop hops listed is long. pruned.3 (cleaned_quote percent source hop hops) (
                    clean_quotes-complete percent quotes first source hop hops first_is listed is
                      long),
              ),
              All-imp (AreBest m) (AreBest ((percent, quotes) ∷ m))
                  (AreBest-tail (percent, quotes) m) rest.0 best,
            ),
          )
