-- ===== src/Router/Routes/Parts.antt =====
-- What a route of convert-quote-map.ts is, complete or not, and that a quote that passes the tests
-- of `buildRoutes` extends it.
use mathlib.Core.List.{Memᴰ}
use whirlpools.Prelude.{
  ℕ, ◌+◌, ◌≤◌, ◌≡◌, refl, sym, arith, false, List, [], ◌∷◌, ◌++◌, ℤ, pos, ◌+ℤ◌,
}
use whirlpools.Prelude.Predicates.{
  All, Pairwise, any, any-false, any-Memᴰ, All-Memᴰ, All-of_Memᴰ, All-both, Pairwise-snoc,
}
use whirlpools.Text.{Text, includes, includes_self}
use whirlpools.Router.{PathQuote}
use whirlpools.Router.Routes.{
  InternalRoute, last_quote, percent_exceeds, next_percent_is_smaller, has_reused_pools,
  extend_route,
}

module _ {Key : Type 0} where
  abbrev pub sum_percents : List (PathQuote Key) → ℕ
  sum_percents [] = 0
  sum_percents (q ∷ qs) = q.split_percent + sum_percents qs

  abbrev pub total : (PathQuote Key → ℤ) → ℤ → List (PathQuote Key) → ℤ
  total amount sum [] = sum
  total amount sum (q ∷ qs) = total amount (sum +ℤ amount q) qs

  -- No pool of the one is a pool of the other.
  abbrev pub SharesNoPool : PathQuote Key → PathQuote Key → Type 0
  SharesNoPool q r = (pool : Text) → Memᴰ pool q.edges_pool_addrs → Memᴰ pool r.edges_pool_addrs → ⊥

  abbrev pub GoesBefore : PathQuote Key → PathQuote Key → Type 0
  GoesBefore q r = (r.split_percent ≤ q.split_percent) × SharesNoPool q r

  -- The totals of a route are those of its quotes, whose percents do not grow, and no two of which
  -- share a pool.
  pub record IsRoute (r : InternalRoute Key) : Type 0 where
    pub percent_is : r.split_percent ≡ sum_percents r.quotes
    pub in_is : r.total_in ≡ total PathQuote.amount_in (pos 0) r.quotes
    pub out_is : r.total_out ≡ total PathQuote.amount_out (pos 0) r.quotes
    pub pairs : Pairwise GoesBefore r.quotes

  sum_percents-snoc :
      (qs : List (PathQuote Key)) (q : PathQuote Key)
      → sum_percents (qs ++ q ∷ []) ≡ sum_percents qs + q.split_percent
  sum_percents-snoc [] q = omega arith
  sum_percents-snoc (r ∷ qs) q = omega (arith, sum_percents-snoc qs q)

  total-snoc :
      (amount : PathQuote Key → ℤ) (sum : ℤ) (qs : List (PathQuote Key)) (q : PathQuote Key)
      → total amount sum (qs ++ q ∷ []) ≡ total amount sum qs +ℤ amount q
  total-snoc amount sum [] q = refl
  total-snoc amount sum (r ∷ qs) q = total-snoc amount (sum +ℤ amount r) qs q

  -- No quote of the route has a smaller percent than the last one.
  percents_from_last :
      (percent : ℕ) (qs : List (PathQuote Key))
      → Pairwise GoesBefore qs
      → percent_exceeds percent (last_quote qs) ≡ false
      → All (λ q. percent ≤ PathQuote.split_percent q) qs
  percents_from_last percent [] pairs not_more = tt
  percents_from_last percent (q ∷ []) pairs not_more = (ground arith, tt)
  percents_from_last percent (q ∷ (r ∷ qs)) pairs not_more =
      let rest = percents_from_last percent (r ∷ qs) pairs.1 not_more in
      (omega (arith, rest.0, pairs.0.0.0), rest)

  no_reused_pool :
      (next : PathQuote Key) (qs : List (PathQuote Key))
      → has_reused_pools next qs ≡ false
      → All (λ q. SharesNoPool q next) qs
  unfolding has_reused_pools
  no_reused_pool next qs none_reused =
      All-of_Memᴰ (λ q. SharesNoPool q next) qs
        (λ q is_there pool in_q in_next.
          let meets =
            λ (r1 : Text) (r2 : PathQuote Key). any (λ r3. includes r3 r1) r2.edges_pool_addrs in
          let over_next = any-false (λ r1. any (meets r1) qs) next.edges_pool_addrs none_reused in
          let over_quotes = any-false (meets pool) qs (
            All-Memᴰ (λ r1. any (meets r1) qs ≡ false) pool next.edges_pool_addrs over_next
              in_next) in
          let met =
            any-Memᴰ (λ r3. includes r3 pool) pool q.edges_pool_addrs in_q (includes_self pool) in
          let not_met = All-Memᴰ (λ r2. meets pool r2 ≡ false) q qs over_quotes is_there in cc)

  pub extend_route-IsRoute :
      (r : InternalRoute Key) (q : PathQuote Key)
      → IsRoute r
      → has_reused_pools q r.quotes ≡ false
      → next_percent_is_smaller q.split_percent r.quotes ≡ false
      → IsRoute (extend_route r (r.split_percent + q.split_percent) q)
  unfolding extend_route next_percent_is_smaller
  extend_route-IsRoute r q is none_reused not_more = record {
    percent_is = omega (arith, is.percent_is, sum_percents-snoc r.quotes q);
    in_is = rw is.in_is (sym (total-snoc PathQuote.amount_in (pos 0) r.quotes q));
    out_is = rw is.out_is (sym (total-snoc PathQuote.amount_out (pos 0) r.quotes q));
    pairs = Pairwise-snoc GoesBefore r.quotes q is.pairs (
        All-both (λ x. q.split_percent ≤ PathQuote.split_percent x) (λ x. SharesNoPool x q) r.quotes
          (percents_from_last q.split_percent r.quotes is.pairs not_more)
          (no_reused_pool q r.quotes none_reused));
  }
