-- ===== src/Router/Ranking/Best.antt =====
-- The best routes of convert-quote-map.ts, from the quotes of a trade on.
use mathlib.Core.List.{Memᴰ}
use mathlib.Core.List.Memᴰ
use whirlpools.Prelude.{ℕ, ◌<◌, ◌≡◌, ◌⊎◌, refl, Bool, List, [], ◌∷◌, ◌++◌, inl, inr}
use whirlpools.Prelude.Predicates.{All, All-append, All-imp, All-Memᴰ, All-of_Memᴰ}
use whirlpools.Errors.{ok}
use whirlpools.Partition.{Sample}
use whirlpools.Partition.Selects.{IsSample}
use whirlpools.Router.{QuoteMap, RoutingOptions}
use whirlpools.Router.Quotes.{sort_by}
use whirlpools.Router.Quotes.Sorting.{All-sort_by, IsSorted, sort_by-IsSorted}
use whirlpools.Router.Routes.{
  InternalRoute, generate_routes, get_single_hop_split, route_goes_before,
  convert_internal_routes_to_trade_routes,
}
use whirlpools.Router.Routes.Maps.{IsQuoteMap}
use whirlpools.Router.Routes.Complete.{IsComplete, generate_routes-IsComplete}
use whirlpools.Router.Ranking.{get_ranked_routes, get_best_routes_from_quote_map}
use whirlpools.Router.Ranking.Elements.{sort_by-Memᴰ}
use whirlpools.Router.Ranking.Top.{AreTop, total, trans, get_ranked_routes-AreTop}

append-Memᴰ : {A : Type 0} (x : A) (xs ys : List A) → Memᴰ x xs ⊎ Memᴰ x ys → Memᴰ x (xs ++ ys)
append-Memᴰ x [] ys (inl m) = absurd (Memᴰ.not-nil m)
append-Memᴰ x [] ys (inr m) = m
append-Memᴰ x (y ∷ xs) ys (inl m) = elim (Memᴰ.cases_cons m) [
  | inl here ↦ Memᴰ.head here
  | inr later ↦ Memᴰ.tail (append-Memᴰ x xs ys (inl later))
]
append-Memᴰ x (y ∷ xs) ys (inr m) = Memᴰ.tail (append-Memᴰ x xs ys (inr m))

module _ {Key : Type 0} (sample : Sample) (is_sample : IsSample sample) (m : QuoteMap Key)
    (is_map : IsQuoteMap m) (input : Bool) where
  -- For a sample around `k`, a well-formed quote map and at least one path in a route:
  -- `generateRoutes` and `getRankedRoutes` return, and the ranked routes are complete, sorted, at
  -- most `top_n`, and among the generated ones; a generated route that is left out is one too many
  -- and no better than any of the ranked.
  pub get_ranked_routes-AreBest :
      (top_n max_splits : ℕ)
      → 0 < max_splits
      → (routes best : List (InternalRoute Key)) × (generate_routes m max_splits ≡ ok routes)
        × (get_ranked_routes sample m input top_n max_splits ≡ ok best)
        × AreTop input top_n routes best
        × All (IsComplete max_splits) best
  get_ranked_routes-AreBest top_n max_splits some_path =
      let (routes, generates, complete) =
        generate_routes-IsComplete m max_splits is_map some_path in
      let (best, ranks, top) =
        get_ranked_routes-AreTop input sample is_sample m top_n max_splits routes generates in
      (
        routes,
        best,
        generates,
        ranks,
        top,
        All-imp (λ r. Memᴰ r routes) (IsComplete max_splits)
            (λ r there. All-Memᴰ (IsComplete max_splits) r routes complete there) best
            top.of_routes,
      )

  -- `getBestRoutesFromQuoteMap` returns the ranked routes and those of a single hop, sorted.
  pub get_best_routes-IsSorted :
      (opts : RoutingOptions)
      → 0 < opts.max_splits
      → (ranked sorted : List (InternalRoute Key)) × (get_ranked_routes sample m input
            opts.num_top_routes opts.max_splits
          ≡ ok ranked)
        × (get_best_routes_from_quote_map sample m input opts
            ≡ ok (convert_internal_routes_to_trade_routes sorted))
        × IsSorted (route_goes_before input) sorted
        × ((r : InternalRoute Key)
            → Memᴰ r ranked ⊎ Memᴰ r (get_single_hop_split m)
            → Memᴰ r sorted)
        × All (λ r. Memᴰ r ranked ⊎ Memᴰ r (get_single_hop_split m)) sorted
  unfolding get_best_routes_from_quote_map
  get_best_routes-IsSorted opts some_path =
      let before = route_goes_before input in
      let (routes, ranked, generates, ranks, top, complete) =
        get_ranked_routes-AreBest opts.num_top_routes opts.max_splits some_path in
      let all = ranked ++ get_single_hop_split m in
      (
        ranked,
        sort_by before all,
        ranks,
        rw ranks refl,
        sort_by-IsSorted before (total input) (trans input) all,
        λ r there. sort_by-Memᴰ before r all (append-Memᴰ r ranked (get_single_hop_split m) there),
        All-sort_by before (λ r. Memᴰ r ranked ⊎ Memᴰ r (get_single_hop_split m)) all
            (All-append (λ r. Memᴰ r ranked ⊎ Memᴰ r (get_single_hop_split m)) ranked
              (get_single_hop_split m)
              (All-of_Memᴰ (λ r. Memᴰ r ranked ⊎ Memᴰ r (get_single_hop_split m)) ranked
                (λ r listed. inl listed))
              (All-of_Memᴰ (λ r. Memᴰ r ranked ⊎ Memᴰ r (get_single_hop_split m))
                (get_single_hop_split m) (λ r listed. inr listed))),
      )
