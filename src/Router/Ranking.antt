-- ===== src/Router/Ranking.antt =====
-- router/convert-quote-map.ts: the ranking of the routes. The bounds of the samples of the partition
-- are the parameter `sample`.
pub mod Elements
pub mod Top
pub mod Best
use Prim.Native.Nat.{Ordering}
use whirlpools.Prelude.{
  ℕ, zero, suc, leb, Bool, if◌then◌else◌, List, [], ◌∷◌, ◌++◌, length, ℤ, leb_ℤ,
}
use whirlpools.Errors.{Result, ok, ◌>>=◌}
use whirlpools.Partition.{Sample, k_smallest_partition}
use whirlpools.Router.{QuoteMap, RoutingOptions, TradeRoute}
use whirlpools.Router.Quotes.{sort_by}
use whirlpools.Router.Routes.{
  InternalRoute, generate_routes, get_single_hop_split, route_goes_before,
  convert_internal_routes_to_trade_routes,
}

-- `a.cmp(b)` of BN.
abbrev pub compare_ℤ : ℤ → ℤ → Ordering
compare_ℤ a b = if leb_ℤ a b then (if leb_ℤ b a then Ordering.eq else Ordering.lt) else Ordering.gt

module _ {A : Type 0} where
  -- `array[i]` of an array with a first element.
  abbrev pub element : A → List A → ℕ → A
  element first [] i = first
  element first (x ∷ xs) zero = x
  element first (x ∷ xs) (suc i) = element first xs i

  -- `array.slice(0, n)`
  abbrev pub front : ℕ → (ℕ → A) → List A
  front zero array = []
  front (suc n) array = array 0 ∷ front n (λ i. array (suc i))

module _ {Key : Type 0} where
  -- getRouteCompareFn
  unfoldable pub routes_compare : Bool → InternalRoute Key → InternalRoute Key → Ordering
  routes_compare amount_specified_is_input a b =
      if amount_specified_is_input
      then compare_ℤ b.total_out a.total_out
      else compare_ℤ a.total_in b.total_in

module _ {Key : Type 0} (sample : Sample) where
  unfoldable pub top_routes :
      Bool → ℕ → List (InternalRoute Key) → Result (List (InternalRoute Key))
  top_routes amount_specified_is_input top_n [] = ok []
  top_routes amount_specified_is_input top_n (first ∷ routes) = do
    partitioned ←
        k_smallest_partition (routes_compare amount_specified_is_input) sample (suc (length routes))
          (element first (first ∷ routes)) top_n 0 (length routes)
    ok (sort_by (route_goes_before amount_specified_is_input) (front top_n partitioned))

  unfoldable pub get_ranked_routes : QuoteMap Key → Bool → ℕ → ℕ → Result (List (InternalRoute Key))
  get_ranked_routes percent_map amount_specified_is_input top_n max_splits = do
    routes ← generate_routes percent_map max_splits
    (if leb (length routes) top_n
        then ok (sort_by (route_goes_before amount_specified_is_input) routes)
        else top_routes amount_specified_is_input top_n routes)

  unfoldable pub get_best_routes_from_quote_map :
      QuoteMap Key → Bool → RoutingOptions → Result (List (TradeRoute Key))
  get_best_routes_from_quote_map quote_map amount_specified_is_input opts = do
    ranked ←
        get_ranked_routes quote_map amount_specified_is_input opts.num_top_routes opts.max_splits
    ok (
        convert_internal_routes_to_trade_routes (
          sort_by (route_goes_before amount_specified_is_input)
            (ranked ++ get_single_hop_split quote_map)))
