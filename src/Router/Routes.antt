-- ===== src/Router/Routes.antt =====
-- router/convert-quote-map.ts: the routes that the quotes of a trade combine to. `fuel` bounds the
-- depth of `buildRoutes`; the quotes of the map and one more are enough.
pub mod Maps
pub mod Parts
pub mod Complete
use whirlpools.Prelude.{
  ℕ, zero, suc, ◌+◌, ◌==◌, ltb, Bool, true, false, not, ◌||◌, if◌then◌else◌, Option, none, some,
  List, [], ◌∷◌, ◌++◌, map, length, ℤ, pos, ◌+ℤ◌, leb_ℤ, reverse,
}
use whirlpools.Prelude.Predicates.{any, filter}
use whirlpools.Errors.{Result, ok, err, out_of_fuel, ◌>>=◌}
use whirlpools.Text.{includes}
use whirlpools.Router.{PathQuote, QuoteMap, TradeHop, SubTradeRoute, TradeRoute}

pub record InternalRoute (Key : Type 0) : Type 0 where
  pub quotes : List (PathQuote Key)
  pub split_percent : ℕ
  pub total_in : ℤ
  pub total_out : ℤ

module _ {Key : Type 0} where
  -- `quotes[quotes.length - 1]`
  abbrev pub last_quote : List (PathQuote Key) → Option (PathQuote Key)
  last_quote [] = none
  last_quote (q ∷ []) = some q
  last_quote (q ∷ (r ∷ qs)) = last_quote (r ∷ qs)

  abbrev pub percent_exceeds : ℕ → Option (PathQuote Key) → Bool
  percent_exceeds next_percent none = false
  percent_exceeds next_percent (some last) = ltb last.split_percent next_percent

  -- nextPercentIsSmaller
  unfoldable pub next_percent_is_smaller : ℕ → List (PathQuote Key) → Bool
  next_percent_is_smaller next_percent quotes = percent_exceeds next_percent (last_quote quotes)

  unfoldable pub has_reused_pools : PathQuote Key → List (PathQuote Key) → Bool
  has_reused_pools next_quote quotes =
      any (λ r1. any (λ r2. any (λ r3. includes r3 r1) (PathQuote.edges_pool_addrs r2)) quotes)
        next_quote.edges_pool_addrs

  -- `{ ...quotePercentMap, [nextPercent]: nextCandidateQuotes }`, for a percent of the map.
  unfoldable pub with_quotes : ℕ → List (PathQuote Key) → QuoteMap Key → QuoteMap Key
  with_quotes next_percent candidates [] = []
  with_quotes next_percent candidates ((percent, quotes) ∷ rest) =
      (percent, if percent == next_percent then candidates else quotes)
      ∷ with_quotes next_percent candidates rest

  unfoldable pub extend_route : InternalRoute Key → ℕ → PathQuote Key → InternalRoute Key
  extend_route current new_percent_total next_quote = record {
    quotes = current.quotes ++ next_quote ∷ [];
    split_percent = new_percent_total;
    total_in = current.total_in +ℤ next_quote.amount_in;
    total_out = current.total_out +ℤ next_quote.amount_out;
  }

  module _ (max_splits : ℕ) where
    -- What one quote adds to the routes: the route that it completes, or those that go on from it.
    unfoldable pub routes_with :
        (QuoteMap Key → InternalRoute Key → Result (List (InternalRoute Key)))
        → QuoteMap Key
        → InternalRoute Key
        → ℕ
        → PathQuote Key
        → List (PathQuote Key)
        → Result (List (InternalRoute Key))
    routes_with build quote_map current next_percent next_quote candidates =
        let new_percent_total = current.split_percent + next_percent in
        let next_route = extend_route current new_percent_total next_quote in
        if has_reused_pools next_quote current.quotes
        then ok []
        else if new_percent_total == 100
        then ok (next_route ∷ [])
        else if not (length current.quotes + 1 == max_splits)
        then build (with_quotes next_percent candidates quote_map) next_route
        else ok []

    -- The inner loop, over the quotes of a percent.
    unfoldable pub over_quotes :
        (QuoteMap Key → InternalRoute Key → Result (List (InternalRoute Key)))
        → QuoteMap Key
        → InternalRoute Key
        → ℕ
        → List (PathQuote Key)
        → Result (List (InternalRoute Key))
    over_quotes build quote_map current next_percent [] = ok []
    over_quotes build quote_map current next_percent (next_quote ∷ candidates) = do
      routes ← routes_with build quote_map current next_percent next_quote candidates
      later ← over_quotes build quote_map current next_percent candidates
      ok (routes ++ later)

    -- The outer loop, over the percents from the last to the first.
    unfoldable pub over_percents :
        (QuoteMap Key → InternalRoute Key → Result (List (InternalRoute Key)))
        → QuoteMap Key
        → InternalRoute Key
        → QuoteMap Key
        → Result (List (InternalRoute Key))
    over_percents build quote_map current [] = ok []
    over_percents build quote_map current ((next_percent, quotes) ∷ percents) = do
      routes ←
          (if ltb 100 (current.split_percent + next_percent)
              || next_percent_is_smaller next_percent current.quotes
            then ok []
            else over_quotes build quote_map current next_percent quotes)
      later ← over_percents build quote_map current percents
      ok (routes ++ later)

    unfoldable pub build_routes :
        ℕ → QuoteMap Key → InternalRoute Key → Result (List (InternalRoute Key))
    build_routes zero quote_map current = err out_of_fuel
    build_routes (suc fuel) quote_map current =
        over_percents (build_routes fuel) quote_map current (reverse quote_map)

  -- The quotes of a map.
  abbrev pub count_quotes : QuoteMap Key → ℕ
  count_quotes [] = 0
  count_quotes ((percent, quotes) ∷ rest) = length quotes + count_quotes rest

  abbrev pub empty_route : InternalRoute Key
  empty_route = record { quotes = []; split_percent = 0; total_in = pos 0; total_out = pos 0 }

  unfoldable pub generate_routes : QuoteMap Key → ℕ → Result (List (InternalRoute Key))
  generate_routes percent_map max_splits =
      build_routes max_splits (suc (count_quotes percent_map)) percent_map empty_route

  -- The quotes of the whole amount over one pool, each a route of its own.
  abbrev full_flow : QuoteMap Key → List (PathQuote Key)
  full_flow [] = []
  full_flow ((percent, quotes) ∷ rest) = if percent == 100 then quotes else full_flow rest

  abbrev one_hop_route : PathQuote Key → List (TradeHop Key) → List (InternalRoute Key)
  one_hop_route f (one_hop ∷ []) =
      record {
        quotes = f ∷ [];
        split_percent = 100;
        total_in = one_hop.amount_in;
        total_out = one_hop.amount_out;
      }
      ∷ []
  one_hop_route f [] = []
  one_hop_route f (hop ∷ (next ∷ hops)) = []

  unfoldable pub one_hop_routes : List (PathQuote Key) → List (InternalRoute Key)
  one_hop_routes [] = []
  one_hop_routes (f ∷ quotes) = one_hop_route f f.calculated_edge_quotes ++ one_hop_routes quotes

  unfoldable pub get_single_hop_split : QuoteMap Key → List (InternalRoute Key)
  get_single_hop_split quote_map = one_hop_routes (full_flow quote_map)

  -- getRouteCompareFn: whether a route may stand before another.
  abbrev pub route_goes_before : Bool → InternalRoute Key → InternalRoute Key → Bool
  route_goes_before amount_specified_is_input a b =
      if amount_specified_is_input
      then leb_ℤ b.total_out a.total_out
      else leb_ℤ a.total_in b.total_in

  unfoldable pub convert_path_quote_to_sub_trade_route : PathQuote Key → SubTradeRoute Key
  convert_path_quote_to_sub_trade_route path_quote = record {
    path = path_quote.path;
    split_percent = path_quote.split_percent;
    amount_in = path_quote.amount_in;
    amount_out = path_quote.amount_out;
    hop_quotes = path_quote.calculated_edge_quotes;
  }

  unfoldable pub convert_internal_routes_to_trade_routes :
      List (InternalRoute Key) → List (TradeRoute Key)
  convert_internal_routes_to_trade_routes = map (λ internal_route. record {
    sub_routes = map convert_path_quote_to_sub_trade_route (InternalRoute.quotes internal_route);
    total_amount_in = InternalRoute.total_in internal_route;
    total_amount_out = InternalRoute.total_out internal_route;
  })
