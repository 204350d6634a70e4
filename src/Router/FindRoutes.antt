-- ===== src/Router/FindRoutes.antt =====
-- router/router-impl.ts: findAllRoutes, from the paths between two tokens to the routes. The accounts
-- that it prefetches are the parameters of the quotes.
pub mod Maps
pub mod Ranks
use whirlpools.Prelude.{
  ℕ, Bool, true, false, if◌then◌else◌, ◌&&◌, Option, none, some, List, [], ◌∷◌, ℤ, pos, eqb_ℤ,
}
use whirlpools.Prelude.Predicates.{any}
use whirlpools.Errors.{Error, SwapErrorCode, swap, Result, ok, err, out_of_fuel, ◌>>=◌}
use whirlpools.Sdk.{Sdk}
use whirlpools.AnchorTypes.{WhirlpoolData, TickArrayData}
use whirlpools.TransferFee.{SplToken, TokenExtensionContext}
use whirlpools.Text.{Text}
use whirlpools.PoolGraph.{PoolGraphMap, get_path}
use whirlpools.Partition.{Sample}
use whirlpools.Router.{TradePath, TradeRoute, QuoteMap, RoutingOptions}
use whirlpools.Router.Ranking.{get_best_routes_from_quote_map}
use whirlpools.Router.Requests.{Trade}
use whirlpools.Router.QuoteMaps.{get_quote_map}

pub data RouteQueryErrorCode : Type 0 where
  route_does_not_exist trade_amount_too_high zero_input_amount general : RouteQueryErrorCode

-- What the promise comes to: a rejection, or the routes.
pub data FoundRoutes (Key : Type 0) : Type 0 where
  rejected : RouteQueryErrorCode → FoundRoutes Key
  found : List (TradeRoute Key) → FoundRoutes Key

-- Whether a failure has the code TickArraySequenceInvalid.
abbrev pub is_sequence_invalid : Option Error → Bool
is_sequence_invalid none = false
is_sequence_invalid (some (swap SwapErrorCode.tick_array_sequence_invalid)) = true
is_sequence_invalid (some other) = false

module _ {Key : Type 0} where
  abbrev pub routes_or_rejection : List (Option Error) → List (TradeRoute Key) → FoundRoutes Key
  routes_or_rejection failures [] =
      if any is_sequence_invalid failures
      then rejected RouteQueryErrorCode.trade_amount_too_high
      else found []
  routes_or_rejection failures (route ∷ routes) = found (route ∷ routes)

  -- The `catch`.
  abbrev pub or_general : Result (FoundRoutes Key) → Result (FoundRoutes Key)
  or_general (ok routes) = ok routes
  or_general (err out_of_fuel) = err out_of_fuel
  or_general (err other) = ok (rejected RouteQueryErrorCode.general)

  abbrev pub unless_empty : List TradePath → Result (FoundRoutes Key) → Result (FoundRoutes Key)
  unless_empty [] rest = ok (rejected RouteQueryErrorCode.route_does_not_exist)
  unless_empty (path ∷ paths) rest = rest

module _ {Key Mint Config : Type 0} (sdk : Sdk) (spl : SplToken Mint Config) (fuel : ℕ)
    (equals : Key → Key → Bool) (get_tick_array : Key → ℤ → Key)
    (fetch : List Key → List (Option (TickArrayData Key)))
    (get_pool : Text → Option (WhirlpoolData Key)) (to_pub_key : Text → Key)
    (to_base58 : Key → Text) (no_token_extension_context : TokenExtensionContext Mint)
    (sample : Sample) where
  -- The body of the `try`.
  abbrev pub quoted_routes : Trade → List TradePath → RoutingOptions → Result (FoundRoutes Key)
  quoted_routes trade paths opts = do
    quoted ←
        get_quote_map sdk spl fuel equals get_tick_array fetch get_pool to_pub_key to_base58
          no_token_extension_context trade paths trade.amount_specified_is_input opts
    best_routes ←
        get_best_routes_from_quote_map sample quoted.0 trade.amount_specified_is_input opts
    ok (routes_or_rejection quoted.1 best_routes)

  unfoldable pub find_all_routes : PoolGraphMap → Trade → RoutingOptions → Result (FoundRoutes Key)
  find_all_routes pool_graph trade opts = do
    paths ← get_path pool_graph trade.token_in trade.token_out none
    unless_empty paths (
        if eqb_ℤ trade.trade_amount (pos 0)
        then ok (rejected RouteQueryErrorCode.zero_input_amount)
        else or_general (quoted_routes trade paths opts))
