-- ===== src/Router/FindRoutes/Ranks.antt =====
-- findAllRoutes (router/router-impl.ts) once the quotes are there.
use whirlpools.Prelude.{◌≢◌, ◌≡◌, ◌⊎◌, true, false, Option, List, []}
use whirlpools.Prelude.Predicates.{any}
use whirlpools.Errors.{Error, Result, ok}
use whirlpools.Sdk.{Sdk}
use whirlpools.Text.{Text}
use whirlpools.Router.Routes.{InternalRoute, convert_internal_routes_to_trade_routes}
use whirlpools.Router.FindRoutes.{
  RouteQueryErrorCode, FoundRoutes, rejected, found, is_sequence_invalid,
}

-- What the search ends with: a rejection where there is no route for an amount that is too high, or
-- the routes.
abbrev pub Ends :
    {Key : Type 0}
    → List (Option Error)
    → List (InternalRoute Key)
    → Result (FoundRoutes Key)
    → Type 0
Ends codes sorted result =
    ((sorted ≡ [])
      × (any is_sequence_invalid codes ≡ true)
      × (result ≡ ok (rejected RouteQueryErrorCode.trade_amount_too_high)))
    ⊎ (((sorted ≢ []) ⊎ (any is_sequence_invalid codes ≡ false))
        × (result ≡ ok (found (convert_internal_routes_to_trade_routes sorted))))
