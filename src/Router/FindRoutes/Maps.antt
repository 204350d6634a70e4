-- ===== src/Router/FindRoutes/Maps.antt =====
-- The map that getQuoteMap (router/quote-map.ts) returns is what the ranking of routes needs.
use whirlpools.Prelude.{ℕ, ◌≡◌, ◌≢◌, ap, subst, Bool, Option, List, [], ◌∷◌, map, ℤ, pos, keys}
use whirlpools.Prelude.Predicates.{All, All-imp, Pairwise}
use whirlpools.Errors.{Error, ok, >>=-eq-ok, ok_injective}
use whirlpools.Sdk.{Sdk}
use whirlpools.AnchorTypes.{WhirlpoolData, TickArrayData}
use whirlpools.TransferFee.{SplToken, TokenExtensionContext}
use whirlpools.SwapQuote.{SwapQuoteParam}
use whirlpools.SwapQuote.WithParams.{swap_quote_with_params}
use whirlpools.Text.{Text}
use whirlpools.Router.{TradePath, PathQuote, QuoteMap, RoutingOptions}
use whirlpools.Router.Quotes.{InternalQuoteMap, get_split_percentage_amts}
use whirlpools.Router.Quotes.Cleaned.{IsCleaned}
use whirlpools.Router.Quotes.Clean.{AreBest, sanitize_quote_map-AreBest}
use whirlpools.Router.Routes.Maps.{IsQuoteMap}
use whirlpools.Router.Requests.{Trade, QuoteRequest, build_requests, build_quote_update_requests}
use whirlpools.Router.Requests.Keys.{build_requests-once}
use whirlpools.Router.QuoteMaps.{
  batch_build_swap_quote_params, populate_quote_map, iteration, quote_hops, get_quote_map,
}
use whirlpools.Router.QuoteMaps.Fills.{populate_quote_map-once}

module _ {Key Mint Config : Type 0} (sdk : Sdk) (spl : SplToken Mint Config) (fuel : ℕ)
    (equals : Key → Key → Bool) (get_tick_array : Key → ℤ → Key)
    (fetch : List Key → List (Option (TickArrayData Key)))
    (get_pool : Text → Option (WhirlpoolData Key)) (to_pub_key : Text → Key)
    (to_base58 : Key → Text) (no_token_extension_context : TokenExtensionContext Mint)
    (input : Bool) (trade : Trade) (paths : List TradePath) where
  quote_hops-once :
      (amounts : List (ℕ × ℤ)) (hops : List ℕ) (m r : InternalQuoteMap Key)
      → quote_hops sdk spl fuel equals get_tick_array fetch get_pool to_pub_key to_base58
          no_token_extension_context input trade paths amounts hops m
        ≡ ok r
      → Pairwise ◌≢◌ (keys m)
      → Pairwise ◌≢◌ (keys r)
  unfolding quote_hops build_quote_update_requests
  quote_hops-once amounts [] m r e once = subst (λ z. Pairwise ◌≢◌ (keys z)) (ok_injective e) once
  quote_hops-once amounts (hop ∷ hops) m r e once =
      let (built, built_is, e1) =
        >>=-eq-ok (build_requests input trade paths hop 0 amounts m) _ e in
      let (params, params_is, e2) =
        >>=-eq-ok
          (batch_build_swap_quote_params sdk equals get_tick_array fetch get_pool to_pub_key
            no_token_extension_context (map QuoteRequest.request built.1))
          _ e1 in
      let quote = λ (param : SwapQuoteParam Key Mint).
        swap_quote_with_params sdk spl fuel param
          (record { numerator = pos 0; denominator = pos 1_000 }) in
      let (populated, populated_is, e3) =
        >>=-eq-ok (populate_quote_map quote to_base58 built.1 params built.0) _ e2 in
      quote_hops-once amounts hops populated r e3 (
        populate_quote_map-once quote to_base58 amounts built.1 params built.0 populated
          populated_is (build_requests-once input trade paths hop 0 amounts m built built_is once))

  pub get_quote_map-IsQuoteMap :
      (opts : RoutingOptions) (quotes : QuoteMap Key) (codes : List (Option Error))
      → get_quote_map sdk spl fuel equals get_tick_array fetch get_pool to_pub_key to_base58
          no_token_extension_context trade paths input opts
        ≡ ok (quotes, codes)
      → IsQuoteMap quotes
  unfolding get_quote_map
  get_quote_map-IsQuoteMap opts quotes codes e =
      let amounts = get_split_percentage_amts trade.trade_amount opts.percent_increment in
      let (m, m_is, e1) =
        >>=-eq-ok
          (quote_hops sdk spl fuel equals get_tick_array fetch get_pool to_pub_key to_base58
            no_token_extension_context input trade paths amounts (iteration input paths) [])
          _ e in
      let (same, best) =
        sanitize_quote_map-AreBest opts.num_top_partial_quotes input m quotes codes e1 in
      record {
        once = rw same (quote_hops-once amounts (iteration input paths) [] m m_is tt);
        own =
            All-imp (AreBest opts.num_top_partial_quotes input m)
              (λ entry. All (λ q. PathQuote.split_percent q ≡ entry.0) entry.1)
              (λ entry is.
                All-imp (IsCleaned entry.0 is.0) (λ q. PathQuote.split_percent q ≡ entry.0)
                  (λ q cleaned. ap PathQuote.split_percent (IsCleaned.quote_is cleaned)) entry.1
                  is.2)
              quotes best;
      }
