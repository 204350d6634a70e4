-- ===== src/Router/QuoteMaps.antt =====
-- router/batch-swap-quote.ts, and populateQuoteMap and getQuoteMap of router/quote-map.ts: the
-- requests of a hop turned into quotes, and the map of all hops. The pools that the fetcher returns are the
-- parameter `get_pool`, the tick arrays `fetch`; addresses are turned into keys and back by
-- `to_pub_key` and `to_base58`.
pub mod Batches
pub mod Hops
pub mod Fills
pub mod Chains
pub mod Linked
use whirlpools.Prelude.{
  ℕ, zero, suc, max, Bool, if◌then◌else◌, Option, none, some, is_defined, List, [], ◌∷◌, map,
  reverse, length, get_elem?, set, ℤ, pos,
}
use whirlpools.Errors.{Error, Result, ok, err, out_of_fuel, ◌>>=◌, ◌>>◌, invariant}
use whirlpools.Sdk.{Sdk}
use whirlpools.AnchorTypes.{WhirlpoolData, TickArrayData, TickArray}
use whirlpools.TokenMath.{Percentage}
use whirlpools.TransferFee.{SplToken, TokenExtensionContext}
use whirlpools.TickArraySequence.{require}
use whirlpools.SwapUtils.{
  TickArrayRequest, get_token_type, get_swap_direction, get_batch_tick_arrays,
  get_default_sqrt_price_limit, get_default_other_amount_threshold,
}
use whirlpools.SwapQuote.{SwapQuoteParam, SwapQuote}
use whirlpools.SwapQuote.WithParams.{is_a_to_b, swap_quote_with_params}
use whirlpools.Text.{Text}
use whirlpools.Router.{TradePath, TradeHop, QuoteMap, RoutingOptions}
use whirlpools.Router.Quotes.{
  HopResult, success, failure, InternalPathQuote, InternalQuoteMap, get_split_percentage_amts,
  sanitize_quote_map,
}
use whirlpools.Router.Requests.{
  Trade, SwapQuoteRequest, QuoteRequest, entry_at, put_entry, item_at, build_quote_update_requests,
}

-- PoolUtil.getFeeRate
abbrev get_fee_rate : ℤ → Percentage
get_fee_rate fee_rate = record { numerator = fee_rate; denominator = pos 1_000_000 }

-- `e.errorCode`
abbrev pub error_code : Error → Option Error
error_code (Error.math code) = some (Error.math code)
error_code (Error.token code) = some (Error.token code)
error_code (Error.swap code) = some (Error.swap code)
error_code other = none

-- A request with the pool that it is about.
pub record BatchRequest (Key : Type 0) : Type 0 where
  pub whirlpool_data : WhirlpoolData Key
  pub token_amount : ℤ
  pub a_to_b : Bool
  pub amount_specified_is_input : Bool
  pub whirlpool_address : Key

module _ {Key Mint : Type 0} (sdk : Sdk) (equals : Key → Key → Bool)
    (get_tick_array : Key → ℤ → Key) (fetch : List Key → List (Option (TickArrayData Key)))
    (get_pool : Text → Option (WhirlpoolData Key)) (to_pub_key : Text → Key)
    (no_token_extension_context : TokenExtensionContext Mint) where
  unfoldable pub batch_request : SwapQuoteRequest → Result (BatchRequest Key)
  batch_request quote_req = do
    whirlpool_data ← require (get_pool quote_req.whirlpool)
    let swap_mint_key = to_pub_key quote_req.trade_token_mint
    invariant (is_defined (get_token_type equals whirlpool_data swap_mint_key))
    ok (record {
      whirlpool_data = whirlpool_data;
      token_amount = quote_req.token_amount;
      a_to_b = is_a_to_b (
          get_swap_direction equals whirlpool_data swap_mint_key
            quote_req.amount_specified_is_input);
      amount_specified_is_input = quote_req.amount_specified_is_input;
      whirlpool_address = to_pub_key quote_req.whirlpool;
    })

  unfoldable pub batch_requests : List SwapQuoteRequest → Result (List (BatchRequest Key))
  batch_requests [] = ok []
  batch_requests (r ∷ rs) = do first ← batch_request r; rest ← batch_requests rs; ok (first ∷ rest)

  abbrev pub tick_array_request : BatchRequest Key → TickArrayRequest Key
  tick_array_request req = record {
    whirlpool_address = req.whirlpool_address;
    a_to_b = req.a_to_b;
    tick_current_index = req.whirlpool_data.tick_current_index;
    tick_spacing = req.whirlpool_data.tick_spacing;
  }

  abbrev pub quote_param : BatchRequest Key → List (TickArray Key) → SwapQuoteParam Key Mint
  quote_param req tick_arrays = record {
    whirlpool_data = req.whirlpool_data;
    token_amount = req.token_amount;
    other_amount_threshold = get_default_other_amount_threshold sdk req.amount_specified_is_input;
    sqrt_price_limit = get_default_sqrt_price_limit req.a_to_b;
    a_to_b = req.a_to_b;
    amount_specified_is_input = req.amount_specified_is_input;
    tick_arrays = tick_arrays;
    token_extension_ctx = no_token_extension_context;
  }

  -- Each request with the tick arrays at its index; there is a list of arrays for each request.
  unfoldable pub quote_params :
      List (BatchRequest Key) → List (List (TickArray Key)) → List (SwapQuoteParam Key Mint)
  quote_params [] tick_arrays = []
  quote_params (req ∷ reqs) [] = quote_param req [] ∷ quote_params reqs []
  quote_params (req ∷ reqs) (arrays ∷ tick_arrays) =
      quote_param req arrays ∷ quote_params reqs tick_arrays

  unfoldable pub batch_build_swap_quote_params :
      List SwapQuoteRequest → Result (List (SwapQuoteParam Key Mint))
  batch_build_swap_quote_params quote_requests = do
    requests ← batch_requests quote_requests
    ok (
        quote_params requests
          (get_batch_tick_arrays get_tick_array fetch (map tick_array_request requests)))

module _ {Key Mint : Type 0} (swap_quote : SwapQuoteParam Key Mint → Result (SwapQuote Key))
    (to_base58 : Key → Text) where
  -- The hop that a quote makes.
  abbrev pub quoted_hop : SwapQuoteRequest → SwapQuoteParam Key Mint → SwapQuote Key → TradeHop Key
  quoted_hop request param quote =
      let mint_a = to_base58 param.whirlpool_data.token_mint_a in
      let mint_b = to_base58 param.whirlpool_data.token_mint_b in
      record {
        amount_in =
            if param.amount_specified_is_input
            then param.token_amount
            else quote.estimated_amount_in;
        amount_out =
            if param.amount_specified_is_input
            then quote.estimated_amount_out
            else param.token_amount;
        whirlpool = request.whirlpool;
        input_mint = if param.a_to_b then mint_a else mint_b;
        output_mint = if param.a_to_b then mint_b else mint_a;
        mint_a = mint_a;
        mint_b = mint_b;
        vault_a = to_base58 param.whirlpool_data.token_vault_a;
        vault_b = to_base58 param.whirlpool_data.token_vault_b;
        quote = quote;
        snapshot = record {
          a_to_b = param.a_to_b;
          sqrt_price = param.whirlpool_data.sqrt_price;
          fee_rate = get_fee_rate param.whirlpool_data.fee_rate;
        };
      }

  -- The `try` of a quote and its `catch`; a missing parameter is a TypeError, which has no code.
  unfoldable pub quote_hop :
      SwapQuoteRequest → Option (SwapQuoteParam Key Mint) → Result (HopResult Key)
  quote_hop request none = ok (failure none)
  quote_hop request (some param) = elim (swap_quote param) [
    | ok quote ↦ ok (success (quoted_hop request param quote))
    | err e ↦ elim e [
      | Error.out_of_fuel ↦ err out_of_fuel
      | other ↦ ok (failure (error_code other))
    ]
  ]

  -- `path.calculatedEdgeQuotes[edgeIndex] = result`
  abbrev pub with_hop : ℕ → HopResult Key → InternalPathQuote Key → InternalPathQuote Key
  with_hop edge_index result path = record {
    path = path.path;
    edges_pool_addrs = path.edges_pool_addrs;
    split_percent = path.split_percent;
    calculated_edge_quotes = set path.calculated_edge_quotes edge_index (some result);
  }

  unfoldable pub populate_one :
      QuoteRequest
      → List (SwapQuoteParam Key Mint)
      → InternalQuoteMap Key
      → Result (InternalQuoteMap Key)
  populate_one update quote_params quote_map = do
    slots ← require (entry_at update.split_percent quote_map)
    path ← require (item_at slots update.path_index)
    result ← quote_hop update.request (get_elem? quote_params update.quote_index)
    ok (
        put_entry update.split_percent
          (set slots update.path_index (some (with_hop update.edge_index result path))) quote_map)

  unfoldable pub populate_quote_map :
      List QuoteRequest
      → List (SwapQuoteParam Key Mint)
      → InternalQuoteMap Key
      → Result (InternalQuoteMap Key)
  populate_quote_map [] quote_params quote_map = ok quote_map
  populate_quote_map (update ∷ updates) quote_params quote_map =
      populate_one update quote_params quote_map >>= λ next.
      populate_quote_map updates quote_params next

-- `Math.max(...lengths, 0)`
abbrev pub max_route_length : List TradePath → ℕ
max_route_length [] = 0
max_route_length (path ∷ paths) = max (length (TradePath.edges path)) (max_route_length paths)

abbrev pub first_numbers : ℕ → ℕ → List ℕ
first_numbers zero i = []
first_numbers (suc n) i = i ∷ first_numbers n (suc i)

-- The hops in the order that they are quoted in.
unfoldable pub iteration : Bool → List TradePath → List ℕ
iteration amount_specified_is_input paths =
    let hops = first_numbers (max_route_length paths) 0 in
    if amount_specified_is_input then hops else reverse hops

module _ {Key Mint Config : Type 0} (sdk : Sdk) (spl : SplToken Mint Config) (fuel : ℕ)
    (equals : Key → Key → Bool) (get_tick_array : Key → ℤ → Key)
    (fetch : List Key → List (Option (TickArrayData Key)))
    (get_pool : Text → Option (WhirlpoolData Key)) (to_pub_key : Text → Key)
    (to_base58 : Key → Text) (no_token_extension_context : TokenExtensionContext Mint) where
  -- The loop over the hops.
  unfoldable pub quote_hops :
      Bool
      → Trade
      → List TradePath
      → List (ℕ × ℤ)
      → List ℕ
      → InternalQuoteMap Key
      → Result (InternalQuoteMap Key)
  quote_hops amount_specified_is_input trade paths amounts [] quote_map = ok quote_map
  quote_hops amount_specified_is_input trade paths amounts (hop ∷ hops) quote_map = do
    built ← build_quote_update_requests amount_specified_is_input trade paths amounts hop quote_map
    quote_params ←
        batch_build_swap_quote_params sdk equals get_tick_array fetch get_pool to_pub_key
          no_token_extension_context (map QuoteRequest.request built.1)
    populated ←
        populate_quote_map
          (λ param.
            swap_quote_with_params sdk spl fuel param
              (record { numerator = pos 0; denominator = pos 1_000 }))
          to_base58 built.1 quote_params built.0
    quote_hops amount_specified_is_input trade paths amounts hops populated

  unfoldable pub get_quote_map :
      Trade → List TradePath → Bool → RoutingOptions → Result (QuoteMap Key × List (Option Error))
  get_quote_map trade paths amount_specified_is_input opts = do
    quote_map ←
        quote_hops amount_specified_is_input trade paths
          (get_split_percentage_amts trade.trade_amount opts.percent_increment)
          (iteration amount_specified_is_input paths) []
    sanitize_quote_map opts.num_top_partial_quotes amount_specified_is_input quote_map
