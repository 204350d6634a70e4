-- ===== src/Router/Requests.antt =====
-- router/quote-map.ts and batch-swap-quote.ts: the quotes of the hops, one hop of all paths after the
-- other. The pools that the fetcher returns are the parameter `get_pool`, the tick arrays `fetch`;
-- addresses are turned into keys and back by `to_pub_key` and `to_base58`.
pub mod Views
pub mod Each
pub mod Puts
pub mod Apt
pub mod First
pub mod Later
pub mod Numbered
pub mod Keys
use whirlpools.Prelude.{
  ℕ, zero, suc, ◌+◌, ◌-◌, ◌==◌, ltb, leb, max, Bool, true, false, if◌then◌else◌, Option, none, some,
  is_defined, List, [], ◌∷◌, ◌++◌, map, reverse, length, get_elem?, set, replicate, ℤ, pos,
}
use whirlpools.Errors.{Error, Result, ok, err, type_error, ◌>>=◌, ◌>>◌, invariant}
use whirlpools.Sdk.{Sdk}
use whirlpools.AnchorTypes.{WhirlpoolData, TickArrayData, TickArray}
use whirlpools.TokenMath.{Percentage}
use whirlpools.TransferFee.{SplToken, TokenExtensionContext}
use whirlpools.SwapUtils.{
  TickArrayRequest, get_token_type, get_swap_direction, get_batch_tick_arrays,
  get_default_sqrt_price_limit, get_default_other_amount_threshold,
}
use whirlpools.SwapQuote.{SwapQuoteParam, SwapQuote}
use whirlpools.SwapQuote.WithParams.{is_a_to_b, swap_quote_with_params}
use whirlpools.Text.{Text}
use whirlpools.Router.{Edge, TradePath, TradeHop, QuoteMap, RoutingOptions}
use whirlpools.Router.Quotes.{
  HopResult, success, failure, InternalPathQuote, InternalQuoteMap, get_split_percentage_amts,
  sanitize_quote_map,
}

pub record Trade : Type 0 where
  pub token_in : Text
  pub token_out : Text
  pub trade_amount : ℤ
  pub amount_specified_is_input : Bool

pub record SwapQuoteRequest : Type 0 where
  pub whirlpool : Text
  pub trade_token_mint : Text
  pub token_amount : ℤ
  pub amount_specified_is_input : Bool

pub record QuoteRequest : Type 0 where
  pub quote_index : ℕ
  pub path_index : ℕ
  pub edge_index : ℕ
  pub split_percent : ℕ
  pub request : SwapQuoteRequest

-- `map[key]` and `map[key] = v`; a new key comes last, as the percents are asked for in order.
module _ {V : Type 0} where
  unfoldable pub entry_at : ℕ → List (ℕ × V) → Option V
  entry_at k [] = none
  entry_at k ((j, v) ∷ m) = if j == k then some v else entry_at k m

  unfoldable pub put_entry : ℕ → V → List (ℕ × V) → List (ℕ × V)
  put_entry k v [] = (k, v) ∷ []
  put_entry k v ((j, w) ∷ m) = if j == k then (j, v) ∷ m else (j, w) ∷ put_entry k v m

  -- `array[i]` where a gap is not defined either.
  abbrev pub item_at : List (Option V) → ℕ → Option V
  item_at [] i = none
  item_at (x ∷ xs) zero = x
  item_at (x ∷ xs) (suc i) = item_at xs i

-- `poolsPath[hop]`; a hop is always one of the path's.
abbrev pub pool_at : List Text → ℕ → Text
pool_at [] hop = []
pool_at (pool ∷ pools) zero = pool
pool_at (pool ∷ pools) (suc hop) = pool_at pools hop

module _ (input : Bool) where
  -- startingRouteEval
  abbrev pub is_starting : ℕ → TradePath → Bool
  is_starting hop path = if input then hop == 0 else hop + 1 == length path.edges

  abbrev pub is_beyond : ℕ → TradePath → Bool
  is_beyond hop path =
      if input then leb (length path.edges) hop else ltb (length path.edges) (hop + 1)

  abbrev pub request_of : List Text → ℕ → Option (ℤ × Text) → Option SwapQuoteRequest
  request_of pools hop none = none
  request_of pools hop (some (amount, mint)) = some (record {
    whirlpool = pool_at pools hop;
    trade_token_mint = mint;
    token_amount = amount;
    amount_specified_is_input = input;
  })

-- The request, at the end of those that were made.
abbrev pub push_request : ℕ → ℕ → ℕ → ℕ → Option SwapQuoteRequest → List QuoteRequest
push_request hop percent count path_index none = []
push_request hop percent count path_index (some request) =
    record {
      quote_index = count;
      path_index = path_index;
      edge_index = hop;
      split_percent = percent;
      request = request;
    }
    ∷ []

module _ {Key : Type 0} where
  -- The quote of a path before its first hop.
  abbrev pub blank_quote : ℕ → TradePath → InternalPathQuote Key
  blank_quote percent path = record {
    path = path;
    edges_pool_addrs = map Edge.pool_address path.edges;
    split_percent = percent;
    calculated_edge_quotes = replicate (length path.edges) none;
  }

  abbrev pub slot_of : List (Option (InternalPathQuote Key)) → Option (InternalPathQuote Key)
  slot_of [] = none
  slot_of (slot ∷ slots) = slot

  abbrev pub later_slots :
      List (Option (InternalPathQuote Key)) → List (Option (InternalPathQuote Key))
  later_slots [] = []
  later_slots (slot ∷ slots) = slots

  abbrev pub slots_or_new :
      ℕ → Option (List (Option (InternalPathQuote Key))) → List (Option (InternalPathQuote Key))
  slots_or_new n none = replicate n none
  slots_or_new n (some slots) = slots

module _ {Key : Type 0} (input : Bool) where
  -- lastHop
  abbrev pub last_hop_of : ℕ → List (Option (HopResult Key)) → Option (HopResult Key)
  last_hop_of zero quotes = if input then none else item_at quotes 1
  last_hop_of (suc hop) quotes = if input then item_at quotes hop else item_at quotes (suc hop + 1)

  -- What the quote of a hop is asked for: the trade's own token and amount, or those of the hop
  -- beside it; nothing where that hop failed.
  abbrev pub next_trade : Trade → ℤ → Bool → Option (HopResult Key) → Option (ℤ × Text)
  next_trade trade amount true last =
      some (amount, if input then trade.token_in else trade.token_out)
  next_trade trade amount false none = none
  next_trade trade amount false (some (failure code)) = none
  next_trade trade amount false (some (success hop)) =
      some (if input then (hop.amount_out, hop.output_mint) else (hop.amount_in, hop.input_mint))

  module _ (trade : Trade) (hop percent : ℕ) (amount : ℤ) where
    -- A path whose quote is there.
    abbrev pub ask : TradePath → InternalPathQuote Key → Option SwapQuoteRequest
    ask path current = request_of input (map Edge.pool_address path.edges) hop (
        next_trade trade amount (is_starting input hop path)
          (last_hop_of hop current.calculated_edge_quotes))

    -- The body of the loop over the paths: the quote of the path, and its request.
    unfoldable pub update_path :
        TradePath
        → Option (InternalPathQuote Key)
        → Result (Option (InternalPathQuote Key) × Option SwapQuoteRequest)
    update_path path slot =
        if is_beyond input hop path
        then ok (slot, none)
        else elim (if is_starting input hop path then some (blank_quote percent path) else slot) [
          | none ↦ err type_error
          | some current ↦ ok (some current, ask path current)
        ]

    -- The loop over the paths, after `count` requests.
    unfoldable pub update_paths :
        ℕ
        → ℕ
        → List TradePath
        → List (Option (InternalPathQuote Key))
        → Result (List (Option (InternalPathQuote Key)) × List QuoteRequest)
    update_paths count path_index [] slots = ok (slots, [])
    update_paths count path_index (path ∷ paths) slots = do
      updated ← update_path path (slot_of slots)
      let made = push_request hop percent count path_index updated.1
      rest ← update_paths (count + length made) (path_index + 1) paths (later_slots slots)
      ok (updated.0 ∷ rest.0, made ++ rest.1)

  -- buildQuoteUpdateRequests, after `count` requests: the map, and the requests.
  unfoldable pub build_requests :
      Trade
      → List TradePath
      → ℕ
      → ℕ
      → List (ℕ × ℤ)
      → InternalQuoteMap Key
      → Result (InternalQuoteMap Key × List QuoteRequest)
  build_requests trade paths hop count [] quote_map = ok (quote_map, [])
  build_requests trade paths hop count ((percent, amount) ∷ amounts) quote_map = do
    let slots = slots_or_new (length paths) (entry_at percent quote_map)
    updated ← update_paths trade hop percent amount count 0 paths slots
    rest ←
        build_requests trade paths hop (count + length updated.1) amounts
          (put_entry percent updated.0 quote_map)
    ok (rest.0, updated.1 ++ rest.1)

  unfoldable pub build_quote_update_requests :
      Trade
      → List TradePath
      → List (ℕ × ℤ)
      → ℕ
      → InternalQuoteMap Key
      → Result (InternalQuoteMap Key × List QuoteRequest)
  build_quote_update_requests trade paths amounts hop quote_map =
      build_requests trade paths hop 0 amounts quote_map
