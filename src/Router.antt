-- ===== src/Router.antt =====
-- router/public/index.ts and utils/graphs/public/pool-graph.ts: the data of the router. Addresses
-- are strings here; the keys of a swap quote stay a type of their own.
pub mod Routes
pub mod Quotes
pub mod Ranking
pub mod Requests
pub mod QuoteMaps
pub mod FindRoutes
use whirlpools.Prelude.{ℕ, Bool, List, ℤ}
use whirlpools.Text.{Text}
use whirlpools.TokenMath.{Percentage}
use whirlpools.SwapQuote.{SwapQuote}

pub record Edge : Type 0 where
  pub pool_address : Text

pub record TradePath : Type 0 where
  pub start_token_mint : Text
  pub end_token_mint : Text
  pub edges : List Edge

pub record TradeHopSnapshot : Type 0 where
  pub a_to_b : Bool
  pub sqrt_price : ℤ
  pub fee_rate : Percentage

pub record TradeHop (Key : Type 0) : Type 0 where
  pub amount_in : ℤ
  pub amount_out : ℤ
  pub whirlpool : Text
  pub input_mint : Text
  pub output_mint : Text
  pub mint_a : Text
  pub mint_b : Text
  pub vault_a : Text
  pub vault_b : Text
  pub quote : SwapQuote Key
  pub snapshot : TradeHopSnapshot

pub record PathQuote (Key : Type 0) : Type 0 where
  pub path : TradePath
  pub edges_pool_addrs : List Text
  pub split_percent : ℕ
  pub amount_in : ℤ
  pub amount_out : ℤ
  pub calculated_edge_quotes : List (TradeHop Key)

-- SanitizedQuoteMap, in the order of its keys.
abbrev pub QuoteMap : Type 0 → Type 0
QuoteMap Key = List (ℕ × List (PathQuote Key))

pub record RoutingOptions : Type 0 where
  pub percent_increment : ℕ
  pub num_top_routes : ℕ
  pub num_top_partial_quotes : ℕ
  pub max_splits : ℕ

pub record SubTradeRoute (Key : Type 0) : Type 0 where
  pub path : TradePath
  pub split_percent : ℕ
  pub amount_in : ℤ
  pub amount_out : ℤ
  pub hop_quotes : List (TradeHop Key)

pub record TradeRoute (Key : Type 0) : Type 0 where
  pub sub_routes : List (SubTradeRoute Key)
  pub total_amount_in : ℤ
  pub total_amount_out : ℤ
