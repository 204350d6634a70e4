-- ===== src/Witnesses/Routes.antt =====
-- The theorems on the quotes and routes of a trade at concrete inputs.
use whirlpools.Prelude.{ℕ, ◌*◌, ◌≡◌, refl, arith, true, some, [], ◌∷◌, keys, pos, negsuc}
use whirlpools.Prelude.Predicates.{All}
use whirlpools.Errors.{SwapErrorCode, swap, ok}
use whirlpools.Text.{Text}
use whirlpools.TokenMath.Slippage.{percentage}
use whirlpools.SwapQuote.{SwapQuote}
use whirlpools.Router.{TradePath, TradeHop, PathQuote, QuoteMap}
use whirlpools.Router.Quotes.{
  HopResult, success, failure, InternalPathQuote, InternalQuoteMap, successes, first_failure,
  clean_quote, clean_quotes, prune_quotes, sort_by, insert_by, sanitize_quote_map,
}
use whirlpools.Router.Quotes.Clean.{AreBest, sanitize_quote_map-AreBest}
use whirlpools.Router.Routes.{generate_routes}
use whirlpools.Router.Routes.Maps.{IsQuoteMap}
use whirlpools.Router.Routes.Complete.{Delivers, IsComplete, generate_routes-IsComplete}

abbrev trade_path : TradePath
trade_path = record { start_token_mint = 1 ∷ []; end_token_mint = 2 ∷ []; edges = [] }

abbrev quote_of : ℕ → Text → ℕ → PathQuote ℕ
quote_of percent pool out = record {
  path = trade_path;
  edges_pool_addrs = pool ∷ [];
  split_percent = percent;
  amount_in = pos (10 * percent);
  amount_out = pos out;
  calculated_edge_quotes = [];
}

-- Two pools for each half, and one for the whole.
abbrev pub two_halves : QuoteMap ℕ
two_halves =
    (50, quote_of 50 (7 ∷ []) 480 ∷ quote_of 50 (8 ∷ []) 470 ∷ [])
    ∷ (100, quote_of 100 (7 ∷ []) 930 ∷ [])
    ∷ []

pub two_halves-IsQuoteMap : IsQuoteMap two_halves
two_halves-IsQuoteMap = record {
  once = (((λ e. absurd (omega arith)), tt), (tt, tt));
  own = ((refl, (refl, tt)), ((refl, tt), tt));
}

generate_routes-IsComplete_example : Delivers (IsComplete 3) (generate_routes two_halves 3)
generate_routes-IsComplete_example =
    generate_routes-IsComplete two_halves 3 two_halves-IsQuoteMap (omega arith)

abbrev swap_quote : SwapQuote ℕ
swap_quote = record {
  estimated_amount_in = pos 1_000;
  estimated_amount_out = pos 930;
  estimated_end_tick_index = negsuc 2;
  estimated_end_sqrt_price = pos 18_000_000_000_000_000_000;
  estimated_fee_amount = pos 3;
  deducting_from_estimated_amount_in = pos 0;
  deducted_from_estimated_amount_out = pos 0;
  amount = pos 1_000;
  amount_specified_is_input = true;
  a_to_b = true;
  other_amount_threshold = pos 900;
  sqrt_price_limit = pos 0;
  tick_array0 = some 1;
  tick_array1 = some 2;
  tick_array2 = some 3;
}

abbrev hop_of : ℕ → TradeHop ℕ
hop_of out = record {
  amount_in = pos 1_000;
  amount_out = pos out;
  whirlpool = 7 ∷ [];
  input_mint = 1 ∷ [];
  output_mint = 2 ∷ [];
  mint_a = 1 ∷ [];
  mint_b = 2 ∷ [];
  vault_a = 3 ∷ [];
  vault_b = 4 ∷ [];
  quote = swap_quote;
  snapshot = record { a_to_b = true; sqrt_price = pos 1; fee_rate = percentage 3 1_000 };
}

abbrev internal_quote_of : HopResult ℕ → InternalPathQuote ℕ
internal_quote_of result = record {
  path = trade_path;
  edges_pool_addrs = (7 ∷ []) ∷ [];
  split_percent = 100;
  calculated_edge_quotes = some result ∷ [];
}

-- A path that failed, and two that did not.
abbrev three_paths : InternalQuoteMap ℕ
three_paths =
    (
      100,
      some (internal_quote_of (failure (some (swap SwapErrorCode.zero_tradable_amount))))
          ∷ some (internal_quote_of (success (hop_of 920)))
          ∷ some (internal_quote_of (success (hop_of 930)))
          ∷ [],
    )
    ∷ []

abbrev best_path : QuoteMap ℕ
best_path =
    (
      100,
      record {
        path = trade_path;
        edges_pool_addrs = (7 ∷ []) ∷ [];
        split_percent = 100;
        amount_in = pos 1_000;
        amount_out = pos 930;
        calculated_edge_quotes = hop_of 930 ∷ [];
      }
          ∷ [],
    )
    ∷ []

best_path_lem :
    sanitize_quote_map 1 true three_paths
    ≡ ok (best_path, some (swap SwapErrorCode.zero_tradable_amount) ∷ [])
unfolding sanitize_quote_map clean_quotes clean_quote successes first_failure prune_quotes sort_by
    insert_by
best_path_lem = refl

sanitize_quote_map-AreBest_example :
    (keys best_path ≡ keys three_paths) × All (AreBest 1 true three_paths) best_path
sanitize_quote_map-AreBest_example =
    sanitize_quote_map-AreBest 1 true three_paths best_path
      (some (swap SwapErrorCode.zero_tradable_amount) ∷ []) best_path_lem
