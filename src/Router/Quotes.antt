-- ===== src/Router/Quotes.antt =====
-- router/quote-map.ts: the parts that a trade is split into, and the quotes of the paths that are
-- kept for each part. The percents are whole numbers.
pub mod Sorting
pub mod Clean
pub mod Cleaned
use whirlpools.Prelude.{
  ℕ, zero, suc, ◌+◌, ◌*◌, ◌/◌, ◌==◌, Bool, if◌then◌else◌, Option, none, some, List, [], ◌∷◌, map,
  ◌++◌, length, take, ℤ, pos, ◌*ℤ◌, leb_ℤ,
}
use whirlpools.Errors.{Error, Result, ok, err, type_error, ◌>>=◌}
use whirlpools.Bn.{quot}
use whirlpools.Text.{Text}
use whirlpools.Router.{TradePath, TradeHop, PathQuote, QuoteMap}

-- TradeHopQuoteResult. The code of an error is missing where the error has none; it can be any code,
-- whatever its declared type says.
pub data HopResult (Key : Type 0) : Type 0 where
  success : TradeHop Key → HopResult Key
  failure : Option Error → HopResult Key

pub record InternalPathQuote (Key : Type 0) : Type 0 where
  pub path : TradePath
  pub edges_pool_addrs : List Text
  pub split_percent : ℕ
  pub calculated_edge_quotes : List (Option (HopResult Key))

-- InternalQuoteMap, in the order of its keys; a path without a quote is a gap of its array.
abbrev pub InternalQuoteMap : Type 0 → Type 0
InternalQuoteMap Key = List (ℕ × List (Option (InternalPathQuote Key)))

-- The loop from `i` on, for as many rounds.
unfoldable pub split_from : ℕ → ℕ → ℤ → ℕ → List (ℕ × ℤ)
unfolding ◌*ℤ◌
split_from zero i input_amount min_percent = []
split_from (suc rounds) i input_amount min_percent =
    (i * min_percent, quot (input_amount *ℤ pos (i * min_percent)) (pos 100))
    ∷ split_from rounds (i + 1) input_amount min_percent

-- The percents with their amounts, for a percent that is not zero.
unfoldable pub get_split_percentage_amts : ℤ → ℕ → List (ℕ × ℤ)
get_split_percentage_amts input_amount min_percent =
    split_from (100 / min_percent) 1 input_amount min_percent

-- `array.sort(compare)`, by whether the first of two may stand before the second.
module _ {ℓ} {A : Type ℓ} where
  unfoldable pub insert_by : (A → A → Bool) → A → List A → List A
  insert_by before x [] = x ∷ []
  insert_by before x (y ∷ ys) =
      let rest = insert_by before x ys in if before x y then x ∷ y ∷ ys else y ∷ rest

  unfoldable pub sort_by : (A → A → Bool) → List A → List A
  sort_by before [] = []
  sort_by before (x ∷ xs) = insert_by before x (sort_by before xs)

module _ {Key : Type 0} where
  -- filteredCalculatedEdges
  unfoldable pub successes : List (Option (HopResult Key)) → List (TradeHop Key)
  successes [] = []
  successes (none ∷ hops) = successes hops
  successes (some (success hop) ∷ hops) = hop ∷ successes hops
  successes (some (failure code) ∷ hops) = successes hops

  -- `quoteFailures[0].error`
  unfoldable pub first_failure : List (Option (HopResult Key)) → Result (Option Error)
  first_failure [] = err type_error
  first_failure (none ∷ hops) = first_failure hops
  first_failure (some (success hop) ∷ hops) = first_failure hops
  first_failure (some (failure code) ∷ hops) = ok code

  abbrev pub last_hop : TradeHop Key → List (TradeHop Key) → TradeHop Key
  last_hop hop [] = hop
  last_hop hop (next ∷ hops) = last_hop next hops

  -- The quote of a path whose hops all succeeded.
  unfoldable pub clean_quote :
      ℕ → InternalPathQuote Key → List (TradeHop Key) → Result (PathQuote Key)
  clean_quote percent quote [] = err type_error
  clean_quote percent quote (hop ∷ hops) = ok (record {
    path = quote.path;
    edges_pool_addrs = quote.edges_pool_addrs;
    split_percent = percent;
    amount_in = hop.amount_in;
    amount_out = (last_hop hop hops).amount_out;
    calculated_edge_quotes = hop ∷ hops;
  })

  -- The quotes of a percent, and the errors of the paths that failed.
  unfoldable pub clean_quotes :
      ℕ
      → List (Option (InternalPathQuote Key))
      → Result (List (PathQuote Key) × List (Option Error))
  clean_quotes percent [] = ok ([], [])
  clean_quotes percent (none ∷ quotes) = err type_error
  clean_quotes percent (some quote ∷ quotes) = do
    let hops = successes quote.calculated_edge_quotes
    let later = clean_quotes percent quotes
    if length hops == length quote.edges_pool_addrs
        then (do
          cleaned ← clean_quote percent quote hops
          rest ← later
          ok (cleaned ∷ rest.0, rest.1))
        else (do
          code ← first_failure quote.calculated_edge_quotes
          rest ← later
          ok (rest.0, code ∷ rest.1))

  -- sortFn: whether a quote may stand before another.
  abbrev pub is_better : Bool → PathQuote Key → PathQuote Key → Bool
  is_better amount_specified_is_input a b =
      if amount_specified_is_input
      then leb_ℤ b.amount_out a.amount_out
      else leb_ℤ a.amount_in b.amount_in

  unfoldable pub prune_quotes : Bool → ℕ → List (PathQuote Key) → List (PathQuote Key)
  prune_quotes amount_specified_is_input prune_n quotes =
      take prune_n (sort_by (is_better amount_specified_is_input) quotes)

  -- The errors are listed as they are added to their set.
  unfoldable pub sanitize_quote_map :
      ℕ → Bool → InternalQuoteMap Key → Result (QuoteMap Key × List (Option Error))
  sanitize_quote_map prune_n amount_specified_is_input [] = ok ([], [])
  sanitize_quote_map prune_n amount_specified_is_input ((percent, quotes) ∷ percents) = do
    cleaned ← clean_quotes percent quotes
    rest ← sanitize_quote_map prune_n amount_specified_is_input percents
    ok (
      (percent, prune_quotes amount_specified_is_input prune_n cleaned.0) ∷ rest.0,
      cleaned.1 ++ rest.1,
    )
