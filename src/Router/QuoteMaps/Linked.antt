-- ===== src/Router/QuoteMaps/Linked.antt =====
-- The quotes of getQuoteMap (router/quote-map.ts) for an exact input.
use mathlib.Core.List.{Memᴰ}
use mathlib.Core.List.Memᴰ
use whirlpools.Prelude.{
  ℕ, suc, ◌+◌, ◌≡◌, ◌≤◌, ◌≢◌, refl, sym, ap, subst, ◌∙◌, arith, Bool, true, Option, none, some,
  List, [], ◌∷◌, map, length, ℤ, keys, inl, inr,
}
use whirlpools.Prelude.Predicates.{All, All-imp, Pairwise}
use whirlpools.Errors.{Error, ok, >>=-eq-ok}
use whirlpools.Sdk.{Sdk}
use whirlpools.AnchorTypes.{WhirlpoolData, TickArrayData}
use whirlpools.TransferFee.{SplToken, TokenExtensionContext}
use whirlpools.Text.{Text}
use whirlpools.Router.{TradePath, TradeHop, PathQuote, QuoteMap, RoutingOptions}
use whirlpools.Router.Quotes.{
  HopResult, success, failure, InternalPathQuote, InternalQuoteMap, successes,
  get_split_percentage_amts,
}
use whirlpools.Router.Quotes.Cleaned.{IsCleaned}
use whirlpools.Router.Quotes.Clean.{AreBest, sanitize_quote_map-AreBest}
use whirlpools.Router.Requests.{Trade, entry_at, item_at}
use whirlpools.Router.Requests.Views.{slot_at}
use whirlpools.Router.Requests.Apt.{IsChained, AllSlots}
use whirlpools.Router.Requests.Keys.{entry_at-Memᴰ}
use whirlpools.Router.QuoteMaps.{
  max_route_length, first_numbers, iteration, quote_hops, get_quote_map,
}
use whirlpools.Router.QuoteMaps.Chains.{quote_hops-IsChained}

nothing_read : {A : Type 0} {a : A} → ¬ (none ≡ some a)
nothing_read e = cc

module _ {Key : Type 0} where
  -- Each hop takes in what the one before it gives out.
  abbrev pub AreLinked : List (TradeHop Key) → Type 0
  AreLinked [] = Unit
  AreLinked (a ∷ []) = Unit
  AreLinked (a ∷ b ∷ hops) = (a.amount_out ≡ b.amount_in) × AreLinked (b ∷ hops)

  -- A quote of a path that spends a part of the trade, one of those that were asked for.
  pub record SpendsPart (amounts : List (ℕ × ℤ)) (percent : ℕ) (q : PathQuote Key) : Type 0 where
    pub listed : Memᴰ (percent, q.amount_in) amounts
    pub linked : AreLinked q.calculated_edge_quotes

  few_successes : (xs : List (Option (HopResult Key))) → length (successes xs) ≤ length xs
  unfolding successes
  few_successes [] = omega arith
  few_successes (none ∷ xs) = omega (arith, few_successes xs)
  few_successes (some (success hop) ∷ xs) = omega (arith, few_successes xs)
  few_successes (some (failure code) ∷ xs) = omega (arith, few_successes xs)

  abbrev succeeded : TradeHop Key → Option (HopResult Key)
  succeeded hop = some (success hop)

  -- Where there are as many hops as results, all of them are successes.
  all_successes :
      (xs : List (Option (HopResult Key)))
      → length (successes xs) ≡ length xs
      → xs ≡ map succeeded (successes xs)
  unfolding successes
  all_successes [] same = refl
  all_successes (none ∷ xs) same = absurd (omega (arith, few_successes xs))
  all_successes (some (success hop) ∷ xs) same =
      ap (λ rest. some (success hop) ∷ rest) (all_successes xs (omega arith))
  all_successes (some (failure code) ∷ xs) same = absurd (omega (arith, few_successes xs))

  chained-AreLinked :
      (hops : List (TradeHop Key))
      → ((e : ℕ) (a b : TradeHop Key)
          → item_at (map succeeded hops) e ≡ some (success a)
          → item_at (map succeeded hops) (suc e) ≡ some (success b)
          → a.amount_out ≡ b.amount_in)
      → AreLinked hops
  chained-AreLinked [] chained = tt
  chained-AreLinked (a ∷ []) chained = tt
  chained-AreLinked (a ∷ b ∷ hops) chained =
      (chained 0 a b refl refl, chained-AreLinked (b ∷ hops) (λ e. chained (suc e)))

  item_at-Memᴰ :
      (slots : List (Option (InternalPathQuote Key))) (q : InternalPathQuote Key)
      → Memᴰ (some q) slots
      → (i : ℕ) × (item_at slots i ≡ some q)
  item_at-Memᴰ [] q listed = absurd (Memᴰ.not-nil listed)
  item_at-Memᴰ (slot ∷ slots) q listed = elim (Memᴰ.cases_cons listed) [
    | inl same ↦ (0, sym same)
    | inr later ↦ let (i, is) = item_at-Memᴰ slots q later in (suc i, is)
  ]

  module _ (amounts : List (ℕ × ℤ)) (h : ℕ) where
    empty-IsChained : AllSlots {Key = Key} amounts (IsChained amounts h) []
    unfolding entry_at
    empty-IsChained p i q at_q = absurd (nothing_read at_q)

    cleaned-SpendsPart :
        (m : InternalQuoteMap Key) (percent : ℕ) (slots : List (Option (InternalPathQuote Key)))
        (q : PathQuote Key)
        → AllSlots amounts (IsChained amounts h) m
        → Pairwise ◌≢◌ (keys m)
        → Memᴰ (percent, slots) m
        → IsCleaned percent slots q
        → SpendsPart amounts percent q
    cleaned-SpendsPart m percent slots q good once listed cleaned =
        let (i, at_i) = item_at-Memᴰ slots cleaned.source cleaned.in_quotes in
        let read : slot_at m percent i ≡ some cleaned.source =
          rw (entry_at-Memᴰ percent slots m once listed) at_i in
        let chain = good percent i cleaned.source read in
        let hops_are : cleaned.source.calculated_edge_quotes
            ≡ map succeeded (cleaned.hop ∷ cleaned.hops) =
          all_successes cleaned.source.calculated_edge_quotes
            (ap length cleaned.of_source ∙ cleaned.long ∙ sym chain.sized)
          ∙ ap (map succeeded) cleaned.of_source in
        subst (SpendsPart amounts percent) (sym cleaned.quote_is) (record {
          listed = chain.first cleaned.hop (ap (λ xs. item_at xs 0) hops_are);
          linked = chained-AreLinked (cleaned.hop ∷ cleaned.hops) (λ e a b at_e at_next.
              chain.chained e a b (ap (λ xs. item_at xs e) hops_are ∙ at_e)
                (ap (λ xs. item_at xs (suc e)) hops_are ∙ at_next));
        })

module _ {Key Mint Config : Type 0} (sdk : Sdk) (spl : SplToken Mint Config) (fuel : ℕ)
    (equals : Key → Key → Bool) (get_tick_array : Key → ℤ → Key)
    (fetch : List Key → List (Option (TickArrayData Key)))
    (get_pool : Text → Option (WhirlpoolData Key)) (to_pub_key : Text → Key)
    (to_base58 : Key → Text) (no_token_extension_context : TokenExtensionContext Mint) where
  -- For an exact input, every quote that getQuoteMap returns is for one of the parts that the trade
  -- is split into: what goes into its first hop is the amount of its percent. Each later hop takes in
  -- what the hop before it gives out.
  pub get_quote_map-SpendsPart :
      (trade : Trade) (paths : List TradePath) (opts : RoutingOptions) (quotes : QuoteMap Key)
      (codes : List (Option Error))
      → get_quote_map sdk spl fuel equals get_tick_array fetch get_pool to_pub_key to_base58
          no_token_extension_context trade paths true opts
        ≡ ok (quotes, codes)
      → All
          (λ entry.
            All
              (SpendsPart
                (get_split_percentage_amts trade.trade_amount opts.percent_increment)
                entry.0)
              entry.1)
          quotes
  unfolding get_quote_map iteration
  get_quote_map-SpendsPart trade paths opts quotes codes e =
      let amounts = get_split_percentage_amts trade.trade_amount opts.percent_increment in
      let (m, m_is, e1) =
        >>=-eq-ok
          (quote_hops sdk spl fuel equals get_tick_array fetch get_pool to_pub_key to_base58
            no_token_extension_context true trade paths amounts
            (first_numbers (max_route_length paths) 0) [])
          _ e in
      let (good, once) =
        quote_hops-IsChained sdk spl fuel equals get_tick_array fetch get_pool to_pub_key to_base58
          no_token_extension_context trade paths amounts (max_route_length paths) 0 [] m
          (empty-IsChained amounts 0) tt m_is in
      let best =
        (sanitize_quote_map-AreBest opts.num_top_partial_quotes true m quotes codes e1).1 in
      All-imp (AreBest opts.num_top_partial_quotes true m)
        (λ entry. All (SpendsPart amounts entry.0) entry.1)
        (λ entry is.
          All-imp (IsCleaned entry.0 is.0) (SpendsPart amounts entry.0)
            (λ q.
              cleaned-SpendsPart amounts (0 + max_route_length paths) m entry.0 is.0 q good once
                is.1)
            entry.1 is.2)
        quotes best
