-- ===== src/Router/QuoteMaps/Chains.antt =====
-- The loop over the hops of getQuoteMap (router/quote-map.ts) for an exact input: the quotes of every
-- path are chained.
use mathlib.Core.List.{Memᴰ}
use whirlpools.Prelude.{
  ℕ, zero, suc, ◌+◌, ◌≡◌, sym, subst, ◌∙◌, arith, Bool, true, Option, List, map, ℤ, pos, keys, ◌≢◌,
}
use whirlpools.Prelude.Predicates.{All, All-imp, All-of_Memᴰ, Pairwise}
use whirlpools.Errors.{ok, >>=-eq-ok, ok_injective}
use whirlpools.Sdk.{Sdk}
use whirlpools.AnchorTypes.{WhirlpoolData, TickArrayData}
use whirlpools.TransferFee.{SplToken, TokenExtensionContext}
use whirlpools.SwapQuote.{SwapQuoteParam}
use whirlpools.SwapQuote.WithParams.{swap_quote_with_params}
use whirlpools.Text.{Text}
use whirlpools.Router.{TradePath}
use whirlpools.Router.Quotes.{InternalPathQuote, InternalQuoteMap}
use whirlpools.Router.Requests.{Trade, QuoteRequest, build_requests, build_quote_update_requests}
use whirlpools.Router.Requests.Apt.{IsChained, AllSlots, IsApt}
use whirlpools.Router.Requests.First.{IsFirst, build_requests-IsFirst}
use whirlpools.Router.Requests.Later.{IsApt-SameSlots, build_requests-IsApt}
use whirlpools.Router.Requests.Keys.{build_requests-once}
use whirlpools.Router.Requests.Numbered.{build_requests-IsNumbered}
use whirlpools.Router.QuoteMaps.{
  batch_build_swap_quote_params, populate_quote_map, first_numbers, quote_hops,
}
use whirlpools.Router.QuoteMaps.Batches.{batch_build_swap_quote_params-AsksAt}
use whirlpools.Router.QuoteMaps.Fills.{populate_quote_map-IsChained, populate_quote_map-once}

module _ {Key : Type 0} (amounts : List (ℕ × ℤ)) where
  IsChained-weaken :
      (h p : ℕ) (q : InternalPathQuote Key)
      → IsChained amounts h p q
      → IsChained amounts (suc h) p q
  IsChained-weaken h p q good = record {
    fresh = λ e past. good.fresh e (omega arith);
    chained = good.chained;
    first = good.first;
    sized = good.sized;
  }

  IsFirst-IsApt :
      (m : InternalQuoteMap Key) (u : QuoteRequest) → IsFirst amounts u → IsApt amounts 0 m u
  IsFirst-IsApt m u first = record { edge_is = first.0; input_is = first.1; asks = first.2 }

  -- What a round asks for, and what it leaves.
  round-IsApt :
      (trade : Trade) (paths : List TradePath) (h : ℕ) (m : InternalQuoteMap Key)
      (built : InternalQuoteMap Key × List QuoteRequest)
      → AllSlots amounts (IsChained amounts h) m
      → build_requests true trade paths h 0 amounts m ≡ ok built
      → AllSlots amounts (IsChained amounts (suc h)) built.0 × All (IsApt amounts h built.0) built.1
  round-IsApt trade paths zero m built good e =
      let (blank, firsts) =
        build_requests-IsFirst amounts trade paths 0 amounts m built
          (All-of_Memᴰ (λ x. Memᴰ x amounts) amounts (λ x listed. listed)) good e in
      (
        λ p i q at_q. IsChained-weaken 0 p q (blank p i q at_q),
        All-imp (IsFirst amounts) (IsApt amounts 0 built.0) (IsFirst-IsApt built.0) built.1 firsts,
      )
  round-IsApt trade paths (suc h) m built good e =
      let (same, apts) =
        build_requests-IsApt amounts h trade paths 0 amounts m built
          (All-of_Memᴰ (λ x. Memᴰ x amounts) amounts (λ x listed. listed)) e in
      (
        λ p i q at_q. IsChained-weaken (suc h) p q (good p i q (sym (same p i) ∙ at_q)),
        All-imp (IsApt amounts (suc h) m) (IsApt amounts (suc h) built.0)
            (λ u apt. IsApt-SameSlots amounts h built.0 m u (λ k j. sym (same k j)) apt) built.1
            apts,
      )

module _ {Key Mint Config : Type 0} (sdk : Sdk) (spl : SplToken Mint Config) (fuel : ℕ)
    (equals : Key → Key → Bool) (get_tick_array : Key → ℤ → Key)
    (fetch : List Key → List (Option (TickArrayData Key)))
    (get_pool : Text → Option (WhirlpoolData Key)) (to_pub_key : Text → Key)
    (to_base58 : Key → Text) (no_token_extension_context : TokenExtensionContext Mint)
    (trade : Trade) (paths : List TradePath) (amounts : List (ℕ × ℤ)) where
  pub quote_hops-IsChained :
      (n h : ℕ) (m r : InternalQuoteMap Key)
      → AllSlots amounts (IsChained amounts h) m
      → Pairwise ◌≢◌ (keys m)
      → quote_hops sdk spl fuel equals get_tick_array fetch get_pool to_pub_key to_base58
          no_token_extension_context true trade paths amounts
          (first_numbers n h)
          m
        ≡ ok r
      → AllSlots amounts (IsChained amounts (h + n)) r × Pairwise ◌≢◌ (keys r)
  unfolding quote_hops build_quote_update_requests
  quote_hops-IsChained zero h m r good once e =
      let same : h ≡ h + 0 = omega arith in
      (
        subst (λ n. AllSlots amounts (IsChained amounts n) r) same
            (subst (AllSlots amounts (IsChained amounts h)) (ok_injective e) good),
        subst (λ z. Pairwise ◌≢◌ (keys z)) (ok_injective e) once,
      )
  quote_hops-IsChained (suc n) h m r good once e =
      let (built, built_is, e1) = >>=-eq-ok (build_requests true trade paths h 0 amounts m) _ e in
      let (params, params_is, e2) =
        >>=-eq-ok
          (batch_build_swap_quote_params sdk equals get_tick_array fetch get_pool to_pub_key
            no_token_extension_context (map QuoteRequest.request built.1))
          _ e1 in
      let quote = λ (param : SwapQuoteParam Key Mint).
        swap_quote_with_params sdk spl fuel param
          (record { numerator = pos 0; denominator = pos 1_000 }) in
      let (populated, populated_is, e3) =
        >>=-eq-ok (populate_quote_map quote to_base58 built.1 params built.0) _ e2 in
      let (kept, apts) = round-IsApt amounts trade paths h m built good built_is in
      let asks =
        batch_build_swap_quote_params-AsksAt sdk equals get_tick_array fetch get_pool to_pub_key
          no_token_extension_context built.1 params
          (build_requests-IsNumbered true trade h paths 0 amounts m built built_is) params_is in
      let same : suc h + n ≡ h + suc n = omega arith in
      subst (λ k. AllSlots amounts (IsChained amounts k) r × Pairwise ◌≢◌ (keys r)) same
        (quote_hops-IsChained n (suc h) populated r
          (populate_quote_map-IsChained quote to_base58 amounts h built.1 params built.0 populated
            kept apts asks populated_is)
          (populate_quote_map-once quote to_base58 amounts built.1 params built.0 populated
            populated_is (build_requests-once true trade paths h 0 amounts m built built_is once))
          e3)
