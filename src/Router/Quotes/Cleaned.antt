-- ===== src/Router/Quotes/Cleaned.antt =====
-- The quotes of the paths all of whose hops succeeded (quote-map.ts).
use mathlib.Core.List.{Memᴰ}
use mathlib.Core.List.Memᴰ
use whirlpools.Prelude.{
  ap, arith, ◌∙◌, ℕ, ◌≡◌, ◌==◌, refl, sym, subst, Option, none, some, List, [], ◌∷◌, length,
  Bool-cases, ==→eq, inl, inr,
}
use whirlpools.Prelude.Predicates.{All, All-imp}
use whirlpools.Errors.{Error, ok, >>=-eq-ok, ok_injective}
use whirlpools.Router.{TradeHop, PathQuote}
use whirlpools.Router.Quotes.{
  InternalPathQuote, successes, first_failure, last_hop, clean_quote, clean_quotes,
}

module _ {Key : Type 0} where
  -- The quote of a path whose hops have succeeded.
  abbrev pub cleaned_quote :
      ℕ → InternalPathQuote Key → TradeHop Key → List (TradeHop Key) → PathQuote Key
  cleaned_quote percent source hop hops = record {
    path = source.path;
    edges_pool_addrs = source.edges_pool_addrs;
    split_percent = percent;
    amount_in = hop.amount_in;
    amount_out = (last_hop hop hops).amount_out;
    calculated_edge_quotes = hop ∷ hops;
  }

  -- The quote of one of the paths, whose hops are its successful hops, one for each pool, and whose
  -- amounts are those that go into the first hop and come out of the last.
  pub record IsCleaned (percent : ℕ) (quotes : List (Option (InternalPathQuote Key)))
      (q : PathQuote Key) : Type 0 where
    pub source : InternalPathQuote Key
    pub hop : TradeHop Key
    pub hops : List (TradeHop Key)
    pub in_quotes : Memᴰ (some source) quotes
    pub of_source : successes source.calculated_edge_quotes ≡ hop ∷ hops
    pub long : length (hop ∷ hops) ≡ length source.edges_pool_addrs
    pub quote_is : q ≡ cleaned_quote percent source hop hops

  clean_quote_lem :
      (percent : ℕ) (source : InternalPathQuote Key)
      (quotes : List (Option (InternalPathQuote Key))) (hops : List (TradeHop Key))
      (q : PathQuote Key)
      → Memᴰ (some source) quotes
      → successes source.calculated_edge_quotes ≡ hops
      → length hops ≡ length source.edges_pool_addrs
      → clean_quote percent source hops ≡ ok q
      → IsCleaned percent quotes q
  unfolding clean_quote
  clean_quote_lem percent source quotes [] q in_quotes of_source long returns = cc
  clean_quote_lem percent source quotes (hop ∷ hops) q in_quotes of_source long returns = record {
    source = source;
    hop = hop;
    hops = hops;
    in_quotes = in_quotes;
    of_source = of_source;
    long = long;
    quote_is = sym (ok_injective returns);
  }

  IsCleaned-tail :
      (percent : ℕ) (first : Option (InternalPathQuote Key))
      (quotes : List (Option (InternalPathQuote Key))) (q : PathQuote Key)
      → IsCleaned percent quotes q
      → IsCleaned percent (first ∷ quotes) q
  IsCleaned-tail percent first quotes q is = record {
    source = is.source;
    hop = is.hop;
    hops = is.hops;
    in_quotes = Memᴰ.tail is.in_quotes;
    of_source = is.of_source;
    long = is.long;
    quote_is = is.quote_is;
  }

  abbrev AreCleaned :
      ℕ
      → List (Option (InternalPathQuote Key))
      → List (PathQuote Key) × List (Option Error)
      → Type 0
  AreCleaned percent quotes result = All (IsCleaned percent quotes) result.0

  pub clean_quotes-IsCleaned :
      (percent : ℕ) (quotes : List (Option (InternalPathQuote Key)))
      (result : List (PathQuote Key) × List (Option Error))
      → clean_quotes percent quotes ≡ ok result
      → AreCleaned percent quotes result
  unfolding clean_quotes
  clean_quotes-IsCleaned percent [] result returns =
      subst (AreCleaned percent []) (ok_injective returns) tt
  clean_quotes-IsCleaned percent (none ∷ quotes) result returns = cc
  clean_quotes-IsCleaned percent (some quote ∷ quotes) result returns =
      let hops = successes quote.calculated_edge_quotes in
      let later =
        λ (rest : List (PathQuote Key) × List (Option Error))
            (rest_is : clean_quotes percent quotes ≡ ok rest).
          All-imp (IsCleaned percent quotes) (IsCleaned percent (some quote ∷ quotes))
            (IsCleaned-tail percent (some quote) quotes) rest.0
            (clean_quotes-IsCleaned percent quotes rest rest_is) in
      elim (Bool-cases (length hops == length quote.edges_pool_addrs)) [
        | inl whole ↦
            let (cleaned, cleaned_is, goes_on) =
              >>=-eq-ok (clean_quote percent quote hops) _ (rw whole at returns) in
            let (rest, rest_is, ends) = >>=-eq-ok (clean_quotes percent quotes) _ goes_on in
            subst (AreCleaned percent (some quote ∷ quotes)) (ok_injective ends) (
              clean_quote_lem percent quote (some quote ∷ quotes) hops cleaned (Memᴰ.head refl) refl
                  (==→eq _ _ whole) cleaned_is,
              later rest rest_is,
            )
        | inr short ↦
            let (code, code_is, goes_on) =
              >>=-eq-ok (first_failure quote.calculated_edge_quotes) _ (rw short at returns) in
            let (rest, rest_is, ends) = >>=-eq-ok (clean_quotes percent quotes) _ goes_on in
            subst (AreCleaned percent (some quote ∷ quotes)) (ok_injective ends)
              (later rest rest_is)
      ]

  same_source : {a b : InternalPathQuote Key} → some a ≡ some b → a ≡ b
  same_source e = cc

  clean_quote-cleaned :
      (percent : ℕ) (source : InternalPathQuote Key) (hops : List (TradeHop Key))
      (q : PathQuote Key) (hop : TradeHop Key) (rest : List (TradeHop Key))
      → clean_quote percent source hops ≡ ok q
      → hops ≡ hop ∷ rest
      → cleaned_quote percent source hop rest ≡ q
  unfolding clean_quote
  clean_quote-cleaned percent source hops q hop rest returns is = ok_injective (rw is at returns)

  -- No path whose hops have all succeeded is lost.
  pub clean_quotes-complete :
      (percent : ℕ) (quotes : List (Option (InternalPathQuote Key)))
      (result : List (PathQuote Key) × List (Option Error)) (source : InternalPathQuote Key)
      (hop : TradeHop Key) (hops : List (TradeHop Key))
      → clean_quotes percent quotes ≡ ok result
      → Memᴰ (some source) quotes
      → successes source.calculated_edge_quotes ≡ hop ∷ hops
      → length (hop ∷ hops) ≡ length source.edges_pool_addrs
      → Memᴰ (cleaned_quote percent source hop hops) result.0
  unfolding clean_quotes
  clean_quotes-complete percent [] result source hop hops returns listed is long =
      absurd (Memᴰ.not-nil listed)
  clean_quotes-complete percent (none ∷ quotes) result source hop hops returns listed is long = cc
  clean_quotes-complete percent (some quote ∷ quotes) result source hop hops returns listed is
        long =
      let all = successes quote.calculated_edge_quotes in
      let kept = cleaned_quote percent source hop hops in
      elim (Bool-cases (length all == length quote.edges_pool_addrs)) [
        | inl whole ↦
            let (cleaned, cleaned_is, goes_on) =
              >>=-eq-ok (clean_quote percent quote all) _ (rw whole at returns) in
            let (rest, rest_is, ends) = >>=-eq-ok (clean_quotes percent quotes) _ goes_on in
            subst (λ (z : List (PathQuote Key) × List (Option Error)). Memᴰ kept z.0)
              (ok_injective ends)
              (elim (Memᴰ.cases_cons listed) [
                | inl here ↦
                    let own = same_source here in
                    Memᴰ.head (
                      ap (λ (z : InternalPathQuote Key). cleaned_quote percent z hop hops) own
                      ∙ clean_quote-cleaned percent quote all cleaned hop hops cleaned_is (
                          ap (λ (z : InternalPathQuote Key). successes z.calculated_edge_quotes)
                            (sym own)
                          ∙ is))
                | inr later ↦ Memᴰ.tail (
                    clean_quotes-complete percent quotes rest source hop hops rest_is later is long)
              ])
        | inr short ↦
            let (code, code_is, goes_on) =
              >>=-eq-ok (first_failure quote.calculated_edge_quotes) _ (rw short at returns) in
            let (rest, rest_is, ends) = >>=-eq-ok (clean_quotes percent quotes) _ goes_on in
            subst (λ (z : List (PathQuote Key) × List (Option Error)). Memᴰ kept z.0)
              (ok_injective ends)
              (elim (Memᴰ.cases_cons listed) [
                | inl here ↦
                    let own = same_source here in
                    let as_long : length all ≡ length quote.edges_pool_addrs =
                      ap
                        (λ (z : InternalPathQuote Key). length (successes z.calculated_edge_quotes))
                        (sym own)
                      ∙ ap length is
                      ∙ long
                      ∙ ap (λ (z : InternalPathQuote Key). length z.edges_pool_addrs) own in
                    absurd (ground arith)
                | inr later ↦
                    clean_quotes-complete percent quotes rest source hop hops rest_is later is long
              ])
      ]
