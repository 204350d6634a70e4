-- ===== src/Router/QuoteMaps/Batches.antt =====
-- batchBuildSwapQuoteParams (router/batch-swap-quote.ts): the quote at an index is for the request at
-- that index.
use whirlpools.Prelude.{
  ℕ, zero, suc, ◌+◌, ◌≡◌, refl, sym, ap, ◌∙◌, arith, Bool, Option, some, is_defined, List, [], ◌∷◌,
  map, get_elem?, ℤ,
}
use whirlpools.Prelude.Predicates.{All}
use whirlpools.Errors.{ok, invariant, >>=-eq-ok, ok_injective}
use whirlpools.Sdk.{Sdk}
use whirlpools.AnchorTypes.{WhirlpoolData, TickArrayData, TickArray}
use whirlpools.TransferFee.{TokenExtensionContext}
use whirlpools.TickArraySequence.{require}
use whirlpools.SwapUtils.{get_token_type, get_batch_tick_arrays}
use whirlpools.SwapQuote.{SwapQuoteParam}
use whirlpools.Text.{Text}
use whirlpools.Router.Requests.{SwapQuoteRequest, QuoteRequest}
use whirlpools.Router.Requests.Numbered.{IsNumbered}
use whirlpools.Router.QuoteMaps.{
  BatchRequest, batch_request, batch_requests, quote_param, quote_params, tick_array_request,
  batch_build_swap_quote_params,
}

some_eq : {A : Type 0} {a b : A} → some a ≡ some b → a ≡ b
some_eq e = cc

-- A quote is asked for what the request says.
abbrev pub Asks : {Key Mint : Type 0} → SwapQuoteRequest → SwapQuoteParam Key Mint → Type 0
Asks request param =
    (param.token_amount ≡ request.token_amount)
    × (param.amount_specified_is_input ≡ request.amount_specified_is_input)

-- The quote at the index of an update is for its request.
abbrev pub AsksAt : {Key Mint : Type 0} → List (SwapQuoteParam Key Mint) → QuoteRequest → Type 0
AsksAt {Key} {Mint} params u =
    (param : SwapQuoteParam Key Mint)
    → get_elem? params u.quote_index ≡ some param
    → Asks u.request param

-- The quotes from an index on are for the requests.
abbrev AskFrom :
    {Key Mint : Type 0} → ℕ → List SwapQuoteRequest → List (SwapQuoteParam Key Mint) → Type 0
AskFrom {Key} {Mint} count requests params =
    (k : ℕ) (request : SwapQuoteRequest) (param : SwapQuoteParam Key Mint)
    → get_elem? requests k ≡ some request
    → get_elem? params (count + k) ≡ some param
    → Asks request param

numbered-AsksAt :
    {Key Mint : Type 0} (count : ℕ) (us : List QuoteRequest)
    (params : List (SwapQuoteParam Key Mint))
    → IsNumbered count us
    → AskFrom count (map QuoteRequest.request us) params
    → All (AsksAt params) us
numbered-AsksAt count [] params numbered ask = tt
numbered-AsksAt count (u ∷ us) params numbered ask = (
  λ param at_u.
      let e : u.quote_index ≡ count + 0 = let is = numbered.0 in omega arith in
      ask 0 u.request param refl (ap (get_elem? params) (sym e) ∙ at_u),
  numbered-AsksAt (suc count) us params numbered.1 (λ k request param at_k at_param.
      let e : count + suc k ≡ suc count + k = omega arith in
      ask (suc k) request param at_k (ap (get_elem? params) e ∙ at_param)),
)

module _ {Key Mint : Type 0} (sdk : Sdk) (equals : Key → Key → Bool)
    (get_tick_array : Key → ℤ → Key) (fetch : List Key → List (Option (TickArrayData Key)))
    (get_pool : Text → Option (WhirlpoolData Key)) (to_pub_key : Text → Key)
    (no_token_extension_context : TokenExtensionContext Mint) where
  batch_request-keeps :
      (request : SwapQuoteRequest) (made : BatchRequest Key)
      → batch_request sdk equals get_tick_array fetch get_pool to_pub_key no_token_extension_context
          request
        ≡ ok made
      → (made.token_amount ≡ request.token_amount)
        × (made.amount_specified_is_input ≡ request.amount_specified_is_input)
  unfolding batch_request
  batch_request-keeps request made e =
      let (pool, pool_is, e1) = >>=-eq-ok (require (get_pool request.whirlpool)) _ e in
      let (checked, checked_is, e2) =
        >>=-eq-ok
          (invariant
            (is_defined (get_token_type equals pool (to_pub_key request.trade_token_mint))))
          _ e1 in
      let same = ok_injective e2 in
      (
        sym (ap (λ (z : BatchRequest Key). z.token_amount) same),
        sym (ap (λ (z : BatchRequest Key). z.amount_specified_is_input) same),
      )

  quote_params-first :
      (made : BatchRequest Key) (rest : List (BatchRequest Key))
      (arrays : List (List (TickArray Key)))
      → (own : List (TickArray Key)) × (others : List (List (TickArray Key))) × (quote_params sdk
            equals get_tick_array fetch get_pool to_pub_key no_token_extension_context
            (made ∷ rest)
            arrays
          ≡ quote_param sdk equals get_tick_array fetch get_pool to_pub_key
              no_token_extension_context made own
            ∷ quote_params sdk equals get_tick_array fetch get_pool to_pub_key
                no_token_extension_context rest others)
  unfolding quote_params
  quote_params-first made rest [] = ([], [], refl)
  quote_params-first made rest (own ∷ others) = (own, others, refl)

  quote_params-Asks :
      (requests : List SwapQuoteRequest) (made : List (BatchRequest Key))
      (arrays : List (List (TickArray Key))) (k : ℕ) (request : SwapQuoteRequest)
      (param : SwapQuoteParam Key Mint)
      → batch_requests sdk equals get_tick_array fetch get_pool to_pub_key
          no_token_extension_context requests
        ≡ ok made
      → get_elem? requests k ≡ some request
      → get_elem?
          (quote_params sdk equals get_tick_array fetch get_pool to_pub_key
            no_token_extension_context made arrays)
          k
        ≡ some param
      → Asks request param
  unfolding batch_requests
  quote_params-Asks [] made arrays k request param e at_k at_param = cc
  quote_params-Asks (r ∷ rs) made arrays k request param e at_k at_param =
      let (first, first_is, e1) =
        >>=-eq-ok
          (batch_request sdk equals get_tick_array fetch get_pool to_pub_key
            no_token_extension_context r)
          _ e in
      let (rest, rest_is, e2) =
        >>=-eq-ok
          (batch_requests sdk equals get_tick_array fetch get_pool to_pub_key
            no_token_extension_context rs)
          _ e1 in
      let (own, others, params_are) = quote_params-first first rest arrays in
      by_place first rest own others k (batch_request-keeps r first first_is) at_k
        (rw (← ok_injective e2, params_are) at at_param)
        (λ k' at_k' at_param'.
          quote_params-Asks rs rest others k' request param rest_is at_k' at_param')
    where
      by_place :
          (first : BatchRequest Key) (rest : List (BatchRequest Key)) (own : List (TickArray Key))
          (others : List (List (TickArray Key))) (k : ℕ)
          → (first.token_amount ≡ r.token_amount)
            × (first.amount_specified_is_input ≡ r.amount_specified_is_input)
          → get_elem? (r ∷ rs) k ≡ some request
          → get_elem?
              (quote_param sdk equals get_tick_array fetch get_pool to_pub_key
                  no_token_extension_context first own
                ∷ quote_params sdk equals get_tick_array fetch get_pool to_pub_key
                    no_token_extension_context rest others)
              k
            ≡ some param
          → ((k' : ℕ)
              → get_elem? rs k' ≡ some request
              → get_elem?
                  (quote_params sdk equals get_tick_array fetch get_pool to_pub_key
                    no_token_extension_context rest others)
                  k'
                ≡ some param
              → Asks request param)
          → Asks request param
      by_place first rest own others zero keeps at_k at_param later = (
        cc (
          keeps.0,
          ap (λ (z : SwapQuoteParam Key Mint). z.token_amount) (some_eq at_param),
          ap (λ (z : SwapQuoteRequest). z.token_amount) (some_eq at_k),
        ),
        cc (
          keeps.1,
          ap (λ (z : SwapQuoteParam Key Mint). z.amount_specified_is_input) (some_eq at_param),
          ap (λ (z : SwapQuoteRequest). z.amount_specified_is_input) (some_eq at_k),
        ),
      )
      by_place first rest own others (suc k) keeps at_k at_param later = later k at_k at_param

  pub batch_build_swap_quote_params-AsksAt :
      (us : List QuoteRequest) (params : List (SwapQuoteParam Key Mint))
      → IsNumbered 0 us
      → batch_build_swap_quote_params sdk equals get_tick_array fetch get_pool to_pub_key
          no_token_extension_context
          (map QuoteRequest.request us)
        ≡ ok params
      → All (AsksAt params) us
  unfolding batch_build_swap_quote_params
  batch_build_swap_quote_params-AsksAt us params numbered e =
      let requests = map QuoteRequest.request us in
      let (made, made_is, e1) =
        >>=-eq-ok
          (batch_requests sdk equals get_tick_array fetch get_pool to_pub_key
            no_token_extension_context requests)
          _ e in
      numbered-AsksAt 0 us params numbered (λ k request param at_k at_param.
        let e0 : 0 + k ≡ k = omega arith in
        quote_params-Asks requests made
          (get_batch_tick_arrays get_tick_array fetch (
            map
              (tick_array_request sdk equals get_tick_array fetch get_pool to_pub_key
                no_token_extension_context)
              made))
          k request param made_is at_k
          (ap (λ z. get_elem? z k) (ok_injective e1) ∙ ap (get_elem? params) (sym e0) ∙ at_param))
