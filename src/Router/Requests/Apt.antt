-- ===== src/Router/Requests/Apt.antt =====
-- What the requests of a hop ask for (buildQuoteUpdateRequests of router/quote-map.ts), for an exact
-- input: the part of the trade at the first hop, and later what the hop before it gave out.
use mathlib.Core.List.{Memᴰ}
use whirlpools.Prelude.{
  length-map, length-replicate, ℕ, zero, suc, ◌==◌, ◌≤◌, ◌≡◌, sym, ap, subst, ◌∙◌, arith, true,
  false, Option, none, some, List, map, length, ℤ, Bool-cases, inl, inr,
}
use whirlpools.Errors.{ok, err, type_error, ok_injective}
use whirlpools.Text.{Text}
use whirlpools.Router.{TradePath, TradeHop, Edge}
use whirlpools.Router.Quotes.{HopResult, success, failure, InternalPathQuote, InternalQuoteMap}
use whirlpools.Router.Requests.{
  Trade, SwapQuoteRequest, QuoteRequest, item_at, blank_quote, request_of, next_trade, is_beyond,
  ask, update_path,
}
use whirlpools.Router.Requests.Each.{Updated}
use whirlpools.Router.Requests.Views.{slot_at, item_at-replicate}

some_eq : {A : Type 0} {a b : A} → some a ≡ some b → a ≡ b
some_eq e = cc

success_eq : {Key : Type 0} {a b : TradeHop Key} → some (success a) ≡ some (success b) → a ≡ b
success_eq e = cc

next_asks :
    {Key : Type 0} (trade : Trade) (amount : ℤ) (pools : List Text) (hop : ℕ)
    (last : Option (HopResult Key)) (s : SwapQuoteRequest)
    → request_of true pools hop (next_trade true trade amount false last) ≡ some s
    → (s.amount_specified_is_input ≡ true)
      × ((a : TradeHop Key) → last ≡ some (success a) → s.token_amount ≡ a.amount_out)
next_asks trade amount pools hop none s e = cc
next_asks trade amount pools hop (some (failure code)) s e = cc
next_asks trade amount pools hop (some (success b)) s e =
    let is = some_eq e in
    (
      sym (ap (λ (z : SwapQuoteRequest). z.amount_specified_is_input) is),
      λ a same.
          sym (ap (λ (z : SwapQuoteRequest). z.token_amount) is)
          ∙ ap TradeHop.amount_out (success_eq same),
    )

module _ {Key : Type 0} (amounts : List (ℕ × ℤ)) where
  -- The quote of a path whose hops before `h` have been quoted: none is quoted from `h` on, each hop
  -- takes in what the one before it gave out, and the first takes in the part of the trade.
  pub record IsChained (h p : ℕ) (q : InternalPathQuote Key) : Type 0 where
    pub fresh : (e : ℕ) → h ≤ e → item_at q.calculated_edge_quotes e ≡ none
    pub chained :
        (e : ℕ) (a b : TradeHop Key)
        → item_at q.calculated_edge_quotes e ≡ some (success a)
        → item_at q.calculated_edge_quotes (suc e) ≡ some (success b)
        → a.amount_out ≡ b.amount_in
    pub first :
        (a : TradeHop Key)
        → item_at q.calculated_edge_quotes 0 ≡ some (success a)
        → Memᴰ (p, a.amount_in) amounts
    pub sized : length q.calculated_edge_quotes ≡ length q.edges_pool_addrs

  -- A property of the quotes of all paths of a map.
  abbrev pub AllSlots : (ℕ → InternalPathQuote Key → Type 0) → InternalQuoteMap Key → Type 0
  AllSlots P m = (p i : ℕ) (q : InternalPathQuote Key) → slot_at m p i ≡ some q → P p q

  blank-IsChained : (p : ℕ) (path : TradePath) → IsChained 0 p (blank_quote p path)
  blank-IsChained p path =
      let gap = λ (e : ℕ). item_at-replicate {V = HopResult Key} (length path.edges) e in
      record {
        fresh = λ e _. gap e;
        chained = λ e a b at_e _. cc (gap e, at_e);
        first = λ a at_e. cc (gap 0, at_e);
        sized =
            length-replicate (length path.edges) none
            ∙ sym (length-map Edge.pool_address path.edges);
      }

  -- What a request at hop `h` asks for, by the quote of its path.
  abbrev pub AsksFor : ℕ → ℕ → ℤ → Option (InternalPathQuote Key) → Type 0
  AsksFor zero p amount slot = Memᴰ (p, amount) amounts
  AsksFor (suc h) p amount slot =
      (q : InternalPathQuote Key) (a : TradeHop Key)
      → slot ≡ some q
      → item_at q.calculated_edge_quotes h ≡ some (success a)
      → amount ≡ a.amount_out

  pub record IsApt (h : ℕ) (m : InternalQuoteMap Key) (u : QuoteRequest) : Type 0 where
    pub edge_is : u.edge_index ≡ h
    pub input_is : u.request.amount_specified_is_input ≡ true
    pub asks :
        AsksFor h u.split_percent u.request.token_amount (slot_at m u.split_percent u.path_index)

  module _ (trade : Trade) (p : ℕ) (amount : ℤ) (listed : Memᴰ (p, amount) amounts) where
    -- The body of the inner loop at the first hop: the quote is blank or as it was.
    pub update_path-IsChained :
        (path : TradePath) (slot : Option (InternalPathQuote Key))
        (r : Option (InternalPathQuote Key) × Option SwapQuoteRequest)
        → ((q : InternalPathQuote Key) → slot ≡ some q → IsChained 0 p q)
        → update_path true trade 0 p amount path slot ≡ ok r
        → ((q : InternalPathQuote Key) → r.0 ≡ some q → IsChained 0 p q)
          × ((s : SwapQuoteRequest)
              → r.1 ≡ some s
              → (s.amount_specified_is_input ≡ true) × (s.token_amount ≡ amount))
    unfolding update_path
    update_path-IsChained path slot r good e = elim (Bool-cases (is_beyond true 0 path)) [
      | inl beyond ↦
          let same : (slot, none) ≡ r = ok_injective (rw beyond at e) in
          (
            λ q at_q. good q (ap (λ (z : Updated Key). z.0) same ∙ at_q),
            λ s at_s. cc (ap (λ (z : Updated Key). z.1) same, at_s),
          )
      | inr within ↦
          let same : (
            some (blank_quote p path),
            ask {Key = Key} true trade 0 p amount path (blank_quote p path),
          )
              ≡ r =
            ok_injective (rw within at e) in
          (
            λ q at_q.
                subst (IsChained 0 p) (some_eq (ap (λ (z : Updated Key). z.0) same ∙ at_q))
                  (blank-IsChained p path),
            λ s at_s.
                let is = some_eq (ap (λ (z : Updated Key). z.1) same ∙ at_s) in
                (
                  sym (ap (λ (z : SwapQuoteRequest). z.amount_specified_is_input) is),
                  sym (ap (λ (z : SwapQuoteRequest). z.token_amount) is),
                ),
          )
    ]

    -- At a later hop it is as it was, and the request asks for what the hop before it gave out.
    pub update_path-AsksFor :
        (h : ℕ) (path : TradePath) (slot : Option (InternalPathQuote Key))
        (r : Option (InternalPathQuote Key) × Option SwapQuoteRequest)
        → update_path true trade (suc h) p amount path slot ≡ ok r
        → (r.0 ≡ slot)
          × ((s : SwapQuoteRequest)
              → r.1 ≡ some s
              → (s.amount_specified_is_input ≡ true) × AsksFor (suc h) p s.token_amount slot)
    unfolding update_path
    update_path-AsksFor h path slot r e = elim (Bool-cases (is_beyond true (suc h) path)) [
      | inl beyond ↦
          let same : (slot, none) ≡ r = ok_injective (rw beyond at e) in
          (
            sym (ap (λ (z : Updated Key). z.0) same),
            λ s at_s. cc (ap (λ (z : Updated Key). z.1) same, at_s),
          )
      | inr within ↦
          let begun : (suc h == 0) ≡ false = ground arith in asked slot (rw (within, begun) at e)
    ]
      where
        asked :
            (slot : Option (InternalPathQuote Key))
            → (elim slot [
              | none ↦ err type_error
              | some current ↦ ok (some current, ask true trade (suc h) p amount path current)
            ])
              ≡ ok r
            → (r.0 ≡ slot)
              × ((s : SwapQuoteRequest)
                  → r.1 ≡ some s
                  → (s.amount_specified_is_input ≡ true) × AsksFor (suc h) p s.token_amount slot)
        asked none e = cc
        asked (some current) e =
            let begun : (suc h == 0) ≡ false = ground arith in
            let same = ok_injective e in
            (
              sym (ap (λ (z : Updated Key). z.0) same),
              λ s at_s.
                  let (input, out) =
                    next_asks trade amount (map Edge.pool_address path.edges) (suc h)
                      (item_at current.calculated_edge_quotes h) s
                      (rw begun at (ap (λ (z : Updated Key). z.1) same ∙ at_s)) in
                  (
                    input,
                    λ q a is at_a. out a (
                        ap (λ (z : InternalPathQuote Key). item_at z.calculated_edge_quotes h)
                          (some_eq is)
                        ∙ at_a),
                  ),
            )
