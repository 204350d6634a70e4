-- ===== src/Router/QuoteMaps/Fills.antt =====
-- populateQuoteMap (router/quote-map.ts) for an exact input: a hop that is filled in keeps the quotes
-- of the paths chained.
use whirlpools.Prelude.{
  ℕ, zero, suc, ◌≡◌, ◌≢◌, inl, inr, refl, sym, ap, subst, ◌∙◌, arith, true, Option, none, some,
  List, [], ◌∷◌, get_elem?, keys, set, ℤ,
}
use whirlpools.Prelude.Predicates.{All, All-imp, Pairwise}
use whirlpools.Errors.{Error, Result, ok, err, out_of_fuel, >>=-eq-ok, ok_injective}
use whirlpools.TickArraySequence.{require}
use whirlpools.SwapQuote.{SwapQuoteParam, SwapQuote}
use whirlpools.Text.{Text}
use whirlpools.Router.{TradeHop}
use whirlpools.Router.Quotes.{HopResult, success, failure, InternalPathQuote, InternalQuoteMap}
use whirlpools.Router.Requests.{SwapQuoteRequest, QuoteRequest, entry_at, put_entry, item_at}
use whirlpools.Router.Requests.Views.{slot_at}
use whirlpools.Router.Requests.Keys.{put_entry-once}
use whirlpools.Router.Requests.Apt.{IsChained, AllSlots, AsksFor, IsApt}
use whirlpools.Router.QuoteMaps.{
  quoted_hop, quote_hop, with_hop, error_code, populate_one, populate_quote_map,
}
use whirlpools.Router.QuoteMaps.Batches.{Asks, AsksAt}
use whirlpools.Router.QuoteMaps.Hops.{read_other, with_hop-IsChained, put_slot}

success_eq : {Key : Type 0} {a b : TradeHop Key} → success a ≡ success b → a ≡ b
success_eq e = cc

require_is : {A : Type 0} {slot : Option A} {a : A} → require slot ≡ ok a → slot ≡ some a
require_is {slot = none} e = cc
require_is {slot = some b} e = ap some (ok_injective e)

-- A hop that was quoted for a request takes in what the request says.
abbrev TakesIn : {Key : Type 0} → SwapQuoteRequest → HopResult Key → Type 0
TakesIn {Key} request result =
    (b : TradeHop Key) → result ≡ success b → b.amount_in ≡ request.token_amount

module _ {Key Mint : Type 0} (swap_quote : SwapQuoteParam Key Mint → Result (SwapQuote Key))
    (to_base58 : Key → Text) where
  quote_hop-TakesIn :
      (request : SwapQuoteRequest) (param : Option (SwapQuoteParam Key Mint))
      (result : HopResult Key)
      → request.amount_specified_is_input ≡ true
      → ((p : SwapQuoteParam Key Mint) → param ≡ some p → Asks request p)
      → quote_hop swap_quote to_base58 request param ≡ ok result
      → TakesIn request result
  unfolding quote_hop
  quote_hop-TakesIn request none result input asks e b is = cc
  quote_hop-TakesIn request (some param) result given asks e b is = by_quote (swap_quote param) e
    where
      by_error :
          (x : Error)
          → (elim x [
            | Error.out_of_fuel ↦ err out_of_fuel
            | other ↦ ok (failure (error_code other))
          ])
            ≡ ok result
          → b.amount_in ≡ request.token_amount
      by_error Error.out_of_fuel e = cc
      by_error x e = let same = ok_injective e in cc

      by_quote :
          (quote : Result (SwapQuote Key))
          → elim quote [
            | ok q ↦ ok (success (quoted_hop swap_quote to_base58 request param q))
            | err x ↦ elim x [
              | Error.out_of_fuel ↦ err out_of_fuel
              | other ↦ ok (failure (error_code other))
            ]
          ]
            ≡ ok result
          → b.amount_in ≡ request.token_amount
      by_quote (ok quote) e =
          let (amount_is, input_is) = asks param refl in
          let input = input_is ∙ given in
          let hop_is = success_eq (ok_injective e ∙ is) in
          rw (input) at (sym (ap TradeHop.amount_in hop_is)) ∙ amount_is
      by_quote (err x) e = by_error x e

module _ {Key Mint : Type 0} (swap_quote : SwapQuoteParam Key Mint → Result (SwapQuote Key))
    (to_base58 : Key → Text) (amounts : List (ℕ × ℤ)) where
  -- A new quote of a path keeps what the other requests ask for.
  put-IsApt :
      (h : ℕ) (m : InternalQuoteMap Key) (p i : ℕ) (slots : List (Option (InternalPathQuote Key)))
      (path : InternalPathQuote Key) (result : HopResult Key) (u : QuoteRequest)
      → entry_at p m ≡ some slots
      → item_at slots i ≡ some path
      → IsApt amounts h m u
      → IsApt amounts h
          (put_entry p (set slots i (some (with_hop swap_quote to_base58 h result path))) m)
          u
  put-IsApt zero m p i slots path result u entry_is path_is apt = record {
    edge_is = apt.edge_is;
    input_is = apt.input_is;
    asks = apt.asks;
  }
  put-IsApt (suc h) m p i slots path result u entry_is path_is apt = record {
    edge_is = apt.edge_is;
    input_is = apt.input_is;
    asks = λ q a at_q at_a.
        elim (put_slot amounts m p i slots (with_hop swap_quote to_base58 (suc h) result path)
          u.split_percent u.path_index entry_is) [
            | inr other ↦ apt.asks q a (sym other ∙ at_q) at_a
            | inl (same, here, is) ↦ apt.asks path a (rw (← same, ← here, entry_is) path_is) (
                read_other path.calculated_edge_quotes (suc h) result h (λ e. absurd (omega arith))
                  (ap (λ (z : InternalPathQuote Key). item_at z.calculated_edge_quotes h)
                      (is q at_q)
                    ∙ at_a))
          ];
  }

  fill-IsChained :
      (h : ℕ) (m : InternalQuoteMap Key) (slots : List (Option (InternalPathQuote Key)))
      (path : InternalPathQuote Key) (result : HopResult Key) (u : QuoteRequest)
      → entry_at u.split_percent m ≡ some slots
      → item_at slots u.path_index ≡ some path
      → TakesIn u.request result
      → AllSlots amounts (IsChained amounts (suc h)) m
      → IsApt amounts h m u
      → AllSlots amounts (IsChained amounts (suc h)) (
          put_entry u.split_percent
            (set slots u.path_index (some (with_hop swap_quote to_base58 h result path)))
            m)
  fill-IsChained h m slots path result u entry_is path_is takes good apt k j q at_q =
      let read : slot_at m u.split_percent u.path_index ≡ some path = rw entry_is path_is in
      elim (put_slot amounts m u.split_percent u.path_index slots
        (with_hop swap_quote to_base58 h result path) k j entry_is) [
          | inr other ↦ good k j q (sym other ∙ at_q)
          | inl (same, here, is) ↦ subst (IsChained amounts (suc h) k) (is q at_q) (
              rw (← same) (
                with_hop-IsChained amounts h u.split_percent u.request.token_amount path result
                  (good u.split_percent u.path_index path read)
                  (subst (AsksFor amounts h u.split_percent u.request.token_amount) read apt.asks)
                  takes))
        ]

  pub populate_one-IsChained :
      (h : ℕ) (u : QuoteRequest) (params : List (SwapQuoteParam Key Mint))
      (m r : InternalQuoteMap Key)
      → AllSlots amounts (IsChained amounts (suc h)) m
      → IsApt amounts h m u
      → AsksAt params u
      → populate_one swap_quote to_base58 u params m ≡ ok r
      → AllSlots amounts (IsChained amounts (suc h)) r
        × ((u' : QuoteRequest) → IsApt amounts h m u' → IsApt amounts h r u')
  unfolding populate_one
  populate_one-IsChained h u params m r good apt asks e =
      let (slots, slots_is, e1) = >>=-eq-ok (require (entry_at u.split_percent m)) _ e in
      let (path, path_is, e2) = >>=-eq-ok (require (item_at slots u.path_index)) _ e1 in
      let (result, result_is, e3) =
        >>=-eq-ok (quote_hop swap_quote to_base58 u.request (get_elem? params u.quote_index)) _
          e2 in
      let takes =
        quote_hop-TakesIn swap_quote to_base58 u.request (get_elem? params u.quote_index) result
          apt.input_is asks result_is in
      filled slots path result (require_is slots_is) (require_is path_is) takes (ok_injective e3)
    where
      filled :
          (slots : List (Option (InternalPathQuote Key))) (path : InternalPathQuote Key)
          (result : HopResult Key)
          → entry_at u.split_percent m ≡ some slots
          → item_at slots u.path_index ≡ some path
          → TakesIn u.request result
          → put_entry u.split_percent
              (set slots u.path_index
                (some (with_hop swap_quote to_base58 u.edge_index result path)))
              m
            ≡ r
          → AllSlots amounts (IsChained amounts (suc h)) r
            × ((u' : QuoteRequest) → IsApt amounts h m u' → IsApt amounts h r u')
      filled slots path result slots_is path_is takes r_is =
          let filled_is =
            ap
              (λ n.
                put_entry u.split_percent
                  (set slots u.path_index (some (with_hop swap_quote to_base58 n result path))) m)
              (sym apt.edge_is)
            ∙ r_is in
          (
            subst (AllSlots amounts (IsChained amounts (suc h))) filled_is
                (fill-IsChained h m slots path result u slots_is path_is takes good apt),
            λ u' apt'.
                subst (λ z. IsApt amounts h z u') filled_is
                  (put-IsApt h m u.split_percent u.path_index slots path result u' slots_is path_is
                    apt'),
          )

  pub populate_quote_map-IsChained :
      (h : ℕ) (us : List QuoteRequest) (params : List (SwapQuoteParam Key Mint))
      (m r : InternalQuoteMap Key)
      → AllSlots amounts (IsChained amounts (suc h)) m
      → All (IsApt amounts h m) us
      → All (AsksAt params) us
      → populate_quote_map swap_quote to_base58 us params m ≡ ok r
      → AllSlots amounts (IsChained amounts (suc h)) r
  unfolding populate_quote_map
  populate_quote_map-IsChained h [] params m r good apts asks e =
      subst (AllSlots amounts (IsChained amounts (suc h))) (ok_injective e) good
  populate_quote_map-IsChained h (u ∷ us) params m r good apts asks e =
      let (next, next_is, e1) = >>=-eq-ok (populate_one swap_quote to_base58 u params m) _ e in
      let (good', keeps) = populate_one-IsChained h u params m next good apts.0 asks.0 next_is in
      populate_quote_map-IsChained h us params next r good'
        (All-imp (IsApt amounts h m) (IsApt amounts h next) keeps us apts.1) asks.1 e1

  pub populate_quote_map-once :
      (us : List QuoteRequest) (params : List (SwapQuoteParam Key Mint))
      (m r : InternalQuoteMap Key)
      → populate_quote_map swap_quote to_base58 us params m ≡ ok r
      → Pairwise ◌≢◌ (keys m)
      → Pairwise ◌≢◌ (keys r)
  unfolding populate_quote_map populate_one
  populate_quote_map-once [] params m r e once =
      subst (λ z. Pairwise ◌≢◌ (keys z)) (ok_injective e) once
  populate_quote_map-once (u ∷ us) params m r e once =
      let (next, next_is, e1) = >>=-eq-ok (populate_one swap_quote to_base58 u params m) _ e in
      let (slots, slots_is, f1) = >>=-eq-ok (require (entry_at u.split_percent m)) _ next_is in
      let (path, path_is, f2) = >>=-eq-ok (require (item_at slots u.path_index)) _ f1 in
      let (result, result_is, f3) =
        >>=-eq-ok (quote_hop swap_quote to_base58 u.request (get_elem? params u.quote_index)) _
          f2 in
      populate_quote_map-once us params next r e1 (
        subst (λ z. Pairwise ◌≢◌ (keys z)) (ok_injective f3)
          (put_entry-once u.split_percent _ m once))
