-- ===== src/Router/QuoteMaps/Hops.antt =====
-- The quote of a path with one hop filled in (populateQuoteMap of router/quote-map.ts).
use mathlib.Core.List.{Memᴰ}
use native.Mathlib.Decide.{ℕ_discrete}
use whirlpools.Prelude.{
  ℕ, zero, suc, ◌≡◌, ◌≢◌, ◌⊎◌, inl, inr, refl, sym, ap, ◌∙◌, arith, Option, none, some, List, set,
  length-set, ℤ,
}
use whirlpools.Router.{TradeHop}
use whirlpools.Router.Quotes.{HopResult, success, InternalPathQuote, InternalQuoteMap}
use whirlpools.Router.Requests.{entry_at, put_entry, item_at}
use whirlpools.Router.Requests.Views.{item_at-set_self, item_at-set_other, slot_at}
use whirlpools.Router.Requests.Puts.{put_cases}
use whirlpools.Router.Requests.Apt.{IsChained, AsksFor}

some_eq : {A : Type 0} {a b : A} → some a ≡ some b → a ≡ b
some_eq e = cc

module _ {Key : Type 0} (quotes : List (Option (HopResult Key))) (h : ℕ)
    (result : HopResult Key) where
  pub read_other :
      (e : ℕ) {x : Option (HopResult Key)}
      → h ≢ e
      → item_at (set quotes h (some result)) e ≡ x
      → item_at quotes e ≡ x
  read_other e apart at_e = sym (item_at-set_other quotes h e (some result) apart) ∙ at_e

  read_self :
      (e : ℕ) {x : HopResult Key}
      → h ≡ e
      → item_at (set quotes h (some result)) e ≡ some x
      → result ≡ x
  read_self e same at_e = some_eq (
      item_at-set_self quotes h (some result)
        (ap (item_at (set quotes h (some result))) same ∙ at_e))

  -- Two hops beside each other, one of which may have been written.
  set-chained :
      (e : ℕ) (a b : TradeHop Key)
      → item_at quotes (suc h) ≡ none
      → (item_at quotes e ≡ some (success a)
          → item_at quotes (suc e) ≡ some (success b)
          → a.amount_out ≡ b.amount_in)
      → (suc e ≡ h
          → item_at quotes e ≡ some (success a)
          → result ≡ success b
          → a.amount_out ≡ b.amount_in)
      → item_at (set quotes h (some result)) e ≡ some (success a)
      → item_at (set quotes h (some result)) (suc e) ≡ some (success b)
      → a.amount_out ≡ b.amount_in
  set-chained e a b gap old new at_e at_next = elim (ℕ_discrete h (suc e)) [
    | yes next ↦
        new (sym next) (read_other e (λ same. absurd (omega arith)) at_e)
          (read_self (suc e) next at_next)
    | no apart ↦ elim (ℕ_discrete h e) [
      | yes same ↦ cc (gap, ap (λ n. item_at quotes (suc n)) same, read_other (suc e) apart at_next)
      | no other ↦ old (read_other e other at_e) (read_other (suc e) apart at_next)
    ]
  ]

module _ {Key : Type 0} (amounts : List (ℕ × ℤ)) where
  asks_before :
      (h p e : ℕ) (amount : ℤ) (path : InternalPathQuote Key) (a : TradeHop Key)
      → AsksFor amounts h p amount (some path)
      → suc e ≡ h
      → item_at path.calculated_edge_quotes e ≡ some (success a)
      → amount ≡ a.amount_out
  asks_before zero p e amount path a asks next at_e = absurd (omega arith)
  asks_before (suc h) p e amount path a asks next at_e =
      let same : e ≡ h = omega arith in
      asks path a refl (ap (item_at path.calculated_edge_quotes) (sym same) ∙ at_e)

  asks_first :
      (h p : ℕ) (amount : ℤ) (path : InternalPathQuote Key)
      → AsksFor amounts h p amount (some path)
      → h ≡ 0
      → Memᴰ (p, amount) amounts
  asks_first zero p amount path asks same = asks
  asks_first (suc h) p amount path asks same = absurd (omega arith)

  -- The quote of a path with the hop that was asked for.
  pub with_hop-IsChained :
      (h p : ℕ) (amount : ℤ) (path : InternalPathQuote Key) (result : HopResult Key)
      → IsChained amounts (suc h) p path
      → AsksFor amounts h p amount (some path)
      → ((b : TradeHop Key) → result ≡ success b → b.amount_in ≡ amount)
      → IsChained amounts (suc h) p (record {
        path = path.path;
        edges_pool_addrs = path.edges_pool_addrs;
        split_percent = path.split_percent;
        calculated_edge_quotes = set path.calculated_edge_quotes h (some result);
      })
  with_hop-IsChained h p amount path result good asks takes = record {
    fresh = λ e past.
        item_at-set_other path.calculated_edge_quotes h e (some result)
          (λ same. absurd (omega arith))
        ∙ good.fresh e past;
    chained = λ e a b.
        set-chained path.calculated_edge_quotes h result e a b (good.fresh (suc h) (omega arith))
          (good.chained e a b)
          (λ next at_e is. sym (asks_before h p e amount path a asks next at_e) ∙ sym (takes b is));
    first = λ a at_first. elim (ℕ_discrete h 0) [
      | yes same ↦
          rw (takes a (read_self path.calculated_edge_quotes h result 0 same at_first))
            (asks_first h p amount path asks same)
      | no apart ↦ good.first a (read_other path.calculated_edge_quotes h result 0 apart at_first)
    ];
    sized = length-set path.calculated_edge_quotes h (some result) ∙ good.sized;
  }

  -- A quote of a map with one slot replaced, which is of the new quote or as it was.
  pub put_slot :
      (m : InternalQuoteMap Key) (p i : ℕ) (slots : List (Option (InternalPathQuote Key)))
      (new : InternalPathQuote Key) (k j : ℕ)
      → entry_at p m ≡ some slots
      → ((p ≡ k)
          × (i ≡ j)
          × ((q : InternalPathQuote Key)
              → slot_at (put_entry p (set slots i (some new)) m) k j ≡ some q
              → new ≡ q))
        ⊎ (slot_at (put_entry p (set slots i (some new)) m) k j ≡ slot_at m k j)
  put_slot m p i slots new k j entry_is = elim (put_cases m p (set slots i (some new)) k j) [
    | inr other ↦ inr other
    | inl (same, is) ↦ elim (ℕ_discrete i j) [
      | no apart ↦
          let own : slot_at m k j ≡ item_at slots j = rw (← same, entry_is) refl in
          inr (is ∙ item_at-set_other slots i j (some new) apart ∙ sym own)
      | yes here ↦ inl (
        same,
        here,
        λ q at_q. some_eq (
            item_at-set_self slots i (some new)
              (ap (item_at (set slots i (some new))) here ∙ sym is ∙ at_q)),
      )
    ]
  ]
