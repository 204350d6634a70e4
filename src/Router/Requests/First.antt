-- ===== src/Router/Requests/First.antt =====
-- buildQuoteUpdateRequests (router/quote-map.ts) at the first hop of an exact input: each request asks
-- for a part of the trade, and each quote is blank.
use mathlib.Core.List.{Memᴰ}
use whirlpools.Prelude.{ℕ, ◌+◌, ◌≡◌, sym, ap, subst, ◌∙◌, true, List, [], ◌∷◌, length, ℤ, inl, inr}
use whirlpools.Prelude.Predicates.{All, All-append, All-imp}
use whirlpools.Errors.{ok, >>=-eq-ok, ok_injective}
use whirlpools.Router.{TradePath}
use whirlpools.Router.Quotes.{InternalQuoteMap}
use whirlpools.Router.Requests.{
  Trade, QuoteRequest, entry_at, put_entry, item_at, slots_or_new, update_paths, build_requests,
}
use whirlpools.Router.Requests.Each.{Slots, Becomes, IsMade, update_paths-each}
use whirlpools.Router.Requests.Views.{slot_at}
use whirlpools.Router.Requests.Apt.{IsChained, AllSlots, update_path-IsChained}
use whirlpools.Router.Requests.Puts.{slots_or_new-slot_at, put_cases}

-- What stands in a map for the first hop.
abbrev pub IsFirst : List (ℕ × ℤ) → QuoteRequest → Type 0
IsFirst amounts u =
    (u.edge_index ≡ 0)
    × (u.request.amount_specified_is_input ≡ true)
    × Memᴰ (u.split_percent, u.request.token_amount) amounts

module _ {Key : Type 0} (amounts : List (ℕ × ℤ)) where
  module _ (trade : Trade) (paths : List TradePath) where
    first_slots :
        (p : ℕ) (amount : ℤ) (m : InternalQuoteMap Key) (slots slots' : Slots Key)
        → Memᴰ (p, amount) amounts
        → ((j : ℕ) → item_at slots j ≡ slot_at m p j)
        → AllSlots amounts (IsChained amounts 0) m
        → ((j : ℕ) → Becomes true trade 0 p amount (item_at slots j) (item_at slots' j))
        → AllSlots amounts (IsChained amounts 0) (put_entry p slots' m)
    first_slots p amount m slots slots' listed reads good become k j q at_q =
        elim (put_cases m p slots' k j) [
          | inr other ↦ good k j q (sym other ∙ at_q)
          | inl (same, is) ↦ rw (← same) (elim (become j) [
            | inl kept ↦ good p j q (sym (reads j) ∙ sym kept ∙ sym is ∙ at_q)
            | inr (path, upd, upd_is, at_upd) ↦
                (update_path-IsChained amounts trade p amount listed path (item_at slots j) upd
                    (λ q' at_q'. good p j q' (sym (reads j) ∙ at_q')) upd_is).0
                  q (sym at_upd ∙ sym is ∙ at_q)
          ])
        ]

    made-IsFirst :
        (p : ℕ) (amount : ℤ) (m : InternalQuoteMap Key) (slots : Slots Key) (u : QuoteRequest)
        → Memᴰ (p, amount) amounts
        → ((j : ℕ) → item_at slots j ≡ slot_at m p j)
        → AllSlots amounts (IsChained amounts 0) m
        → IsMade true trade 0 p amount 0 slots u
        → IsFirst amounts u
    made-IsFirst p amount m slots u listed reads good made =
        let (input, is) =
          (update_path-IsChained amounts trade p amount listed made.path (item_at slots made.place)
              made.upd (λ q at_q. good p made.place q (sym (reads made.place) ∙ at_q))
              made.upd_is).1
            u.request made.request_is in
        (made.edge_is, input, rw (made.percent_is, is) listed)

    pub build_requests-IsFirst :
        (count : ℕ) (rest : List (ℕ × ℤ)) (m : InternalQuoteMap Key)
        (r : InternalQuoteMap Key × List QuoteRequest)
        → All (λ x. Memᴰ x amounts) rest
        → AllSlots amounts (IsChained amounts 0) m
        → build_requests true trade paths 0 count rest m ≡ ok r
        → AllSlots amounts (IsChained amounts 0) r.0 × All (IsFirst amounts) r.1
    unfolding build_requests
    build_requests-IsFirst count [] m r listed good e =
        let same = ok_injective e in
        (
          subst (AllSlots amounts (IsChained amounts 0))
              (ap (λ (z : InternalQuoteMap Key × List QuoteRequest). z.0) same) good,
          subst (All (IsFirst amounts))
              (ap (λ (z : InternalQuoteMap Key × List QuoteRequest). z.1) same) tt,
        )
    build_requests-IsFirst count ((p, amount) ∷ rest) m r listed good e =
        let slots = slots_or_new (length paths) (entry_at p m) in
        let reads = slots_or_new-slot_at (length paths) m p in
        let (upd, upd_is, e1) =
          >>=-eq-ok (update_paths true trade 0 p amount count 0 paths slots) _ e in
        let (later, later_is, e2) =
          >>=-eq-ok
            (build_requests true trade paths 0 (count + length upd.1) rest (put_entry p upd.0 m)) _
            e1 in
        let (become, made) =
          update_paths-each true trade 0 p amount count 0 paths slots upd upd_is in
        let (good', firsts) =
          build_requests-IsFirst (count + length upd.1) rest (put_entry p upd.0 m) later listed.1
            (first_slots p amount m slots upd.0 listed.0 reads good become) later_is in
        let same = ok_injective e2 in
        (
          subst (AllSlots amounts (IsChained amounts 0))
              (ap (λ (z : InternalQuoteMap Key × List QuoteRequest). z.0) same) good',
          subst (All (IsFirst amounts))
              (ap (λ (z : InternalQuoteMap Key × List QuoteRequest). z.1) same)
              (All-append (IsFirst amounts) upd.1 later.1
                (All-imp (IsMade true trade 0 p amount 0 slots) (IsFirst amounts)
                  (λ u made. made-IsFirst p amount m slots u listed.0 reads good made) upd.1 made)
                firsts),
        )
