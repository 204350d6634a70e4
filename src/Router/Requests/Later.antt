-- ===== src/Router/Requests/Later.antt =====
-- buildQuoteUpdateRequests (router/quote-map.ts) after the first hop of an exact input: the quotes are
-- left alone, and each request asks for what the hop before it gave out.
use mathlib.Core.List.{Memᴰ}
use whirlpools.Prelude.{
  ℕ, suc, ◌+◌, ◌≡◌, sym, ap, subst, ◌∙◌, arith, true, List, [], ◌∷◌, length, ℤ, inl, inr,
}
use whirlpools.Prelude.Predicates.{All, All-append, All-imp}
use whirlpools.Errors.{ok, >>=-eq-ok, ok_injective}
use whirlpools.Router.{TradePath}
use whirlpools.Router.Quotes.{InternalQuoteMap}
use whirlpools.Router.Requests.{
  Trade, QuoteRequest, entry_at, put_entry, item_at, slots_or_new, update_paths, build_requests,
}
use whirlpools.Router.Requests.Each.{Slots, Becomes, IsMade, update_paths-each}
use whirlpools.Router.Requests.Views.{slot_at}
use whirlpools.Router.Requests.Apt.{IsApt, update_path-AsksFor}
use whirlpools.Router.Requests.Puts.{slots_or_new-slot_at, put_cases}

module _ {Key : Type 0} (amounts : List (ℕ × ℤ)) (h : ℕ) where
  -- Two maps with the same quotes.
  abbrev pub SameSlots : InternalQuoteMap Key → InternalQuoteMap Key → Type 0
  SameSlots m m' = (k j : ℕ) → slot_at m k j ≡ slot_at m' k j

  -- A later hop keeps the quotes.
  later_slots-SameSlots :
      (trade : Trade) (p : ℕ) (amount : ℤ) (listed : Memᴰ (p, amount) amounts)
      (m : InternalQuoteMap Key) (slots slots' : Slots Key)
      → ((j : ℕ) → item_at slots j ≡ slot_at m p j)
      → ((j : ℕ) → Becomes true trade (suc h) p amount (item_at slots j) (item_at slots' j))
      → SameSlots (put_entry p slots' m) m
  later_slots-SameSlots trade p amount listed m slots slots' reads become k j =
      elim (put_cases m p slots' k j) [
        | inr other ↦ other
        | inl (same, is) ↦ elim (become j) [
          | inl kept ↦ is ∙ kept ∙ reads j ∙ ap (λ x. slot_at m x j) same
          | inr (path, upd, upd_is, at_upd) ↦
              is
              ∙ at_upd
              ∙ (update_path-AsksFor amounts trade p amount listed h path (item_at slots j) upd
                  upd_is).0
              ∙ reads j
              ∙ ap (λ x. slot_at m x j) same
        ]
      ]

  pub IsApt-SameSlots :
      (m m' : InternalQuoteMap Key) (u : QuoteRequest)
      → SameSlots m' m
      → IsApt amounts (suc h) m' u
      → IsApt amounts (suc h) m u
  IsApt-SameSlots m m' u same apt = record {
    edge_is = apt.edge_is;
    input_is = apt.input_is;
    asks = λ q a at_q at_a. apt.asks q a (same u.split_percent u.path_index ∙ at_q) at_a;
  }

  made-IsApt :
      (trade : Trade) (p : ℕ) (amount : ℤ) (listed : Memᴰ (p, amount) amounts)
      (m : InternalQuoteMap Key) (slots : Slots Key) (u : QuoteRequest)
      → ((j : ℕ) → item_at slots j ≡ slot_at m p j)
      → IsMade true trade (suc h) p amount 0 slots u
      → IsApt amounts (suc h) m u
  made-IsApt trade p amount listed m slots u reads made =
      let (input, asks) =
        (update_path-AsksFor amounts trade p amount listed h made.path (item_at slots made.place)
            made.upd made.upd_is).1
          u.request made.request_is in
      let path_is : u.path_index ≡ made.place = let is = made.path_is in omega arith in
      record {
        edge_is = made.edge_is;
        input_is = input;
        asks = λ q a at_q at_a.
            asks q a (reads made.place ∙ rw (made.percent_is, path_is) at at_q) at_a;
      }

  module _ (trade : Trade) (paths : List TradePath) where
    pub build_requests-IsApt :
        (count : ℕ) (rest : List (ℕ × ℤ)) (m : InternalQuoteMap Key)
        (r : InternalQuoteMap Key × List QuoteRequest)
        → All (λ x. Memᴰ x amounts) rest
        → build_requests true trade paths (suc h) count rest m ≡ ok r
        → SameSlots r.0 m × All (IsApt amounts (suc h) m) r.1
    unfolding build_requests
    build_requests-IsApt count [] m r listed e =
        let same = ok_injective e in
        (
          λ k j. ap (λ (z : InternalQuoteMap Key × List QuoteRequest). slot_at z.0 k j) (sym same),
          subst (All (IsApt amounts (suc h) m))
              (ap (λ (z : InternalQuoteMap Key × List QuoteRequest). z.1) same) tt,
        )
    build_requests-IsApt count ((p, amount) ∷ rest) m r listed e =
        let slots = slots_or_new (length paths) (entry_at p m) in
        let reads = slots_or_new-slot_at (length paths) m p in
        let (upd, upd_is, e1) =
          >>=-eq-ok (update_paths true trade (suc h) p amount count 0 paths slots) _ e in
        let m' = put_entry p upd.0 m in
        let (later, later_is, e2) =
          >>=-eq-ok (build_requests true trade paths (suc h) (count + length upd.1) rest m') _ e1 in
        let (become, made) =
          update_paths-each true trade (suc h) p amount count 0 paths slots upd upd_is in
        let kept = later_slots-SameSlots trade p amount listed.0 m slots upd.0 reads become in
        let (same_slots, apts) =
          build_requests-IsApt (count + length upd.1) rest m' later listed.1 later_is in
        let same = ok_injective e2 in
        (
          λ k j.
              ap (λ (z : InternalQuoteMap Key × List QuoteRequest). slot_at z.0 k j) (sym same)
              ∙ same_slots k j
              ∙ kept k j,
          subst (All (IsApt amounts (suc h) m))
              (ap (λ (z : InternalQuoteMap Key × List QuoteRequest). z.1) same)
              (All-append (IsApt amounts (suc h) m) upd.1 later.1
                (All-imp (IsMade true trade (suc h) p amount 0 slots) (IsApt amounts (suc h) m)
                  (λ u made. made-IsApt trade p amount listed.0 m slots u reads made) upd.1 made)
                (All-imp (IsApt amounts (suc h) m') (IsApt amounts (suc h) m)
                  (λ u apt. IsApt-SameSlots m m' u kept apt) later.1 apts)),
        )
