-- ===== src/Router/Requests/Each.antt =====
-- The loop over the paths of buildQuoteUpdateRequests (router/quote-map.ts): what it makes of each.
use whirlpools.Prelude.{
  ℕ, zero, suc, ◌+◌, ◌≡◌, ◌⊎◌, refl, subst, arith, Bool, Option, none, some, List, [], ◌∷◌, length,
  ℤ, inl, inr,
}
use whirlpools.Prelude.Predicates.{All, All-append, All-imp}
use whirlpools.Errors.{ok, >>=-eq-ok, ok_injective}
use whirlpools.Router.{TradePath}
use whirlpools.Router.Quotes.{InternalPathQuote}
use whirlpools.Router.Requests.{
  Trade, SwapQuoteRequest, QuoteRequest, item_at, slot_of, later_slots, push_request, update_path,
  update_paths,
}

abbrev pub Updated : Type 0 → Type 0
Updated Key = Option (InternalPathQuote Key) × Option SwapQuoteRequest

abbrev pub Slots : Type 0 → Type 0
Slots Key = List (Option (InternalPathQuote Key))

module _ {Key : Type 0} where
  slot_of-item_at : (slots : Slots Key) → slot_of slots ≡ item_at slots 0
  slot_of-item_at [] = refl
  slot_of-item_at (slot ∷ slots) = refl

  later_slots-item_at :
      (slots : Slots Key) (j : ℕ) → item_at (later_slots slots) j ≡ item_at slots (suc j)
  later_slots-item_at [] j = refl
  later_slots-item_at (slot ∷ slots) j = refl

module _ {Key : Type 0} (input : Bool) (trade : Trade) (hop p : ℕ) (amount : ℤ) where
  -- A slot is left alone, or updated for a path.
  abbrev pub Becomes : Option (InternalPathQuote Key) → Option (InternalPathQuote Key) → Type 0
  Becomes slot slot' =
      (slot' ≡ slot)
      ⊎ ((path : TradePath) × (upd : Updated Key) × (update_path input trade hop p amount path slot
            ≡ ok upd)
          × (slot' ≡ upd.0))

  -- A request comes from the update of the slot of its path.
  pub record IsMade (start : ℕ) (slots : Slots Key) (u : QuoteRequest) : Type 0 where
    pub edge_is : u.edge_index ≡ hop
    pub percent_is : u.split_percent ≡ p
    pub place : ℕ
    pub path_is : u.path_index ≡ start + place
    pub path : TradePath
    pub upd : Updated Key
    pub upd_is : update_path input trade hop p amount path (item_at slots place) ≡ ok upd
    pub request_is : upd.1 ≡ some u.request

  push_request-IsMade :
      (count start : ℕ) (slots : Slots Key) (path : TradePath) (upd : Updated Key)
      (request : Option SwapQuoteRequest)
      → update_path input trade hop p amount path (item_at slots 0) ≡ ok upd
      → upd.1 ≡ request
      → All (IsMade start slots) (push_request hop p count start request)
  push_request-IsMade count start slots path upd none is req = tt
  push_request-IsMade count start slots path upd (some request) is req = (
    record {
      edge_is = refl;
      percent_is = refl;
      place = 0;
      path_is = omega arith;
      path = path;
      upd = upd;
      upd_is = is;
      request_is = req;
    },
    tt,
  )

  later-IsMade :
      (start : ℕ) (slots : Slots Key) (u : QuoteRequest)
      → IsMade (start + 1) (later_slots slots) u
      → IsMade start slots u
  later-IsMade start slots u made = record {
    edge_is = made.edge_is;
    percent_is = made.percent_is;
    place = suc made.place;
    path_is = let is = made.path_is in omega arith;
    path = made.path;
    upd = made.upd;
    upd_is = rw (← later_slots-item_at slots made.place) made.upd_is;
    request_is = made.request_is;
  }

  pub update_paths-each :
      (count start : ℕ) (paths : List TradePath) (slots : Slots Key)
      (r : Slots Key × List QuoteRequest)
      → update_paths input trade hop p amount count start paths slots ≡ ok r
      → ((j : ℕ) → Becomes (item_at slots j) (item_at r.0 j)) × All (IsMade start slots) r.1
  unfolding update_paths
  update_paths-each count start [] slots r e =
      let same = ok_injective e in
      subst
        (λ (z : Slots Key × List QuoteRequest).
          ((j : ℕ) → Becomes (item_at slots j) (item_at z.0 j)) × All (IsMade start slots) z.1)
        same ((λ j. inl refl), tt)
  update_paths-each count start (path ∷ paths) slots r e =
      let (upd, upd_is, e1) =
        >>=-eq-ok (update_path input trade hop p amount path (slot_of slots)) _ e in
      let made = push_request hop p count start upd.1 in
      let (rest, rest_is, e2) =
        >>=-eq-ok
          (update_paths input trade hop p amount (count + length made) (start + 1) paths
            (later_slots slots))
          _ e1 in
      let at_first = rw (slot_of-item_at slots) at upd_is in
      let (become, all) =
        update_paths-each (count + length made) (start + 1) paths (later_slots slots) rest
          rest_is in
      subst
        (λ (z : Slots Key × List QuoteRequest).
          ((j : ℕ) → Becomes (item_at slots j) (item_at z.0 j)) × All (IsMade start slots) z.1)
        (ok_injective e2)
        (
          each path upd rest.0 at_first become,
          All-append (IsMade start slots) made rest.1
              (push_request-IsMade count start slots path upd upd.1 at_first refl)
              (All-imp (IsMade (start + 1) (later_slots slots)) (IsMade start slots)
                (later-IsMade start slots) rest.1 all),
        )
    where
      each :
          (path : TradePath) (upd : Updated Key) (rest : Slots Key)
          → update_path input trade hop p amount path (item_at slots 0) ≡ ok upd
          → ((j : ℕ) → Becomes (item_at (later_slots slots) j) (item_at rest j))
          → (j : ℕ) → Becomes (item_at slots j) (item_at (upd.0 ∷ rest) j)
      each path upd rest is become zero = inr (path, upd, is, refl)
      each path upd rest is become (suc j) = rw (← later_slots-item_at slots j) (become j)
