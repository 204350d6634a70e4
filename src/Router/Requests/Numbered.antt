-- ===== src/Router/Requests/Numbered.antt =====
-- The index of each request among those of a hop (buildQuoteUpdateRequests of router/quote-map.ts).
use whirlpools.Prelude.{
  ℕ, suc, ◌+◌, ◌≡◌, refl, ap, subst, arith, Bool, Option, none, some, List, [], ◌∷◌, ◌++◌, length,
  ℤ,
}
use whirlpools.Errors.{ok, >>=-eq-ok, ok_injective}
use whirlpools.Router.{TradePath}
use whirlpools.Router.Quotes.{InternalQuoteMap}
use whirlpools.Router.Requests.{
  Trade, SwapQuoteRequest, QuoteRequest, entry_at, put_entry, slot_of, later_slots, slots_or_new,
  push_request, update_path, update_paths, build_requests,
}
use whirlpools.Router.Requests.Each.{Slots}

-- The requests carry the numbers from `count` on.
abbrev pub IsNumbered : ℕ → List QuoteRequest → Type 0
IsNumbered count [] = Unit
IsNumbered count (u ∷ us) = (u.quote_index ≡ count) × IsNumbered (suc count) us

IsNumbered-append :
    (count : ℕ) (us vs : List QuoteRequest)
    → IsNumbered count us
    → IsNumbered (count + length us) vs
    → IsNumbered count (us ++ vs)
IsNumbered-append count [] vs left right =
    let e : count + 0 ≡ count = omega arith in subst (λ n. IsNumbered n vs) e right
IsNumbered-append count (u ∷ us) vs left right =
    let e : count + suc (length us) ≡ suc count + length us = omega arith in
    (left.0, IsNumbered-append (suc count) us vs left.1 (subst (λ n. IsNumbered n vs) e right))

push_request-IsNumbered :
    (hop p count i : ℕ) (request : Option SwapQuoteRequest)
    → IsNumbered count (push_request hop p count i request)
push_request-IsNumbered hop p count i none = tt
push_request-IsNumbered hop p count i (some request) = (refl, tt)

module _ {Key : Type 0} (input : Bool) (trade : Trade) (hop : ℕ) where
  update_paths-IsNumbered :
      (p : ℕ) (amount : ℤ) (count start : ℕ) (paths : List TradePath) (slots : Slots Key)
      (r : Slots Key × List QuoteRequest)
      → update_paths input trade hop p amount count start paths slots ≡ ok r
      → IsNumbered count r.1
  unfolding update_paths
  update_paths-IsNumbered p amount count start [] slots r e =
      subst (IsNumbered count) (ap (λ (z : Slots Key × List QuoteRequest). z.1) (ok_injective e)) tt
  update_paths-IsNumbered p amount count start (path ∷ paths) slots r e =
      let (upd, upd_is, e1) =
        >>=-eq-ok (update_path input trade hop p amount path (slot_of slots)) _ e in
      let made = push_request hop p count start upd.1 in
      let (rest, rest_is, e2) =
        >>=-eq-ok
          (update_paths input trade hop p amount (count + length made) (start + 1) paths
            (later_slots slots))
          _ e1 in
      subst (IsNumbered count) (ap (λ (z : Slots Key × List QuoteRequest). z.1) (ok_injective e2)) (
        IsNumbered-append count made rest.1 (push_request-IsNumbered hop p count start upd.1) (
          update_paths-IsNumbered p amount (count + length made) (start + 1) paths
            (later_slots slots) rest rest_is))

  pub build_requests-IsNumbered :
      (paths : List TradePath) (count : ℕ) (amounts : List (ℕ × ℤ)) (m : InternalQuoteMap Key)
      (r : InternalQuoteMap Key × List QuoteRequest)
      → build_requests input trade paths hop count amounts m ≡ ok r
      → IsNumbered count r.1
  unfolding build_requests
  build_requests-IsNumbered paths count [] m r e =
      subst (IsNumbered count)
        (ap (λ (z : InternalQuoteMap Key × List QuoteRequest). z.1) (ok_injective e)) tt
  build_requests-IsNumbered paths count ((p, amount) ∷ amounts) m r e =
      let slots = slots_or_new (length paths) (entry_at p m) in
      let (upd, upd_is, e1) =
        >>=-eq-ok (update_paths input trade hop p amount count 0 paths slots) _ e in
      let (later, later_is, e2) =
        >>=-eq-ok
          (build_requests input trade paths hop (count + length upd.1) amounts
            (put_entry p upd.0 m))
          _ e1 in
      subst (IsNumbered count)
        (ap (λ (z : InternalQuoteMap Key × List QuoteRequest). z.1) (ok_injective e2))
        (IsNumbered-append count upd.1 later.1
          (update_paths-IsNumbered p amount count 0 paths slots upd upd_is)
          (build_requests-IsNumbered paths (count + length upd.1) amounts (put_entry p upd.0 m)
            later later_is))
