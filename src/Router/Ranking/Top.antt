-- ===== src/Router/Ranking/Top.antt =====
-- The ranked routes of convert-quote-map.ts are the best of the routes that were generated.
use mathlib.Core.List.{Memᴰ}
use Prim.Native.Nat.{Ordering}
use native.Mathlib.Decide.{dec_lt}
use whirlpools.Prelude.{
  ℕ, suc, ◌≤◌, ◌<◌, ◌≡◌, ◌⊎◌, refl, sym, subst, ◌∙◌, arith, Bool, true, false, not, leb, List, [],
  ◌∷◌, length, ℤ, leb_ℤ, leb_ℤ_total, leb_ℤ_trans, Bool-cases, inl, inr,
}
use whirlpools.Prelude.Predicates.{All, All-of_Memᴰ}
use whirlpools.Errors.{ok}
use whirlpools.Partition.{Sample, is_above, is_below, is_same}
use whirlpools.Partition.Swaps.{IsOrder, Swaps-inside, NotAbove}
use whirlpools.Partition.Selects.{IsSample, IsSelected}
use whirlpools.Partition.Whole.{k_smallest_partition-IsSelected}
use whirlpools.Router.{QuoteMap}
use whirlpools.Router.Quotes.{sort_by}
use whirlpools.Router.Quotes.Sorting.{All-sort_by, IsSorted, sort_by-IsSorted}
use whirlpools.Router.Routes.{InternalRoute, generate_routes, route_goes_before}
use whirlpools.Router.Ranking.{
  compare_ℤ, element, front, routes_compare, top_routes, get_ranked_routes,
}
use whirlpools.Router.Ranking.Elements.{
  element-Memᴰ, Memᴰ-element, All-front, front-Memᴰ, length-front, Swaps-found, sort_by-Memᴰ,
  length-sort_by,
}

above_ℤ : (a b : ℤ) → (elim (compare_ℤ a b) [ Ordering.gt ↦ true | _ ↦ false ]) ≡ not (leb_ℤ a b)
above_ℤ a b = elim (Bool-cases (leb_ℤ a b)) [
  | inl e ↦ elim (Bool-cases (leb_ℤ b a)) [ inl f ↦ rw (e, f) refl | inr f ↦ rw (e, f) refl ]
  | inr e ↦ rw e refl
]

below_ℤ : (a b : ℤ) → (elim (compare_ℤ a b) [ Ordering.lt ↦ true | _ ↦ false ]) ≡ not (leb_ℤ b a)
below_ℤ a b = elim (Bool-cases (leb_ℤ a b)) [
  | inl e ↦ elim (Bool-cases (leb_ℤ b a)) [ inl f ↦ rw (e, f) refl | inr f ↦ rw (e, f) refl ]
  | inr e ↦ let f = leb_ℤ_total a b e in rw (e, f) refl
]

same_ℤ : (a : ℤ) → (elim (compare_ℤ a a) [ Ordering.eq ↦ true | _ ↦ false ]) ≡ true
same_ℤ a = elim (Bool-cases (leb_ℤ a a)) [
  | inl e ↦ rw e refl
  | inr e ↦ let f = leb_ℤ_total a a e in cc
]

unnegated : (b : Bool) → not b ≡ false → b ≡ true
unnegated true h = refl
unnegated false h = cc

pub compare_ℤ-IsOrder : IsOrder compare_ℤ
compare_ℤ-IsOrder = record {
  same = same_ℤ;
  flip = λ a b. above_ℤ a b ∙ sym (below_ℤ b a);
  trans = λ a b c h k.
      above_ℤ a c
      ∙ (let e =
            leb_ℤ_trans a b c (unnegated (leb_ℤ a b) (sym (above_ℤ a b) ∙ h))
              (unnegated (leb_ℤ b c) (sym (above_ℤ b c) ∙ k)) in
          rw e refl);
}

module _ {Key : Type 0} (input : Bool) where
  -- A route is above another exactly when it may not stand before it.
  above_lem :
      (a b : InternalRoute Key)
      → is_above (routes_compare input) a b ≡ not (route_goes_before input a b)
  unfolding routes_compare
  above_lem a b = elim (Bool-cases input) [
    | inl e ↦ rw e (above_ℤ b.total_out a.total_out)
    | inr e ↦ rw e (above_ℤ a.total_in b.total_in)
  ]

  below_lem :
      (a b : InternalRoute Key)
      → is_below (routes_compare input) a b ≡ not (route_goes_before input b a)
  unfolding routes_compare
  below_lem a b = elim (Bool-cases input) [
    | inl e ↦ rw e (below_ℤ b.total_out a.total_out)
    | inr e ↦ rw e (below_ℤ a.total_in b.total_in)
  ]

  same_lem : (a : InternalRoute Key) → is_same (routes_compare input) a a ≡ true
  unfolding routes_compare
  same_lem a = elim (Bool-cases input) [
    | inl e ↦ rw e (same_ℤ a.total_out)
    | inr e ↦ rw e (same_ℤ a.total_in)
  ]

  pub total :
      (a b : InternalRoute Key)
      → route_goes_before input a b ≡ false
      → route_goes_before input b a ≡ true
  total a b = elim (Bool-cases input) [
    | inl e ↦ rw e (λ h. leb_ℤ_total b.total_out a.total_out h)
    | inr e ↦ rw e (λ h. leb_ℤ_total a.total_in b.total_in h)
  ]

  pub trans :
      (a b c : InternalRoute Key)
      → route_goes_before input a b ≡ true
      → route_goes_before input b c ≡ true
      → route_goes_before input a c ≡ true
  trans a b c = elim (Bool-cases input) [
    | inl e ↦ rw e (λ h k. leb_ℤ_trans c.total_out b.total_out a.total_out k h)
    | inr e ↦ rw e (λ h k. leb_ℤ_trans a.total_in b.total_in c.total_in h k)
  ]

  goes :
      (a b : InternalRoute Key)
      → NotAbove (routes_compare input) a b
      → route_goes_before input a b ≡ true
  goes a b h = unnegated (route_goes_before input a b) (sym (above_lem a b) ∙ h)

  routes_compare-IsOrder : IsOrder (routes_compare {Key = Key} input)
  routes_compare-IsOrder = record {
    same = same_lem;
    flip = λ a b. above_lem a b ∙ sym (below_lem b a);
    trans =
        λ a b c h k. above_lem a c ∙ (let e = trans a b c (goes a b h) (goes b c k) in rw e refl);
  }

  -- At most `top_n` of the routes, the better ones first: a route that is not among them is one too
  -- many, and may stand behind all of them.
  pub record AreTop (top_n : ℕ) (routes best : List (InternalRoute Key)) : Type 0 where
    pub sorted : IsSorted (route_goes_before input) best
    pub few : length best ≤ top_n
    pub of_routes : All (λ r. Memᴰ r routes) best
    pub others :
        (r : InternalRoute Key)
        → Memᴰ r routes
        → Memᴰ r best ⊎ ((length best ≡ top_n) × All (λ b. route_goes_before input b r ≡ true) best)

  all-AreTop :
      (top_n : ℕ) (routes : List (InternalRoute Key))
      → length routes ≤ top_n
      → AreTop top_n routes (sort_by (route_goes_before input) routes)
  all-AreTop top_n routes few = record {
    sorted = sort_by-IsSorted (route_goes_before input) total trans routes;
    few = subst (λ n. n ≤ top_n) (sym (length-sort_by (route_goes_before input) routes)) few;
    of_routes =
        All-sort_by (route_goes_before input) (λ r. Memᴰ r routes) routes
          (All-of_Memᴰ (λ r. Memᴰ r routes) routes (λ r m. m));
    others = λ r m. inl (sort_by-Memᴰ (route_goes_before input) r routes m);
  }

  -- The front of a partitioned array.
  front-AreTop :
      (top_n : ℕ) (first : InternalRoute Key) (rest : List (InternalRoute Key))
      (array : ℕ → InternalRoute Key)
      → top_n ≤ length rest
      → IsSelected
          (routes_compare input)
          routes_compare-IsOrder
          top_n
          0
          (length rest)
          (element first (first ∷ rest))
          array
      → AreTop top_n (first ∷ rest) (sort_by (route_goes_before input) (front top_n array))
  front-AreTop top_n first rest array within s =
      let before = route_goes_before input in
      let routes = first ∷ rest in
      let size : length (sort_by before (front top_n array)) ≡ top_n =
        length-sort_by before (front top_n array) ∙ length-front top_n array in
      record {
        sorted = sort_by-IsSorted before total trans (front top_n array);
        few = omega (arith, size);
        of_routes =
            All-sort_by before (λ r. Memᴰ r routes) (front top_n array)
              (All-front (λ r. Memᴰ r routes) top_n array
                (λ i inside.
                  Swaps-inside 0 (length rest) (λ r. Memᴰ r routes) (element first routes) array
                    s.swaps (λ m low high. element-Memᴰ first routes m (omega arith)) i
                    (omega arith) (omega arith)));
        others = λ r m.
            let (i, inside, is) = Memᴰ-element first r routes m in
            let (n, low, high, found) =
              Swaps-found 0 (length rest) (element first routes) array s.swaps i (omega arith)
                (omega arith) in
            elim (dec_lt n top_n) [
              | yes early ↦ inl (
                  sort_by-Memᴰ before r (front top_n array) (
                    subst (λ x. Memᴰ x (front top_n array)) (found ∙ is)
                      (front-Memᴰ top_n array n early)))
              | no behind ↦ inr (
                size,
                All-sort_by before (λ b. before b r ≡ true) (front top_n array)
                    (All-front (λ b. before b r ≡ true) top_n array
                      (λ k early. goes (array k) r (
                        subst (λ x. NotAbove (routes_compare input) (array k) x) (found ∙ is)
                          (s.selected k n (omega arith) early (omega arith) high)))),
              )
            ];
      }

  module _ (sample : Sample) (is_sample : IsSample sample) where
    top_routes-AreTop :
        (top_n : ℕ) (routes : List (InternalRoute Key))
        → top_n < length routes
        → (best : List (InternalRoute Key)) × (top_routes sample input top_n routes ≡ ok best)
          × AreTop top_n routes best
    unfolding top_routes
    top_routes-AreTop top_n [] many = absurd (omega arith)
    top_routes-AreTop top_n (first ∷ rest) many =
        let (array, returns, s) =
          k_smallest_partition-IsSelected (routes_compare input) routes_compare-IsOrder sample
            is_sample (suc (length rest)) (element first (first ∷ rest)) top_n 0 (length rest)
            (omega arith) (omega arith) (omega arith) in
        (
          sort_by (route_goes_before input) (front top_n array),
          rw returns refl,
          front-AreTop top_n first rest array (omega arith) s,
        )

    -- From the routes that were generated on.
    pub get_ranked_routes-AreTop :
        (percent_map : QuoteMap Key) (top_n max_splits : ℕ) (routes : List (InternalRoute Key))
        → generate_routes percent_map max_splits ≡ ok routes
        → (best : List (InternalRoute Key)) × (get_ranked_routes sample percent_map input top_n
              max_splits
            ≡ ok best)
          × AreTop top_n routes best
    unfolding get_ranked_routes
    get_ranked_routes-AreTop percent_map top_n max_splits routes generates =
        elim (Bool-cases (leb (length routes) top_n)) [
          | inl few ↦ (
            sort_by (route_goes_before input) routes,
            rw (generates, few) refl,
            all-AreTop top_n routes (ground arith),
          )
          | inr many ↦
              let (best, returns, top) = top_routes-AreTop top_n routes (ground arith) in
              (best, rw (generates, many) returns, top)
        ]
