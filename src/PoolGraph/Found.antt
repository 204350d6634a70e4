-- ===== src/PoolGraph/Found.antt =====
-- What the searches of adjacency-list-pool-graph.ts give for their pairs.
use mathlib.Core.List.{Memᴰ}
use mathlib.Core.List.Memᴰ
use whirlpools.Prelude.{
  ℕ, zero, suc, ◌≡◌, ◌≢◌, ◌↔◌, ◌⊎◌, inl, inr, refl, sym, ap, subst, ◌∙◌, Bool, true, false, not,
  if◌then◌else◌, Option, none, some, is_defined, List, [], ◌∷◌, map, reverse, get_elem?, cons-eq,
  Bool-cases, Option-cases,
}
use whirlpools.Prelude.Predicates.{All, filter, filter-Memᴰ, map-Memᴰ, All-Memᴰ, All-of_Memᴰ}
use whirlpools.Text.{Text, text_eq, text_eq_self, eq_of_text_eq, sort_two}
use whirlpools.Text.Dict.{lookup, put, or_empty, items_at, lookup-put_self, lookup-put_other}
use whirlpools.Router.{Edge, TradePath}
use whirlpools.PoolGraph.{
  PoolTokenPair, PoolGraphMap, PoolWalks, build_pool_graph, get_search_path_id, put_paths,
  find_paths, find_walks, get_hops_from_route, paths_of_pair, get_paths_for_pairs,
}
use whirlpools.PoolGraph.Ids.{HasNoDelimiter, pair_id, pair_id-injective, sort_two_cases}
use whirlpools.PoolGraph.Build.{ArePools}
use whirlpools.PoolGraph.Walks.{IsWalk, one_pool, two_pools, Joins-sym, find_paths-IsWalk}

abbrev pub CleanPair : Text × Text → Type 0
CleanPair pair = HasNoDelimiter pair.0 × HasNoDelimiter pair.1

sorted : Text × Text → Text × Text
sorted pair = sort_two pair.0 pair.1

id_of : Text × Text → Text
unfolding sorted
id_of pair = pair_id (sorted pair)

sorted_clean : (pair : Text × Text) → CleanPair pair → HasNoDelimiter (sorted pair).0
unfolding sorted
sorted_clean (s, t) (clean_s, clean_t) = elim (sort_two_cases s t) [
  | inl same ↦ rw same clean_s
  | inr swapped ↦ rw swapped clean_t
]

module _ (graph : PoolGraphMap) (tokens : Option (List Text)) where
  paths_for : Text × Text → List (List Text)
  unfolding sorted
  paths_for pair = find_paths graph tokens (sorted pair).0 (sorted pair).1

  one_id :
      (p q : Text × Text)
      → CleanPair p
      → CleanPair q
      → id_of p ≡ id_of q
      → paths_for p ≡ paths_for q
  unfolding paths_for id_of
  one_id p q clean_p clean_q e =
      ap (λ pair. find_paths graph tokens (pair.0) (pair.1))
        (pair_id-injective (sorted p) (sorted q) (sorted_clean p clean_p) (sorted_clean q clean_q)
          e)

  -- The walks of a pair are missing, or those that are found for it.
  abbrev Holds : PoolWalks → Text × Text → Type 0
  Holds walks p = (lookup (id_of p) walks ≡ none) ⊎ (lookup (id_of p) walks ≡ some (paths_for p))

  abbrev AllHold : PoolWalks → Type 0
  AllHold walks = (p : Text × Text) → CleanPair p → Holds walks p

  abbrev Settled : PoolWalks → Text × Text → Type 0
  Settled walks p = items_at walks (id_of p) ≡ paths_for p

  -- One round of the loop.
  step : PoolWalks → Text × Text → PoolWalks
  step walks q =
      if is_defined (lookup (id_of q) walks) then walks else put_paths (id_of q) (paths_for q) walks

  put_paths_cases :
      (id : Text) (paths : List (List Text)) (walks : PoolWalks)
      → ((paths ≡ []) × (put_paths id paths walks ≡ walks))
        ⊎ (put_paths id paths walks ≡ put id paths walks)
  put_paths_cases id [] walks = inl (refl, refl)
  put_paths_cases id (path ∷ paths) walks = inr refl

  put-Holds :
      (walks : PoolWalks) (q : Text × Text)
      → CleanPair q
      → AllHold walks
      → AllHold (put (id_of q) (paths_for q) walks)
  put-Holds walks q clean_q hold p clean_p = elim (Bool-cases (text_eq (id_of q) (id_of p))) [
    | inl same ↦
        let e = eq_of_text_eq (id_of q) (id_of p) same in
        inr (
          subst (λ id. lookup id (put (id_of q) (paths_for q) walks) ≡ some (paths_for q)) e
            (lookup-put_self (id_of q) (paths_for q) walks)
          ∙ ap some (one_id q p clean_q clean_p e))
    | inr differs ↦
        let kept = lookup-put_other (id_of q) (id_of p) (paths_for q) walks differs in
        elim (hold p clean_p) [
          | inl missing ↦ inl (kept ∙ missing)
          | inr found ↦ inr (kept ∙ found)
        ]
  ]

  step-Holds :
      (walks : PoolWalks) (q : Text × Text) → CleanPair q → AllHold walks → AllHold (step walks q)
  unfolding step
  step-Holds walks q clean_q hold = elim (Bool-cases (is_defined (lookup (id_of q) walks))) [
    | inl there ↦ rw there hold
    | inr missing ↦ rw missing (elim (put_paths_cases (id_of q) (paths_for q) walks) [
      | inl (_, same) ↦ rw same hold
      | inr new ↦ rw new (put-Holds walks q clean_q hold)
    ])
  ]

  -- A pair whose walks are missing where none are to be found, or found, is settled.
  step-Settled :
      (walks : PoolWalks) (q : Text × Text) → CleanPair q → AllHold walks → Settled (step walks q) q
  unfolding step items_at
  step-Settled walks q clean_q hold = elim (Option-cases (lookup (id_of q) walks)) [
    | inl missing ↦ rw missing (elim (put_paths_cases (id_of q) (paths_for q) walks) [
      | inl (empty, same) ↦ rw same (ap or_empty missing ∙ sym empty)
      | inr new ↦ rw new (ap or_empty (lookup-put_self (id_of q) (paths_for q) walks))
    ])
    | inr (paths, there) ↦ elim (hold q clean_q) [
      | inl missing ↦ cc
      | inr found ↦ rw there (ap or_empty found)
    ]
  ]

  step-keeps_Settled :
      (walks : PoolWalks) (q p : Text × Text)
      → CleanPair q
      → CleanPair p
      → Settled walks p
      → Settled (step walks q) p
  unfolding step items_at
  step-keeps_Settled walks q p clean_q clean_p settled =
      elim (Bool-cases (is_defined (lookup (id_of q) walks))) [
        | inl there ↦ rw there settled
        | inr missing ↦ rw missing (elim (put_paths_cases (id_of q) (paths_for q) walks) [
          | inl (_, same) ↦ rw same settled
          | inr new ↦ rw new (elim (Bool-cases (text_eq (id_of q) (id_of p))) [
            | inl same ↦
                let e = eq_of_text_eq (id_of q) (id_of p) same in
                subst (λ id. or_empty (lookup id (put (id_of q) (paths_for q) walks)) ≡ paths_for q)
                  e (ap or_empty (lookup-put_self (id_of q) (paths_for q) walks))
                ∙ one_id q p clean_q clean_p e
            | inr differs ↦
                ap or_empty (lookup-put_other (id_of q) (id_of p) (paths_for q) walks differs)
                ∙ settled
          ])
        ])
      ]

  -- After the loop every pair of it is settled, and no pair that was is not.
  find_walks-Settled :
      (walks : PoolWalks) (pairs : List (Text × Text))
      → All CleanPair pairs
      → AllHold walks
      → ((p : Text × Text)
          → CleanPair p
          → Settled walks p
          → Settled (find_walks graph tokens walks pairs) p)
        × ((p : Text × Text) → Memᴰ p pairs → Settled (find_walks graph tokens walks pairs) p)
  unfolding find_walks step id_of sorted paths_for
  find_walks-Settled walks [] clean hold =
      (λ p clean_p settled. settled, λ p m. absurd (Memᴰ.not-nil m))
  find_walks-Settled walks ((s, t) ∷ pairs) clean hold =
      let (keeps, settles) =
        find_walks-Settled (step walks (s, t)) pairs clean.1
          (step-Holds walks (s, t) clean.0 hold) in
      (
        λ p clean_p settled.
            keeps p clean_p (step-keeps_Settled walks (s, t) p clean.0 clean_p settled),
        λ p m. elim (Memᴰ.cases_cons m) [
          | inl same ↦
              subst (λ x. Settled (find_walks graph tokens (step walks (s, t)) pairs) x) (sym same)
                (keeps (s, t) clean.0 (step-Settled walks (s, t) clean.0 hold))
          | inr later ↦ settles p later
        ],
      )

to_edge : Text → Edge
to_edge hop = record { pool_address = hop }

-- A path of pools from one token to another, as it is returned.
abbrev pub path_of : Text → Text → List Text → TradePath
path_of s t hops = record {
  start_token_mint = s;
  end_token_mint = t;
  edges = map (λ hop. record { pool_address = hop }) hops;
}

hops_injective :
    (p q : List Text)
    → ◌≡◌ {A = List Edge}
        (map (λ hop. record { pool_address = hop }) p)
        (map (λ hop. record { pool_address = hop }) q)
    → p ≡ q
hops_injective [] [] e = refl
hops_injective [] (y ∷ q) e = cc
hops_injective (x ∷ p) [] e = cc
hops_injective (x ∷ p) (y ∷ q) e = cons-eq (cc) (hops_injective p q (cc))

-- A walk is walked back.
IsWalk-reverse :
    (pools : List PoolTokenPair) (tokens : Option (List Text)) (s t : Text) (path : List Text)
    → IsWalk pools tokens s t path
    → IsWalk pools tokens t s (reverse path) × (reverse (reverse path) ≡ path)
IsWalk-reverse pools tokens s t path (one_pool a joins) =
    (one_pool a (Joins-sym pools a s t joins), refl)
IsWalk-reverse pools tokens s t path (two_pools a b x allowed first second) =
    (two_pools b a x allowed (Joins-sym pools b x t second) (Joins-sym pools a s x first), refl)

text_eq_differ : (s t : Text) → s ≢ t → text_eq t s ≡ false
text_eq_differ s t differ = elim (Bool-cases (text_eq t s)) [
  | inl same ↦ absurd (differ (sym (eq_of_text_eq t s same)))
  | inr differs ↦ differs
]

module _ (pools : List PoolTokenPair) (tokens : Option (List Text)) (s t : Text) where
  abbrev returned : Bool → List Text → TradePath
  returned reversed path = record {
    start_token_mint = s;
    end_token_mint = t;
    edges = get_hops_from_route path reversed;
  }

  kept-IsWalk :
      (found : List (List Text))
      → ((path : List Text) → Memᴰ path found ↔ IsWalk pools tokens s t path)
      → (path : List Text)
      → Memᴰ (path_of s t path) (map (returned false) found) ↔ IsWalk pools tokens s t path
  unfolding get_hops_from_route
  kept-IsWalk found are_walks path = (
    λ m.
        let (p, in_found, is) = map-Memᴰ (returned false) (path_of s t path) found m in
        subst (IsWalk pools tokens s t) (sym (hops_injective path p (ap TradePath.edges is)))
          ((are_walks p).0 in_found),
    λ walk. Memᴰ.map (returned false) ((are_walks path).1 walk),
  )

  turned-IsWalk :
      (found : List (List Text))
      → ((path : List Text) → Memᴰ path found ↔ IsWalk pools tokens t s path)
      → (path : List Text)
      → Memᴰ (path_of s t path) (map (returned true) found) ↔ IsWalk pools tokens s t path
  unfolding get_hops_from_route
  turned-IsWalk found are_walks path = (
    λ m.
        let (p, in_found, is) = map-Memᴰ (returned true) (path_of s t path) found m in
        subst (IsWalk pools tokens s t)
          (sym (hops_injective path (reverse p) (ap TradePath.edges is)))
          (IsWalk-reverse pools tokens t s p ((are_walks p).0 in_found)).0,
    λ walk.
        let (back, twice) = IsWalk-reverse pools tokens s t path walk in
        subst (λ p. Memᴰ (path_of s t p) (map (returned true) found)) twice
          (Memᴰ.map (returned true) ((are_walks (reverse path)).1 back)),
  )

module _ (pools : List PoolTokenPair) (are : ArePools pools) (tokens : Option (List Text))
    (walks : PoolWalks) (s t : Text) (differ : s ≢ t)
    (settled : items_at walks (id_of (s, t))
      ≡ paths_for (build_pool_graph pools).0 tokens (s, t)) where
  paths_of_pair-IsWalk :
      (path : List Text)
      → Memᴰ (path_of s t path) (paths_of_pair walks (s, t)).1 ↔ IsWalk pools tokens s t path
  unfolding paths_of_pair get_hops_from_route id_of sorted paths_for
  paths_of_pair-IsWalk path = elim (sort_two_cases s t) [
    | inl same ↦
        rw (same, text_eq_self s, rw same at settled)
          (kept-IsWalk pools tokens s t (find_paths (build_pool_graph pools).0 tokens s t)
            (find_paths-IsWalk pools are tokens s t differ) path)
    | inr swapped ↦
        rw (swapped, text_eq_differ s t differ, rw swapped at settled)
          (turned-IsWalk pools tokens s t (find_paths (build_pool_graph pools).0 tokens t s)
            (find_paths-IsWalk pools are tokens t s (λ e. differ (sym e))) path)
  ]

get_elem?-map {ℓ κ} :
    {A : Type ℓ} {B : Type κ} (f : A → B) (xs : List A) (i : ℕ) (x : A)
    → get_elem? xs i ≡ some x
    → (get_elem? (map f xs) i ≡ some (f x)) × Memᴰ x xs
get_elem?-map f [] i x e = cc
get_elem?-map f (y ∷ xs) zero x e =
    let same : y ≡ x = cc in (ap (λ z. some (f z)) same, Memᴰ.head (sym same))
get_elem?-map f (y ∷ xs) (suc i) x e =
    let (mapped, there) = get_elem?-map f xs i x e in (mapped, Memᴰ.tail there)

nothing_holds : (graph : PoolGraphMap) (tokens : Option (List Text)) → AllHold graph tokens []
unfolding lookup
nothing_holds graph tokens p clean_p = inl refl

entry_lem :
    (walks : PoolWalks) (s t : Text)
    → paths_of_pair walks (s, t) ≡ (get_search_path_id s t, (paths_of_pair walks (s, t)).1)
unfolding paths_of_pair
entry_lem walks s t = refl

-- For pools of two tokens each, no two with one address, and pairs of tokens without a "-": the
-- result for a pair of different tokens stands at the place of the pair, under its id, and its paths
-- are exactly the walks of one pool that has both tokens, and of two pools that share a token that
-- is allowed in between, in the direction of the pair.
pub get_paths_for_pairs-IsWalk :
    (pools : List PoolTokenPair)
    → ArePools pools
    → (tokens : Option (List Text)) (pairs : List (Text × Text)) (i : ℕ) (s t : Text)
    → All CleanPair pairs
    → get_elem? pairs i ≡ some (s, t)
    → s ≢ t
    → (paths : List TradePath) × (get_elem?
          (get_paths_for_pairs (build_pool_graph pools).0 pairs tokens)
          i
        ≡ some (get_search_path_id s t, paths))
      × ((path : List Text) → Memᴰ (path_of s t path) paths ↔ IsWalk pools tokens s t path)
unfolding get_paths_for_pairs
get_paths_for_pairs-IsWalk pools are tokens pairs i s t clean at_i differ =
    let graph = (build_pool_graph pools).0 in
    let differs = λ (pair : Text × Text). not (text_eq pair.0 pair.1) in
    let to_find = filter differs pairs in
    let walks = find_walks graph tokens [] to_find in
    let (at_result, in_pairs) = get_elem?-map (paths_of_pair walks) pairs i (s, t) at_i in
    let settled =
      (find_walks-Settled graph tokens [] to_find
          (All-of_Memᴰ CleanPair to_find
            (λ p m. All-Memᴰ CleanPair p pairs clean ((filter-Memᴰ differs p pairs).0 m).0))
          (nothing_holds graph tokens)).1
        (s, t)
        ((filter-Memᴰ differs (s, t) pairs).1
          (in_pairs, ap not (text_eq_differ t s (λ e. differ (sym e))))) in
    (
      (paths_of_pair walks (s, t)).1,
      at_result ∙ ap some (entry_lem walks s t),
      paths_of_pair-IsWalk pools are tokens walks s t differ settled,
    )
