-- ===== src/Witnesses/Graph.antt =====
-- The theorems on the graph of pools and on the ticks of an array at concrete inputs.
use mathlib.Core.List.{Memᴰ}
use mathlib.Core.List.Memᴰ
use whirlpools.Prelude.{
  ◌≡◌, ◌≢◌, ◌↔◌, ◌⊎◌, inl, inr, refl, sym, ◌∙◌, ap, arith, none, some, List, [], ◌∷◌, get_elem?,
}
use whirlpools.Text.{Text}
use whirlpools.Router.{TradePath}
use whirlpools.PoolGraph.{PoolTokenPair, build_pool_graph, get_search_path_id, get_paths_for_pairs}
use whirlpools.PoolGraph.Build.{ArePools}
use whirlpools.PoolGraph.Walks.{IsWalk}
use whirlpools.PoolGraph.Found.{path_of, get_paths_for_pairs-IsWalk}

-- The tokens 1 and 2 have a pool, and so have the tokens 2 and 3.
abbrev first_pool : PoolTokenPair
first_pool = record { address = 7 ∷ []; token_mint_a = 1 ∷ []; token_mint_b = 2 ∷ [] }

abbrev second_pool : PoolTokenPair
second_pool = record { address = 8 ∷ []; token_mint_a = 2 ∷ []; token_mint_b = 3 ∷ [] }

abbrev two_pools : List PoolTokenPair
two_pools = first_pool ∷ second_pool ∷ []

two_cases : (p : PoolTokenPair) → Memᴰ p two_pools → (p ≡ first_pool) ⊎ (p ≡ second_pool)
two_cases p m = elim (Memᴰ.cases_cons m) [
  | inl first ↦ inl first
  | inr later ↦ inr (Memᴰ.eq_of_singleton later)
]

addresses_differ : first_pool.address ≢ second_pool.address
addresses_differ e = cc

two_pools-ArePools : ArePools two_pools
two_pools-ArePools = record {
  one_address = λ p q in_p in_q same. elim (two_cases p in_p) [
    | inl p_is ↦ elim (two_cases q in_q) [
      | inl q_is ↦ p_is ∙ sym q_is
      | inr q_is ↦ absurd (
          addresses_differ
            (ap PoolTokenPair.address (sym p_is) ∙ same ∙ ap PoolTokenPair.address q_is))
    ]
    | inr p_is ↦ elim (two_cases q in_q) [
      | inl q_is ↦ absurd (
          addresses_differ
            (ap PoolTokenPair.address (sym q_is) ∙ sym same ∙ ap PoolTokenPair.address p_is))
      | inr q_is ↦ p_is ∙ sym q_is
    ]
  ];
  two_tokens = λ p in_p same. elim (two_cases p in_p) [ inl p_is ↦ cc | inr p_is ↦ cc ];
}

get_paths_for_pairs-IsWalk_example :
    (paths : List TradePath) × (get_elem?
        (get_paths_for_pairs (build_pool_graph two_pools).0 ((3 ∷ [], 1 ∷ []) ∷ []) none)
        0
      ≡ some (get_search_path_id (3 ∷ []) (1 ∷ []), paths))
    × ((path : List Text)
        → Memᴰ (path_of (3 ∷ []) (1 ∷ []) path) paths
          ↔ IsWalk two_pools none (3 ∷ []) (1 ∷ []) path)
get_paths_for_pairs-IsWalk_example =
    get_paths_for_pairs-IsWalk two_pools two_pools-ArePools none ((3 ∷ [], 1 ∷ []) ∷ []) 0 (3 ∷ [])
      (1 ∷ []) ((((λ e. absurd (omega arith)), tt), ((λ e. absurd (omega arith)), tt)), tt) refl
      (λ e. cc)
