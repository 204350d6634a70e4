-- ===== src/PoolGraph/Walks.antt =====
-- The paths between two tokens (findWalks of adjacency-list-pool-graph.ts), and the walks of one or
-- two pools.
use mathlib.Core.List.{Memᴰ}
use mathlib.Core.List.Memᴰ
use whirlpools.Prelude.{
  ◌≡◌, ◌≢◌, ◌↔◌, inl, inr, refl, sym, ◌∙◌, subst, ap, true, false, not, if◌then◌else◌, Option, none,
  some, List, [], ◌∷◌, ◌++◌, map, Bool-cases,
}
use whirlpools.Prelude.Predicates.{filter, any-some, any-Memᴰ, filter-Memᴰ, map-Memᴰ}
use whirlpools.Text.{Text, text_eq, text_eq_self, eq_of_text_eq}
use whirlpools.Text.Dict.{items_at}
use whirlpools.PoolGraph.{
  PoolTokenPair, PoolGraphEdge, build_pool_graph, is_edge_of, is_shared, is_allowed, second_hops,
  two_hops, find_paths,
}
use whirlpools.PoolGraph.Build.{Ends, Joins, ArePools, edges-Joins, one_other}

-- Every token is allowed between two pools where no list of tokens is given.
abbrev pub Allowed : Option (List Text) → Text → Type 0
Allowed none token = Unit
Allowed (some tokens) token = Memᴰ token tokens

-- A pool of both tokens, or two pools that share an allowed token.
pub data IsWalk (pools : List PoolTokenPair) (tokens : Option (List Text)) (s t : Text)
    : List Text → Type 0 where
  one_pool : (a : Text) → Joins pools a s t → IsWalk pools tokens s t (a ∷ [])
  two_pools :
      (a b x : Text)
      → Allowed tokens x
      → Joins pools a s x
      → Joins pools b x t
      → IsWalk pools tokens s t (a ∷ b ∷ [])

is_allowed-Allowed :
    (tokens : Option (List Text)) (token : Text)
    → (is_allowed tokens token ≡ true) ↔ Allowed tokens token
is_allowed-Allowed none token = (λ _. tt, λ _. refl)
is_allowed-Allowed (some tokens) token = (
  λ h.
      let (t, m, e) = any-some (text_eq token) tokens h in
      subst (λ x. Memᴰ x tokens) (sym (eq_of_text_eq token t e)) m,
  λ m. any-Memᴰ (text_eq token) token tokens m (text_eq_self token),
)

Ends-sym : (p : PoolTokenPair) (s t : Text) → Ends p s t → Ends p t s
Ends-sym p s t (inl (a_is, b_is)) = inr (a_is, b_is)
Ends-sym p s t (inr (a_is, b_is)) = inl (a_is, b_is)

pub Joins-sym : (pools : List PoolTokenPair) (a s t : Text) → Joins pools a s t → Joins pools a t s
Joins-sym pools a s t (p, in_pools, is_a, ends) = (p, in_pools, is_a, Ends-sym p s t ends)

-- A pool of two different tokens joins them.
Ends-both : (p : PoolTokenPair) (s t x y : Text) → s ≢ t → Ends p s x → Ends p t y → Ends p s t
Ends-both p s t x y differ (inl (a_is, b_is)) (inl (a_is', b_is')) =
    absurd (differ (sym a_is ∙ a_is'))
Ends-both p s t x y differ (inl (a_is, b_is)) (inr (a_is', b_is')) = inl (a_is, b_is')
Ends-both p s t x y differ (inr (a_is, b_is)) (inl (a_is', b_is')) = inr (a_is', b_is)
Ends-both p s t x y differ (inr (a_is, b_is)) (inr (a_is', b_is')) =
    absurd (differ (sym b_is ∙ b_is'))

one_token : (p : PoolTokenPair) (t : Text) → p.token_mint_a ≢ p.token_mint_b → Ends p t t → ⊥
one_token p t two (inl (a_is, b_is)) = two (a_is ∙ sym b_is)
one_token p t two (inr (a_is, b_is)) = two (a_is ∙ sym b_is)

abbrev edge_of : Text → Text → PoolGraphEdge
edge_of addr token = record { address = addr; other_token = token }

module _ (pools : List PoolTokenPair) (are : ArePools pools) (tokens : Option (List Text))
    (s t : Text) (differ : s ≢ t) where
  abbrev from_edges : List PoolGraphEdge
  from_edges = items_at (build_pool_graph pools).0 s

  abbrev to_edges : List PoolGraphEdge
  to_edges = items_at (build_pool_graph pools).0 t

  -- The edges that both tokens have are the pools that join them.
  shared-Joins :
      (a x : Text)
      → Joins pools a s x
      → (is_shared to_edges (edge_of a x) ≡ true)
      → Joins pools a s t
  shared-Joins a x (p, in_pools, is_a, ends) shared =
      let (e, in_to, same) = any-some (is_edge_of a) to_edges shared in
      let (q, q_in, q_addr, q_ends) = (edges-Joins pools are e.address t e.other_token).0 in_to in
      let q_is_p =
        are.one_address q p q_in in_pools (q_addr ∙ eq_of_text_eq e.address a same ∙ sym is_a) in
      (
        p,
        in_pools,
        is_a,
        Ends-both p s t x e.other_token differ ends
            (subst (λ y. Ends y t e.other_token) q_is_p q_ends),
      )

  Joins-shared : (a x : Text) → Joins pools a s t → is_shared to_edges (edge_of a x) ≡ true
  Joins-shared a x joins =
      any-Memᴰ (is_edge_of a) (edge_of a s) to_edges
        ((edges-Joins pools are a t s).1 (Joins-sym pools a s t joins)) (text_eq_self a)

  -- A pool whose other token leads on to the end does not join the ends itself.
  unshared :
      (a b x : Text)
      → Joins pools a s x
      → Joins pools b x t
      → is_shared to_edges (edge_of a x) ≡ false
  unshared a b x (p, in_pools, is_a, ends) (q, q_in, is_b, q_ends) =
      elim (Bool-cases (is_shared to_edges (edge_of a x))) [
        | inl shared ↦
            let (r, r_in, is_r, r_ends) = shared-Joins a x (p, in_pools, is_a, ends) shared in
            let r_is_p = are.one_address r p r_in in_pools (is_r ∙ sym is_a) in
            let x_is_t =
              one_other p s t x (are.two_tokens p in_pools) (subst (λ y. Ends y s t) r_is_p r_ends)
                ends in
            absurd (one_token q t (are.two_tokens q q_in) (subst (λ y. Ends q y t) x_is_t q_ends))
        | inr not_shared ↦ not_shared
      ]

  second_hops-Memᴰ :
      (path : List Text) (first : PoolGraphEdge)
      → Memᴰ path (second_hops to_edges first)
      → (b : Text) × Joins pools b first.other_token t × (path ≡ first.address ∷ b ∷ [])
  unfolding second_hops
  second_hops-Memᴰ path first m =
      let leads_on = λ (p : PoolGraphEdge). text_eq p.other_token first.other_token in
      let (p, in_filtered, is) =
        map-Memᴰ (λ (p : PoolGraphEdge). first.address ∷ p.address ∷ []) path
          (filter leads_on to_edges) m in
      let (in_to, same) = (filter-Memᴰ leads_on p to_edges).0 in_filtered in
      let joins = (edges-Joins pools are p.address t p.other_token).0 in_to in
      (
        p.address,
        subst (λ y. Joins pools p.address y t) (eq_of_text_eq p.other_token first.other_token same)
            (Joins-sym pools p.address t p.other_token joins),
        is,
      )

  two_hops-IsWalk :
      (path : List Text) (firsts : List PoolGraphEdge)
      → ((e : PoolGraphEdge) → Memᴰ e firsts → Joins pools e.address s e.other_token)
      → Memᴰ path (two_hops tokens to_edges firsts)
      → IsWalk pools tokens s t path
  unfolding two_hops
  two_hops-IsWalk path [] joins m = absurd (Memᴰ.not-nil m)
  two_hops-IsWalk path (first ∷ firsts) joins m =
      let later = λ (rest : Memᴰ path (two_hops tokens to_edges firsts)).
        two_hops-IsWalk path firsts (λ e in_rest. joins e (Memᴰ.tail in_rest)) rest in
      elim (Bool-cases (is_allowed tokens first.other_token)) [
        | inl is_on ↦ elim (Memᴰ.append_cases (second_hops to_edges first) (rw is_on at m)) [
          | inl here ↦
              let (b, b_joins, is) = second_hops-Memᴰ path first here in
              subst (IsWalk pools tokens s t) (sym is) (
                two_pools first.address b first.other_token
                  ((is_allowed-Allowed tokens first.other_token).0 is_on)
                  (joins first (Memᴰ.head refl)) b_joins)
          | inr rest ↦ later rest
        ]
        | inr is_off ↦ later (rw is_off at m)
      ]

  IsWalk-two_hops :
      (a b x : Text) (firsts : List PoolGraphEdge)
      → Memᴰ (edge_of a x) firsts
      → Allowed tokens x
      → Joins pools b x t
      → Memᴰ (a ∷ b ∷ []) (two_hops tokens to_edges firsts)
  unfolding two_hops second_hops
  IsWalk-two_hops a b x [] m allowed joins = absurd (Memᴰ.not-nil m)
  IsWalk-two_hops a b x (first ∷ firsts) m allowed joins =
      let leads_on = λ (p : PoolGraphEdge). text_eq p.other_token x in
      let in_to = (edges-Joins pools are b t x).1 (Joins-sym pools b x t joins) in
      let in_filtered = (filter-Memᴰ leads_on (edge_of b x) to_edges).1 (in_to, text_eq_self x) in
      let second : Memᴰ (a ∷ b ∷ []) (second_hops to_edges (edge_of a x)) =
        Memᴰ.map (λ (p : PoolGraphEdge). a ∷ p.address ∷ []) in_filtered in
      elim (Memᴰ.cases_cons m) [
        | inl same ↦
            subst
              (λ e. Memᴰ (a ∷ b ∷ []) (
                (if is_allowed tokens (PoolGraphEdge.other_token e)
                  then second_hops to_edges e
                  else [])
                ++ two_hops tokens to_edges firsts))
              same
              (rw ((is_allowed-Allowed tokens x).1 allowed)
                (Memᴰ.append_left (two_hops tokens to_edges firsts) second))
        | inr later ↦
            Memᴰ.append_right
              (if is_allowed tokens first.other_token then second_hops to_edges first else [])
              (IsWalk-two_hops a b x firsts later allowed joins)
      ]

  abbrev address_of : PoolGraphEdge → List Text
  address_of e = e.address ∷ []

  abbrev first_edges : List PoolGraphEdge
  first_edges = filter (λ e. not (is_shared to_edges e)) from_edges

  find_paths_sound :
      (path : List Text)
      → Memᴰ path (find_paths (build_pool_graph pools).0 tokens s t)
      → IsWalk pools tokens s t path
  unfolding find_paths
  find_paths_sound path m =
      elim (Memᴰ.append_cases (map address_of (filter (is_shared to_edges) from_edges)) m) [
        | inl single ↦
            let (e, in_filtered, is) =
              map-Memᴰ address_of path (filter (is_shared to_edges) from_edges) single in
            let (in_from, shared) = (filter-Memᴰ (is_shared to_edges) e from_edges).0 in_filtered in
            let joins = (edges-Joins pools are e.address s e.other_token).0 in_from in
            subst (IsWalk pools tokens s t) (sym is)
              (one_pool e.address (shared-Joins e.address e.other_token joins shared))
        | inr double ↦
            two_hops-IsWalk path first_edges
              (λ e in_first.
                (edges-Joins pools are e.address s e.other_token).0
                  ((filter-Memᴰ (λ x. not (is_shared to_edges x)) e from_edges).0 in_first).0)
              double
      ]

  find_paths_complete :
      (path : List Text)
      → IsWalk pools tokens s t path
      → Memᴰ path (find_paths (build_pool_graph pools).0 tokens s t)
  unfolding find_paths
  find_paths_complete path (one_pool a joins) =
      Memᴰ.append_left (two_hops tokens to_edges first_edges) (
        Memᴰ.map address_of (
          (filter-Memᴰ (is_shared to_edges) (edge_of a t) from_edges).1
            ((edges-Joins pools are a s t).1 joins, Joins-shared a t joins)))
  find_paths_complete path (two_pools a b x allowed first second) =
      Memᴰ.append_right (map address_of (filter (is_shared to_edges) from_edges)) (
        IsWalk-two_hops a b x first_edges
          ((filter-Memᴰ (λ e. not (is_shared to_edges e)) (edge_of a x) from_edges).1
            ((edges-Joins pools are a s x).1 first, ap not (unshared a b x first second)))
          allowed second)

  -- The paths that are found between two tokens are the walks between them.
  pub find_paths-IsWalk :
      (path : List Text)
      → Memᴰ path (find_paths (build_pool_graph pools).0 tokens s t) ↔ IsWalk pools tokens s t path
  find_paths-IsWalk path = (find_paths_sound path, find_paths_complete path)
