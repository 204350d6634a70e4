-- ===== src/PoolGraph/Build.antt =====
-- What buildPoolGraph (adjacency-list-pool-graph.ts) makes of a list of pools.
use mathlib.Core.List.{Memᴰ}
use mathlib.Core.List.Memᴰ
use whirlpools.Prelude.{
  ◌≡◌, ◌≢◌, ◌↔◌, ◌⊎◌, inl, inr, refl, sym, ◌∙◌, subst, ap, arith, Bool, true, ◌||◌, is_defined,
  List, [], ◌∷◌, Bool-cases,
}
use whirlpools.Prelude.Predicates.{any, any-append, All, All-of_Memᴰ}
use whirlpools.Text.{Text, text_eq, eq_of_text_eq}
use whirlpools.Text.Dict.{
  lookup, put, items_at, items_at-put_self, items_at-put_other, items_at_missing, push_at,
  push_at_cases, push_at_keeps, push_at_new, push_at_same, push_at_other,
}
use whirlpools.PoolGraph.{
  PoolTokenPair, PoolGraphEdge, BuildState, has, add, ensure_token, insert_pool, add_pool,
  add_pools, empty_state, build_pool_graph,
}

-- The tokens of a pool, in either order.
abbrev pub Ends : PoolTokenPair → Text → Text → Type 0
Ends p s t =
    ((p.token_mint_a ≡ s) × (p.token_mint_b ≡ t)) ⊎ ((p.token_mint_a ≡ t) × (p.token_mint_b ≡ s))

-- A pool of the list with this address and these tokens.
abbrev pub Joins : List PoolTokenPair → Text → Text → Text → Type 0
Joins pools addr s t = (p : PoolTokenPair) × Memᴰ p pools × (p.address ≡ addr) × Ends p s t

abbrev pub HasEdge : BuildState → Text → Text → Type 0
HasEdge s token addr =
    (e : PoolGraphEdge) × Memᴰ e (items_at s.pool_graph token) × (e.address ≡ addr)

-- Each edge is of a pool, and a pool that is cached for a token has an edge there.
record IsBuilt (pools : List PoolTokenPair) (s : BuildState) : Type 0 where
  sound :
      (token : Text) (e : PoolGraphEdge)
      → Memᴰ e (items_at s.pool_graph token)
      → Joins pools e.address token e.other_token
  cached :
      (token addr : Text)
      → has addr (items_at s.inserted_pool_cache token) ≡ true
      → HasEdge s token addr

-- No edge is taken away.
abbrev Keeps : BuildState → BuildState → Type 0
Keeps s s' =
    (token : Text) (e : PoolGraphEdge)
    → Memᴰ e (items_at s.pool_graph token)
    → Memᴰ e (items_at s'.pool_graph token)

HasEdge-Keeps :
    (s s' : BuildState) (token addr : Text)
    → Keeps s s'
    → HasEdge s token addr
    → HasEdge s' token addr
HasEdge-Keeps s s' token addr keeps (e, in_graph, is_addr) = (e, keeps token e in_graph, is_addr)

not-has_nil : (addr : Text) → has addr [] ≡ true → ⊥
unfolding any
not-has_nil addr h = cc

one_true : (a b : Bool) → (a || b) ≡ true → (a ≡ true) ⊎ (b ≡ true)
one_true a b h = ground arith

-- An address of a set is one from before the push, or the new one.
has-push_at :
    (m : List (Text × List Text)) (k x i addr : Text)
    → has addr (items_at (push_at k x m) i) ≡ true
    → (has addr (items_at m i) ≡ true) ⊎ ((k ≡ i) × (addr ≡ x))
has-push_at m k x i addr is_there = elim (Bool-cases (text_eq k i)) [
  | inl same ↦
      elim (one_true (has addr (items_at m i)) (text_eq addr x) (
        sym (any-append (text_eq addr) (items_at m i) x)
        ∙ subst (λ items. has addr items ≡ true) (push_at_same k x m i same) is_there)) [
          | inl before ↦ inl before
          | inr new ↦ inr (eq_of_text_eq k i same, eq_of_text_eq addr x new)
        ]
  | inr differs ↦
      inl (subst (λ items. has addr items ≡ true) (push_at_other k x m i differs) is_there)
]

module _ (pools : List PoolTokenPair) where
  ensure_token-IsBuilt :
      (mint : Text) (s : BuildState)
      → IsBuilt pools s
      → IsBuilt pools (ensure_token mint s) × Keeps s (ensure_token mint s)
  unfolding ensure_token
  ensure_token-IsBuilt mint s built = elim (Bool-cases (is_defined (lookup mint s.pool_graph))) [
    | inl there ↦ rw there (built, λ token e in_graph. in_graph)
    | inr missing ↦
        let same = λ (token : Text). items_at_missing s.pool_graph mint token missing in
        rw missing (
          record {
            sound = λ token e in_graph. built.sound token e (subst (Memᴰ e) (same token) in_graph);
            cached = λ token addr is_cached. elim (Bool-cases (text_eq mint token)) [
              | inl same_token ↦
                  let emptied =
                    subst (λ items. has addr items ≡ true)
                      (subst (λ t. items_at (put mint [] s.inserted_pool_cache) t ≡ [])
                        (eq_of_text_eq mint token same_token)
                        (items_at-put_self mint [] s.inserted_pool_cache))
                      is_cached in
                  absurd (not-has_nil addr emptied)
              | inr differs ↦
                  let (e, in_graph, is_addr) = built.cached token addr (
                    subst (λ items. has addr items ≡ true)
                      (items_at-put_other mint token [] s.inserted_pool_cache differs) is_cached) in
                  (e, subst (Memᴰ e) (sym (same token)) in_graph, is_addr)
            ];
          },
          λ token e in_graph. subst (Memᴰ e) (sym (same token)) in_graph,
        )
  ]

  insert_pool-IsBuilt :
      (p : PoolTokenPair) (mint other : Text) (s : BuildState)
      → Memᴰ p pools
      → Ends p mint other
      → IsBuilt pools s
      → IsBuilt pools (insert_pool mint p.address other s)
        × Keeps s (insert_pool mint p.address other s)
        × HasEdge (insert_pool mint p.address other s) mint p.address
  unfolding insert_pool
  insert_pool-IsBuilt p mint other s in_pools ends built =
      elim (Bool-cases (has p.address (items_at s.inserted_pool_cache mint))) [
        | inl there ↦
            rw there (built, λ token e in_graph. in_graph, built.cached mint p.address there)
        | inr absent ↦
            let edge : PoolGraphEdge = record { address = p.address; other_token = other } in
            let keeps : (token : Text) (e : PoolGraphEdge)
                → Memᴰ e (items_at s.pool_graph token)
                → Memᴰ e (items_at (push_at mint edge s.pool_graph) token) =
              λ token e in_graph. push_at_keeps mint edge s.pool_graph e token in_graph in
            let new = push_at_new mint edge s.pool_graph in
            rw absent (
              record {
                sound = λ token e in_graph.
                    elim (push_at_cases mint edge s.pool_graph e token in_graph) [
                      | inl before ↦ built.sound token e before
                      | inr (is_mint, is_edge) ↦
                          let is_other : e.other_token ≡ other =
                            ap PoolGraphEdge.other_token is_edge in
                          (
                            p,
                            in_pools,
                            sym (ap PoolGraphEdge.address is_edge),
                            subst (Ends p token) (sym is_other)
                                (subst (λ t. Ends p t other) is_mint ends),
                          )
                    ];
                cached = λ token addr is_cached.
                    elim (has-push_at s.inserted_pool_cache mint p.address token addr is_cached) [
                      | inl before ↦
                          let (e, in_graph, is_addr) = built.cached token addr before in
                          (e, keeps token e in_graph, is_addr)
                      | inr (is_mint, is_addr) ↦
                          let moved =
                            subst (λ t. Memᴰ edge (items_at (push_at mint edge s.pool_graph) t))
                              is_mint new in
                          (edge, moved, sym is_addr)
                    ];
              },
              keeps,
              (edge, new, refl),
            )
      ]

  add_pool-IsBuilt :
      (p : PoolTokenPair) (s : BuildState)
      → Memᴰ p pools
      → IsBuilt pools s
      → IsBuilt pools (add_pool s p)
        × Keeps s (add_pool s p)
        × HasEdge (add_pool s p) p.token_mint_a p.address
        × HasEdge (add_pool s p) p.token_mint_b p.address
  unfolding add_pool
  add_pool-IsBuilt p s in_pools built =
      let a = p.token_mint_a in
      let b = p.token_mint_b in
      let s0 = record s { inserted_tokens = add b (add a s.inserted_tokens) } in
      let built0 : IsBuilt pools s0 = record { sound = built.sound; cached = built.cached } in
      let (built1, keeps1) = ensure_token-IsBuilt a s0 built0 in
      let s1 = ensure_token a s0 in
      let (built2, keeps2) = ensure_token-IsBuilt b s1 built1 in
      let s2 = ensure_token b s1 in
      let (built3, keeps3, has3) =
        insert_pool-IsBuilt p a b s2 in_pools (inl (refl, refl)) built2 in
      let s3 = insert_pool a p.address b s2 in
      let (built4, keeps4, has4) =
        insert_pool-IsBuilt p b a s3 in_pools (inr (refl, refl)) built3 in
      (
        built4,
        λ t e m. keeps4 t e (keeps3 t e (keeps2 t e (keeps1 t e m))),
        HasEdge-Keeps s3 (insert_pool b p.address a s3) a p.address keeps4 has3,
        has4,
      )

  -- Every pool has an edge at each of its tokens.
  add_pools-IsBuilt :
      (s : BuildState) (ps : List PoolTokenPair)
      → All (λ p. Memᴰ p pools) ps
      → IsBuilt pools s
      → IsBuilt pools (add_pools s ps)
        × Keeps s (add_pools s ps)
        × ((p : PoolTokenPair)
            → Memᴰ p ps
            → HasEdge (add_pools s ps) p.token_mint_a p.address
              × HasEdge (add_pools s ps) p.token_mint_b p.address)
  unfolding add_pools
  add_pools-IsBuilt s [] all built = (built, λ token e m. m, λ p m. absurd (Memᴰ.not-nil m))
  add_pools-IsBuilt s (q ∷ ps) all built =
      let (built_q, keeps_q, has_a, has_b) = add_pool-IsBuilt q s all.0 built in
      let s' = add_pool s q in
      let (built_ps, keeps_ps, has_ps) = add_pools-IsBuilt s' ps all.1 built_q in
      let end = add_pools s' ps in
      (
        built_ps,
        λ token e m. keeps_ps token e (keeps_q token e m),
        λ p m. elim (Memᴰ.cases_cons m) [
          | inl same ↦
              subst
                (λ x.
                  HasEdge end (PoolTokenPair.token_mint_a x) (PoolTokenPair.address x)
                  × HasEdge end (PoolTokenPair.token_mint_b x) (PoolTokenPair.address x))
                (sym same)
                (
                  HasEdge-Keeps s' end q.token_mint_a q.address keeps_ps has_a,
                  HasEdge-Keeps s' end q.token_mint_b q.address keeps_ps has_b,
                )
          | inr later ↦ has_ps p later
        ],
      )

-- The pools of a graph: two of one address are one pool, and each has two tokens.
pub record ArePools (pools : List PoolTokenPair) : Type 0 where
  pub one_address :
      (p q : PoolTokenPair) → Memᴰ p pools → Memᴰ q pools → p.address ≡ q.address → p ≡ q
  pub two_tokens : (p : PoolTokenPair) → Memᴰ p pools → p.token_mint_a ≢ p.token_mint_b

empty_state-IsBuilt : (pools : List PoolTokenPair) → IsBuilt pools empty_state
unfolding items_at lookup
empty_state-IsBuilt pools = record {
  sound = λ token e m. absurd (Memᴰ.not-nil m);
  cached = λ token addr h. absurd (not-has_nil addr h);
}

-- A pool with two tokens has one token other than a token of its own.
pub one_other :
    (p : PoolTokenPair) (s t u : Text)
    → p.token_mint_a ≢ p.token_mint_b
    → Ends p s t
    → Ends p s u
    → u ≡ t
one_other p s t u two (inl (a_is, b_is)) (inl (a_is', b_is')) = sym b_is' ∙ b_is
one_other p s t u two (inl (a_is, b_is)) (inr (a_is', b_is')) = absurd (two (a_is ∙ sym b_is'))
one_other p s t u two (inr (a_is, b_is)) (inl (a_is', b_is')) = absurd (two (a_is' ∙ sym b_is))
one_other p s t u two (inr (a_is, b_is)) (inr (a_is', b_is')) = sym a_is' ∙ a_is

HasEdge-Ends :
    (state : BuildState) (p : PoolTokenPair) (s t : Text)
    → Ends p s t
    → HasEdge state p.token_mint_a p.address
    → HasEdge state p.token_mint_b p.address
    → HasEdge state s p.address
HasEdge-Ends state p s t (inl (a_is, b_is)) at_a at_b =
    subst (λ token. HasEdge state token p.address) a_is at_a
HasEdge-Ends state p s t (inr (a_is, b_is)) at_a at_b =
    subst (λ token. HasEdge state token p.address) b_is at_b

-- The edges of a token in the graph are the pools of the token, each with its other token.
pub edges-Joins :
    (pools : List PoolTokenPair)
    → ArePools pools
    → (addr s t : Text)
    → Memᴰ (record { address = addr; other_token = t }) (items_at (build_pool_graph pools).0 s)
      ↔ Joins pools addr s t
unfolding build_pool_graph
edges-Joins pools are addr s t =
    let (built, _, covers) =
      add_pools-IsBuilt pools empty_state pools (All-of_Memᴰ (λ p. Memᴰ p pools) pools (λ p m. m))
        (empty_state-IsBuilt pools) in
    let end = add_pools empty_state pools in
    (
      λ m. built.sound s (record { address = addr; other_token = t }) m,
      λ (p, in_pools, is_addr, ends).
          let (at_a, at_b) = covers p in_pools in
          let (e, in_graph, e_addr) = HasEdge-Ends end p s t ends at_a at_b in
          let (q, q_in, q_addr, q_ends) = built.sound s e in_graph in
          let q_is_p = are.one_address q p q_in in_pools (q_addr ∙ e_addr) in
          let other =
            one_other p s t e.other_token (are.two_tokens p in_pools) ends
              (subst (λ x. Ends x s e.other_token) q_is_p q_ends) in
          let e_is : e ≡ record { address = addr; other_token = t } =
            λ i. record { address = (e_addr ∙ is_addr) i; other_token = other i } in
          subst (λ x. Memᴰ x (items_at end.pool_graph s)) e_is in_graph,
    )
