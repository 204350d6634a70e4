-- ===== src/Witnesses/Search.antt =====
-- The theorem on the search for routes at a concrete input.
use whirlpools.Prelude.{List, [], ◌∷◌}
use whirlpools.PoolGraph.{PoolGraphMap, build_pool_graph}

-- The graph of the two pools of the trade.
abbrev graph : PoolGraphMap
graph =
    (build_pool_graph (
      record { address = 9 ∷ []; token_mint_a = 1 ∷ []; token_mint_b = 3 ∷ [] }
      ∷ record { address = 8 ∷ []; token_mint_a = 3 ∷ []; token_mint_b = 5 ∷ [] }
      ∷ [])).0
