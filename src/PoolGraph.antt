-- ===== src/PoolGraph.antt =====
-- utils/graphs/adjacency-list-pool-graph.ts and utils/graphs/public/pool-graph-utils.ts: the graph
-- of the pools, and the paths of one or two pools between two tokens. Addresses are strings.
pub mod Ids
pub mod RoundTrip
pub mod Build
pub mod Walks
pub mod Found
use whirlpools.Prelude.{
  ℕ, ◌==◌, Bool, true, false, not, ◌&&◌, ◌||◌, if◌then◌else◌, Option, none, some, is_defined, List,
  [], ◌∷◌, ◌++◌, map, reverse,
}
use whirlpools.Prelude.Predicates.{any, filter}
use whirlpools.Errors.{plain, type_error, Result, ok, err}
use whirlpools.Text.{Text, text_eq, sort_two}
use whirlpools.Text.Dict.{lookup, put, items_at, push_at}
use whirlpools.Router.{Edge, TradePath}

pub record PoolTokenPair : Type 0 where
  pub address : Text
  pub token_mint_a : Text
  pub token_mint_b : Text

pub record PoolGraphEdge : Type 0 where
  pub address : Text
  pub other_token : Text

abbrev pub PoolGraphMap : Type 0
PoolGraphMap = List (Text × List PoolGraphEdge)

-- The lists of pools that `reduce` of buildPoolGraph fills, with what it caches.
pub record BuildState : Type 0 where
  pub pool_graph : PoolGraphMap
  pub inserted_pool_cache : List (Text × List Text)
  pub inserted_tokens : List Text

-- `set.has(t)` and `set.add(t)`, for a set that lists its elements as they are added.
abbrev pub has : Text → List Text → Bool
has t set = any (text_eq t) set

abbrev pub add : Text → List Text → List Text
add t set = if has t set then set else set ++ t ∷ []

-- `if (poolGraph[mint] === undefined) { ... }`
unfoldable pub ensure_token : Text → BuildState → BuildState
ensure_token mint s = if is_defined (lookup mint s.pool_graph) then s else record s {
  pool_graph = put mint [] s.pool_graph;
  inserted_pool_cache = put mint [] s.inserted_pool_cache;
}

-- `if (!insertedPools.has(addr)) { ... }`, for the pools that are cached for a token.
unfoldable pub insert_pool : Text → Text → Text → BuildState → BuildState
insert_pool mint addr other s =
    if has addr (items_at s.inserted_pool_cache mint) then s else record s {
      pool_graph = push_at mint (record { address = addr; other_token = other }) s.pool_graph;
      inserted_pool_cache = push_at mint addr s.inserted_pool_cache;
    }

-- One round of the `reduce`.
unfoldable pub add_pool : BuildState → PoolTokenPair → BuildState
add_pool s pool =
    let noted = record s {
      inserted_tokens = add pool.token_mint_b (add pool.token_mint_a s.inserted_tokens);
    } in
    let ensured = ensure_token pool.token_mint_b (ensure_token pool.token_mint_a noted) in
    insert_pool pool.token_mint_b pool.address pool.token_mint_a
      (insert_pool pool.token_mint_a pool.address pool.token_mint_b ensured)

unfoldable pub add_pools : BuildState → List PoolTokenPair → BuildState
add_pools s [] = s
add_pools s (pool ∷ pools) = add_pools (add_pool s pool) pools

abbrev pub empty_state : BuildState
empty_state = record { pool_graph = []; inserted_pool_cache = []; inserted_tokens = [] }

unfoldable pub build_pool_graph : List PoolTokenPair → PoolGraphMap × List Text
build_pool_graph pools = let s = add_pools empty_state pools in (s.pool_graph, s.inserted_tokens)

-- PATH_ID_DELIMITER, a "-".
abbrev pub path_id_delimiter : Text
path_id_delimiter = 45 ∷ []

unfoldable pub get_search_path_id : Text → Text → Text
get_search_path_id token_a token_b = token_a ++ (path_id_delimiter ++ token_b)

unfoldable pub get_internal_route_id : Text → Text → Bool → Text
get_internal_route_id token_a token_b sort =
    let mints = if sort then sort_two token_a token_b else (token_a, token_b) in
    mints.0 ++ (path_id_delimiter ++ mints.1)

abbrev pub is_edge_of : Text → PoolGraphEdge → Bool
is_edge_of addr p = text_eq p.address addr

-- The edges with a pool of the second list, and those without.
abbrev pub is_shared : List PoolGraphEdge → PoolGraphEdge → Bool
is_shared pools_for_token_to e = any (is_edge_of e.address) pools_for_token_to

abbrev pub is_allowed : Option (List Text) → Text → Bool
is_allowed none intermediate_token = true
is_allowed (some intermediate_tokens) intermediate_token =
    any (text_eq intermediate_token) intermediate_tokens

unfoldable pub second_hops : List PoolGraphEdge → PoolGraphEdge → List (List Text)
second_hops pools_for_token_to first_pool =
    map (λ p. first_pool.address ∷ PoolGraphEdge.address p ∷ [])
      (filter (λ p. text_eq (PoolGraphEdge.other_token p) first_pool.other_token)
        pools_for_token_to)

unfoldable pub two_hops :
    Option (List Text) → List PoolGraphEdge → List PoolGraphEdge → List (List Text)
two_hops intermediate_tokens pools_for_token_to [] = []
two_hops intermediate_tokens pools_for_token_to (first_pool ∷ first_hop) =
    (if is_allowed intermediate_tokens first_pool.other_token
      then second_hops pools_for_token_to first_pool
      else [])
    ++ two_hops intermediate_tokens pools_for_token_to first_hop

-- The paths that one round of findWalks finds for a sorted pair.
unfoldable pub find_paths : PoolGraphMap → Option (List Text) → Text → Text → List (List Text)
find_paths graph intermediate_tokens token_from token_to =
    let pools_for_token_from = items_at graph token_from in
    let pools_for_token_to = items_at graph token_to in
    map (λ op. PoolGraphEdge.address op ∷ [])
      (filter (is_shared pools_for_token_to) pools_for_token_from)
    ++ two_hops intermediate_tokens pools_for_token_to
        (filter (λ e. not (is_shared pools_for_token_to e)) pools_for_token_from)

abbrev pub PoolWalks : Type 0
PoolWalks = List (Text × List (List Text))

-- `if (paths.length > 0) { walks[internalPathId] = paths; }`
abbrev pub put_paths : Text → List (List Text) → PoolWalks → PoolWalks
put_paths id [] walks = walks
put_paths id (path ∷ paths) walks = put id (path ∷ paths) walks

unfoldable pub find_walks :
    PoolGraphMap → Option (List Text) → PoolWalks → List (Text × Text) → PoolWalks
find_walks graph intermediate_tokens walks [] = walks
find_walks graph intermediate_tokens walks ((token_from, token_to) ∷ pairs) =
    let internal = sort_two token_from token_to in
    let id = get_internal_route_id internal.0 internal.1 false in
    let paths = find_paths graph intermediate_tokens internal.0 internal.1 in
    find_walks graph intermediate_tokens
      (if is_defined (lookup id walks) then walks else put_paths id paths walks) pairs

unfoldable pub get_hops_from_route : List Text → Bool → List Edge
get_hops_from_route path reversed =
    map (λ hop. record { pool_address = hop }) (if reversed then reverse path else path)

-- The entry of a pair among the results.
unfoldable pub paths_of_pair : PoolWalks → Text × Text → Text × List TradePath
paths_of_pair walks (start_mint, end_mint) =
    let internal = sort_two start_mint end_mint in
    let internal_route_id = get_internal_route_id internal.0 internal.1 false in
    let reversed = not (text_eq internal.0 start_mint) in
    (
      get_search_path_id start_mint end_mint,
      map
          (λ path. record {
            start_token_mint = start_mint;
            end_token_mint = end_mint;
            edges = get_hops_from_route path reversed;
          })
          (items_at walks internal_route_id),
    )

unfoldable pub get_paths_for_pairs :
    PoolGraphMap → List (Text × Text) → Option (List Text) → List (Text × List TradePath)
get_paths_for_pairs graph search_token_pairs intermediate_tokens =
    let search_token_pairs_to_find =
      filter (λ pair. not (text_eq (pair.0) (pair.1))) search_token_pairs in
    let walk_map = find_walks graph intermediate_tokens [] search_token_pairs_to_find in
    map (paths_of_pair walk_map) search_token_pairs

abbrev pub first_paths : List (Text × List TradePath) → Result (List TradePath)
first_paths [] = err type_error
first_paths (entry ∷ entries) = ok entry.1

unfoldable pub get_path : PoolGraphMap → Text → Text → Option (List Text) → Result (List TradePath)
get_path graph start_mint end_mint intermediate_tokens =
    first_paths (get_paths_for_pairs graph ((start_mint, end_mint) ∷ []) intermediate_tokens)

-- combinations2: each element with each later one.
unfoldable pub combinations2 : List Text → List (Text × Text)
combinations2 [] = []
combinations2 (token ∷ tokens) = map (λ later. (token, later)) tokens ++ combinations2 tokens

-- The entry of an id for the walks of a sorted pair, in the direction that is asked for.
abbrev path_entry : PoolWalks → Text × Text → Text → Text → Bool → Text × List TradePath
path_entry walks internal start_mint end_mint reversed = (
  get_search_path_id start_mint end_mint,
  map
      (λ path. record {
        start_token_mint = start_mint;
        end_token_mint = end_mint;
        edges = get_hops_from_route path reversed;
      })
      (items_at walks (get_internal_route_id internal.0 internal.1 false)),
)

-- The entries of a pair and of the pair reversed.
unfoldable pub both_directions : PoolWalks → Text × Text → List (Text × List TradePath)
both_directions walks (start_mint, end_mint) =
    let internal = sort_two start_mint end_mint in
    let reversed = not (text_eq internal.0 start_mint) in
    if text_eq start_mint end_mint
    then (get_search_path_id start_mint end_mint, []) ∷ []
    else path_entry walks internal start_mint end_mint reversed
      ∷ path_entry walks internal end_mint start_mint (not reversed)
      ∷ []

unfoldable pub all_directions : PoolWalks → List (Text × Text) → List (Text × List TradePath)
all_directions walks [] = []
all_directions walks (pair ∷ pairs) = both_directions walks pair ++ all_directions walks pairs

unfoldable pub get_all_paths :
    PoolGraphMap → List Text → Option (List Text) → List (Text × List TradePath)
get_all_paths graph tokens intermediate_tokens =
    let pairs = combinations2 tokens in
    let to_find = filter (λ pair. not (text_eq (pair.0) (pair.1))) pairs in
    all_directions (find_walks graph intermediate_tokens [] to_find) pairs

abbrev onto_first : ℕ → List Text → List Text
onto_first c [] = (c ∷ []) ∷ []
onto_first c (part ∷ parts) = (c ∷ part) ∷ parts

abbrev two_tokens_of : List Text → Result (Text × Text)
two_tokens_of (token_a ∷ token_b ∷ []) = ok (token_a, token_b)
two_tokens_of [] = err plain
two_tokens_of (token ∷ []) = err plain
two_tokens_of (token_a ∷ (token_b ∷ (token_c ∷ tokens))) = err plain

-- `pathId.split(PATH_ID_DELIMITER)`
unfoldable pub split_delimited : Text → List Text
split_delimited [] = [] ∷ []
split_delimited (c ∷ s) =
    if c == 45 then [] ∷ split_delimited s else onto_first c (split_delimited s)

unfoldable pub deconstruct_path_id : Text → Result (Text × Text)
deconstruct_path_id path_id = two_tokens_of (split_delimited path_id)
