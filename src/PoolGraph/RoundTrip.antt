-- ===== src/PoolGraph/RoundTrip.antt =====
-- The ids of token pairs, taken apart again (pool-graph-utils.ts).
use whirlpools.Prelude.{◌≡◌, ◌≢◌, refl, ap, arith, false, [], ◌∷◌, ◌++◌, ◌==◌, ℕ}
use whirlpools.Errors.{ok}
use whirlpools.Text.{Text}
use whirlpools.PoolGraph.{get_search_path_id, split_delimited, two_tokens_of, deconstruct_path_id}
use whirlpools.PoolGraph.Ids.{HasNoDelimiter}

no_delimiter : (c : ℕ) → c ≢ 45 → (c == 45) ≡ false
no_delimiter c other = ground arith

split_one : (t : Text) → HasNoDelimiter t → split_delimited t ≡ t ∷ []
unfolding split_delimited
split_one [] clean = refl
split_one (c ∷ t) clean = rw (no_delimiter c clean.0, split_one t clean.1) refl

split_two :
    (s t : Text) → HasNoDelimiter s → HasNoDelimiter t → split_delimited (s ++ 45 ∷ t) ≡ s ∷ t ∷ []
unfolding split_delimited
split_two [] t clean_s clean_t = rw (split_one t clean_t) refl
split_two (c ∷ s) t clean_s clean_t =
    rw (no_delimiter c clean_s.0, split_two s t clean_s.1 clean_t) refl

-- The id of two tokens without a "-" is taken apart into the two tokens, in their order.
pub deconstruct-get_search_path_id :
    (s t : Text)
    → HasNoDelimiter s
    → HasNoDelimiter t
    → deconstruct_path_id (get_search_path_id s t) ≡ ok (s, t)
unfolding deconstruct_path_id get_search_path_id
deconstruct-get_search_path_id s t clean_s clean_t =
    ap two_tokens_of (split_two s t clean_s clean_t)
