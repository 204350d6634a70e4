-- ===== src/PoolGraph/Ids.antt =====
-- The ids of token pairs (pool-graph-utils.ts): two pairs without the delimiter have two ids, and
-- an id is taken apart into its tokens.
use whirlpools.Prelude.{◌≡◌, ◌≢◌, ◌⊎◌, inl, inr, refl, false, [], ◌∷◌, ◌++◌, cons-eq, Bool-cases}
use whirlpools.Prelude.Predicates.{All}
use whirlpools.Text.{Text, text_lt, sort_two}
use whirlpools.PoolGraph.{get_internal_route_id}

-- A text without a "-", as every address in base 58 is.
abbrev pub HasNoDelimiter : Text → Type 0
HasNoDelimiter = All (λ c. c ≢ 45)

delimited_injective :
    (a b c d : Text)
    → HasNoDelimiter a
    → HasNoDelimiter c
    → a ++ 45 ∷ b ≡ c ++ 45 ∷ d
    → (a ≡ c) × (b ≡ d)
delimited_injective [] b [] d clean_a clean_c e = (refl, cc)
delimited_injective [] b (y ∷ c) d clean_a clean_c e = absurd (clean_c.0 (cc))
delimited_injective (x ∷ a) b [] d clean_a clean_c e = absurd (clean_a.0 (cc))
delimited_injective (x ∷ a) b (y ∷ c) d clean_a clean_c e =
    let (same, rest) = delimited_injective a b c d clean_a.1 clean_c.1 (cc) in
    (cons-eq (cc) same, rest)

abbrev pub pair_id : Text × Text → Text
pair_id internal = get_internal_route_id internal.0 internal.1 false

pub pair_id-injective :
    (p q : Text × Text) → HasNoDelimiter p.0 → HasNoDelimiter q.0 → pair_id p ≡ pair_id q → p ≡ q
unfolding get_internal_route_id
pair_id-injective p q clean_p clean_q e =
    let (first, second) = delimited_injective p.0 p.1 q.0 q.1 clean_p clean_q e in
    λ i. (first i, second i)

pub sort_two_cases : (s t : Text) → (sort_two s t ≡ (s, t)) ⊎ (sort_two s t ≡ (t, s))
unfolding sort_two
sort_two_cases s t = elim (Bool-cases (text_lt t s)) [
  | inl less ↦ inr (rw less refl)
  | inr not_less ↦ inl (rw not_less refl)
]
