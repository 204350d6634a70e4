-- ===== src/Witnesses/Ranking.antt =====
-- The theorems on the partition and the ranking of routes at concrete inputs.
use native.Mathlib.Decide.{dec_lt}
use whirlpools.Prelude.{ℕ, ◌≡◌, refl, arith, true, List, [], ◌∷◌, ℤ, pos, inl, inr}
use whirlpools.Prelude.Predicates.{All}
use whirlpools.Errors.{ok, ◌>>=◌}
use whirlpools.Partition.{
  Sample, swap, climb, descend, exchange, settle, partition_around, k_smallest_partition,
}
use whirlpools.Partition.Selects.{IsSample, IsSelected}
use whirlpools.Partition.Whole.{k_smallest_partition-IsSelected}
use whirlpools.Router.Routes.{InternalRoute, generate_routes}
use whirlpools.Router.Routes.Complete.{IsComplete}
use whirlpools.Router.Ranking.{compare_ℤ, element, front, get_ranked_routes}
use whirlpools.Router.Ranking.Top.{AreTop, compare_ℤ-IsOrder}
use whirlpools.Router.Ranking.Best.{get_ranked_routes-AreBest}
use whirlpools.Witnesses.Routes.{two_halves, two_halves-IsQuoteMap}

-- A sample of `k` alone.
abbrev pub one_sample : Sample
one_sample = record { low = λ k left right. k; high = λ k left right. k }

pub one_sample-IsSample : IsSample one_sample
one_sample-IsSample = record {
  low = λ k left right above below long. omega arith;
  high = λ k left right above below long. omega arith;
  narrower = λ k left right above below long. elim (dec_lt left k) [
    | yes apart ↦ inl apart
    | no at_left ↦ inr (omega arith)
  ];
}

abbrev five_numbers : ℕ → ℤ
five_numbers = element (pos 5) (pos 5 ∷ pos 3 ∷ pos 9 ∷ pos 1 ∷ pos 4 ∷ [])

k_smallest_partition-IsSelected_example :
    (last : ℕ → ℤ) × (k_smallest_partition compare_ℤ one_sample 5 five_numbers 2 0 4 ≡ ok last)
    × IsSelected compare_ℤ compare_ℤ-IsOrder 2 0 4 five_numbers last
k_smallest_partition-IsSelected_example =
    k_smallest_partition-IsSelected compare_ℤ compare_ℤ-IsOrder one_sample one_sample-IsSample 5
      five_numbers 2 0 4 (omega arith) (omega arith) (omega arith)

-- The two smallest numbers come first.
two_smallest :
    (k_smallest_partition compare_ℤ one_sample 5 five_numbers 2 0 4 >>= λ last. ok (front 5 last))
    ≡ ok (pos 1 ∷ pos 3 ∷ pos 4 ∷ pos 5 ∷ pos 9 ∷ [])
unfolding k_smallest_partition partition_around settle exchange descend climb swap
two_smallest = refl

get_ranked_routes-AreBest_example :
    (routes best : List (InternalRoute ℕ)) × (generate_routes two_halves 3 ≡ ok routes)
    × (get_ranked_routes one_sample two_halves true 1 3 ≡ ok best)
    × AreTop true 1 routes best
    × All (IsComplete 3) best
get_ranked_routes-AreBest_example =
    get_ranked_routes-AreBest one_sample one_sample-IsSample two_halves two_halves-IsQuoteMap true 1
      3 (omega arith)
