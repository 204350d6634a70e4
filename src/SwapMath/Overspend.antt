-- ===== src/SwapMath/Overspend.antt =====
-- A step (swap-math.ts) can ask for more of token B than there is: the rounding of bit-math.ts is one
-- too high, and the price that the amount leads to is the target.
use whirlpools.Prelude.{ℕ, ◌+◌, ◌*◌, ◌/◌, ◌^◌}
use whirlpools.Sdk.{Sdk, IsSdk}

module _ (sdk : Sdk) (laws : IsSdk sdk) where
  -- The amount of token A that is given for it.
  abbrev given : ℕ → ℕ → ℕ
  given c k = 2 ^ 64 * k * 2 ^ 64 / (c * (c + k))
