-- ===== src/RewardsQuote.antt =====
-- quotes/public/collect-rewards-quote.ts: the rewards that a position can collect.
-- PublicKey.default and PublicKey.equals are the parameters `default_key` and `equals`.
pub mod Entries
use whirlpools.Prelude.{
  ℕ, zero, suc, Bool, not, ◌&&◌, if◌then◌else◌, Option, none, some, List, [], ◌∷◌, map, get_elem?,
  ℤ, pos, ◌+ℤ◌, ◌-ℤ◌, ◌*ℤ◌, ltb_ℤ,
}
use whirlpools.Errors.{plain, Result, ok, err, ◌>>=◌}
use whirlpools.Bn.{div, shln, shrn, is_zero}
use whirlpools.Sdk.{Sdk}
use whirlpools.Constants.{num_rewards}
use whirlpools.AnchorTypes.{
  WhirlpoolRewardInfoData, WhirlpoolData, TickData, PositionRewardInfoData, PositionData,
}
use whirlpools.BitMath.{mul_div}
use whirlpools.TransferFee.{SplToken, FeeAmount, calculate_transfer_fee_excluded_amount}
use whirlpools.TickArraySequence.{require}

-- TokenExtensionContextForReward; a mint that is missing is `none`.
pub record RewardExtensionContext (Mint : Type 0) : Type 0 where
  pub current_epoch : ℕ
  pub reward_token_mints_with_program : List (Option Mint)

pub record CollectRewardsQuoteParam (Key Mint : Type 0) : Type 0 where
  pub whirlpool : WhirlpoolData Key
  pub position : PositionData Key
  pub tick_lower : TickData
  pub tick_upper : TickData
  pub token_extension_ctx : RewardExtensionContext Mint
  pub time_stamp_in_seconds : Option ℤ

-- The entries of the two arrays; an entry that stays undefined is `none`.
pub record CollectRewardsQuote : Type 0 where
  pub reward_owed : List (Option ℤ)
  pub deducted_from_reward_owed : List (Option ℤ)

-- `invariant(!!rewardInfo)`, for the element itself.
abbrev pub invariant_defined {ℓ} : {A : Type ℓ} → Option A → Result A
invariant_defined (some a) = ok a
invariant_defined none = err plain

abbrev pub amount_of : Option FeeAmount → Option ℤ
amount_of none = none
amount_of (some f) = some f.amount

abbrev pub fee_of : Option FeeAmount → Option ℤ
fee_of none = none
fee_of (some f) = some f.fee

abbrev pub mint_at {ℓ} : {A : Type ℓ} → List (Option A) → ℕ → Option A
mint_at [] i = none
mint_at (m ∷ ms) zero = m
mint_at (m ∷ ms) (suc i) = mint_at ms i

-- The indexes from `i` on, `n` of them.
abbrev pub from_to : ℕ → ℕ → List ℕ
from_to i zero = []
from_to i (suc n) = i ∷ from_to (suc i) n

-- `for (let i = 0; i < n; i++)`
abbrev pub loop_indexes : ℕ → List ℕ
loop_indexes n = from_to 0 n

module _ {Key Mint Config : Type 0} (equals : Key → Key → Bool) (default_key : Key) (sdk : Sdk)
    (spl : SplToken Mint Config) where
  -- PoolUtil.isRewardInitialized
  unfoldable pub is_reward_initialized : WhirlpoolRewardInfoData Key → Bool
  is_reward_initialized reward_info =
      not (equals default_key reward_info.mint) && not (equals default_key reward_info.vault)

  -- The global growth with what has been emitted since the last update of the pool.
  unfoldable pub adjusted_reward_growth :
      WhirlpoolData Key → WhirlpoolRewardInfoData Key → ℤ → Result ℤ
  unfolding ◌+ℤ◌
  adjusted_reward_growth whirlpool reward_info timestamp_delta =
      if is_zero whirlpool.liquidity then ok reward_info.growth_global_x64 else (do
        reward_growth_delta ←
            mul_div timestamp_delta reward_info.emissions_per_second_x64 whirlpool.liquidity 128
        ok (reward_info.growth_global_x64 +ℤ reward_growth_delta))

  -- The growth outside of a tick is read only where the tick is initialized.
  unfoldable pub reward_growths_below : ℕ → CollectRewardsQuoteParam Key Mint → ℤ → Result ℤ
  reward_growths_below i param global =
      if param.tick_lower.initialized
      then (do
        outside ← require (get_elem? param.tick_lower.reward_growths_outside i)
        ok (
            if ltb_ℤ param.whirlpool.tick_current_index param.position.tick_lower_index
            then sdk.sub_underflow_u128 global outside
            else outside))
      else ok global

  unfoldable pub reward_growths_above : ℕ → CollectRewardsQuoteParam Key Mint → ℤ → Result ℤ
  reward_growths_above i param global =
      if param.tick_upper.initialized
      then (do
        outside ← require (get_elem? param.tick_upper.reward_growths_outside i)
        ok (
            if ltb_ℤ param.whirlpool.tick_current_index param.position.tick_upper_index
            then outside
            else sdk.sub_underflow_u128 global outside))
      else ok (pos 0)

  -- The body of the loop for a reward that is initialized.
  unfoldable pub reward_owed_for :
      ℕ
      → CollectRewardsQuoteParam Key Mint
      → ℤ
      → WhirlpoolRewardInfoData Key
      → Option PositionRewardInfoData
      → Result FeeAmount
  unfolding ◌+ℤ◌ ◌*ℤ◌
  reward_owed_for i param timestamp_delta reward_info position_reward_info = do
    global ← adjusted_reward_growth param.whirlpool reward_info timestamp_delta
    growth_below ← reward_growths_below i param global
    growth_above ← reward_growths_above i param global
    let inside = sdk.sub_underflow_u128 (sdk.sub_underflow_u128 global growth_below) growth_above
    checkpoint ← require position_reward_info
    amount_owed_x64 ← shln checkpoint.amount_owed 64
    amount_owed ←
        shrn
          (amount_owed_x64
            +ℤ sdk.sub_underflow_u128 inside checkpoint.growth_inside_checkpoint
              *ℤ param.position.liquidity)
          64
    mint ← require (mint_at param.token_extension_ctx.reward_token_mints_with_program i)
    ok (
        calculate_transfer_fee_excluded_amount spl amount_owed mint
          param.token_extension_ctx.current_epoch)

  -- The body of the loop; `none` is the `continue`.
  unfoldable pub reward_entry :
      CollectRewardsQuoteParam Key Mint → ℤ → ℕ → Result (Option FeeAmount)
  reward_entry param timestamp_delta i = do
    reward_info ← invariant_defined (get_elem? param.whirlpool.reward_infos i)
    if is_reward_initialized reward_info
        then (do
          owed ←
              reward_owed_for i param timestamp_delta reward_info
                (get_elem? param.position.reward_infos i)
          ok (some owed))
        else ok none

  -- The loop over the rewards that are left.
  abbrev pub reward_entries :
      CollectRewardsQuoteParam Key Mint → ℤ → List ℕ → Result (List (Option FeeAmount))
  reward_entries param timestamp_delta [] = ok []
  reward_entries param timestamp_delta (i ∷ is) = reward_entry param timestamp_delta i >>= λ entry.
      reward_entries param timestamp_delta is >>= λ rest. ok (entry ∷ rest)

  -- `now` is `Date.now()`.
  abbrev pub timestamp_or : Option ℤ → ℤ → Result ℤ
  timestamp_or (some t) now = ok t
  timestamp_or none now = div now (pos 1_000)

  unfoldable pub collect_rewards_quote :
      ℤ → CollectRewardsQuoteParam Key Mint → Result CollectRewardsQuote
  unfolding ◌-ℤ◌
  collect_rewards_quote now param = do
    curr_timestamp_in_seconds ← timestamp_or param.time_stamp_in_seconds now
    let timestamp_delta = curr_timestamp_in_seconds -ℤ param.whirlpool.reward_last_updated_timestamp
    entries ← reward_entries param timestamp_delta (loop_indexes num_rewards)
    ok (record {
      reward_owed = map amount_of entries;
      deducted_from_reward_owed = map fee_of entries;
    })
