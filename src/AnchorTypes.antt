-- ===== src/AnchorTypes.antt =====
-- types/public/anchor-types.ts and client-types.ts: the accounts that the calculations read.
-- `Key` is the type of public keys (@solana/web3.js).
use whirlpools.Prelude.{ℕ, ℤ, Bool, List, Option}

pub record WhirlpoolRewardInfoData (Key : Type 0) : Type 0 where
  pub mint : Key
  pub vault : Key
  pub authority : Key
  pub emissions_per_second_x64 : ℤ
  pub growth_global_x64 : ℤ

pub record WhirlpoolData (Key : Type 0) : Type 0 where
  pub whirlpools_config : Key
  pub whirlpool_bump : List ℤ
  pub fee_rate : ℤ
  pub protocol_fee_rate : ℤ
  pub liquidity : ℤ
  pub sqrt_price : ℤ
  pub tick_current_index : ℤ
  pub protocol_fee_owed_a : ℤ
  pub protocol_fee_owed_b : ℤ
  pub token_mint_a : Key
  pub token_vault_a : Key
  pub fee_growth_global_a : ℤ
  pub token_mint_b : Key
  pub token_vault_b : Key
  pub fee_growth_global_b : ℤ
  pub reward_last_updated_timestamp : ℤ
  pub reward_infos : List (WhirlpoolRewardInfoData Key)
  pub tick_spacing : ℕ

pub record TickData : Type 0 where
  pub initialized : Bool
  pub liquidity_net : ℤ
  pub liquidity_gross : ℤ
  pub fee_growth_outside_a : ℤ
  pub fee_growth_outside_b : ℤ
  pub reward_growths_outside : List ℤ

pub record TickArrayData (Key : Type 0) : Type 0 where
  pub whirlpool : Key
  pub start_tick_index : ℤ
  pub ticks : List TickData

pub record PositionRewardInfoData : Type 0 where
  pub growth_inside_checkpoint : ℤ
  pub amount_owed : ℤ

pub record PositionData (Key : Type 0) : Type 0 where
  pub whirlpool : Key
  pub position_mint : Key
  pub liquidity : ℤ
  pub tick_lower_index : ℤ
  pub tick_upper_index : ℤ
  pub fee_growth_checkpoint_a : ℤ
  pub fee_owed_a : ℤ
  pub fee_growth_checkpoint_b : ℤ
  pub fee_owed_b : ℤ
  pub reward_infos : List PositionRewardInfoData

-- client-types.ts: an account that is not initialized has no data.
pub record TickArray (Key : Type 0) : Type 0 where
  pub address : Key
  pub tick_array_data : Option (TickArrayData Key)
