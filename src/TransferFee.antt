-- ===== src/TransferFee.antt =====
-- utils/public/token-extension-util.ts: an amount with the transfer fee of its mint added or taken
-- off. The mint's fee configuration, the fee of an epoch and `calculateFee` belong to
-- @solana/spl-token: they are the parameter `spl`, and `IsSplToken` states what the package
-- documents of `calculateFee`.
pub mod RoundTrip
use whirlpools.Prelude.{
  ℕ, ◌+◌, ◌-◌, ◌*◌, ◌/◌, ◌≤◌, ◌≡◌, Bool, ◌==◌, min, Option, none, some, if◌then◌else◌, ℤ, pos, ◌+ℤ◌,
  ◌-ℤ◌, ◌*ℤ◌, ltb_ℤ, leb_ℤ, eqb_ℤ,
}
use whirlpools.Errors.{plain, Result, ok, err, ◌>>=◌, ◌>>◌, throw_if}
use whirlpools.Bn.{div}
use whirlpools.Sdk.{Sdk}

-- TransferFee of @solana/spl-token, without its epoch.
pub record TransferFee : Type 0 where
  pub maximum_fee : ℤ
  pub transfer_fee_basis_points : ℤ

pub record SplToken (Mint Config : Type 0) : Type 0 where
  pub get_transfer_fee_config : Mint → Option Config
  pub get_epoch_fee : Config → ℕ → TransferFee
  pub calculate_fee : TransferFee → ℤ → ℤ

-- The fee is the given share of the amount in basis points, rounded up, and at most the maximum.
pub record IsSplToken {Mint Config : Type 0} (spl : SplToken Mint Config) : Type 0 where
  pub calculate_fee_is :
      (most points n : ℕ)
      → spl.calculate_fee
          (record { maximum_fee = pos most; transfer_fee_basis_points = pos points })
          (pos n)
        ≡ pos (min ((n * points + (10_000 - 1)) / 10_000) most)

-- TransferFeeIncludedAmount and TransferFeeExcludedAmount.
pub record FeeAmount : Type 0 where
  pub amount : ℤ
  pub fee : ℤ

unfoldable pub ceil_div_bn : ℤ → ℤ → Result ℤ
unfolding ◌+ℤ◌ ◌-ℤ◌
ceil_div_bn num denom = div (num +ℤ (denom -ℤ pos 1)) denom

abbrev pub one_in_basis_points : ℤ
one_in_basis_points = pos 10_000

module _ (sdk : Sdk) where
  unfoldable pub add_transfer_fee : TransferFee → ℤ → Result FeeAmount
  unfolding ◌+ℤ◌ ◌-ℤ◌ ◌*ℤ◌
  add_transfer_fee transfer_fee amount =
      let max_fee_bn = transfer_fee.maximum_fee in
      let points = transfer_fee.transfer_fee_basis_points in
      if eqb_ℤ points (pos 0)
      then ok (record { amount = amount; fee = pos 0 })
      else if eqb_ℤ amount (pos 0)
      then ok (record { amount = amount; fee = pos 0 })
      else if eqb_ℤ points one_in_basis_points
      then (if ltb_ℤ sdk.u64_max (amount +ℤ max_fee_bn)
          then err plain
          else ok (record { amount = amount +ℤ max_fee_bn; fee = max_fee_bn }))
      else do
        let num = amount *ℤ one_in_basis_points
        let denom = one_in_basis_points -ℤ points
        raw ← ceil_div_bn num denom
        let result : FeeAmount =
            if leb_ℤ max_fee_bn (raw -ℤ amount)
            then record { amount = amount +ℤ max_fee_bn; fee = max_fee_bn }
            else record { amount = raw; fee = raw -ℤ amount }
        throw_if (ltb_ℤ sdk.u64_max result.amount) plain
        ok result

module _ {Mint Config : Type 0} (spl : SplToken Mint Config) where
  unfoldable pub take_transfer_fee : TransferFee → ℤ → FeeAmount
  unfolding ◌-ℤ◌
  take_transfer_fee transfer_fee amount =
      let fee = spl.calculate_fee transfer_fee amount in
      record { amount = amount -ℤ fee; fee = fee }

  -- calculateTransferFeeExcludedAmount of TokenExtensionUtil.
  unfoldable pub calculate_transfer_fee_excluded_amount : ℤ → Mint → ℕ → FeeAmount
  calculate_transfer_fee_excluded_amount amount token_info current_epoch =
      elim (spl.get_transfer_fee_config token_info) [
        | none ↦ record { amount = amount; fee = pos 0 }
        | some config ↦ take_transfer_fee (spl.get_epoch_fee config current_epoch) amount
      ]

  -- calculateTransferFeeIncludedAmount of TokenExtensionUtil.
  unfoldable pub calculate_transfer_fee_included_amount : Sdk → ℤ → Mint → ℕ → Result FeeAmount
  calculate_transfer_fee_included_amount sdk amount token_info current_epoch =
      elim (spl.get_transfer_fee_config token_info) [
        | none ↦ ok (record { amount = amount; fee = pos 0 })
        | some config ↦ add_transfer_fee sdk (spl.get_epoch_fee config current_epoch) amount
      ]

-- TokenExtensionContextForPool.
pub record TokenExtensionContext (Mint : Type 0) : Type 0 where
  pub current_epoch : ℕ
  pub token_mint_with_program_a : Mint
  pub token_mint_with_program_b : Mint
