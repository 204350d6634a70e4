-- ===== src/SupportedToken.antt =====
-- PoolUtil.isSupportedToken of utils/public/pool-utils.ts: the tokens that a pool may be made of.
-- @solana/spl-token, the fetcher and PDAUtil are code outside the function: they are parameters.
pub mod Extensions
pub mod Rules
pub mod Answers
use whirlpools.Prelude.{
  ℕ, ◌==◌, Bool, true, false, not, ◌&&◌, ◌||◌, if◌then◌else◌, Option, none, some, is_defined, List,
  [], ◌∷◌,
}
use whirlpools.Errors.{plain, type_error, Result, ok, err, ◌>>=◌, ◌>>◌}

pub record MintWithTokenProgram (Key Tlv : Type 0) : Type 0 where
  pub address : Key
  pub token_program : Key
  pub freeze_authority : Option Key
  pub tlv_data : Tlv

-- @solana/spl-token: its keys, the members of ExtensionType and of AccountState, and the readers of
-- the extensions of a mint.
pub record SplMint (Key Tlv : Type 0) : Type 0 where
  pub token_program_id : Key
  pub native_mint_2022 : Key
  pub transfer_fee_config : ℕ
  pub token_metadata : ℕ
  pub metadata_pointer : ℕ
  pub confidential_transfer_mint : ℕ
  pub permanent_delegate : ℕ
  pub transfer_hook : ℕ
  pub mint_close_authority : ℕ
  pub default_account_state : ℕ
  pub non_transferable : ℕ
  pub initialized : ℕ
  pub get_extension_types : Tlv → List ℕ
  pub get_default_account_state : MintWithTokenProgram Key Tlv → Option ℕ

-- The program's id, PDAUtil.getTokenBadge, and what the fetcher reads of an account.
pub record TokenContext (Key Tlv Badge : Type 0) : Type 0 where
  pub program_id : Key
  pub get_token_badge_pda : Key → Key → Key → Key
  pub get_mint_info : Key → Option (MintWithTokenProgram Key Tlv)
  pub get_token_badge : Key → Option Badge

abbrev pub extension_type_confidential_transfer_fee_config : ℕ
extension_type_confidential_transfer_fee_config = 16

-- A member of an object, or the TypeError of a read of null.
abbrev pub member_of : Option ℕ → Result ℕ
member_of none = err type_error
member_of (some x) = ok x

-- `invariant(mint, "Mint not found")`, which leaves the mint itself.
abbrev pub found :
    {Key Tlv : Type 0}
    → Option (MintWithTokenProgram Key Tlv)
    → Result (MintWithTokenProgram Key Tlv)
found none = err plain
found (some mint) = ok mint

module _ {Key Tlv : Type 0} (spl : SplMint Key Tlv) where
  unfoldable pub supported_extension : ℕ → Bool
  supported_extension extension =
      extension == spl.transfer_fee_config
      || (extension == spl.token_metadata
          || (extension == spl.metadata_pointer
              || (extension == spl.confidential_transfer_mint
                  || extension == extension_type_confidential_transfer_fee_config)))

  unfoldable pub supported_with_badge : ℕ → Bool
  supported_with_badge extension =
      extension == spl.permanent_delegate
      || (extension == spl.transfer_hook || extension == spl.mint_close_authority)

  -- A round of the loop over the extensions: `continue`, or `return false`.
  unfoldable pub extension_continues : MintWithTokenProgram Key Tlv → Bool → ℕ → Result Bool
  extension_continues mint is_token_badge_initialized extension =
      if supported_extension extension
      then ok true
      else if supported_with_badge extension
      then (if not is_token_badge_initialized then ok false else ok true)
      else if extension == spl.default_account_state
      then (if not is_token_badge_initialized then ok false else (do
        state ← member_of (spl.get_default_account_state mint)
        if not (state == spl.initialized) then ok false else ok true))
      else if extension == spl.non_transferable
      then ok false
      else ok false

  unfoldable pub check_extensions : MintWithTokenProgram Key Tlv → Bool → List ℕ → Result Bool
  check_extensions mint is_token_badge_initialized [] = ok true
  check_extensions mint is_token_badge_initialized (extension ∷ extensions) = do
    goes_on ← extension_continues mint is_token_badge_initialized extension
    let rest = check_extensions mint is_token_badge_initialized extensions
    if goes_on then rest else ok false

  -- The answer on a mint that was found.
  unfoldable pub check_mint : (Key → Key → Bool) → MintWithTokenProgram Key Tlv → Bool → Result Bool
  check_mint equals mint is_token_badge_initialized =
      let checked =
        check_extensions mint is_token_badge_initialized (spl.get_extension_types mint.tlv_data) in
      if equals mint.token_program spl.token_program_id
      then ok true
      else if equals mint.address spl.native_mint_2022
      then ok false
      else if is_defined mint.freeze_authority && not is_token_badge_initialized
      then ok false
      else checked

  unfoldable pub is_supported_token :
      {Badge : Type 0} → (Key → Key → Bool) → TokenContext Key Tlv Badge → Key → Key → Result Bool
  is_supported_token equals ctx whirlpools_config token_mint_key = do
    mint ← found (ctx.get_mint_info token_mint_key)
    let token_badge_pda = ctx.get_token_badge_pda ctx.program_id whirlpools_config token_mint_key
    let is_token_badge_initialized = is_defined (ctx.get_token_badge token_badge_pda)
    check_mint equals mint is_token_badge_initialized
