-- ===== src/Witnesses/Pool.antt =====
-- The theorems on the utilities of a pool at concrete inputs.
use whirlpools.Prelude.{
  ℕ, ◌≡◌, ◌==◌, ◌↔◌, ◌⊎◌, ◌^◌, refl, Bool, true, false, if◌then◌else◌, none, some, List, [], ◌∷◌,
  pos,
}
use whirlpools.Prelude.Predicates.{any}
use whirlpools.Errors.{plain, ok, err}
use whirlpools.Sdk.{plain_sdk, plain_sdk-IsSdk}
use whirlpools.PositionUtil.{get_liquidity_from_token_a, get_liquidity_from_token_b}
use whirlpools.PoolUtil.{est_liquidity_for_token_a, est_liquidity_for_token_b}
use whirlpools.PoolUtil.Estimates.{est_liquidity-get_liquidity}
use whirlpools.SupportedToken.{
  MintWithTokenProgram, SplMint, TokenContext, supported_extension, supported_with_badge,
  extension_continues, check_extensions, check_mint, is_supported_token,
}
use whirlpools.SupportedToken.Rules.{IsAccepted, is_supported_token-IsAccepted}
use whirlpools.SupportedToken.Answers.{IsUnreadable, EndsUnless, is_supported_token-Ends}

est_liquidity-get_liquidity_example :
    (est_liquidity_for_token_a plain_sdk (pos (2 ^ 65)) (pos (2 ^ 64)) (pos 1_000)
      ≡ get_liquidity_from_token_a plain_sdk (pos 1_000) (pos (2 ^ 64)) (pos (2 ^ 65)) false)
    × (est_liquidity_for_token_b (pos (2 ^ 65)) (pos (2 ^ 64)) (pos 1_000)
        ≡ get_liquidity_from_token_b plain_sdk (pos 1_000) (pos (2 ^ 64)) (pos (2 ^ 65)) false)
est_liquidity-get_liquidity_example =
    est_liquidity-get_liquidity plain_sdk plain_sdk-IsSdk (2 ^ 65) (2 ^ 64) 1_000

-- Keys are numbers, and the bytes of a mint the list of its extensions.
abbrev plain_spl_mint : SplMint ℕ (List ℕ)
plain_spl_mint = record {
  token_program_id = 1;
  native_mint_2022 = 2;
  transfer_fee_config = 1;
  token_metadata = 19;
  metadata_pointer = 18;
  confidential_transfer_mint = 4;
  permanent_delegate = 12;
  transfer_hook = 14;
  mint_close_authority = 3;
  default_account_state = 6;
  non_transferable = 9;
  initialized = 1;
  get_extension_types = λ tlv. tlv;
  get_default_account_state = λ mint. if any (λ e. e == 6) mint.tlv_data then some 1 else none;
}

abbrev delegated_mint : MintWithTokenProgram ℕ (List ℕ)
delegated_mint = record {
  address = 7;
  token_program = 3;
  freeze_authority = some 9;
  tlv_data = 1 ∷ 12 ∷ 6 ∷ [];
}

-- The mint has its key; only the badge of the config 5 is there.
abbrev plain_context : TokenContext ℕ (List ℕ) ℕ
plain_context = record {
  program_id = 4;
  get_token_badge_pda = λ program config mint. config;
  get_mint_info = λ key. if key == 7 then some delegated_mint else none;
  get_token_badge = λ key. if key == 5 then some 1 else none;
}

abbrev same_keys : ℕ → ℕ → Bool
same_keys a b = a == b

is_supported_token-IsAccepted_example :
    (is_supported_token plain_spl_mint same_keys plain_context 5 7 ≡ ok true) ↔ (
      (mint : MintWithTokenProgram ℕ (List ℕ)) × (plain_context.get_mint_info 7 ≡ some mint)
      × IsAccepted plain_spl_mint same_keys mint true)
is_supported_token-IsAccepted_example =
    is_supported_token-IsAccepted plain_spl_mint same_keys plain_context 5 7

supported_with_its_badge : is_supported_token plain_spl_mint same_keys plain_context 5 7 ≡ ok true
unfolding any is_supported_token check_mint check_extensions extension_continues supported_extension
    supported_with_badge
supported_with_its_badge = refl

refused_without_badge : is_supported_token plain_spl_mint same_keys plain_context 6 7 ≡ ok false
unfolding any is_supported_token check_mint check_extensions extension_continues supported_extension
    supported_with_badge
refused_without_badge = refl

is_supported_token-Ends_example :
    ((plain_context.get_mint_info 7 ≡ none)
      × (is_supported_token plain_spl_mint same_keys plain_context 5 7 ≡ err plain))
    ⊎ ((mint : MintWithTokenProgram ℕ (List ℕ)) × (plain_context.get_mint_info 7 ≡ some mint)
        × EndsUnless
            (IsUnreadable plain_spl_mint mint true mint.tlv_data)
            (is_supported_token plain_spl_mint same_keys plain_context 5 7))
is_supported_token-Ends_example = is_supported_token-Ends plain_spl_mint same_keys plain_context 5 7
