-- ===== src/SwapUtils.antt =====
-- utils/public/swap-utils.ts: the defaults of a swap, the tick arrays that it may walk through, and
-- its thresholds. PublicKey.equals, the addresses that PDAUtil derives and the fetcher are code
-- outside these definitions: they are the parameters `equals`, `get_tick_array` and `fetch`.
pub mod Batch
pub mod First
use whirlpools.Prelude.{
  ℕ, zero, suc, ◌+◌, ◌-◌, Bool, true, false, eqb, if◌then◌else◌, Option, none, some, List, [], ◌∷◌,
  ◌++◌, map, length, get_elem?, take, drop, ℤ, pos, ◌+ℤ◌, ◌-ℤ◌,
}
use whirlpools.Errors.{Result, ok, err, ◌>>=◌}
use whirlpools.Sdk.{Sdk}
use whirlpools.Constants.{min_sqrt_price, max_sqrt_price, max_swap_tick_arrays}
use whirlpools.AnchorTypes.{WhirlpoolData, TickArrayData, TickArray}
use whirlpools.TokenMath.{Percentage, adjust_for_slippage}
use whirlpools.TickUtil.{get_start_tick_index}

-- utils/public/types.ts
pub data SwapDirection : Type 0 where
  a_to_b b_to_a : SwapDirection

pub data TokenType : Type 0 where
  token_a token_b : TokenType

pub record TickArrayRequest (Key : Type 0) : Type 0 where
  pub whirlpool_address : Key
  pub a_to_b : Bool
  pub tick_current_index : ℤ
  pub tick_spacing : ℕ

-- `amount` and `otherAmountThreshold` of SwapInput.
pub record SwapAmounts : Type 0 where
  pub amount : ℤ
  pub other_amount_threshold : ℤ

unfoldable pub get_default_sqrt_price_limit : Bool → ℤ
get_default_sqrt_price_limit from_a_to_b = if from_a_to_b then min_sqrt_price else max_sqrt_price

unfoldable pub get_default_other_amount_threshold : Sdk → Bool → ℤ
get_default_other_amount_threshold sdk amount_specified_is_input =
    if amount_specified_is_input then pos 0 else sdk.u64_max

unfoldable pub calculate_swap_amounts_from_quote :
    ℤ → ℤ → ℤ → Percentage → Bool → Result SwapAmounts
calculate_swap_amounts_from_quote amount est_amount_in est_amount_out slippage_tolerance
      amount_specified_is_input =
    if amount_specified_is_input
    then (do
      threshold ← adjust_for_slippage est_amount_out slippage_tolerance false
      ok (record { amount = amount; other_amount_threshold = threshold }))
    else (do
      threshold ← adjust_for_slippage est_amount_in slippage_tolerance true
      ok (record { amount = amount; other_amount_threshold = threshold }))

module _ {Key : Type 0} (equals : Key → Key → Bool) where
  -- PoolUtil.getTokenType
  unfoldable pub get_token_type : WhirlpoolData Key → Key → Option TokenType
  get_token_type pool mint =
      if equals pool.token_mint_a mint
      then some token_a
      else if equals pool.token_mint_b mint
      then some token_b
      else none

  abbrev pub is_token_a : TokenType → Bool
  is_token_a token_a = true
  is_token_a token_b = false

  unfoldable pub get_swap_direction : WhirlpoolData Key → Key → Bool → Option SwapDirection
  get_swap_direction pool swap_token_mint swap_token_is_input =
      elim (get_token_type pool swap_token_mint) [
        | none ↦ none
        | some token_type ↦
            if eqb (is_token_a token_type) swap_token_is_input then some a_to_b else some b_to_a
      ]

module _ {Key : Type 0} (get_tick_array : Key → ℤ → Key) where
  -- The rounds that are left of the loop over `i`; its `catch` ends it.
  abbrev pub tick_array_keys : ℕ → ℤ → ℤ → TickArrayRequest Key → List Key
  tick_array_keys zero index offset request = []
  tick_array_keys (suc rounds) index offset request =
      elim (get_start_tick_index index request.tick_spacing offset) [
        | err e ↦ []
        | ok start_index ↦
            get_tick_array request.whirlpool_address start_index
            ∷ tick_array_keys rounds index
                (if request.a_to_b then offset -ℤ pos 1 else offset +ℤ pos 1) request
      ]

  unfoldable pub get_tick_array_public_keys : TickArrayRequest Key → List Key
  get_tick_array_public_keys request =
      let shift = if request.a_to_b then pos 0 else pos request.tick_spacing in
      tick_array_keys max_swap_tick_arrays (request.tick_current_index +ℤ shift) (pos 0) request

  -- The loop over the requests: the addresses, and the slice of them that each request has.
  abbrev pub add_requests :
      List (TickArrayRequest Key) → List Key → List (ℕ × ℕ) → List Key × List (ℕ × ℕ)
  add_requests [] addresses request_to_indices = (addresses, request_to_indices)
  add_requests (r ∷ rs) addresses request_to_indices =
      let request_addresses = get_tick_array_public_keys r in
      add_requests rs (addresses ++ request_addresses) (
        request_to_indices
        ++ ((length addresses, length addresses + length request_addresses) ∷ []))

  -- An element of the fetched data, where a missing one is no data.
  abbrev pub data_at : List (Option (TickArrayData Key)) → ℕ → Option (TickArrayData Key)
  data_at [] i = none
  data_at (x ∷ xs) zero = x
  data_at (x ∷ xs) (suc i) = data_at xs i

  -- `xs.slice(start, end)`
  abbrev pub slice {ℓ} : {A : Type ℓ} → ℕ × ℕ → List A → List A
  slice indices xs = take (indices.1 - indices.0) (drop indices.0 xs)

  -- The arrays of one slice; `i` is the index in the slice.
  abbrev pub zip_data : ℕ → List Key → List (Option (TickArrayData Key)) → List (TickArray Key)
  zip_data i [] data_slice = []
  zip_data i (addr ∷ addrs) data_slice =
      record { address = addr; tick_array_data = data_at data_slice i }
      ∷ zip_data (suc i) addrs data_slice

  unfoldable pub get_batch_tick_arrays :
      (List Key → List (Option (TickArrayData Key)))
      → List (TickArrayRequest Key)
      → List (List (TickArray Key))
  get_batch_tick_arrays fetch tick_array_requests =
      let (addresses, request_to_indices) = add_requests tick_array_requests [] [] in
      let fetched = fetch addresses in
      map (λ indices. zip_data 0 (slice indices addresses) (slice indices fetched))
        request_to_indices

  unfoldable pub get_tick_arrays :
      (List Key → List (Option (TickArrayData Key)))
      → TickArrayRequest Key
      → Option (List (TickArray Key))
  get_tick_arrays fetch request = get_elem? (get_batch_tick_arrays fetch (request ∷ [])) 0
