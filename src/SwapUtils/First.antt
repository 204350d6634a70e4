-- ===== src/SwapUtils/First.antt =====
-- The first tick array that is requested for a swap (swap-utils.ts, tick-utils.ts) is one that the
-- sequence of the swap (tick-array-sequence.ts) accepts.
use whirlpools.Prelude.{
  List, [], ◌∷◌, ℕ, suc, ◌*◌, ◌/◌, ◌<◌, ◌≡◌, refl, ap, sym, ◌∙◌, arith, Bool, true, false,
  if◌then◌else◌, some, get_elem?, ◌&&◌, ℤ, pos, negsuc, sub_ℕ, ◌+ℤ◌, ◌-ℤ◌, ◌*ℤ◌, neg-mul, ltb_ℤ,
  leb_ℤ,
}
use whirlpools.Prelude.Division.{lt-suc_div}
use native.Mathlib.Nat.{div-mul-le_self}
use whirlpools.Errors.{Result, ok, err, ◌>>◌, invariant, ok_injective}
use whirlpools.Bn.{rem}
use whirlpools.Constants.{min_tick_index, max_tick_index}
use whirlpools.TickArrayIndex.{floor_div}
use whirlpools.SwapUtils.{TickArrayRequest, get_tick_array_public_keys}
use whirlpools.TickUtil.{get_start_tick_index}
use whirlpools.TickArraySequence.{
  InitializedTickArray, TickArraySequence, check_if_index_is_in_tick_array_range,
  is_valid_tick_array0,
}

-- The start that is computed for a tick index.
abbrev start_for : ℤ → ℕ → ℤ
start_for t s = (floor_div t (s * 88) +ℤ pos 0) *ℤ pos s *ℤ pos 88

start_for-pos : (n s : ℕ) → start_for (pos n) s ≡ pos (n / (s * 88) * (s * 88))
unfolding ◌+ℤ◌ ◌*ℤ◌
start_for-pos n s = ap pos (omega arith)

start_for-negsuc : (n s : ℕ) → start_for (negsuc n) s ≡ sub_ℕ 0 (suc (n / (s * 88)) * (s * 88))
unfolding ◌+ℤ◌
start_for-negsuc n s =
    ap (λ (x : ℤ). x *ℤ pos 88) (neg-mul (suc (n / (s * 88))) s)
    ∙ neg-mul (suc (n / (s * 88)) * s) 88
    ∙ ap (sub_ℕ 0) (omega arith)

-- The tick index lies in the array of that start.
start_for-range :
    (t : ℤ) (s : ℕ)
    → 0 < s
    → (leb_ℤ (start_for t s) t && ltb_ℤ t (start_for t s +ℤ pos (s * 88))) ≡ true
unfolding ◌+ℤ◌
start_for-range (pos n) s hs =
    let below = div-mul-le_self n (s * 88) in
    let above = lt-suc_div n (s * 88) (omega arith) in
    rw (start_for-pos n s) (ground (arith, below, above))
start_for-range (negsuc n) s hs =
    let below = div-mul-le_self n (s * 88) in
    let above = lt-suc_div n (s * 88) (omega arith) in
    rw (start_for-negsuc n s) (ground (arith, below, above))

two_checks :
    (a b : Bool) {v start : ℤ} → (invariant a >> (invariant b >> ok v)) ≡ ok start → start ≡ v
two_checks true true e = sym (ok_injective e)
two_checks true false e = cc
two_checks false b e = cc

get_start-is :
    (t start : ℤ) (s : ℕ) → get_start_tick_index t s (pos 0) ≡ ok start → start ≡ start_for t s
unfolding get_start_tick_index ◌-ℤ◌ ◌+ℤ◌
get_start-is t start s e =
    let ticks_in_array = pos (88 * s) in
    two_checks
      (leb_ℤ (min_tick_index -ℤ (rem min_tick_index ticks_in_array +ℤ ticks_in_array))
        (start_for t s))
      (leb_ℤ (start_for t s) max_tick_index) e

same_head : {A : Type 0} {x y : A} {xs ys : List A} → x ∷ xs ≡ y ∷ ys → x ≡ y
same_head e = cc

start_of :
    {Key : Type 0} {key : Key} {keys : List Key} (result : Result ℤ) (key_of : ℤ → Key)
    (later : List Key)
    → elim result [ err x ↦ [] | ok start ↦ key_of start ∷ later ] ≡ key ∷ keys
    → (start : ℤ) × (result ≡ ok start) × (key_of start ≡ key)
start_of (err x) key_of later e = cc
start_of (ok start) key_of later e = (start, refl, same_head e)

-- The first key that is asked for is that of an array whose start was computed.
first_key :
    {Key : Type 0} (get_tick_array : Key → ℤ → Key) (request : TickArrayRequest Key) (key : Key)
    (keys : List Key)
    → get_tick_array_public_keys get_tick_array request ≡ key ∷ keys
    → (start : ℤ) × (get_start_tick_index
          (request.tick_current_index
            +ℤ (if request.a_to_b then pos 0 else pos request.tick_spacing))
          request.tick_spacing
          (pos 0)
        ≡ ok start)
      × (get_tick_array request.whirlpool_address start ≡ key)
unfolding get_tick_array_public_keys
first_key get_tick_array request key keys e =
    start_of
      (get_start_tick_index
        (request.tick_current_index +ℤ (if request.a_to_b then pos 0 else pos request.tick_spacing))
        request.tick_spacing (pos 0))
      (get_tick_array request.whirlpool_address) _ e

-- The first array that is requested for a swap, for a positive spacing, is accepted by the sequence
-- of the swap: where the arrays of a pool have different keys, and the first array of the sequence is
-- that of the first key that is requested, the sequence of the same spacing and direction is valid at
-- the tick index of the request.
pub is_valid_tick_array0-first :
    {Key : Type 0} (get_tick_array : Key → ℤ → Key) (request : TickArrayRequest Key) (key : Key)
    (keys : List Key) (s : TickArraySequence Key) (first : InitializedTickArray Key)
    → 0 < request.tick_spacing
    → ((a b : ℤ)
        → get_tick_array request.whirlpool_address a ≡ get_tick_array request.whirlpool_address b
        → a ≡ b)
    → get_tick_array_public_keys get_tick_array request ≡ key ∷ keys
    → get_tick_array request.whirlpool_address first.tick_array_data.start_tick_index ≡ key
    → get_elem? s.sequence 0 ≡ some first
    → s.tick_spacing ≡ request.tick_spacing
    → s.a_to_b ≡ request.a_to_b
    → is_valid_tick_array0 s request.tick_current_index ≡ ok true
unfolding is_valid_tick_array0 check_if_index_is_in_tick_array_range
is_valid_tick_array0-first get_tick_array request key keys s first hs apart keys_are its_key
      first_is spacing way =
    let (start, e, is) = first_key get_tick_array request key keys keys_are in
    let start_is : first.tick_array_data.start_tick_index ≡ start = apart _ _ (its_key ∙ sym is) in
    let look : ℤ =
      request.tick_current_index +ℤ (if request.a_to_b then pos 0 else pos request.tick_spacing) in
    rw (first_is, start_is, spacing, way, get_start-is look start request.tick_spacing e)
      (ap ok (start_for-range look request.tick_spacing hs))
