-- ===== src/Errors.antt =====
-- errors/errors.ts: the error codes, and the results of code that throws.
-- `plain` is an `Error` without a code (`throw new Error` and a failed `invariant`), `assertion` a
-- refusal of bn.js, `type_error` a read of a missing object. `out_of_fuel` is the model's own: a
-- loop that met the bound on its rounds.
use whirlpools.Prelude.{Bool, true, false, ◌≡◌, refl}

pub data MathErrorCode : Type 0 where
  multiplication_overflow mul_div_overflow : MathErrorCode
  multiplication_shift_right_overflow divide_by_zero : MathErrorCode

pub data TokenErrorCode : Type 0 where
  token_max_exceeded token_min_subceeded : TokenErrorCode

pub data SwapErrorCode : Type 0 where
  invalid_dev_fee_percentage invalid_sqrt_price_limit_direction : SwapErrorCode
  sqrt_price_out_of_bounds zero_tradable_amount : SwapErrorCode
  amount_out_below_minimum amount_in_above_maximum : SwapErrorCode
  tick_array_crossing_above_max tick_array_index_not_initialized : SwapErrorCode
  tick_array_sequence_invalid : SwapErrorCode

pub data Error : Type 0 where
  math : MathErrorCode → Error
  token : TokenErrorCode → Error
  swap : SwapErrorCode → Error
  plain assertion type_error out_of_fuel : Error

-- What a call comes back with: an exception, or its value.
pub data Result {ℓ} (Value : Type ℓ) : Type ℓ where
  err : Error → Result Value
  ok : Value → Result Value

-- What follows a call runs only where the call returns.
infixl 5 ◌>>=◌
abbrev pub ◌>>=◌ {ℓ κ} :
    {Value : Type ℓ} {Next : Type κ} → Result Value → (Value → Result Next) → Result Next
err thrown >>= next = err thrown
ok value >>= next = next value

infixl 5 ◌>>◌
abbrev pub ◌>>◌ {κ} : {Next : Type κ} → Result (Unit {0}) → Result Next → Result Next
check >> next = check >>= λ _. next

-- `if (c) { throw e; }`
abbrev pub throw_if : Bool → Error → Result (Unit {0})
throw_if true e = err e
throw_if false e = ok tt

-- `invariant(c, message)` of tiny-invariant.
abbrev pub invariant : Bool → Result (Unit {0})
invariant true = ok tt
invariant false = err plain

-- A call that was followed by a value has itself returned one.
pub >>=-eq-ok {ℓ κ} :
    {Value : Type ℓ} {Next : Type κ}
    → (call : Result Value) (next : Value → Result Next) {last : Next} → (call >>= next) ≡ ok last
    → (value : Value) × (call ≡ ok value) × (next value ≡ ok last)
>>=-eq-ok (err thrown) next returns = cc
>>=-eq-ok (ok value) next returns = (value, refl, returns)

pub ok_injective {ℓ} : {A : Type ℓ} {a b : A} → ok a ≡ ok b → a ≡ b
ok_injective e = cc
