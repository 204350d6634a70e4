-- ===== src/Sdk.antt =====
-- What the program uses of @orca-so/common-sdk beyond ZERO, ONE and TWO: U64_MAX and the helpers
-- of MathUtil. They are parameters; `IsSdk` states what the package documents of them, at the
-- unsigned arguments that the program passes.
use whirlpools.Prelude.{
  ℕ, ◌+◌, ◌-◌, ◌/◌, ◌%◌, ◌^◌, ◌<◌, ◌≡◌, refl, ℤ, pos, negsuc, if◌then◌else◌, ◌==◌, arith,
}
use whirlpools.Errors.{Result, ok, err, assertion}

pub record Sdk : Type 0 where
  pub u64_max : ℤ
  -- MathUtil.fromX64_BN
  pub from_x64_bn : ℤ → Result ℤ
  -- MathUtil.divRoundUp
  pub div_round_up : ℤ → ℤ → Result ℤ
  -- MathUtil.shiftRightRoundUp
  pub shift_right_round_up : ℤ → Result ℤ
  -- MathUtil.subUnderflowU128
  pub sub_underflow_u128 : ℤ → ℤ → ℤ

pub record IsSdk (sdk : Sdk) : Type 0 where
  pub u64_max_is : sdk.u64_max ≡ pos (2 ^ 64 - 1)
  pub from_x64_bn_is : (n : ℕ) → sdk.from_x64_bn (pos n) ≡ ok (pos (n / 2 ^ 64))
  pub div_round_up_is :
      (n d : ℕ) → 0 < d → sdk.div_round_up (pos n) (pos d) ≡ ok (pos ((n + (d - 1)) / d))
  pub shift_right_round_up_is :
      (n : ℕ) → sdk.shift_right_round_up (pos n) ≡ ok (pos ((n + (2 ^ 64 - 1)) / 2 ^ 64))
  pub sub_underflow_u128_is :
      (a b : ℕ)
      → a < 2 ^ 128
      → b < 2 ^ 128
      → sdk.sub_underflow_u128 (pos a) (pos b) ≡ pos ((a + 2 ^ 128 - b) % 2 ^ 128)

-- A package that behaves as documented.
abbrev from_x64 : ℤ → Result ℤ
from_x64 (pos n) = ok (pos (n / 2 ^ 64))
from_x64 (negsuc n) = err assertion

abbrev div_up : ℤ → ℤ → Result ℤ
div_up (pos n) (pos d) = if d == 0 then err assertion else ok (pos ((n + (d - 1)) / d))
div_up (pos n) (negsuc d) = err assertion
div_up (negsuc n) d = err assertion

abbrev shift_up : ℤ → Result ℤ
shift_up (pos n) = ok (pos ((n + (2 ^ 64 - 1)) / 2 ^ 64))
shift_up (negsuc n) = err assertion

abbrev sub_underflow : ℤ → ℤ → ℤ
sub_underflow (pos a) (pos b) = pos ((a + 2 ^ 128 - b) % 2 ^ 128)
sub_underflow (pos a) (negsuc b) = pos 0
sub_underflow (negsuc a) b = pos 0

abbrev pub plain_sdk : Sdk
plain_sdk = record {
  u64_max = pos (2 ^ 64 - 1);
  from_x64_bn = from_x64;
  div_round_up = div_up;
  shift_right_round_up = shift_up;
  sub_underflow_u128 = sub_underflow;
}

div_up_lem : (n d : ℕ) → 0 < d → div_up (pos n) (pos d) ≡ ok (pos ((n + (d - 1)) / d))
div_up_lem n d h = ground arith

pub plain_sdk-IsSdk : IsSdk plain_sdk
plain_sdk-IsSdk = record {
  u64_max_is = refl;
  from_x64_bn_is = λ n. refl;
  div_round_up_is = div_up_lem;
  shift_right_round_up_is = λ n. refl;
  sub_underflow_u128_is = λ a b ha hb. refl;
}
