-- ===== src/TransferFee/RoundTrip.antt =====
-- The two directions of a transfer fee (token-extension-util.ts) undo one another.
use whirlpools.Prelude.{
  ℕ, ◌+◌, ◌-◌, ◌*◌, ◌≤◌, ◌<◌, ◌≡◌, refl, ap, suc, min, arith, pos, sub_ℕ-eq-pos,
}
use native.Mathlib.Decide.{dec_lt, dec_le}
use whirlpools.Prelude.Division.{ceil_div, ceil_div-le_iff, lt-ceil_div_iff, le-mul-ceil_div}
use whirlpools.Errors.{ok}
use whirlpools.Sdk.{Sdk}
use whirlpools.TransferFee.{
  TransferFee, SplToken, IsSplToken, FeeAmount, add_transfer_fee, take_transfer_fee, ceil_div_bn,
}

abbrev pub fee_of : ℕ → ℕ → TransferFee
fee_of most points = record { maximum_fee = pos most; transfer_fee_basis_points = pos points }

-- The share of `n` in basis points, rounded up.
abbrev share : ℕ → ℕ → ℕ
share n points = ceil_div (n * points) 10_000

-- The total that leaves at least `n` when the share is taken off.
abbrev gross : ℕ → ℕ → ℕ
gross n points = ceil_div (n * 10_000) (10_000 - points)

by_pred : (a b : ℕ) → a ≤ b → ((x : ℕ) → suc x ≡ b → x < a) → a ≡ b
by_pred a ℕ.zero le step = omega arith
by_pred a (suc b) le step = omega (arith, step b refl)

module _ (n points : ℕ) (h : points < 10_000) where
  -- A product by 10_000 is split into the kept part and the share.
  split : (x : ℕ) → x * (10_000 - points) + x * points ≡ x * 10_000
  split x =
      let whole : 10_000 - points + points ≡ 10_000 = omega arith in
      omega (arith, ap (λ (k : ℕ). x * k) whole)

  gross_covers : n * 10_000 ≤ gross n points * (10_000 - points)
  gross_covers = le-mul-ceil_div (n * 10_000) (10_000 - points) (omega arith)

  gross_tight : (x : ℕ) → x < gross n points → x * (10_000 - points) < n * 10_000
  gross_tight x = (lt-ceil_div_iff (n * 10_000) (10_000 - points) x (omega arith)).0

  -- The share of the gross amount is what it exceeds the net amount by.
  share-gross : (n ≤ gross n points) × (share (gross n points) points ≡ gross n points - n)
  share-gross =
      let g : ℕ = gross n points in
      let above : n ≤ g = omega (arith, gross_covers, split g) in
      let most : share g points ≤ g - n =
        (ceil_div-le_iff (g * points) 10_000 (g - n) (omega arith)).1
          (omega (arith, gross_covers, split g)) in
      let least : (x : ℕ) → suc x ≡ g - n → x < share g points = λ x e.
        (lt-ceil_div_iff (g * points) 10_000 x (omega arith)).1
          (omega (arith, gross_tight (g - 1) (omega arith), split g, split (g - 1))) in
      (above, by_pred (share g points) (g - n) most least)

  -- Where the gross amount exceeds the net amount by the maximum or more, the share of the net
  -- amount plus the maximum is at least the maximum.
  share-capped : (most : ℕ) → n + most ≤ gross n points → most ≤ share (n + most) points
  share-capped ℕ.zero le = omega arith
  share-capped (suc most) le =
      (lt-ceil_div_iff ((n + suc most) * points) 10_000 most (omega arith)).1
        (omega (arith, gross_tight (n + most) (omega arith), split (n + most)))

abbrev with_fee : ℕ → ℕ → FeeAmount
with_fee total fee = record { amount = pos total; fee = pos fee }

record Added (most points n : ℕ) (r : FeeAmount) : Type 0 where
  fee : ℕ
  r_is : r ≡ with_fee (n + fee) fee
  fee_is : fee ≡ min (share (n + fee) points) most

ceil_div_bn_lem :
    (n points : ℕ)
    → points < 10_000
    → ceil_div_bn (pos (n * 10_000)) (pos (10_000 - points)) ≡ ok (pos (gross n points))
unfolding ceil_div_bn
ceil_div_bn_lem n points h = ground (arith, sub_ℕ-eq-pos (10_000 - points) 1)

module _ (sdk : Sdk) (most points n : ℕ) (few : points ≤ 10_000) {r : FeeAmount}
    (e : add_transfer_fee sdk (fee_of most points) (pos n) ≡ ok r) where
  add_fee_none : points ≡ 0 → Added most points n r
  unfolding add_transfer_fee
  add_fee_none nothing = record { fee = 0; r_is = ground arith; fee_is = ground arith }

  add_fee_empty : n ≡ 0 → Added most points n r
  unfolding add_transfer_fee
  add_fee_empty nothing = record { fee = 0; r_is = ground arith; fee_is = ground arith }

  add_fee_all : 0 < n → points ≡ 10_000 → Added most points n r
  unfolding add_transfer_fee
  add_fee_all some_n all = record { fee = most; r_is = ground arith; fee_is = ground arith }

  add_fee_capped :
      0 < n → 0 < points → points < 10_000 → n + most ≤ gross n points → Added most points n r
  unfolding add_transfer_fee
  add_fee_capped some_n some_p part capped = record {
    fee = most;
    r_is = ground (
      arith,
      (share-gross n points part).0,
      ceil_div_bn_lem n points part,
      sub_ℕ-eq-pos 10_000 points,
      sub_ℕ-eq-pos (gross n points) n,
    );
    fee_is = ground (arith, share-capped n points part most capped);
  }

  add_fee_part :
      0 < n → 0 < points → points < 10_000 → gross n points < n + most → Added most points n r
  unfolding add_transfer_fee
  add_fee_part some_n some_p part below =
      let (above, share_is) = share-gross n points part in
      let total : n + (gross n points - n) ≡ gross n points = omega arith in
      record {
        fee = gross n points - n;
        r_is = ground (
          arith,
          (share-gross n points part).0,
          ceil_div_bn_lem n points part,
          sub_ℕ-eq-pos 10_000 points,
          sub_ℕ-eq-pos (gross n points) n,
        );
        fee_is = rw total (omega (arith, share_is));
      }

  add_fee : Added most points n r
  add_fee = elim (dec_lt 0 n) [
    | no empty ↦ add_fee_empty (omega arith)
    | yes some_n ↦ elim (dec_lt 0 points) [
      | no free ↦ add_fee_none (omega arith)
      | yes some_p ↦ elim (dec_lt points 10_000) [
        | no all ↦ add_fee_all some_n (omega arith)
        | yes part ↦ elim (dec_le (n + most) (gross n points)) [
          | yes capped ↦ add_fee_capped some_n some_p part capped
          | no below ↦ add_fee_part some_n some_p part (omega arith)
        ]
      ]
    ]
  ]

  -- Where adding a transfer fee to an amount is not refused, taking the fee off the result gives
  -- the amount back, with the same fee: at every rate up to all of the amount, below the maximum
  -- fee and at it.
  pub take-add_transfer_fee :
      {Mint Config : Type 0} (spl : SplToken Mint Config)
      → IsSplToken spl
      → take_transfer_fee spl (fee_of most points) r.amount ≡ record { amount = pos n; fee = r.fee }
  unfolding take_transfer_fee
  take-add_transfer_fee spl laws =
      let a : Added most points n r = add_fee in
      ground (
        arith,
        a.r_is,
        a.fee_is,
        laws.calculate_fee_is most points (n + a.fee),
        sub_ℕ-eq-pos (n + a.fee) a.fee,
      )
