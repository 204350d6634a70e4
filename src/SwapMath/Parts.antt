-- ===== src/SwapMath/Parts.antt =====
-- A successful swap step (swap-math.ts), taken apart into the calls that it makes.
use whirlpools.Prelude.{Bool, not, ◌&&◌, if◌then◌else◌, ◌≡◌, refl, ℤ, leb_ℤ, ltb_ℤ, eqb_ℤ}
use mathlib.Core.Path.{subst}
use whirlpools.Errors.{ok, >>=-eq-ok, ok_injective}
use whirlpools.Sdk.{Sdk}
use whirlpools.TokenMath.{get_next_sqrt_price}
use whirlpools.SwapMath.{
  SwapStep, get_amount_fixed_delta, get_amount_unfixed_delta, amount_after_fee, fee_of_step,
  compute_swap_step,
}

pub record Parts (sdk : Sdk) (amount fee_rate l c t : ℤ) (is_input a_to_b : Bool) (s : SwapStep)
    : Type 0 where
  pub reach : ℤ
  pub calc : ℤ
  pub unfixed : ℤ
  pub fixed : ℤ
  pub reach_is : get_amount_fixed_delta sdk c t l is_input a_to_b ≡ ok reach
  pub calc_is : amount_after_fee amount fee_rate is_input ≡ ok calc
  pub next_is :
      (if leb_ℤ reach calc then ok t else get_next_sqrt_price c l calc is_input a_to_b)
      ≡ ok s.next_price
  pub unfixed_is : get_amount_unfixed_delta sdk c s.next_price l is_input a_to_b ≡ ok unfixed
  pub fixed_is :
      (if eqb_ℤ s.next_price t
        then ok reach
        else get_amount_fixed_delta sdk c s.next_price l is_input a_to_b)
      ≡ ok fixed
  pub amount_in_is : s.amount_in ≡ (if is_input then fixed else unfixed)
  pub amount_out_is : s.amount_out ≡ (
      if not is_input && ltb_ℤ amount (if is_input then unfixed else fixed)
      then amount
      else if is_input
      then unfixed
      else fixed)
  pub fee_is :
      fee_of_step amount s.amount_in fee_rate (is_input && not (eqb_ℤ s.next_price t))
      ≡ ok s.fee_amount

pub compute_swap_step-Parts :
    (sdk : Sdk) (amount fee_rate l c t : ℤ) (is_input a_to_b : Bool) {s : SwapStep}
    → compute_swap_step sdk amount fee_rate l c t is_input a_to_b ≡ ok s
    → Parts sdk amount fee_rate l c t is_input a_to_b s
unfolding compute_swap_step
compute_swap_step-Parts sdk amount fee_rate l c t is_input a_to_b {s} e =
    let (reach, e0, e) = >>=-eq-ok (get_amount_fixed_delta sdk c t l is_input a_to_b) _ e in
    let (calc, e1, e) = >>=-eq-ok (amount_after_fee amount fee_rate is_input) _ e in
    let (next, e2, e) =
      >>=-eq-ok (if leb_ℤ reach calc then ok t else get_next_sqrt_price c l calc is_input a_to_b) _
        e in
    let (unfixed, e3, e) = >>=-eq-ok (get_amount_unfixed_delta sdk c next l is_input a_to_b) _ e in
    let (fixed, e4, e) =
      >>=-eq-ok
        (if eqb_ℤ next t then ok reach else get_amount_fixed_delta sdk c next l is_input a_to_b) _
        e in
    let (fee, e5, e) =
      >>=-eq-ok
        (fee_of_step amount (if is_input then fixed else unfixed) fee_rate
          (is_input && not (eqb_ℤ next t)))
        _ e in
    subst (Parts sdk amount fee_rate l c t is_input a_to_b) (ok_injective e) (record {
      reach = reach;
      calc = calc;
      unfixed = unfixed;
      fixed = fixed;
      reach_is = e0;
      calc_is = e1;
      next_is = e2;
      unfixed_is = e3;
      fixed_is = e4;
      amount_in_is = refl;
      amount_out_is = refl;
      fee_is = e5;
    })
