-- ===== src/RewardsQuote/Entries.antt =====
-- Which rewards a quote has (collect-rewards-quote.ts).
use whirlpools.Prelude.{
  ℕ, zero, suc, ◌≡◌, refl, ap, sym, ◌∙◌, inl, inr, Bool, Bool-cases, Option, none, some, List, [],
  ◌∷◌, map, get_elem?, take, drop, cons-eq, is_defined, ℤ, ◌-ℤ◌,
}
use whirlpools.Errors.{ok, >>=-eq-ok, ok_injective}
use whirlpools.Sdk.{Sdk}
use whirlpools.AnchorTypes.{WhirlpoolRewardInfoData}
use whirlpools.TransferFee.{SplToken, FeeAmount}
use whirlpools.RewardsQuote.{
  CollectRewardsQuoteParam, CollectRewardsQuote, invariant_defined, amount_of, fee_of, from_to,
  is_reward_initialized, reward_owed_for, reward_entry, reward_entries, timestamp_or,
  collect_rewards_quote,
}

amount-defined : (x : Option FeeAmount) → is_defined (amount_of x) ≡ is_defined x
amount-defined none = refl
amount-defined (some f) = refl

fee-defined : (x : Option FeeAmount) → is_defined (fee_of x) ≡ is_defined x
fee-defined none = refl
fee-defined (some f) = refl

-- A read at an index and what follows it.
drop-get_elem? {ℓ} :
    {A : Type ℓ} (xs : List A) (i : ℕ) {a : A}
    → invariant_defined (get_elem? xs i) ≡ ok a
    → drop i xs ≡ a ∷ drop (suc i) xs
drop-get_elem? [] i e = cc
drop-get_elem? (x ∷ xs) zero e = ap (λ y. y ∷ xs) (ok_injective e)
drop-get_elem? (x ∷ xs) (suc i) e = drop-get_elem? xs i e

module _ {Key Mint Config : Type 0} (equals : Key → Key → Bool) (default_key : Key) (sdk : Sdk)
    (spl : SplToken Mint Config) where
  entry-defined :
      (param : CollectRewardsQuoteParam Key Mint) (delta : ℤ) (i : ℕ) {x : Option FeeAmount}
      → reward_entry equals default_key sdk spl param delta i ≡ ok x
      → (info : WhirlpoolRewardInfoData Key) × (invariant_defined
            (get_elem? param.whirlpool.reward_infos i)
          ≡ ok info)
        × (is_defined x ≡ is_reward_initialized equals default_key sdk spl info)
  unfolding reward_entry
  entry-defined param delta i {x = x} e =
      let (info, info_is, e) =
        >>=-eq-ok (invariant_defined (get_elem? param.whirlpool.reward_infos i)) _ e in
      (
        info,
        info_is,
        elim (Bool-cases (is_reward_initialized equals default_key sdk spl info)) [
          | inl has ↦
              let (owed, owed_is, e) =
                >>=-eq-ok
                  (reward_owed_for equals default_key sdk spl i param delta info
                    (get_elem? param.position.reward_infos i))
                  _ (rw has at e) in
              sym (ap is_defined (ok_injective e)) ∙ sym has
          | inr has_not ↦ sym (ap is_defined (ok_injective (rw has_not at e))) ∙ sym has_not
        ],
      )

  entries-defined :
      (param : CollectRewardsQuoteParam Key Mint) (delta : ℤ) (i n : ℕ)
      {xs : List (Option FeeAmount)}
      → reward_entries equals default_key sdk spl param delta (from_to i n) ≡ ok xs
      → (map is_defined (map amount_of xs)
          ≡ map
              (is_reward_initialized equals default_key sdk spl)
              (take n (drop i param.whirlpool.reward_infos)))
        × (map is_defined (map fee_of xs)
            ≡ map
                (is_reward_initialized equals default_key sdk spl)
                (take n (drop i param.whirlpool.reward_infos)))
  entries-defined param delta i zero e = (
    ap (λ ys. map is_defined (map amount_of ys)) (sym (ok_injective e)),
    ap (λ ys. map is_defined (map fee_of ys)) (sym (ok_injective e)),
  )
  entries-defined param delta i (suc n) e =
      let (x, x_is, e) = >>=-eq-ok (reward_entry equals default_key sdk spl param delta i) _ e in
      let (rest, rest_is, e) =
        >>=-eq-ok (reward_entries equals default_key sdk spl param delta (from_to (suc i) n)) _ e in
      let (info, info_is, defined) = entry-defined param delta i x_is in
      let (owed, fees) = entries-defined param delta (suc i) n rest_is in
      let infos_are = drop-get_elem? param.whirlpool.reward_infos i info_is in
      let same = ok_injective e in
      rw infos_are (
        ap (λ ys. map is_defined (map amount_of ys)) (sym same)
            ∙ cons-eq (amount-defined x ∙ defined) owed,
        ap (λ ys. map is_defined (map fee_of ys)) (sym same)
            ∙ cons-eq (fee-defined x ∙ defined) fees,
      )

  -- Where a quote is returned, a reward is quoted exactly where it is initialized in the pool, for
  -- the first three rewards of the pool, and so is its transfer fee.
  pub collect_rewards_quote-initialized :
      (now : ℤ) (param : CollectRewardsQuoteParam Key Mint) {q : CollectRewardsQuote}
      → collect_rewards_quote equals default_key sdk spl now param ≡ ok q
      → (map is_defined q.reward_owed
          ≡ map
              (is_reward_initialized equals default_key sdk spl)
              (take 3 param.whirlpool.reward_infos))
        × (map is_defined q.deducted_from_reward_owed
            ≡ map
                (is_reward_initialized equals default_key sdk spl)
                (take 3 param.whirlpool.reward_infos))
  unfolding collect_rewards_quote
  collect_rewards_quote-initialized now param {q = q} e =
      let (t, t_is, e) =
        >>=-eq-ok (timestamp_or equals default_key sdk spl param.time_stamp_in_seconds now) _ e in
      let delta = t -ℤ param.whirlpool.reward_last_updated_timestamp in
      let (xs, xs_is, e) =
        >>=-eq-ok (reward_entries equals default_key sdk spl param delta (from_to 0 3)) _ e in
      let same = ok_injective e in
      let (owed, fees) = entries-defined param delta 0 3 xs_is in
      (
        ap (λ (x : CollectRewardsQuote). map is_defined x.reward_owed) (sym same) ∙ owed,
        ap (λ (x : CollectRewardsQuote). map is_defined x.deducted_from_reward_owed) (sym same)
            ∙ fees,
      )
