-- ===== src/SupportedToken/Extensions.antt =====
-- The extensions of a mint that a pool takes (isSupportedToken of pool-utils.ts).
use mathlib.Core.List.{Memᴰ}
use mathlib.Core.List.Memᴰ
use whirlpools.Prelude.{
  Bool-cases, ==→eq, ◌||◌, ℕ, ◌≡◌, ◌==◌, ◌⊎◌, inl, inr, refl, arith, Bool, true, some, List, [],
  ◌∷◌,
}
use whirlpools.Errors.{ok}
use whirlpools.SupportedToken.{
  MintWithTokenProgram, SplMint, supported_extension, supported_with_badge, extension_continues,
}

-- Membership in a list that is tested one by one.
listed_first :
    (e x : ℕ) (xs : List ℕ) (later : Bool)
    → (later ≡ true → Memᴰ e xs)
    → (e == x || later) ≡ true
    → Memᴰ e (x ∷ xs)
listed_first e x xs later follows tested = elim (Bool-cases (e == x)) [
  | inl same ↦ Memᴰ.head (==→eq e x same)
  | inr other ↦ Memᴰ.tail (follows (rw other at tested))
]

tested_first :
    (e x : ℕ) (xs : List ℕ) (later : Bool)
    → (Memᴰ e xs → later ≡ true)
    → Memᴰ e (x ∷ xs)
    → (e == x || later) ≡ true
tested_first e x xs later follows listed = elim (Memᴰ.cases_cons listed) [
  | inl same ↦ let t : (e == x) ≡ true = ground arith in rw t refl
  | inr rest ↦ let t = follows rest in ground arith
]

only_one : (e x : ℕ) → Memᴰ e (x ∷ []) → (e == x) ≡ true
only_one e x listed = let same = Memᴰ.eq_of_singleton listed in ground arith

module _ {Key Tlv : Type 0} (spl : SplMint Key Tlv) where
  -- The extensions that a pool takes, and those that it takes with a badge.
  abbrev pub always : List ℕ
  always =
      spl.transfer_fee_config ∷ spl.token_metadata ∷ spl.metadata_pointer
      ∷ spl.confidential_transfer_mint ∷ 16 ∷ []

  abbrev pub by_badge : List ℕ
  by_badge = spl.permanent_delegate ∷ spl.transfer_hook ∷ spl.mint_close_authority ∷ []

  -- An extension that a pool takes: one that is always taken, and with a badge also one of those
  -- that the badge admits, or a default state that is the initialized one.
  abbrev pub Admits : MintWithTokenProgram Key Tlv → Bool → ℕ → Type 0
  Admits mint badge extension =
      Memᴰ extension always
      ⊎ ((badge ≡ true)
          × (Memᴰ extension by_badge
              ⊎ (extension ≡ spl.default_account_state)
                × (spl.get_default_account_state mint ≡ some spl.initialized)))

  supported-always : (e : ℕ) → supported_extension spl e ≡ true → Memᴰ e always
  unfolding supported_extension
  supported-always e = listed_first e spl.transfer_fee_config _ _ (
      listed_first e spl.token_metadata _ _ (
        listed_first e spl.metadata_pointer _ _ (
          listed_first e spl.confidential_transfer_mint _ _ (λ same. Memᴰ.head (==→eq e 16 same)))))

  always-supported : (e : ℕ) → Memᴰ e always → supported_extension spl e ≡ true
  unfolding supported_extension
  always-supported e = tested_first e spl.transfer_fee_config _ _ (
      tested_first e spl.token_metadata _ _ (
        tested_first e spl.metadata_pointer _ _
          (tested_first e spl.confidential_transfer_mint _ _ (only_one e 16))))

  supported-by_badge : (e : ℕ) → supported_with_badge spl e ≡ true → Memᴰ e by_badge
  unfolding supported_with_badge
  supported-by_badge e = listed_first e spl.permanent_delegate _ _ (
      listed_first e spl.transfer_hook _ _
        (λ same. Memᴰ.head (==→eq e spl.mint_close_authority same)))

  by_badge-supported : (e : ℕ) → Memᴰ e by_badge → supported_with_badge spl e ≡ true
  unfolding supported_with_badge
  by_badge-supported e =
      tested_first e spl.permanent_delegate _ _
        (tested_first e spl.transfer_hook _ _ (only_one e spl.mint_close_authority))

  -- The same by the tests of the code.
  abbrev Passes : MintWithTokenProgram Key Tlv → Bool → ℕ → Type 0
  Passes mint badge extension =
      (supported_extension spl extension ≡ true)
      ⊎ ((badge ≡ true)
          × ((supported_with_badge spl extension ≡ true)
              ⊎ ((extension == spl.default_account_state) ≡ true)
                × (spl.get_default_account_state mint ≡ some spl.initialized)))

  pub Passes-Admits :
      (mint : MintWithTokenProgram Key Tlv) (badge : Bool) (e : ℕ)
      → Passes mint badge e
      → Admits mint badge e
  Passes-Admits mint badge e (inl taken) = inl (supported-always e taken)
  Passes-Admits mint badge e (inr (with_badge, inl taken)) =
      inr (with_badge, inl (supported-by_badge e taken))
  Passes-Admits mint badge e (inr (with_badge, inr (is_state, state))) =
      inr (with_badge, inr (==→eq e spl.default_account_state is_state, state))

  pub Admits-Passes :
      (mint : MintWithTokenProgram Key Tlv) (badge : Bool) (e : ℕ)
      → Admits mint badge e
      → Passes mint badge e
  Admits-Passes mint badge e (inl taken) = inl (always-supported e taken)
  Admits-Passes mint badge e (inr (with_badge, inl taken)) =
      inr (with_badge, inl (by_badge-supported e taken))
  Admits-Passes mint badge e (inr (with_badge, inr (is_state, state))) =
      let t : (e == spl.default_account_state) ≡ true = ground arith in
      inr (with_badge, inr (t, state))

  pub continues-Passes :
      (mint : MintWithTokenProgram Key Tlv) (badge : Bool) (extension : ℕ)
      → extension_continues spl mint badge extension ≡ ok true
      → Passes mint badge extension
  unfolding extension_continues
  continues-Passes mint badge extension continues = ground arith

  pub Passes-continues :
      (mint : MintWithTokenProgram Key Tlv) (badge : Bool) (extension : ℕ)
      → Passes mint badge extension
      → extension_continues spl mint badge extension ≡ ok true
  unfolding extension_continues
  Passes-continues mint badge extension admits = ground arith
