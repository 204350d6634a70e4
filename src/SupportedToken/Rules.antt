-- ===== src/SupportedToken/Rules.antt =====
-- What the checks of a token accept, against the rules of the token badge (pool-utils.ts).
use whirlpools.Prelude.{
  ℕ, ◌≡◌, ◌↔◌, ◌⊎◌, inl, inr, refl, ap, ◌∙◌, arith, Bool, true, false, not, ◌&&◌, if◌then◌else◌,
  Option, none, some, is_defined, List, [], ◌∷◌,
}
use whirlpools.Prelude.Predicates.{All}
use whirlpools.Errors.{Result, ok, >>=-eq-ok}
use whirlpools.SupportedToken.{
  MintWithTokenProgram, SplMint, TokenContext, found, check_mint, extension_continues,
  check_extensions, is_supported_token,
}
use whirlpools.SupportedToken.Extensions.{
  Admits, Passes-Admits, Admits-Passes, continues-Passes, Passes-continues,
}

both-ok :
    (goes_on : Bool) (rest : Result Bool)
    → (if goes_on then rest else ok false) ≡ ok true
    → (goes_on ≡ true) × (rest ≡ ok true)
both-ok goes_on rest follows = ground arith

-- The answer through the tests on the program, the native mint and the authority of a mint.
through_tests :
    (first native freezes badge : Bool) (rest : Result Bool)
    → (if first
        then ok true
        else if native
        then ok false
        else if freezes && not badge
        then ok false
        else rest)
      ≡ ok true
    → (first ≡ true)
      ⊎ ((native ≡ false) × (((freezes ≡ false) ⊎ (badge ≡ true)) × (rest ≡ ok true)))
through_tests first native freezes badge rest through = ground arith

past_tests :
    (first native freezes badge : Bool) (rest : Result Bool)
    → (first ≡ true)
      ⊎ ((native ≡ false) × (((freezes ≡ false) ⊎ (badge ≡ true)) × (rest ≡ ok true)))
    → (if first
        then ok true
        else if native
        then ok false
        else if freezes && not badge
        then ok false
        else rest)
      ≡ ok true
past_tests first native freezes badge rest through = ground arith

found-some :
    {Key Tlv : Type 0}
    → (info : Option (MintWithTokenProgram Key Tlv)) → (mint : MintWithTokenProgram Key Tlv)
    → found info ≡ ok mint
    → info ≡ some mint
found-some none mint is_found = cc
found-some (some one) mint is_found = cc

without_authority :
    {A : Type 0} {badge : Bool} (x : Option A)
    → (is_defined x ≡ false) ⊎ (badge ≡ true)
    → (x ≡ none) ⊎ (badge ≡ true)
without_authority none freezes = inl refl
without_authority (some a) (inl absent) = cc
without_authority (some a) (inr with_badge) = inr with_badge

with_authority :
    {A : Type 0} {badge : Bool} (x : Option A)
    → (x ≡ none) ⊎ (badge ≡ true)
    → (is_defined x ≡ false) ⊎ (badge ≡ true)
with_authority x (inl absent) = inl (rw absent refl)
with_authority x (inr with_badge) = inr with_badge

module _ {Key Tlv : Type 0} (spl : SplMint Key Tlv) where
  check-Admits :
      (mint : MintWithTokenProgram Key Tlv) (badge : Bool) (extensions : List ℕ)
      → check_extensions spl mint badge extensions ≡ ok true
      → All (Admits spl mint badge) extensions
  unfolding check_extensions
  check-Admits mint badge [] checked = tt
  check-Admits mint badge (extension ∷ extensions) checked =
      let (goes_on, continues, follows) =
        >>=-eq-ok (extension_continues spl mint badge extension)
          (λ goes_on. if goes_on then check_extensions spl mint badge extensions else ok false)
          checked in
      let (is_on, rest) = both-ok goes_on (check_extensions spl mint badge extensions) follows in
      (
        Passes-Admits spl mint badge extension
            (continues-Passes spl mint badge extension (continues ∙ ap ok is_on)),
        check-Admits mint badge extensions rest,
      )

  Admits-check :
      (mint : MintWithTokenProgram Key Tlv) (badge : Bool) (extensions : List ℕ)
      → All (Admits spl mint badge) extensions
      → check_extensions spl mint badge extensions ≡ ok true
  unfolding check_extensions
  Admits-check mint badge [] _ = refl
  Admits-check mint badge (extension ∷ extensions) (admits, rest) =
      rw (Passes-continues spl mint badge extension (Admits-Passes spl mint badge extension admits))
        (Admits-check mint badge extensions rest)

  module _ (equals : Key → Key → Bool) where
    -- A mint of the first token program; or one of the second, other than the wrapped native one,
    -- whose freeze authority is absent or admitted by the badge, and whose extensions are admitted.
    abbrev pub IsAccepted : MintWithTokenProgram Key Tlv → Bool → Type 0
    IsAccepted mint badge =
        (equals mint.token_program spl.token_program_id ≡ true)
        ⊎ ((equals mint.address spl.native_mint_2022 ≡ false)
            × ((mint.freeze_authority ≡ none) ⊎ (badge ≡ true))
            × All (Admits spl mint badge) (spl.get_extension_types mint.tlv_data))

    check-IsAccepted :
        (mint : MintWithTokenProgram Key Tlv) (badge : Bool)
        → check_mint spl equals mint badge ≡ ok true
        → IsAccepted mint badge
    unfolding check_mint
    check-IsAccepted mint badge checked =
        let extensions = spl.get_extension_types mint.tlv_data in
        elim (through_tests (equals mint.token_program spl.token_program_id)
          (equals mint.address spl.native_mint_2022) (is_defined mint.freeze_authority) badge
          (check_extensions spl mint badge extensions) checked) [
            | inl first ↦ inl first
            | inr (native, (freezes, rest)) ↦ inr (
              native,
              without_authority mint.freeze_authority freezes,
              check-Admits mint badge extensions rest,
            )
          ]

    IsAccepted-check :
        (mint : MintWithTokenProgram Key Tlv) (badge : Bool)
        → IsAccepted mint badge
        → check_mint spl equals mint badge ≡ ok true
    unfolding check_mint
    IsAccepted-check mint badge accepted =
        let extensions = spl.get_extension_types mint.tlv_data in
        past_tests (equals mint.token_program spl.token_program_id)
          (equals mint.address spl.native_mint_2022) (is_defined mint.freeze_authority) badge
          (check_extensions spl mint badge extensions)
          (elim accepted [
            | inl first ↦ inl first
            | inr (native, freezes, rest) ↦ inr (
              native,
              (
                with_authority mint.freeze_authority freezes,
                Admits-check mint badge extensions rest,
              ),
            )
          ])

    module _ {Badge : Type 0} (ctx : TokenContext Key Tlv Badge) where
      -- The badge of a token of a config.
      abbrev pub has_badge : Key → Key → Bool
      has_badge config key =
          is_defined (ctx.get_token_badge (ctx.get_token_badge_pda ctx.program_id config key))

      -- A token is supported exactly where its mint is found, and either is of the first token
      -- program, or is not the wrapped native mint, has no freeze authority unless there is a badge,
      -- and has only extensions that are always taken, or with a badge also those that a badge admits
      -- and a default state that is the initialized one.
      pub is_supported_token-IsAccepted :
          (config key : Key)
          → (is_supported_token spl equals ctx config key ≡ ok true) ↔ (
              (mint : MintWithTokenProgram Key Tlv) × (ctx.get_mint_info key ≡ some mint)
              × IsAccepted mint (has_badge config key))
      unfolding is_supported_token
      is_supported_token-IsAccepted config key = (
        λ supported.
            let (mint, is_found, checked) =
              >>=-eq-ok (found (ctx.get_mint_info key))
                (λ mint. check_mint spl equals mint (has_badge config key)) supported in
            (
              mint,
              found-some (ctx.get_mint_info key) mint is_found,
              check-IsAccepted mint (has_badge config key) checked,
            ),
        λ (mint, is_found, accepted).
            rw is_found (IsAccepted-check mint (has_badge config key) accepted),
      )
