-- ===== src/SupportedToken/Answers.antt =====
-- Where the checks of a token throw, and where they answer (pool-utils.ts).
use mathlib.Core.List.{Memᴰ}
use whirlpools.Prelude.{
  ℕ, ◌≡◌, ◌==◌, ◌⊎◌, inl, inr, refl, sym, Bool, true, false, not, ◌&&◌, if◌then◌else◌, Option, none,
  some, is_defined, Option-cases, List, [], ◌∷◌, ==→eq,
}
use whirlpools.Errors.{plain, type_error, Result, ok, err, ◌>>=◌}
use whirlpools.SupportedToken.{
  MintWithTokenProgram, SplMint, TokenContext, supported_extension, supported_with_badge,
  extension_continues, check_extensions, check_mint, is_supported_token, member_of,
}
use whirlpools.SupportedToken.Rules.{has_badge}

abbrev pub Answers : Result Bool → Type 0
Answers answer = (b : Bool) × (answer ≡ ok b)

-- An answer, or a TypeError under a condition.
abbrev pub EndsUnless : Type 0 → Result Bool → Type 0
EndsUnless Reason answer = Answers answer ⊎ ((answer ≡ err type_error) × Reason)

module _ {Reason : Type 0} where
  if-Ends :
      (test : Bool) {first second : Result Bool}
      → (test ≡ true → EndsUnless Reason first)
      → (test ≡ false → EndsUnless Reason second)
      → EndsUnless Reason (if test then first else second)
  if-Ends true passes fails = passes refl
  if-Ends false passes fails = fails refl

  says : (b : Bool) → EndsUnless Reason (ok b)
  says b = inl (b, refl)

  both-Ends :
      (goes_on : Result Bool) (rest : Result Bool)
      → EndsUnless Reason goes_on
      → EndsUnless Reason rest
      → EndsUnless Reason (goes_on >>= λ on. if on then rest else ok false)
  both-Ends goes_on rest (inl (true, continues)) answers = rw continues answers
  both-Ends goes_on rest (inl (false, continues)) answers = rw continues (says false)
  both-Ends goes_on rest (inr (throws, reason)) answers = inr (rw throws refl, reason)

badge_of : (badge : Bool) → not badge ≡ false → badge ≡ true
badge_of true h = refl
badge_of false h = cc

module _ {Key Tlv : Type 0} (spl : SplMint Key Tlv) (mint : MintWithTokenProgram Key Tlv)
    (badge : Bool) where
  -- A mint with a badge has the extension DefaultAccountState among these, but no state to read.
  abbrev pub IsUnreadable : List ℕ → Type 0
  IsUnreadable extensions =
      (badge ≡ true)
      × Memᴰ spl.default_account_state extensions
      × (spl.get_default_account_state mint ≡ none)

  state-Ends :
      {Reason : Type 0} (state : Option ℕ)
      → (state ≡ none → Reason)
      → EndsUnless Reason (
          member_of state >>= λ state. if not (state == spl.initialized) then ok false else ok true)
  state-Ends none reason = inr (refl, reason refl)
  state-Ends (some state) reason =
      if-Ends (not (state == spl.initialized)) (λ _. says false) (λ _. says true)

  continues-Ends :
      (extension : ℕ) (extensions : List ℕ)
      → EndsUnless
          (IsUnreadable (extension ∷ extensions))
          (extension_continues spl mint badge extension)
  unfolding extension_continues
  continues-Ends extension extensions =
      if-Ends (supported_extension spl extension) (λ _. says true)
        (λ _.
          if-Ends (supported_with_badge spl extension)
            (λ _. if-Ends (not badge) (λ _. says false) (λ _. says true))
            (λ _.
              if-Ends (extension == spl.default_account_state)
                (λ is_state.
                  if-Ends (not badge) (λ _. says false)
                    (λ with_badge. state-Ends (spl.get_default_account_state mint) (λ unread. (
                      badge_of badge with_badge,
                      Memᴰ.head (sym (==→eq extension spl.default_account_state is_state)),
                      unread,
                    ))))
                (λ _.
                  if-Ends (extension == spl.non_transferable) (λ _. says false) (λ _. says false))))

  later-Ends :
      (extension : ℕ) (extensions : List ℕ) {answer : Result Bool}
      → EndsUnless (IsUnreadable extensions) answer
      → EndsUnless (IsUnreadable (extension ∷ extensions)) answer
  later-Ends extension extensions (inl answers) = inl answers
  later-Ends extension extensions (inr (throws, (with_badge, listed, unread))) =
      inr (throws, (with_badge, Memᴰ.tail listed, unread))

  check-Ends :
      (extensions : List ℕ)
      → EndsUnless (IsUnreadable extensions) (check_extensions spl mint badge extensions)
  unfolding check_extensions
  check-Ends [] = says true
  check-Ends (extension ∷ extensions) =
      both-Ends (extension_continues spl mint badge extension)
        (check_extensions spl mint badge extensions) (continues-Ends extension extensions)
        (later-Ends extension extensions (check-Ends extensions))

  mint-Ends :
      (equals : Key → Key → Bool)
      → EndsUnless
          (IsUnreadable (spl.get_extension_types mint.tlv_data))
          (check_mint spl equals mint badge)
  unfolding check_mint
  mint-Ends equals =
      if-Ends (equals mint.token_program spl.token_program_id) (λ _. says true)
        (λ _.
          if-Ends (equals mint.address spl.native_mint_2022) (λ _. says false)
            (λ _.
              if-Ends (is_defined mint.freeze_authority && not badge) (λ _. says false)
                (λ _. check-Ends (spl.get_extension_types mint.tlv_data))))

-- The check of a token throws in two cases only. For a mint that is not found it is the error of the
-- failed invariant. For a mint that is found it gives an answer, or there is a badge, the mint has
-- the extension DefaultAccountState, and its state cannot be read, which is a TypeError.
pub is_supported_token-Ends :
    {Key Tlv Badge : Type 0} (spl : SplMint Key Tlv) (equals : Key → Key → Bool)
    (ctx : TokenContext Key Tlv Badge) (config key : Key)
    → ((ctx.get_mint_info key ≡ none) × (is_supported_token spl equals ctx config key ≡ err plain))
      ⊎ ((mint : MintWithTokenProgram Key Tlv) × (ctx.get_mint_info key ≡ some mint)
          × EndsUnless
              (IsUnreadable spl mint
                (has_badge spl equals ctx config key)
                (spl.get_extension_types mint.tlv_data))
              (is_supported_token spl equals ctx config key))
unfolding is_supported_token
is_supported_token-Ends spl equals ctx config key = elim (Option-cases (ctx.get_mint_info key)) [
  | inl missing ↦ inl (missing, rw missing refl)
  | inr (mint, is_found) ↦ inr (
    mint,
    is_found,
    rw is_found (mint-Ends spl mint (has_badge spl equals ctx config key) equals),
  )
]
