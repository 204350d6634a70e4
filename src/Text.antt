-- ===== src/Text.antt =====
-- JavaScript strings as the lists of their code units: `===`, the order that `sort` compares by,
-- and `indexOf`.
pub mod Dict
use whirlpools.Prelude.{
  ℕ, ◌≡◌, ◌==◌, refl, arith, ltb, Bool, true, false, ◌&&◌, ◌||◌, if◌then◌else◌, List, [], ◌∷◌,
  cons-eq,
}

abbrev pub Text : Type 0
Text = List ℕ

-- `s === t`
abbrev pub text_eq : Text → Text → Bool
text_eq [] [] = true
text_eq [] (d ∷ t) = false
text_eq (c ∷ s) [] = false
text_eq (c ∷ s) (d ∷ t) = c == d && text_eq s t

-- The order of code units.
abbrev pub text_lt : Text → Text → Bool
text_lt s [] = false
text_lt [] (d ∷ t) = true
text_lt (c ∷ s) (d ∷ t) = ltb c d || (c == d && text_lt s t)

-- `[s, t].sort()`
unfoldable pub sort_two : Text → Text → Text × Text
sort_two s t = if text_lt t s then (t, s) else (s, t)

abbrev pub starts_with : Text → Text → Bool
starts_with s [] = true
starts_with [] (d ∷ t) = false
starts_with (c ∷ s) (d ∷ t) = c == d && starts_with s t

-- `s.indexOf(t) !== -1`
unfoldable pub includes : Text → Text → Bool
includes [] t = starts_with [] t
includes (c ∷ s) t = starts_with (c ∷ s) t || includes s t

starts_with_self : (s : Text) → starts_with s s ≡ true
starts_with_self [] = refl
starts_with_self (c ∷ s) = ground (arith, starts_with_self s)

pub includes_self : (s : Text) → includes s s ≡ true
unfolding includes
includes_self [] = refl
includes_self (c ∷ s) = ground (arith, starts_with_self s)

pub text_eq_self : (s : Text) → text_eq s s ≡ true
text_eq_self [] = refl
text_eq_self (c ∷ s) = ground (arith, text_eq_self s)

pub eq_of_text_eq : (s t : Text) → text_eq s t ≡ true → s ≡ t
eq_of_text_eq [] [] h = refl
eq_of_text_eq [] (d ∷ t) h = cc
eq_of_text_eq (c ∷ s) [] h = cc
eq_of_text_eq (c ∷ s) (d ∷ t) h = cons-eq (ground arith) (eq_of_text_eq s t (ground arith))
