-- ===== src/Base/Texts.antt =====
-- A Go string is a sequence of bytes; `lit` is the bytes of an ASCII literal.
use Prim.Native.Nat.{ℕ}
use Prim.Native.Char.{code}
use Prim.Native.String.{String}
use mathlib.Core.Path.{◌≡◌, refl}
use mirror_gha.Base.Lists.{In, any}
use mathlib.Core.Logic.{◌⊎◌, inl, inr, ◌↔◌, ◌≢◌}
use mathlib.Core.Bool.{Bool, true, false, ◌&&◌, ◌||◌}
use mathlib.Core.List.{List, [], ◌∷◌}
use native.Mathlib.Omega.{arith}
use mirror_gha.Base.Tests.{Bool-cases, ◌==◌, ltb}

abbrev pub Text : Type 0
Text = List ℕ

abbrev pub lit : String → Text
lit String.[] = []
lit (String.◌∷◌ c s) = code c ∷ lit s

unfoldable pub text_eq : Text → Text → Bool
text_eq [] [] = true
text_eq (a ∷ s) (b ∷ t) = a == b && text_eq s t
text_eq _ _ = false

pub text_eq_iff : (s t : Text) → (text_eq s t ≡ true) ↔ (s ≡ t)
unfolding text_eq
text_eq_iff [] [] = ground arith
text_eq_iff [] (b ∷ t) = ground arith
text_eq_iff (a ∷ s) [] = ground arith
text_eq_iff (a ∷ s) (b ∷ t) = ground (arith, text_eq_iff s t)

pub text_eq_refl : (s : Text) → text_eq s s ≡ true
text_eq_refl s = (text_eq_iff s s).1 refl

pub text_eq_ne : (s t : Text) → s ≢ t → text_eq s t ≡ false
text_eq_ne s t h = ground (arith, text_eq_iff s t)

-- The byte order of `sort.Strings`.
unfoldable pub text_lt : Text → Text → Bool
text_lt [] [] = false
text_lt [] (b ∷ t) = true
text_lt (a ∷ s) [] = false
text_lt (a ∷ s) (b ∷ t) = ltb a b || a == b && text_lt s t

-- `strings.HasPrefix(s, p)`
unfoldable pub has_prefix : Text → Text → Bool
has_prefix s [] = true
has_prefix [] (b ∷ p) = false
has_prefix (a ∷ s) (b ∷ p) = a == b && has_prefix s p

pub In-dec : (a : Text) (xs : List Text) → In a xs ⊎ (¬ In a xs)
In-dec a [] = inr (λ h. h)
In-dec a (x ∷ xs) = elim (Bool-cases (text_eq x a)) [
  | inl e ↦ inl (inl ((text_eq_iff x a).0 e))
  | inr e ↦ elim (In-dec a xs) [
    | inl m ↦ inl (inr m)
    | inr away ↦ inr (λ h. elim h [ inl p ↦ cc ((text_eq_iff x a).1 p) | inr m ↦ away m ])
  ]
]

-- A check that runs, for bytes that do not occur.
pub not-In_of_any : (c : ℕ) (s : Text) → any (λ x. x == c) s ≡ false → ¬ In c s
not-In_of_any c [] h m = m
not-In_of_any c (x ∷ s) h (inl e) = ground arith
not-In_of_any c (x ∷ s) h (inr m) = not-In_of_any c s (ground arith) m
