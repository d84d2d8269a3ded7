-- ===== src/Base/Permuted.antt =====
-- `sort.Strings` gives the same for a list in every order.

use mathlib.Core.Path.{◌≡◌, refl, ◌∙◌, ap}
use mathlib.Core.Logic.{inl, inr, ∥∥₁_elim}
use mathlib.Core.Bool.{true, false}
use mathlib.Core.List.{List, [], ◌∷◌, Perm, Permᴰ}
use native.Mathlib.Omega.{arith}
use mirror_gha.Base.Tests.{if◌then◌else◌, Bool-cases}
use mirror_gha.Base.Texts.{Text, text_lt}
use mirror_gha.Base.Sorting.{sort_insert, sort_slice, sort_strings}

text_lt_trans : (a b c : Text) → text_lt a b ≡ true → text_lt b c ≡ true → text_lt a c ≡ true
unfolding text_lt
text_lt_trans [] [] c h k = cc
text_lt_trans [] (y ∷ b) [] h k = cc
text_lt_trans [] (y ∷ b) (z ∷ c) h k = refl
text_lt_trans (x ∷ a) [] c h k = cc
text_lt_trans (x ∷ a) (y ∷ b) [] h k = cc
text_lt_trans (x ∷ a) (y ∷ b) (z ∷ c) h k = ground (arith, text_lt_trans a b c)

text_lt_connex : (a b : Text) → text_lt a b ≡ false → text_lt b a ≡ false → a ≡ b
unfolding text_lt
text_lt_connex [] [] h k = refl
text_lt_connex [] (y ∷ b) h k = cc
text_lt_connex (x ∷ a) [] h k = cc
text_lt_connex (x ∷ a) (y ∷ b) h k = ground (arith, text_lt_connex a b)

text_lt_irrefl : (a : Text) → text_lt a a ≡ false
unfolding text_lt
text_lt_irrefl [] = refl
text_lt_irrefl (x ∷ a) = ground (arith, text_lt_irrefl a)

abbrev put : Text → List Text → List Text
put = sort_insert text_lt

text_lt_asymm : (a b : Text) → text_lt a b ≡ true → text_lt b a ≡ true → ⊥
text_lt_asymm a b h k = cc (text_lt_trans a b a h k, text_lt_irrefl a)

text_lt_below : (a b x : Text) → text_lt a x ≡ true → text_lt b x ≡ false → text_lt b a ≡ false
text_lt_below a b x h k = ground (arith, text_lt_trans b a x)

two_comm :
    (a b : Text) (xs : List Text)
    → (if text_lt a b then a ∷ b ∷ xs else b ∷ a ∷ xs)
      ≡ (if text_lt b a then b ∷ a ∷ xs else a ∷ b ∷ xs)
two_comm a b xs = ground (arith, text_lt_connex a b, text_lt_asymm a b)

put_comm : (a b : Text) (xs : List Text) → put a (put b xs) ≡ put b (put a xs)
unfolding sort_insert
put_comm a b [] = two_comm a b []
put_comm a b (x ∷ xs) =
    let rest : put a (put b xs) ≡ put b (put a xs) = put_comm a b xs in
    elim (Bool-cases (text_lt a x)) [
      | inl e ↦ elim (Bool-cases (text_lt b x)) [
        | inl f ↦ rw (e, f, e) (two_comm a b (x ∷ xs))
        | inr f ↦ rw (e, f, text_lt_below a b x e f, e) refl
      ]
      | inr e ↦ elim (Bool-cases (text_lt b x)) [
        | inl f ↦ rw (e, f, text_lt_below b a x f e, e) refl
        | inr f ↦ rw (e, f, e) (ap (λ ys. x ∷ ys) rest)
      ]
    ]

sort_strings_permᴰ : {xs ys : List Text} → Permᴰ xs ys → sort_strings xs ≡ sort_strings ys
unfolding sort_strings sort_slice
sort_strings_permᴰ Permᴰ.nil = refl
sort_strings_permᴰ (Permᴰ.cons e d) = rw (e, sort_strings_permᴰ d) refl
sort_strings_permᴰ (Permᴰ.swap {a' = a'} {b' = b'} {l = l} e f) =
    rw (e, f) (put_comm b' a' (sort_slice text_lt l))
sort_strings_permᴰ (Permᴰ.trans d e) = sort_strings_permᴰ d ∙ sort_strings_permᴰ e

pub sort_strings_perm : (xs ys : List Text) → Perm xs ys → sort_strings xs ≡ sort_strings ys
sort_strings_perm xs ys p = ∥∥₁_elim p (hlevel) sort_strings_permᴰ
