-- ===== src/Base/Sorting.antt =====
-- `sort.Strings` and `sort.Slice`, as the insertion sort that Go runs on short slices.

use mathlib.Core.Bool.{Bool}
use mathlib.Core.List.{List, [], ◌∷◌, Perm}
use mathlib.Core.List.Perm
use mirror_gha.Base.Tests.{if◌then◌else◌, Bool-cases}
use mirror_gha.Base.Texts.{Text, text_lt}
use mathlib.Core.Logic.{◌⊎◌, inl, inr}
use mathlib.Core.Path.{◌≡◌, refl, sym, subst}
use mirror_gha.Base.Lists.{In}

module _ {ℓ} {A : Type ℓ} (less : A → A → Bool) where
  unfoldable pub sort_insert : A → List A → List A
  sort_insert a [] = a ∷ []
  sort_insert a (x ∷ xs) = if less a x then a ∷ x ∷ xs else x ∷ sort_insert a xs

  unfoldable pub sort_slice : List A → List A
  unfolding sort_insert
  sort_slice [] = []
  sort_slice (x ∷ xs) = sort_insert x (sort_slice xs)

  sort_insert-perm : (a : A) (xs : List A) → Perm (sort_insert a xs) (a ∷ xs)
  unfolding sort_insert
  sort_insert-perm a [] = Perm.rfl
  sort_insert-perm a (x ∷ xs) = elim (Bool-cases (less a x)) [
    | inl e ↦ rw e Perm.rfl
    | inr e ↦ rw e (Perm.trans (Perm.cons x (sort_insert-perm a xs)) (Perm.swap a x xs))
  ]

  pub sort_slice-perm : (xs : List A) → Perm (sort_slice xs) xs
  unfolding sort_slice
  sort_slice-perm [] = Perm.rfl
  sort_slice-perm (x ∷ xs) =
      Perm.trans (sort_insert-perm x (sort_slice xs)) (Perm.cons x (sort_slice-perm xs))

module _ {A : Type 0} (less : A → A → Bool) where
  In-sort_insert_self : (a : A) (xs : List A) → In a (sort_insert less a xs)
  unfolding sort_insert
  In-sort_insert_self a [] = inl refl
  In-sort_insert_self a (x ∷ xs) = elim (Bool-cases (less a x)) [
    | inl e ↦ rw e (inl refl)
    | inr e ↦ rw e (inr (In-sort_insert_self a xs))
  ]

  In-sort_insert : (a b : A) (xs : List A) → In b xs → In b (sort_insert less a xs)
  unfolding sort_insert
  In-sort_insert a b [] h = absurd h
  In-sort_insert a b (x ∷ xs) (inl m) = elim (Bool-cases (less a x)) [
    | inl e ↦ rw e (inr (inl m))
    | inr e ↦ rw e (inl m)
  ]
  In-sort_insert a b (x ∷ xs) (inr m) = elim (Bool-cases (less a x)) [
    | inl e ↦ rw e (inr (inr m))
    | inr e ↦ rw e (inr (In-sort_insert a b xs m))
  ]

  pub In-sort_slice : (a : A) (xs : List A) → In a xs → In a (sort_slice less xs)
  unfolding sort_slice
  In-sort_slice a [] h = h
  In-sort_slice a (x ∷ xs) (inl e) =
      subst (λ b. In a (sort_insert less b (sort_slice less xs))) (sym e)
        (In-sort_insert_self a (sort_slice less xs))
  In-sort_slice a (x ∷ xs) (inr h) = In-sort_insert x a (sort_slice less xs) (In-sort_slice a xs h)

  In-of_sort_insert : (a b : A) (xs : List A) → In b (sort_insert less a xs) → (a ≡ b) ⊎ In b xs
  unfolding sort_insert
  In-of_sort_insert a b [] h = h
  In-of_sort_insert a b (x ∷ xs) h = elim (Bool-cases (less a x)) [
    | inl e ↦ rw (e, sort_insert) at h
    | inr e ↦
        let h' : In b (x ∷ sort_insert less a xs) = rw (e, sort_insert) at h in
        elim h' [
          | inl m ↦ inr (inl m)
          | inr m ↦ elim (In-of_sort_insert a b xs m) [ inl q ↦ inl q | inr q ↦ inr (inr q) ]
        ]
  ]

  pub In-of_sort_slice : (a : A) (xs : List A) → In a (sort_slice less xs) → In a xs
  unfolding sort_slice
  In-of_sort_slice a [] h = h
  In-of_sort_slice a (x ∷ xs) h = elim (In-of_sort_insert x a (sort_slice less xs) h) [
    | inl e ↦ inl e
    | inr m ↦ inr (In-of_sort_slice a xs m)
  ]

unfoldable pub sort_strings : List Text → List Text
unfolding sort_slice text_lt
sort_strings = sort_slice text_lt

pub In-of_sort_strings : (xs : List Text) (a : Text) → In a (sort_strings xs) → In a xs
unfolding sort_strings
In-of_sort_strings xs a h = In-of_sort_slice text_lt a xs h

pub In-sort_strings : (xs : List Text) (a : Text) → In a xs → In a (sort_strings xs)
unfolding sort_strings
In-sort_strings xs a h = In-sort_slice text_lt a xs h
