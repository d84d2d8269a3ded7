-- ===== src/Base/Maps.antt =====
-- Go's `map[string]V` as an association list. Its order stands for the order of a `range`, which
-- Go leaves open.
use mathlib.Core.Path.{◌≡◌, refl}
use mathlib.Core.Option.{Option, none, some}
use mathlib.Core.List.{List, [], ◌∷◌, map}
use native.Mathlib.Omega.{arith}
use mathlib.Core.Logic.{inl, inr}
use mirror_gha.Base.Lists.{In}
use mirror_gha.Base.Tests.{Bool-cases, if◌then◌else◌}
use mirror_gha.Base.Texts.{Text, text_eq, text_eq_iff}

abbrev pub Map {ℓ} : Type ℓ → Type ℓ
Map V = List (Text × V)

module _ {ℓ} {V : Type ℓ} where
  unfoldable pub lookup : Text → Map V → Option V
  lookup key [] = none
  lookup key ((name, value) ∷ rest) = if text_eq name key then some value else lookup key rest

  -- `m[k] = v`
  unfoldable pub insert : Text → V → Map V → Map V
  insert key value [] = (key, value) ∷ []
  insert key value ((name, old) ∷ rest) =
      if text_eq name key then (key, value) ∷ rest else (name, old) ∷ insert key value rest

  -- `delete(m, k)`
  unfoldable pub delete : Text → Map V → Map V
  delete k [] = []
  delete k ((j, w) ∷ m) = let rest = delete k m in if text_eq j k then rest else (j, w) ∷ rest

  -- `for k, v := range n { m[k] = v }`
  unfoldable pub merge : Map V → Map V → Map V
  unfolding insert
  merge m [] = m
  merge m ((k, v) ∷ n) = insert k v (merge m n)

  abbrev pub or_else : Option V → Option V → Option V
  or_else none b = b
  or_else (some a) b = some a

  abbrev pub keys : Map V → List Text
  keys m = map (λ p. p.0) m

  pub lookup-insert :
      (key asked : Text) (value : V) (m : Map V)
      → lookup asked (insert key value m)
        ≡ (if text_eq key asked then some value else lookup asked m)
  unfolding lookup insert
  lookup-insert key asked value [] = refl
  lookup-insert key asked value ((name, old) ∷ rest) = ground (
    arith,
    lookup-insert key asked value rest,
    text_eq_iff name asked,
    text_eq_iff name key,
    text_eq_iff key asked,
  )

  pub lookup-delete :
      (k j : Text) (m : Map V) → lookup j (delete k m) ≡ (if text_eq k j then none else lookup j m)
  unfolding lookup delete
  lookup-delete k j [] = ground arith
  lookup-delete k j ((i, w) ∷ m) =
      ground (arith, text_eq_iff k j, text_eq_iff i k, text_eq_iff i j, lookup-delete k j m)

  pub lookup-merge :
      (j : Text) (m n : Map V) → lookup j (merge m n) ≡ or_else (lookup j n) (lookup j m)
  unfolding lookup merge
  lookup-merge j m [] = refl
  lookup-merge j m ((k, v) ∷ n) =
      ground (arith, lookup-insert k j v (merge m n), lookup-merge j m n)

  pub insert-ne-nil : (k : Text) (v : V) (m : Map V) → insert k v m ≡ [] → ⊥
  unfolding insert
  insert-ne-nil k v [] h = cc
  insert-ne-nil k v ((j, w) ∷ m) h = ground arith

module _ {V : Type 0} where
  pub In-keys : (k : Text) (m : Map V) {v : V} → lookup k m ≡ some v → In k (keys m)
  unfolding lookup
  In-keys k [] h = cc
  In-keys k ((j, w) ∷ m) h = elim (Bool-cases (text_eq j k)) [
    | inl e ↦ inl ((text_eq_iff j k).0 e)
    | inr e ↦ inr (In-keys k m (rw (e, lookup) at h))
  ]

  pub lookup-of_In : (k : Text) (m : Map V) → In k (keys m) → (v : V) × (lookup k m ≡ some v)
  unfolding lookup
  lookup-of_In k [] h = absurd h
  lookup-of_In k ((j, w) ∷ m) h = elim (Bool-cases (text_eq j k)) [
    | inl e ↦ (w, rw e)
    | inr e ↦
        rw e
          (lookup-of_In k m (elim h [ inl p ↦ cc (rw e at ((text_eq_iff j k).1 p)) | inr n ↦ n ]))
  ]
