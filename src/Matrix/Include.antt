-- ===== src/Matrix/Include.antt =====
-- `include:` in internal/engine/matrix.go: what one entry changes, and how entries meet.
use mathlib.Core.List.{append-nil}
use mirror_gha.Base.{
  if◌then◌else◌, Bool-cases, Option-cases, &&-eq_true, any, All, In, In-append_right, Text, text_eq,
  text_eq_iff, text_eq_refl, Map, lookup, insert, merge, or_else, lookup-insert, lookup-merge, ◌≡◌,
  refl, ap, ◌∙◌, subst, ◌⊎◌, inl, inr, Bool, true, false, Option, none, some, List, [], ◌∷◌, ◌++◌,
  map,
}
use mirror_gha.Workflow.{Value, deep_equal}
use mirror_gha.Matrix.Defs.{
  Combination, matrix_subset_match, include_into, include_entry, apply_matrix_include,
}

-- The new value is the old one, or equal to it by `reflect.DeepEqual`.
abbrev pub Agrees : Option Value → Option Value → Type 0
Agrees none w = Unit
Agrees (some v) none = ⊥
Agrees (some v) (some w) = (v ≡ w) ⊎ (deep_equal v w ≡ true)

-- The old combinations are all there, in their places, and none of their values is overwritten by
-- another one.
abbrev pub Keeps : List Combination → List Combination → Type 0
Keeps [] new = Unit
Keeps (c ∷ old) [] = ⊥
Keeps (c ∷ old) (d ∷ new) = ((k : Text) → Agrees (lookup k c) (lookup k d)) × Keeps old new

-- `c` binds every key of the entry to the entry's value.
abbrev pub Holds : Map Value → Combination → Type 0
Holds entry c = (k : Text) → (lookup k entry ≡ none) ⊎ (lookup k c ≡ lookup k entry)

Agrees-refl : (o : Option Value) → Agrees o o
Agrees-refl none = tt
Agrees-refl (some v) = inl refl

matrix_subset_match-Agrees :
    (c : Combination) (entry : Map Value) (k : Text)
    → matrix_subset_match c entry ≡ true
    → Agrees (lookup k c) (or_else (lookup k entry) (lookup k c))
unfolding matrix_subset_match lookup
matrix_subset_match-Agrees c [] k h = Agrees-refl (lookup k c)
matrix_subset_match-Agrees c ((j, v) ∷ entry) k h =
    let (fits, rest) = &&-eq_true _ (matrix_subset_match c entry) h in
    elim (Bool-cases (text_eq j k)) [
      | inl e ↦ rw e (at_key j k v e fits)
      | inr e ↦ rw e (matrix_subset_match-Agrees c entry k rest)
    ]
  where
    at_key :
        (j k : Text) (v : Value)
        → text_eq j k ≡ true
        → elim (lookup j c) as (λ _. Bool) [ none ↦ true | some cv ↦ deep_equal cv v ] ≡ true
        → Agrees (lookup k c) (some v)
    at_key j k v e fits =
        subst (λ i. Agrees (lookup i c) (some v)) ((text_eq_iff j k).0 e)
          (elim (Option-cases (lookup j c)) [
            | inl absent ↦ rw absent tt
            | inr (cv, found) ↦ rw found (inr (rw found at fits))
          ])

abbrev merged_if_fits : Map Value → Combination → Combination
merged_if_fits entry c = if matrix_subset_match c entry then merge c entry else c

merged-Agrees :
    (entry : Map Value) (c : Combination) (k : Text)
    → Agrees (lookup k c) (lookup k (merged_if_fits entry c))
merged-Agrees entry c k = elim (Bool-cases (matrix_subset_match c entry)) [
  | inl e ↦ rw (e, lookup-merge) (matrix_subset_match-Agrees c entry k e)
  | inr e ↦ rw e (Agrees-refl (lookup k c))
]

include_into-Keeps :
    (entry : Map Value) (combos extra : List Combination)
    → Keeps combos (include_into entry combos ++ extra)
unfolding include_into
include_into-Keeps entry [] extra = tt
include_into-Keeps entry (c ∷ combos) extra =
    (merged-Agrees entry c, include_into-Keeps entry combos extra)

merge-Holds : (entry : Map Value) (c : Combination) → Holds entry (merge c entry)
merge-Holds entry c k = elim (Option-cases (lookup k entry)) [
  | inl absent ↦ inl absent
  | inr (v, found) ↦ inr (lookup-merge k c entry ∙ rw found)
]

include_into-Holds :
    (entry : Map Value) (combos : List Combination)
    → any (λ c. matrix_subset_match c entry) combos ≡ true
    → (c : Combination) × In c (include_into entry combos) × Holds entry c
unfolding include_into
include_into-Holds entry [] h = cc
include_into-Holds entry (c ∷ combos) h = elim (Bool-cases (matrix_subset_match c entry)) [
  | inl e ↦ (merge c entry, inl (rw e), merge-Holds entry c)
  | inr e ↦ let (d, i, holds) = include_into-Holds entry combos (rw e at h) in (d, inr i, holds)
]

-- One include entry: some combination of the result holds all of the entry's pairs, the combinations
-- there were stay in their places, and none of their values is overwritten by a different one.
pub include_entry_lem :
    (entry : Map Value) (combos : List Combination)
    → ((c : Combination) × In c (include_entry entry combos) × Holds entry c)
      × Keeps combos (include_entry entry combos)
unfolding include_entry
include_entry_lem entry combos = elim (Bool-cases (any (λ c. matrix_subset_match c entry) combos)) [
  | inl some_fit ↦ rw some_fit (
    include_into-Holds entry combos some_fit,
    subst (Keeps combos) (append-nil (include_into entry combos))
        (include_into-Keeps entry combos []),
  )
  | inr none_fits ↦ rw none_fits (
    (
      merge [] entry,
      In-append_right (merge [] entry) (include_into entry combos) _ (inl refl),
      merge-Holds entry [],
    ),
    include_into-Keeps entry combos (merge [] entry ∷ []),
  )
]

-- No combination binds the key.
abbrev pub Lacks : Text → List Combination → Type 0
Lacks k = All (λ c. lookup k c ≡ none)

abbrev pub with_key : Text → Value → List Combination → List Combination
with_key k v = map (insert k v)

include_into-added :
    (k : Text) (v : Value) (combos : List Combination)
    → Lacks k combos
    → include_into ((k, v) ∷ []) combos ≡ with_key k v combos
unfolding include_into matrix_subset_match merge
include_into-added k v [] h = refl
include_into-added k v (c ∷ combos) h = rw (h.0, include_into-added k v combos h.1)

include_into-conflict :
    (k : Text) (v w : Value) (combos : List Combination)
    → deep_equal v w ≡ false
    → (include_into ((k, w) ∷ []) (with_key k v combos) ≡ with_key k v combos)
      × (any (λ c. matrix_subset_match c ((k, w) ∷ [])) (with_key k v combos) ≡ false)
unfolding include_into matrix_subset_match
include_into-conflict k v w [] differ = (refl, refl)
include_into-conflict k v w (c ∷ combos) differ =
    let (same, none_fits) = include_into-conflict k v w combos differ in
    rw (lookup-insert k k v c, text_eq_refl k, differ, same, none_fits) (refl, refl)

include_entry-added :
    (k : Text) (v : Value) (c : Combination) (combos : List Combination)
    → Lacks k (c ∷ combos)
    → include_entry ((k, v) ∷ []) (c ∷ combos) ≡ with_key k v (c ∷ combos)
unfolding include_entry
include_entry-added k v c combos lacks = rw first_fits (include_into-added k v (c ∷ combos) lacks)
  where
    first_fits : any (λ c. matrix_subset_match c ((k, v) ∷ [])) (c ∷ combos) ≡ true
    first_fits = unfold matrix_subset_match in rw lacks.0

include_entry-conflict :
    (k : Text) (v w : Value) (combos : List Combination)
    → deep_equal v w ≡ false
    → include_entry ((k, w) ∷ []) (with_key k v combos) ≡ with_key k v combos ++ ((k, w) ∷ []) ∷ []
unfolding include_entry merge
include_entry-conflict k v w combos differ =
    let (same, none_fits) = include_into-conflict k v w combos differ in
    rw none_fits (ap (λ (l : List Combination). l ++ ((k, w) ∷ []) ∷ []) same)

-- A key that one include entry added to every combination is matched like an axis by the entries
-- after it: a second entry with another value for that key overrides nothing, and becomes a
-- combination of its own.
pub apply_matrix_include_override :
    (k : Text) (v w : Value) (c : Combination) (combos : List Combination)
    → Lacks k (c ∷ combos)
    → deep_equal v w ≡ false
    → apply_matrix_include (c ∷ combos) (((k, v) ∷ []) ∷ ((k, w) ∷ []) ∷ [])
      ≡ with_key k v (c ∷ combos) ++ ((k, w) ∷ []) ∷ []
unfolding apply_matrix_include
apply_matrix_include_override k v w c combos lacks differ =
    ap (include_entry ((k, w) ∷ [])) (include_entry-added k v c combos lacks)
    ∙ include_entry-conflict k v w (c ∷ combos) differ
