-- ===== src/Matrix/Samples.antt =====
-- internal/engine/matrix.go on small matrices, and the theorems about it at them.
use mirror_gha.Base.{
  any, All, In, Text, lit, text_eq, Map, lookup, insert, ◌≡◌, refl, sym, subst, ◌⊎◌, inl, true,
  false, none, some, List, [], ◌∷◌, ◌++◌, ok,
}
use mirror_gha.Workflow.{Value, str, list, dict, nil, cons, end, field, deep_equal, Strategy}
use mirror_gha.Matrix.Defs.{
  Combination, product, apply_matrix_exclude, apply_matrix_include, include_entry, matrix_all_match,
  expand_matrix,
}
use mirror_gha.Matrix.Product.{Assigns, apply_matrix_exclude-Assigns, apply_matrix_exclude_complete}
use mirror_gha.Matrix.Include.{
  Keeps, Holds, with_key, include_entry_lem, apply_matrix_include_override,
}

abbrev os : Text
os = lit "os"

abbrev version : Text
version = lit "version"

abbrev linux : Value
linux = str (lit "linux")

abbrev mac : Value
mac = str (lit "mac")

abbrev axes : Map (List Value)
axes = (os, linux ∷ mac ∷ []) ∷ (version, str (lit "1") ∷ str (lit "2") ∷ []) ∷ []

abbrev mac_two : Map Value
mac_two = (os, mac) ∷ (version, str (lit "2")) ∷ []

abbrev linux_one : Combination
linux_one = (os, linux) ∷ (version, str (lit "1")) ∷ []

left :
    apply_matrix_exclude (product axes (os ∷ version ∷ [])) (mac_two ∷ [])
    ≡ linux_one
      ∷ ((os, linux) ∷ (version, str (lit "2")) ∷ [])
      ∷ ((os, mac) ∷ (version, str (lit "1")) ∷ [])
      ∷ []
unfolding apply_matrix_exclude product lookup insert text_eq deep_equal matrix_all_match
left = refl

-- The whole of `ExpandMatrix`, with the excluded pair and an added one.
abbrev strategy : Strategy
strategy = record {
  matrix = some (
      field (lit "os") (list (cons linux (cons mac nil))) (
        field (lit "exclude") (dict (field (lit "os") mac end)) (
          field (lit "include") (dict (field (lit "os") linux (field (lit "extra") mac end)))
            end)));
  fail_fast = none;
  max_parallel = 0;
}

expanded : expand_matrix (some strategy) ≡ ok (((os, linux) ∷ (lit "extra", mac) ∷ []) ∷ [])
unfolding expand_matrix lookup text_eq deep_equal
expanded = refl

apply_matrix_exclude-Assigns_example :
    Assigns axes (os ∷ version ∷ []) linux_one
    × All (λ e. matrix_all_match linux_one e ≡ false) (mac_two ∷ [])
apply_matrix_exclude-Assigns_example =
    apply_matrix_exclude-Assigns axes os (version ∷ []) (mac_two ∷ []) linux_one
      (subst (In linux_one) (sym left) (inl refl))

apply_matrix_exclude_complete_example :
    (c : Combination) × All (λ j. lookup j c ≡ some (str (lit "linux"))) (os ∷ [])
    × (In c (apply_matrix_exclude (product axes (os ∷ [])) (mac_two ∷ []))
        ⊎ (any (matrix_all_match c) (mac_two ∷ []) ≡ true))
unfolding lookup text_eq
apply_matrix_exclude_complete_example =
    apply_matrix_exclude_complete axes (λ j. linux) os [] (mac_two ∷ []) (inl refl, tt)

include_entry_example :
    ((c : Combination) × In c (include_entry mac_two (linux_one ∷ [])) × Holds mac_two c)
    × Keeps (linux_one ∷ []) (include_entry mac_two (linux_one ∷ []))
include_entry_example = include_entry_lem mac_two (linux_one ∷ [])

apply_matrix_include_override_example :
    apply_matrix_include
      (linux_one ∷ [])
      (((lit "color", linux) ∷ []) ∷ ((lit "color", mac) ∷ []) ∷ [])
    ≡ with_key (lit "color") linux (linux_one ∷ []) ++ ((lit "color", mac) ∷ []) ∷ []
unfolding lookup text_eq deep_equal
apply_matrix_include_override_example =
    apply_matrix_include_override (lit "color") linux mac linux_one [] (refl, tt) refl
