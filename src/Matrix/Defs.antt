-- ===== src/Matrix/Defs.antt =====
-- internal/engine/matrix.go: `ExpandMatrix` and its helpers.
use mirror_gha.Base.{
  if◌then◌else◌, any, keep, Text, lit, text_eq, Map, lookup, insert, merge, keys, sort_strings,
  Result, ◌>>=◌, ◌>>◌, Bool, true, false, not, ◌&&◌, Option, none, some, List, [], ◌∷◌, ◌++◌, ok,
  err,
}
use mirror_gha.Workflow.{Value, Fields, list, dict, items, entries, deep_equal, Strategy}

-- `MatrixCombination`
abbrev pub Combination : Type 0
Combination = Map Value

pub data MatrixError : Type 0 where
  include_error : MatrixError → MatrixError
  exclude_error : MatrixError → MatrixError
  entry_not_mapping : MatrixError
  not_list_or_mapping : MatrixError
  axis_not_list : Text → MatrixError
  unknown_exclude_key : Text → MatrixError

entry_list : List Value → Result MatrixError (List (Map Value))
unfolding entries
entry_list [] = ok []
entry_list (dict m ∷ vs) = do rest ← entry_list vs; ok (entries m ∷ rest)
entry_list (_ ∷ vs) = err entry_not_mapping

unfoldable pub matrix_entry_list : Value → Result MatrixError (List (Map Value))
unfolding entry_list items entries
matrix_entry_list (list vs) = entry_list (items vs)
matrix_entry_list (dict m) = ok (entries m ∷ [])
matrix_entry_list _ = err not_list_or_mapping

-- The variables that the first loop of `ExpandMatrix` fills.
pub record Axes : Type 0 where
  pub axes : Map (List Value)
  pub includes : List (Map Value)
  pub excludes : List (Map Value)
  pub axis_keys : List Text

abbrev wrapped {ℓ} :
    {A : Type ℓ} → (MatrixError → MatrixError) → Result MatrixError A → Result MatrixError A
wrapped f (ok a) = ok a
wrapped f (err e) = err (f e)

add_axis : Text → Value → Axes → Result MatrixError Axes
unfolding items insert
add_axis k (list vs) s =
    ok (record s { axes = insert k (items vs) s.axes; axis_keys = s.axis_keys ++ k ∷ [] })
add_axis k _ s = err (axis_not_list k)

-- The body of `for k, v := range strategy.Matrix`.
read_key : Text → Value → Axes → Result MatrixError Axes
unfolding matrix_entry_list add_axis text_eq
read_key k v s =
    if text_eq k (lit "include")
    then (do l ← wrapped include_error (matrix_entry_list v); ok (record s { includes = l }))
    else if text_eq k (lit "exclude")
    then (do l ← wrapped exclude_error (matrix_entry_list v); ok (record s { excludes = l }))
    else add_axis k v s

unfoldable pub read_axes : Map Value → Axes → Result MatrixError Axes
unfolding read_key
read_axes [] s = ok s
read_axes ((k, v) ∷ m) s = read_key k v s >>= read_axes m

-- `if _, ok := axes[k]; !ok`, for the keys of one exclude entry.
check_keys : Map (List Value) → List Text → Result MatrixError (Unit {0})
unfolding lookup
check_keys axes [] = ok tt
check_keys axes (k ∷ ks) = elim (lookup k axes) [
  | none ↦ err (unknown_exclude_key k)
  | some _ ↦ check_keys axes ks
]

unfoldable pub check_excludes : Map (List Value) → List (Map Value) → Result MatrixError (Unit {0})
unfolding check_keys
check_excludes axes [] = ok tt
check_excludes axes (e ∷ es) = check_keys axes (keys e) >> check_excludes axes es

-- `axes[k]`, `nil` on a missing key.
abbrev pub axis : Map (List Value) → Text → List Value
axis axes k = elim (lookup k axes) [ none ↦ [] | some vs ↦ vs ]

-- The two inner loops: every combination with every value.
unfoldable pub extend_one : Text → List Value → Combination → List Combination
extend_one k [] c = []
extend_one k (v ∷ vs) c = insert k v c ∷ extend_one k vs c

unfoldable pub extend_all : Text → List Value → List Combination → List Combination
unfolding extend_one
extend_all k vs [] = []
extend_all k vs (c ∷ combos) = extend_one k vs c ++ extend_all k vs combos

-- `for _, k := range keys`
unfoldable pub product_from : Map (List Value) → List Text → List Combination → List Combination
unfolding extend_all
product_from axes [] combos = combos
product_from axes (k ∷ ks) combos = product_from axes ks (extend_all k (axis axes k) combos)

unfoldable pub product : Map (List Value) → List Text → List Combination
unfolding product_from
product axes [] = []
product axes (k ∷ ks) = product_from axes (k ∷ ks) ([] ∷ [])

unfoldable pub matrix_all_match : Combination → Map Value → Bool
matrix_all_match combo [] = true
matrix_all_match combo ((k, v) ∷ entry) =
    elim (lookup k combo) [ none ↦ false | some cv ↦ deep_equal cv v ]
    && matrix_all_match combo entry

unfoldable pub matrix_subset_match : Combination → Map Value → Bool
matrix_subset_match combo [] = true
matrix_subset_match combo ((k, v) ∷ entry) =
    elim (lookup k combo) [ none ↦ true | some cv ↦ deep_equal cv v ]
    && matrix_subset_match combo entry

unfoldable pub apply_matrix_exclude : List Combination → List (Map Value) → List Combination
unfolding matrix_all_match
apply_matrix_exclude combos [] = combos
apply_matrix_exclude combos (e ∷ es) = keep (λ c. not (any (matrix_all_match c) (e ∷ es))) combos

-- The loops for one include entry: it is merged into each combination that it fits, in place, and
-- stands alone if it fits none.
unfoldable pub include_into : Map Value → List Combination → List Combination
unfolding matrix_subset_match merge
include_into entry [] = []
include_into entry (c ∷ combos) =
    (if matrix_subset_match c entry then merge c entry else c) ∷ include_into entry combos

unfoldable pub include_entry : Map Value → List Combination → List Combination
unfolding include_into
include_entry entry combos =
    if any (λ c. matrix_subset_match c entry) combos
    then include_into entry combos
    else include_into entry combos ++ merge [] entry ∷ []

unfoldable pub apply_matrix_include : List Combination → List (Map Value) → List Combination
unfolding include_entry
apply_matrix_include combos [] = combos
apply_matrix_include combos (e ∷ es) = apply_matrix_include (include_entry e combos) es

abbrev no_axes : Axes
no_axes = record { axes = []; includes = []; excludes = []; axis_keys = [] }

expand : Map Value → Result MatrixError (List Combination)
unfolding read_axes check_excludes product apply_matrix_exclude apply_matrix_include sort_strings
expand matrix = do
  s ← read_axes matrix no_axes
  check_excludes s.axes s.excludes
  let combos = apply_matrix_exclude (product s.axes (sort_strings s.axis_keys)) s.excludes
  ok (apply_matrix_include combos s.includes)

expand_fields : Option Fields → Result MatrixError (List Combination)
unfolding expand entries
expand_fields none = ok ([] ∷ [])
expand_fields (some m) = expand (entries m)

unfoldable pub expand_matrix : Option Strategy → Result MatrixError (List Combination)
unfolding expand_fields
expand_matrix none = ok ([] ∷ [])
expand_matrix (some s) = expand_fields s.matrix
