-- ===== src/Expr/Access.antt =====
-- `resolvePath` and `callStatusFunc` of internal/engine/context.go.
use mirror_gha.Base.{
  leb, ◌==◌, if◌then◌else◌, Text, lit, text_eq, Map, lookup, Result, fields, ℕ, zero, suc, ◌+◌, ◌-◌,
  ◌*◌, Bool, true, false, not, ◌&&◌, ◌||◌, Option, none, some, List, [], ◌∷◌, ok, err,
}
use mirror_gha.Workflow.{Value, null, bool, str, list, dict, items, entries}
use mirror_gha.Expr.Contexts.{
  Conclusion, failure, conclusion_text, StepOutcome, JobOutcome, Context, to_lower, equal_fold,
  lookup_ci, input_env_key,
}

pub data ExprError : Type 0 where
  parse_error : Text → ExprError
  empty_path : ExprError
  invalid_reference : Text → List Text → ExprError
  unknown_field : Text → Text → ExprError
  unknown_context : Text → ExprError
  array_dereference index_not_text unsupported_path : ExprError
  needs_numbers : ExprError
  wrong_arguments : Text → ExprError
  unknown_function : Text → ExprError
  no_workspace : ExprError
  json_error : Text → ExprError
  hash_error : Text → ExprError

-- `lookupStringCI`: the empty string for a missing key.
unfoldable pub lookup_string_ci : Map Text → Text → Text
unfolding lookup_ci
lookup_string_ci m key = elim (lookup_ci key m) [ none ↦ [] | some v ↦ v ]

-- `lookupAnyCI`: nil for a missing key.
unfoldable pub lookup_any_ci : Map Value → Text → Value
unfolding lookup_ci
lookup_any_ci m key = elim (lookup_ci key m) [ none ↦ null | some v ↦ v ]

-- `strconv.Atoi` and the bounds of the index; `none` is an error or an index out of range.
unfoldable pub digits_from : ℕ → Text → Option ℕ
digits_from n [] = some n
digits_from n (c ∷ s) =
    if leb b'0' c && leb c b'9' then digits_from (n * 10 + (c - b'0')) s else none

-- A number with a minus sign is negative, or zero as in `-0`.
unfoldable pub index_of_text : Text → Option ℕ
unfolding digits_from
index_of_text [] = none
index_of_text (c ∷ []) = digits_from 0 (c ∷ [])
index_of_text (c ∷ d ∷ s) =
    if c == b'+'
    then digits_from 0 (d ∷ s)
    else if c == b'-'
    then (elim (digits_from 0 (d ∷ s)) [ none ↦ none | some n ↦ if n == 0 then some 0 else none ])
    else digits_from 0 (c ∷ d ∷ s)

unfoldable pub nth : List Value → ℕ → Option Value
nth [] i = none
nth (v ∷ vs) zero = some v
nth (v ∷ vs) (suc i) = nth vs i

abbrev at_index : List Value → Option ℕ → Option Value
at_index vs none = none
at_index vs (some i) = nth vs i

-- One step of `resolveNestedPath`; `none` is a path that does not resolve.
unfoldable pub child : Value → Text → Option Value
unfolding lookup_ci entries items index_of_text nth
child (dict fields) key = lookup_ci key (entries fields)
child (list vs) key = at_index (items vs) (index_of_text key)
child _ key = none

-- `resolveNestedPath`
unfoldable pub resolve_nested_path : Value → List Text → Value
unfolding child
resolve_nested_path v [] = v
resolve_nested_path v (key ∷ rest) = elim (child v key) [
  | none ↦ null
  | some w ↦ resolve_nested_path w rest
]

-- The event that the github context holds: nil for a missing key.
unfoldable pub event_of : Map Value → Value
unfolding lookup
event_of github = elim (lookup (lit "event") github) [ none ↦ null | some v ↦ v ]

-- `path` of a context with the fields that `field` reads.
abbrev one_key : (Text → Value) → Text → List Text → Result ExprError Value
one_key field name (key ∷ []) = ok (field key)
one_key field name rest = err (invalid_reference name rest)

abbrev github_path : Map Value → List Text → Result ExprError Value
github_path github [] = err (invalid_reference (lit "github") [])
github_path github (key ∷ rest) =
    if equal_fold key (lit "event")
    then ok (resolve_nested_path (event_of github) rest)
    else one_key (lookup_any_ci github) (lit "github") (key ∷ rest)

-- The fields of a step's or a job's outcome: the conclusion under `word`, and `outputs`.
abbrev outcome_path :
    (name word : Text) → Conclusion → Map Text → Text → List Text → Result ExprError Value
outcome_path name word conclusion outputs field rest =
    if text_eq (to_lower field) word
    then ok (str (conclusion_text conclusion))
    else if text_eq (to_lower field) (lit "outputs")
    then one_key (λ key. str (lookup_string_ci outputs key)) name rest
    else err (unknown_field name field)

unfoldable pub steps_path : Map StepOutcome → List Text → Result ExprError Value
unfolding lookup_ci text_eq conclusion_text lookup_string_ci
steps_path steps (id ∷ field ∷ rest) = elim (lookup_ci id steps) [
  | none ↦ ok null
  | some o ↦ outcome_path (lit "steps") (lit "outcome") o.outcome o.outputs field rest
]
steps_path steps rest = err (invalid_reference (lit "steps") rest)

unfoldable pub needs_path : Map JobOutcome → List Text → Result ExprError Value
unfolding lookup_ci text_eq conclusion_text lookup_string_ci
needs_path needs (id ∷ field ∷ rest) = elim (lookup_ci id needs) [
  | none ↦ ok null
  | some o ↦ outcome_path (lit "needs") (lit "result") o.result o.outputs field rest
]
needs_path needs rest = err (invalid_reference (lit "needs") rest)

-- `resolvePath`
unfoldable pub resolve_path : Context → List Text → Result ExprError Value
unfolding text_eq equal_fold lookup_string_ci lookup_any_ci resolve_nested_path event_of steps_path
    needs_path input_env_key
resolve_path c [] = err empty_path
resolve_path c (name ∷ rest) =
    let is : Text → Bool = text_eq (to_lower name) in
    if is (lit "env")
    then one_key (λ key. str (lookup_string_ci c.env key)) (lit "env") rest
    else if is (lit "github")
    then github_path c.github rest
    else if is (lit "runner")
    then one_key (lookup_any_ci c.runner) (lit "runner") rest
    else if is (lit "steps")
    then steps_path c.steps rest
    else if is (lit "needs")
    then needs_path c.needs rest
    else if is (lit "matrix")
    then one_key (lookup_any_ci c.matrix) (lit "matrix") rest
    else if is (lit "vars")
    then one_key (λ key. str (lookup_string_ci c.vars key)) (lit "vars") rest
    else if is (lit "secrets")
    then one_key (λ key. str (lookup_string_ci c.secrets key)) (lit "secrets") rest
    else if is (lit "inputs")
    then one_key (λ key. str (lookup_string_ci c.env (input_env_key key))) (lit "inputs") rest
    else err (unknown_context name)

abbrev pub is_failure : Conclusion → Bool
is_failure failure = true
is_failure _ = false

-- `anyFailed`
unfoldable pub any_failed : Map StepOutcome → Bool
any_failed [] = false
any_failed ((id, o) ∷ steps) = is_failure o.outcome || any_failed steps

-- `callStatusFunc`
unfoldable pub call_status_func : Context → Text → Result ExprError Value
unfolding any_failed text_eq
call_status_func c name =
    if text_eq name (lit "success")
    then ok (bool (not (any_failed c.steps)))
    else if text_eq name (lit "failure")
    then ok (bool (any_failed c.steps))
    else if text_eq name (lit "always")
    then ok (bool true)
    else if text_eq name (lit "cancelled")
    then ok (bool false)
    else err (unknown_function name)
