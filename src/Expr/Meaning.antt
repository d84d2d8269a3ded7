-- ===== src/Expr/Meaning.antt =====
-- What expressions of internal/engine/expr.go mean: conditions, comparisons and formats.
use mirror_gha.Base.{
  if◌then◌else◌, Bool-cases, In, Text, lit, text_eq, has_prefix, Map, Result, ◌>>=◌, Result-cases,
  replace_from, replace_all, ◌≡◌, refl, ap, ◌∙◌, ◌≢◌, ◌↔◌, inl, inr, Bool, true, false, not, some,
  [], ◌∷◌, arith, ok, err,
}
use mathlib.Core.List.{append-nil}
use mirror_gha.Workflow.{ℤ, Value, int, bool, str}
use mirror_gha.Expr.Contexts.{
  Conclusion, success, skipped, Context, failure, StepOutcome, lookup_ci,
}
use mirror_gha.Expr.Access.{
  ExprError, needs_numbers, any_failed, call_status_func, is_failure, resolve_path, lookup_any_ci,
}
use mirror_gha.Expr.Syntax.{
  CompareKind, less, less_eq, greater, greater_eq, eq, not_eq, and, or, Node, not_op, logical_op,
  compare_op, object_deref, variable, Library,
}
use mirror_gha.Expr.Eval.{
  eval_node, truthy, compare_values, to_str, format_from, path_from_node, decimal,
}

-- The operators on truth values, as a reference: the right operand counts only where the left one
-- does not decide.
abbrev pub and_then : Result ExprError Bool → Result ExprError Bool → Result ExprError Bool
and_then l r = l >>= λ a. if a then r else ok false

abbrev pub if_not : Result ExprError Bool → Result ExprError Bool → Result ExprError Bool
if_not l r = l >>= λ a. if a then ok true else r

module _ (lib : Library) (c : Context) where
  -- Whether a node's value counts as true.
  abbrev pub condition : Node → Result ExprError Bool
  condition n = eval_node lib c n >>= λ v. ok (truthy v)

  -- Truth values in place of values, down to the nodes that are no logical operators.
  unfoldable pub holds : Node → Result ExprError Bool
  holds (not_op n) = holds n >>= λ a. ok (not a)
  holds (logical_op and l r) = and_then (holds l) (holds r)
  holds (logical_op or l r) = if_not (holds l) (holds r)
  holds n = condition n

  condition-not : (n : Node) → condition (not_op n) ≡ (condition n >>= λ a. ok (not a))
  unfolding eval_node truthy
  condition-not n = elim (Result-cases (eval_node lib c n)) [
    | inl (v, q) ↦ rw (q, eval_node) refl
    | inr (e, q) ↦ rw (q, eval_node) refl
  ]

  condition-and :
      (l r : Node) → condition (logical_op and l r) ≡ and_then (condition l) (condition r)
  unfolding eval_node
  condition-and l r = elim (Result-cases (eval_node lib c l)) [
    | inl (v, q) ↦ elim (Bool-cases (truthy v)) [
      | inl t ↦ rw (q, t, eval_node) refl
      | inr t ↦ rw (q, t, eval_node) (ap ok t)
    ]
    | inr (e, q) ↦ rw (q, eval_node) refl
  ]

  condition-or : (l r : Node) → condition (logical_op or l r) ≡ if_not (condition l) (condition r)
  unfolding eval_node
  condition-or l r = elim (Result-cases (eval_node lib c l)) [
    | inl (v, q) ↦ elim (Bool-cases (truthy v)) [
      | inl t ↦ rw (q, t, eval_node) (ap ok t)
      | inr t ↦ rw (q, t, eval_node) refl
    ]
    | inr (e, q) ↦ rw (q, eval_node) refl
  ]

  -- The evaluator, whose logical operators give operands and not truth values, decides conditions
  -- as the reference on truth values does, errors included.
  pub condition-holds : (n : Node) → condition n ≡ holds n
  unfolding holds
  condition-holds (not_op n) = condition-not n ∙ ap (λ r. r >>= λ a. ok (not a)) (condition-holds n)
  condition-holds (logical_op and l r) =
      condition-and l r
      ∙ ap (λ x. and_then x (condition r)) (condition-holds l)
      ∙ ap (and_then (holds l)) (condition-holds r)
  condition-holds (logical_op or l r) =
      condition-or l r
      ∙ ap (λ x. if_not x (condition r)) (condition-holds l)
      ∙ ap (if_not (holds l)) (condition-holds r)
  condition-holds n = refl

  abbrev pub IsOrder : CompareKind → Type 0
  IsOrder kind = (kind ≢ eq) × (kind ≢ not_eq)

  compare_values-int :
      (kind : CompareKind) (n : ℤ) (w : Value)
      → IsOrder kind
      → compare_values lib kind (int n) w ≡ err needs_numbers
  unfolding compare_values
  compare_values-int eq n w h = absurd (h.0 refl)
  compare_values-int not_eq n w h = absurd (h.1 refl)
  compare_values-int less n w h = refl
  compare_values-int less_eq n w h = refl
  compare_values-int greater n w h = refl
  compare_values-int greater_eq n w h = refl

  matrix_value :
      (key : Text) {v : Value}
      → lookup_ci key c.matrix ≡ some v
      → eval_node lib c (object_deref (variable (lit "matrix")) key) ≡ ok v
  unfolding eval_node path_from_node resolve_path text_eq
  matrix_value key there = ap ok (lookup_any_ci-some key there)
    where
      lookup_any_ci-some :
          (key : Text) {v : Value}
          → lookup_ci key c.matrix ≡ some v
          → lookup_any_ci c.matrix key ≡ v
      lookup_any_ci-some key there = unfold lookup_any_ci in (rw (there, lookup_any_ci) refl)

  eval_node-compare :
      (kind : CompareKind) (l r : Node) {a b : Value}
      → eval_node lib c l ≡ ok a
      → eval_node lib c r ≡ ok b
      → eval_node lib c (compare_op kind l r) ≡ compare_values lib kind a b
  unfolding eval_node
  eval_node-compare kind l r p q = rw (p, q, eval_node) refl

  -- A matrix value that YAML gives as an integer has no order: to compare it with anything is an
  -- error.
  compare_matrix_int :
      (kind : CompareKind) (key : Text) (n : ℤ) (r : Node) {w : Value}
      → IsOrder kind
      → lookup_ci key c.matrix ≡ some (int n)
      → eval_node lib c r ≡ ok w
      → eval_node lib c (compare_op kind (object_deref (variable (lit "matrix")) key) r)
        ≡ err needs_numbers
  unfolding eval_node
  compare_matrix_int kind key n r {w = w} order there right =
      eval_node-compare kind (object_deref (variable (lit "matrix")) key) r (matrix_value key there)
        right
      ∙ compare_values-int kind n w order

  -- The placeholders that an argument brings in are replaced by the next argument.
  format_from_nested :
      (s : Text) (b : Value)
      → format_from lib 0 (lit "{0}") (str s ∷ b ∷ []) ≡ replace_all (lit "{1}") (to_str lib b) s
  unfolding format_from to_str decimal
  format_from_nested s b = ap (replace_all (lit "{1}") (to_str lib b)) (replaced s)
    where
      replaced : (s : Text) → replace_all (lit "{0}") s (lit "{0}") ≡ s
      replaced s = unfold replace_all replace_from has_prefix in append-nil s

-- Some step has failed.
abbrev pub SomeFailed : Map StepOutcome → Type 0
SomeFailed steps = (p : Text × StepOutcome) × In p steps × (p.1.outcome ≡ failure)

is_failure_iff : (k : Conclusion) → (is_failure k ≡ true) ↔ (k ≡ failure)
is_failure_iff success = ((λ h. cc h), (λ h. cc h))
is_failure_iff failure = ((λ h. refl), (λ h. refl))
is_failure_iff skipped = ((λ h. cc h), (λ h. cc h))

any_failed_iff : (steps : Map StepOutcome) → (any_failed steps ≡ true) ↔ SomeFailed steps
unfolding any_failed
any_failed_iff [] = ((λ h. cc h), (λ h. absurd h.1))
any_failed_iff ((id, o) ∷ steps) = (
  (λ h. elim (Bool-cases (is_failure o.outcome)) [
    | inl e ↦ ((id, o), inl refl, (is_failure_iff o.outcome).0 e)
    | inr e ↦
        let h' : any_failed steps ≡ true = rw e at h in
        let (p, m, f) = (any_failed_iff steps).0 h' in (p, inr m, f)
  ]),
  (λ h. elim (h.1) [
    | inl q ↦
        let f : o.outcome ≡ failure = ap (λ (r : Text × StepOutcome). r.1.outcome) q ∙ h.2 in
        rw ((is_failure_iff o.outcome).1 f) refl
    | inr m ↦ let later = (any_failed_iff steps).1 (h.0, m, h.2) in ground (arith, later)
  ]),
)

-- `failure()` is true just if some step has failed, and `success()` is its negation.
call_status_func_lem :
    (c : Context)
    → ((call_status_func c (lit "failure") ≡ ok (bool true)) ↔ SomeFailed c.steps)
      × ((call_status_func c (lit "success") ≡ ok (bool true)) ↔ (¬ SomeFailed c.steps))
unfolding call_status_func text_eq
call_status_func_lem c =
    let iff = any_failed_iff c.steps in
    (
      ((λ h. iff.0 (cc h)), (λ h. ap (λ b. ok (bool b)) (iff.1 h))),
      (
        (λ h failed. let f = iff.1 failed in let h' = rw f at h in cc h'),
        (λ h. elim (Bool-cases (any_failed c.steps)) [
          | inl e ↦ absurd (h (iff.0 e))
          | inr e ↦ rw e refl
        ]),
      ),
    )
