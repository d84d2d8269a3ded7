-- ===== src/Expr/Samples.antt =====
-- internal/engine/expr.go on small inputs, and the theorems about it at them.
use mirror_gha.Base.{
  length, take, lit, not-In_of_any, ◌>>=◌, trim_space, ◌-◌, ◌≡◌, refl, true, [], ◌∷◌, ◌++◌, ok, err,
}
use mirror_gha.Workflow.{pos, int, str}
use mirror_gha.Expr.Contexts.{success, failure, Context}
use mirror_gha.Expr.Access.{resolve_path}
use mirror_gha.Expr.Syntax.{
  Library, Node, string_node, variable, object_deref, not_op, logical_op, or,
}
use mirror_gha.Expr.Eval.{eval_node, eval_expression, to_str, decimal, float_lt}
use mirror_gha.Expr.Substitution.{opening, closing, substitute_expressions}
use mirror_gha.Expr.Substituting.{substitute_expressions_lem}
use mirror_gha.Expr.Meaning.{condition, holds, condition-holds}

-- A library for names alone, which parses `x` as `env.x`.
abbrev pub names_library : Library
names_library = record {
  parse = λ text. ok (object_deref (variable (lit "env")) (take (length text - 2) text));
  float_of_int = λ n. 0;
  format_value = λ v. [];
  json_marshal = λ v. err [];
  json_unmarshal = λ t. err [];
  hash_files = λ w ps. err [];
}

abbrev pub context : Context
context = record {
  github = [];
  env = (lit "WHO", lit "you") ∷ [];
  runner = [];
  steps =
      (lit "a", record { outcome = success; outputs = (lit "Tag", lit "v1") ∷ [] })
      ∷ (lit "b", record { outcome = failure; outputs = [] })
      ∷ [];
  needs = [];
  matrix = (lit "n", int (pos 3)) ∷ [];
  vars = [];
  secrets = [];
}

case_insensitive :
    resolve_path context (lit "STEPS" ∷ lit "A" ∷ lit "outputs" ∷ lit "tag" ∷ [])
    ≡ ok (str (lit "v1"))
unfolding resolve_path
case_insensitive = refl

number_printed : decimal 1203 ≡ lit "1203"
unfolding decimal
number_printed = refl

-- 1.5 and -2.0
floats_ordered : float_lt 0xc000000000000000 0x3ff8000000000000 ≡ true
unfolding float_lt
floats_ordered = refl

greeting :
    substitute_expressions names_library context
      (lit "hi " ++ (opening ++ (lit " who " ++ (closing ++ lit "!"))))
    ≡ ok (lit "hi you!")
unfolding substitute_expressions eval_expression eval_node
greeting = refl

substitute_expressions_lem_example :
    substitute_expressions names_library context
      (lit "hi " ++ (opening ++ (lit " who " ++ (closing ++ lit "!"))))
    ≡ (substitute_expressions names_library context (lit "!") >>= λ t.
        eval_expression names_library context (trim_space (lit " who ")) >>= λ v.
        ok (lit "hi " ++ (to_str names_library v ++ t)))
substitute_expressions_lem_example =
    substitute_expressions_lem names_library context (lit "hi ") (lit " who ") (lit "!")
      (not-In_of_any b'$' (lit "hi ") refl) (not-In_of_any b'}' (lit " who ") refl)
      (not-In_of_any 10 (lit " who ") refl)

abbrev mixed : Node
mixed = logical_op or (not_op (string_node [])) (object_deref (variable (lit "steps")) (lit "a"))

condition-holds_example : condition names_library context mixed ≡ holds names_library context mixed
condition-holds_example = condition-holds names_library context mixed
