-- ===== src/Expr/Eval.antt =====
-- internal/engine/expr.go
use mirror_gha.Base.{
  ltb, leb, ◌==◌, if◌then◌else◌, length, take, drop, Text, lit, text_eq, has_prefix, lookup, Result,
  ◌>>=◌, join, contains, replace_all, has_suffix, trim_space, ℕ, zero, suc, ◌+◌, ◌-◌, ◌*◌, ◌/◌, ◌%◌,
  ◌^◌, Bool, true, false, not, ◌&&◌, ◌||◌, Option, none, some, List, [], ◌∷◌, ◌++◌, map, ok, err,
}
use mirror_gha.Workflow.{Value, null, bool, float, str, list, items}
use mirror_gha.Expr.Contexts.{Context, to_lower}
use mirror_gha.Expr.Access.{
  ExprError, parse_error, array_dereference, index_not_text, unsupported_path, needs_numbers,
  wrong_arguments, unknown_function, no_workspace, json_error, hash_error, resolve_path,
  call_status_func,
}
use mirror_gha.Expr.Syntax.{
  CompareKind, less, less_eq, greater, greater_eq, eq, not_eq, LogicalKind, and, or, Node, Nodes,
  nil, cons, null_node, bool_node, int_node, float_node, string_node, variable, object_deref,
  array_deref, index_access, not_op, compare_op, logical_op, func_call, Library,
}

abbrev magnitude : ℕ → ℕ
magnitude bits = bits % 2 ^ 63

abbrev is_negative : ℕ → Bool
is_negative bits = leb (2 ^ 63) bits

-- All exponent bits, and some bit of the fraction.
abbrev is_nan : ℕ → Bool
is_nan bits = ltb (2047 * 2 ^ 52) (magnitude bits)

-- Go's `<` and `<=` on float64: by sign and magnitude, the zeros equal, a NaN below nothing.
unfoldable pub float_lt : ℕ → ℕ → Bool
float_lt a b =
    not (is_nan a)
    && not (is_nan b)
    && (if is_negative a
        then (if is_negative b
            then ltb (magnitude b) (magnitude a)
            else ltb 0 (magnitude a + magnitude b))
        else if is_negative b
        then false
        else ltb (magnitude a) (magnitude b))

unfoldable pub float_le : ℕ → ℕ → Bool
unfolding float_lt
float_le a b = not (is_nan a) && not (is_nan b) && not (float_lt b a)

-- `truthy`
unfoldable pub truthy : Value → Bool
truthy null = false
truthy (bool b) = b
truthy (str s) = not (leb (length s) 0)
truthy (float bits) = not (magnitude bits == 0)
truthy _ = true

abbrev float_one : ℕ
float_one = 1023 * 2 ^ 52

-- `toNumber`
unfoldable pub to_number : Value → Option ℕ
to_number (float bits) = some bits
to_number (bool b) = some (if b then float_one else 0)
to_number _ = none

abbrev order_test : CompareKind → ℕ → ℕ → Bool
order_test less a b = float_lt a b
order_test less_eq a b = float_le a b
order_test greater a b = float_lt b a
order_test greater_eq a b = float_le b a
order_test eq a b = false
order_test not_eq a b = false

abbrev both_numbers : CompareKind → Option ℕ → Option ℕ → Result ExprError Value
both_numbers kind (some a) (some b) = ok (bool (order_test kind a b))
both_numbers kind _ _ = err needs_numbers

-- `pathFromNode`
unfoldable pub path_from_node : Node → Result ExprError (List Text)
path_from_node (variable name) = ok (to_lower name ∷ [])
path_from_node (object_deref receiver property) =
    path_from_node receiver >>= λ base. ok (base ++ property ∷ [])
path_from_node (index_access operand index) = path_from_node operand >>= λ base. elim index [
  | string_node key ↦ ok (base ++ key ∷ [])
  | _ ↦ err index_not_text
]
path_from_node _ = err unsupported_path

-- The decimal numeral that `%d` prints, with enough fuel for its digits.
unfoldable pub decimal_from : ℕ → ℕ → Text → Text
decimal_from zero n rest = rest
decimal_from (suc fuel) n rest =
    let more = decimal_from fuel (n / 10) ((n % 10 + b'0') ∷ rest) in
    if ltb n 10 then (n + b'0') ∷ rest else more

unfoldable pub decimal : ℕ → Text
unfolding decimal_from
decimal n = decimal_from (n + 1) n []

module _ (lib : Library) where
  -- `toStr`
  unfoldable pub to_str : Value → Text
  to_str null = []
  to_str (bool b) = if b then lit "true" else lit "false"
  to_str (str s) = s
  to_str v = lib.format_value v

  -- `compareValues`
  unfoldable pub compare_values : CompareKind → Value → Value → Result ExprError Value
  unfolding to_str text_eq to_number float_lt float_le
  compare_values eq l r = ok (bool (text_eq (to_str l) (to_str r)))
  compare_values not_eq l r = ok (bool (not (text_eq (to_str l) (to_str r))))
  compare_values kind l r = both_numbers kind (to_number l) (to_number r)

  -- `formatGHA`, from the argument number `i` on.
  unfoldable pub format_from : ℕ → Text → List Value → Text
  unfolding to_str replace_all decimal
  format_from i result [] = result
  format_from i result (a ∷ args) =
      format_from (i + 1) (replace_all (b'{' ∷ (decimal i ++ b'}' ∷ [])) (to_str a) result) args

  -- `joinValue`
  unfoldable pub join_value : Value → Text → Text
  unfolding to_str items join
  join_value (list vs) sep = join sep (map to_str (items vs))
  join_value v sep = to_str v

  abbrev json_result : Result Text Value → Result ExprError Value
  json_result (ok v) = ok v
  json_result (err e) = err (json_error e)

  abbrev text_result : (Text → ExprError) → Result Text Text → Result ExprError Value
  text_result wrap (ok s) = ok (str s)
  text_result wrap (err e) = err (wrap e)

  abbrev workspace_of : Option Value → Text
  workspace_of (some (str s)) = s
  workspace_of _ = []

  -- The cases of `callFunction` that look at the arguments.
  abbrev test_texts : Text → (Text → Text → Bool) → List Value → Result ExprError Value
  test_texts name test (a ∷ b ∷ []) = ok (bool (test (to_str a) (to_str b)))
  test_texts name test _ = err (wrong_arguments name)

  abbrev call_status : Context → Text → List Value → Result ExprError Value
  call_status c name [] = call_status_func c name
  call_status c name _ = err (wrong_arguments name)

  abbrev call_format : List Value → Result ExprError Value
  call_format [] = err (wrong_arguments (lit "format"))
  call_format (template ∷ args) = ok (str (format_from 0 (to_str template) args))

  abbrev call_join : List Value → Result ExprError Value
  call_join (v ∷ []) = ok (str (join_value v (lit ", ")))
  call_join (v ∷ sep ∷ []) = ok (str (join_value v (to_str sep)))
  call_join _ = err (wrong_arguments (lit "join"))

  abbrev call_to_json : List Value → Result ExprError Value
  call_to_json (v ∷ []) = text_result json_error (lib.json_marshal v)
  call_to_json _ = err (wrong_arguments (lit "toJSON"))

  abbrev call_from_json : List Value → Result ExprError Value
  call_from_json (v ∷ []) = json_result (lib.json_unmarshal (to_str v))
  call_from_json _ = err (wrong_arguments (lit "fromJSON"))

  abbrev call_hash_files : Context → List Value → Result ExprError Value
  call_hash_files c [] = err (wrong_arguments (lit "hashFiles"))
  call_hash_files c args =
      let workspace = workspace_of (lookup (lit "workspace") c.github) in
      if text_eq workspace []
      then err no_workspace
      else text_result hash_error (lib.hash_files workspace (map to_str args))

  -- `callFunction`
  unfoldable pub call_function : Context → Text → List Value → Result ExprError Value
  unfolding text_eq call_status_func to_str contains has_prefix has_suffix format_from join_value
      lookup
  call_function c name args =
      let is : Text → Bool = text_eq (to_lower name) in
      if is (lit "success") || is (lit "failure") || is (lit "always") || is (lit "cancelled")
      then call_status c (to_lower name) args
      else if is (lit "contains")
      then test_texts (lit "contains") contains args
      else if is (lit "startswith")
      then test_texts (lit "startsWith") has_prefix args
      else if is (lit "endswith")
      then test_texts (lit "endsWith") has_suffix args
      else if is (lit "format")
      then call_format args
      else if is (lit "join")
      then call_join args
      else if is (lit "tojson")
      then call_to_json args
      else if is (lit "fromjson")
      then call_from_json args
      else if is (lit "hashfiles")
      then call_hash_files c args
      else err (unknown_function name)

  abbrev short_circuit : LogicalKind → Value → Result ExprError Value → Result ExprError Value
  short_circuit and left right = if truthy left then right else ok left
  short_circuit or left right = if truthy left then ok left else right

  -- `evalNode`
  unfoldable mutual
    unfolding path_from_node resolve_path compare_values call_function truthy

    pub eval_node : Context → Node → Result ExprError Value
    eval_node c null_node = ok null
    eval_node c (bool_node b) = ok (bool b)
    eval_node c (int_node n) = ok (float (lib.float_of_int n))
    eval_node c (float_node bits) = ok (float bits)
    eval_node c (string_node s) = ok (str s)
    eval_node c (variable name) = path_from_node (variable name) >>= resolve_path c
    eval_node c (object_deref receiver property) =
        path_from_node (object_deref receiver property) >>= resolve_path c
    eval_node c (index_access operand index) =
        path_from_node (index_access operand index) >>= resolve_path c
    eval_node c (array_deref receiver) = err array_dereference
    eval_node c (not_op operand) = eval_node c operand >>= λ v. ok (bool (not (truthy v)))
    eval_node c (compare_op kind l r) =
        eval_node c l >>= λ left. eval_node c r >>= λ right. compare_values kind left right
    eval_node c (logical_op kind l r) =
        eval_node c l >>= λ left. short_circuit kind left (eval_node c r)
    eval_node c (func_call callee args) = eval_nodes c args >>= call_function c callee

    pub eval_nodes : Context → Nodes → Result ExprError (List Value)
    eval_nodes c nil = ok []
    eval_nodes c (cons n ns) = eval_node c n >>= λ v. eval_nodes c ns >>= λ vs. ok (v ∷ vs)

  abbrev parsed : Result Text Node → Result ExprError Node
  parsed (ok node) = ok node
  parsed (err e) = err (parse_error e)

  -- `EvalExpression`
  unfoldable pub eval_expression : Context → Text → Result ExprError Value
  unfolding eval_node trim_space
  eval_expression c expr = parsed (lib.parse (trim_space expr ++ lit "}}")) >>= eval_node c

  -- `unwrap`
  unfoldable pub unwrap : Text → Text
  unfolding trim_space has_prefix has_suffix
  unwrap expr =
      let s = trim_space expr in
      if has_prefix s (lit "$" ++ (b'{' ∷ b'{' ∷ [])) && has_suffix s (b'}' ∷ b'}' ∷ [])
      then trim_space (take (length s - 5) (drop 3 s))
      else s

  -- `EvalBool`
  unfoldable pub eval_bool : Context → Text → Result ExprError Bool
  unfolding eval_expression unwrap truthy
  eval_bool c expr = eval_expression c (unwrap expr) >>= λ v. ok (truthy v)
