-- ===== src/Expr/Syntax.antt =====
-- The expression tree that internal/engine/expr.go takes from the vendored parser, and the functions
-- that the evaluator calls and whose results no Go code of this repository fixes.
use mirror_gha.Base.{Text, Result, ℕ, Bool, List}
use mirror_gha.Workflow.{ℤ, Value}

pub data CompareKind : Type 0 where
  less less_eq greater greater_eq eq not_eq : CompareKind

pub data LogicalKind : Type 0 where
  and or : LogicalKind

mutual
  pub data Node : Type 0 where
    null_node : Node
    bool_node : Bool → Node
    int_node : ℤ → Node
    float_node : ℕ → Node
    string_node : Text → Node
    variable : Text → Node
    object_deref : Node → Text → Node
    array_deref : Node → Node
    index_access : Node → Node → Node
    not_op : Node → Node
    compare_op : CompareKind → Node → Node → Node
    logical_op : LogicalKind → Node → Node → Node
    func_call : Text → Nodes → Node

  pub data Nodes : Type 0 where
    nil : Nodes
    cons : Node → Nodes → Nodes

-- The parser; `float64(n)`; the verb `%v` on a number, a list or a mapping; encoding/json; and the
-- digest of the files that match, by the workspace and the patterns.
pub record Library : Type 0 where
  pub parse : Text → Result Text Node
  pub float_of_int : ℤ → ℕ
  pub format_value : Value → Text
  pub json_marshal : Value → Result Text Text
  pub json_unmarshal : Text → Result Text Value
  pub hash_files : Text → List Text → Result Text Text
