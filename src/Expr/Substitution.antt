-- ===== src/Expr/Substitution.antt =====
-- `SubstituteExpressions` of internal/engine/expr.go.
use mirror_gha.Base.{
  ◌==◌, if◌then◌else◌, length, drop, Text, has_prefix, Result, ◌>>=◌, trim_space, ℕ, zero, suc, ◌+◌,
  Option, none, some, List, [], ◌∷◌, ◌++◌, ok,
}
use mirror_gha.Expr.Contexts.{Context}
use mirror_gha.Expr.Access.{ExprError}
use mirror_gha.Expr.Syntax.{Library}
use mirror_gha.Expr.Eval.{eval_expression, to_str}

-- A text is bytes as they are and the insides of `${{ … }}`.
pub data Segment : Type 0 where
  plain : ℕ → Segment
  expr : Text → Segment

abbrev pub opening : Text
opening = b'$' ∷ b'{' ∷ b'{' ∷ []

abbrev pub closing : Text
closing = b'}' ∷ b'}' ∷ []

-- `(.*?)\}\}` at the start of a text: what stands before the first `}}` of the line.
unfoldable pub inside : Text → Option Text
unfolding has_prefix
inside [] = none
inside (c ∷ s) =
    let rest = inside s in
    if has_prefix (c ∷ s) closing
    then some []
    else if c == 10
    then none
    else elim rest [ none ↦ none | some t ↦ some (c ∷ t) ]

-- A match of `\$\{\{(.*?)\}\}` at the start of a text.
unfoldable pub matched : Text → Option Text
unfolding has_prefix inside
matched s = if has_prefix s opening then inside (drop 3 s) else none

-- The matches from left to right; `skip` counts the bytes of a match still to be passed over.
unfoldable pub segments : ℕ → Text → List Segment
unfolding matched
segments skip [] = []
segments (suc skip) (c ∷ s) = segments skip s
segments zero (c ∷ s) = elim (matched (c ∷ s)) [
  | none ↦ plain c ∷ segments zero s
  | some t ↦ expr t ∷ segments (length t + 4) s
]

module _ (lib : Library) (c : Context) where
  -- The replaced text, or the error of the last expression that has one.
  unfoldable pub replace_segments : List Segment → Result ExprError Text
  unfolding eval_expression to_str trim_space
  replace_segments [] = ok []
  replace_segments (plain b ∷ rest) = replace_segments rest >>= λ t. ok (b ∷ t)
  replace_segments (expr e ∷ rest) = replace_segments rest >>= λ t.
      eval_expression lib c (trim_space e) >>= λ v. ok (to_str lib v ++ t)

  -- `SubstituteExpressions`
  unfoldable pub substitute_expressions : Text → Result ExprError Text
  unfolding segments replace_segments
  substitute_expressions s = replace_segments (segments 0 s)
