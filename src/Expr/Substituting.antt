-- ===== src/Expr/Substituting.antt =====
-- What `SubstituteExpressions` of internal/engine/expr.go makes of a text.
use mirror_gha.Base.{
  ◌==◌, Bool-cases, length, In, Text, has_prefix, ◌>>=◌, Result-cases, contains, trim_space, ℕ,
  zero, suc, ◌+◌, ◌≡◌, refl, sym, ap, ◌∙◌, ◌≢◌, inl, inr, false, none, some, List, [], ◌∷◌, ◌++◌,
  map, arith, ok, err,
}
use mathlib.Core.List.{append-nil}
use mirror_gha.Expr.Contexts.{Context}
use mirror_gha.Expr.Access.{ExprError}
use mirror_gha.Expr.Syntax.{Library}
use mirror_gha.Expr.Eval.{eval_expression, to_str}
use mirror_gha.Expr.Substitution.{
  Segment, plain, expr, opening, closing, inside, matched, segments, replace_segments,
  substitute_expressions,
}

matched-absent : (s : Text) → has_prefix s opening ≡ false → matched s ≡ none
unfolding matched
matched-absent s h = rw h refl

-- A text with no opening is plain.
segments-absent : (s : Text) → contains s opening ≡ false → segments 0 s ≡ map plain s
unfolding segments contains
segments-absent [] h = refl
segments-absent (c ∷ s) h = elim (Bool-cases (has_prefix (c ∷ s) opening)) [
  | inl p ↦ let h' = rw p at h in cc h'
  | inr p ↦
      let h' : contains s opening ≡ false = rw p at h in
      rw (matched-absent (c ∷ s) p, segments) (ap (λ t. plain c ∷ t) (segments-absent s h'))
]

-- The inside of an expression ends at the closing, if it has no brace and no line break.
inside-closing :
    (e rest : Text) → ¬ In b'}' e → ¬ In 10 e → inside (e ++ (closing ++ rest)) ≡ some e
unfolding inside has_prefix
inside-closing [] rest brace newline = refl
inside-closing (c ∷ e) rest brace newline =
    let differ : c ≢ b'}' = λ q. brace (inl q) in
    let differ' : c ≢ 10 = λ q. newline (inl q) in
    let no_brace : c == b'}' ≡ false = ground arith in
    let no_newline : c == 10 ≡ false = ground arith in
    rw
      (
        no_brace,
        no_newline,
        inside-closing e rest (λ m. brace (inr m)) (λ m. newline (inr m)),
        inside,
      )
      refl

segments-skip :
    (x rest : Text) (n m : ℕ) → n ≡ length x + m → segments n (x ++ rest) ≡ segments m rest
unfolding segments
segments-skip [] rest n m e = let same : n ≡ m = omega arith in ap (λ k. segments k rest) same
segments-skip (c ∷ x) rest zero m e = absurd (omega arith)
segments-skip (c ∷ x) rest (suc n) m e = segments-skip x rest n m (omega arith)

-- An expression, with what stands behind it.
segments-expr :
    (e rest : Text)
    → ¬ In b'}' e
    → ¬ In 10 e
    → segments 0 (opening ++ (e ++ (closing ++ rest))) ≡ expr e ∷ segments 0 rest
unfolding segments matched has_prefix
segments-expr e rest brace newline =
    let n = length e + 4 in
    let behind : segments n (b'{' ∷ b'{' ∷ (e ++ (closing ++ rest))) ≡ segments 0 rest =
      segments-skip (b'{' ∷ b'{' ∷ []) (e ++ (closing ++ rest)) n (length e + 2) (omega arith)
      ∙ segments-skip e (closing ++ rest) (length e + 2) 2 (omega arith)
      ∙ segments-skip closing rest 2 0 (omega arith) in
    rw (inside-closing e rest brace newline, segments, matched) (ap (λ t. expr e ∷ t) behind)

segments-plain :
    (a rest : Text) → ¬ In b'$' a → segments 0 (a ++ rest) ≡ map plain a ++ segments 0 rest
unfolding segments has_prefix
segments-plain [] rest h = refl
segments-plain (c ∷ a) rest h =
    let differ : c ≢ b'$' = λ q. h (inl q) in
    let no_dollar : c == b'$' ≡ false = ground arith in
    let none_here : has_prefix (c ∷ (a ++ rest)) opening ≡ false = rw no_dollar refl in
    rw (matched-absent (c ∷ (a ++ rest)) none_here, segments)
      (ap (λ t. plain c ∷ t) (segments-plain a rest (λ m. h (inr m))))

module _ (lib : Library) (c : Context) where
  replace_segments-plain :
      (a : Text) (rest : List Segment) {t : Text}
      → replace_segments lib c rest ≡ ok t
      → replace_segments lib c (map plain a ++ rest) ≡ ok (a ++ t)
  unfolding replace_segments
  replace_segments-plain [] rest h = h
  replace_segments-plain (b ∷ a) rest h =
      rw (replace_segments-plain a rest h, replace_segments) refl

  replace_segments-err :
      (a : Text) (rest : List Segment) {e : ExprError}
      → replace_segments lib c rest ≡ err e
      → replace_segments lib c (map plain a ++ rest) ≡ err e
  unfolding replace_segments
  replace_segments-err [] rest h = h
  replace_segments-err (b ∷ a) rest h = rw (replace_segments-err a rest h, replace_segments) refl

  -- A text with no `${{` is unchanged.
  substitute_expressions-absent :
      (s : Text) → contains s opening ≡ false → substitute_expressions lib c s ≡ ok s
  unfolding substitute_expressions replace_segments
  substitute_expressions-absent s h =
      ap (replace_segments lib c) (segments-absent s h ∙ sym (append-nil (map plain s)))
      ∙ replace_segments-plain s [] refl
      ∙ ap ok (append-nil s)

  -- The first expression of a text: with no `$` before it, and no brace or line break inside, it is
  -- replaced by its value between the text before it, which stays, and the rest, which is treated
  -- in the same way and whose error comes first.
  pub substitute_expressions_lem :
      (a e b : Text)
      → ¬ In b'$' a
      → ¬ In b'}' e
      → ¬ In 10 e
      → substitute_expressions lib c (a ++ (opening ++ (e ++ (closing ++ b)))) ≡ (
          substitute_expressions lib c b >>= λ t.
          eval_expression lib c (trim_space e) >>= λ v. ok (a ++ (to_str lib v ++ t)))
  unfolding substitute_expressions replace_segments
  substitute_expressions_lem a e b free brace newline =
      let split =
        segments-plain a (opening ++ (e ++ (closing ++ b))) free
        ∙ ap (λ l. map plain a ++ l) (segments-expr e b brace newline) in
      ap (replace_segments lib c) split
      ∙ elim (Result-cases (replace_segments lib c (segments 0 b))) [
        | inr (x, q) ↦ rw q (replace_segments-err a _ (rw (q, replace_segments) refl))
        | inl (t, q) ↦ elim (Result-cases (eval_expression lib c (trim_space e))) [
          | inr (x, r) ↦ rw (q, r) (replace_segments-err a _ (rw (q, r, replace_segments) refl))
          | inl (v, r) ↦ rw (q, r) (replace_segments-plain a _ (rw (q, r, replace_segments) refl))
        ]
      ]
