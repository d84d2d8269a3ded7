-- ===== src/Matrix/Product.antt =====
-- The cartesian product and the `exclude:` filter of internal/engine/matrix.go.
use native.Mathlib.Nat.{mul_assoc}
use mirror_gha.Base.{
  if◌then◌else◌, Bool-cases, length, any, All, length-append, In, In-append_left, In-append_right,
  In-append, All-In, In-keep, In-of_keep, All-of_In, Text, text_eq, text_eq_iff, text_eq_ne, In-dec,
  Map, lookup, insert, lookup-insert, ℕ, suc, ◌*◌, ◌≡◌, refl, sym, ap, ◌∙◌, subst, ◌⊎◌, inl, inr,
  true, false, not, none, some, List, [], ◌∷◌, arith,
}
use mirror_gha.Workflow.{Value}
use mirror_gha.Matrix.Defs.{
  Combination, axis, extend_one, extend_all, product_from, product, apply_matrix_exclude,
  matrix_all_match,
}

-- `c` is `c0` with `k` set to one of `vs`.
abbrev Sets : Text → List Value → Combination → Combination → Type 0
Sets k vs c0 c = (v : Value) × In v vs × (c ≡ insert k v c0)

extend_one-Sets :
    (k : Text) (vs : List Value) (c0 c : Combination) → In c (extend_one k vs c0) → Sets k vs c0 c
unfolding extend_one
extend_one-Sets k [] c0 c h = absurd h
extend_one-Sets k (v ∷ vs) c0 c (inl e) = (v, inl refl, sym e)
extend_one-Sets k (v ∷ vs) c0 c (inr m) =
    let (u, i, e) = extend_one-Sets k vs c0 c m in (u, inr i, e)

extend_one_complete :
    (k : Text) (vs : List Value) (c0 : Combination) (v : Value)
    → In v vs
    → In (insert k v c0) (extend_one k vs c0)
unfolding extend_one
extend_one_complete k [] c0 v h = absurd h
extend_one_complete k (u ∷ vs) c0 v (inl e) = inl (ap (λ w. insert k w c0) e)
extend_one_complete k (u ∷ vs) c0 v (inr m) = inr (extend_one_complete k vs c0 v m)

extend_all-Sets :
    (k : Text) (vs : List Value) (combos : List Combination) (c : Combination)
    → In c (extend_all k vs combos)
    → (c0 : Combination) × In c0 combos × Sets k vs c0 c
unfolding extend_all
extend_all-Sets k vs [] c h = absurd h
extend_all-Sets k vs (c0 ∷ combos) c h =
    elim (In-append c (extend_one k vs c0) (extend_all k vs combos) h) [
      | inl m ↦ (c0, inl refl, extend_one-Sets k vs c0 c m)
      | inr m ↦ let (d, i, s) = extend_all-Sets k vs combos c m in (d, inr i, s)
    ]

extend_all_complete :
    (k : Text) (vs : List Value) (combos : List Combination) (c0 : Combination) (v : Value)
    → In c0 combos
    → In v vs
    → In (insert k v c0) (extend_all k vs combos)
unfolding extend_all
extend_all_complete k vs [] c0 v h m = absurd h
extend_all_complete k vs (d ∷ combos) c0 v (inl e) m =
    In-append_left (insert k v c0) (extend_one k vs d) (extend_all k vs combos) (
      subst (λ b. In (insert k v c0) (extend_one k vs b)) (sym e) (extend_one_complete k vs c0 v m))
extend_all_complete k vs (d ∷ combos) c0 v (inr h) m =
    In-append_right (insert k v c0) (extend_one k vs d) (extend_all k vs combos)
      (extend_all_complete k vs combos c0 v h m)

length-extend_one :
    (k : Text) (vs : List Value) (c0 : Combination) → length (extend_one k vs c0) ≡ length vs
unfolding extend_one
length-extend_one k [] c0 = refl
length-extend_one k (v ∷ vs) c0 = ap suc (length-extend_one k vs c0)

length-extend_all :
    (k : Text) (vs : List Value) (combos : List Combination)
    → length (extend_all k vs combos) ≡ length combos * length vs
unfolding extend_all
length-extend_all k vs [] = omega arith
length-extend_all k vs (c ∷ combos) = omega (
  arith,
  length-append (extend_one k vs c) (extend_all k vs combos),
  length-extend_one k vs c,
  length-extend_all k vs combos,
)

-- `c` gives every key one of the values of its axis, and is `c0` on the other keys.
record Extends (axes : Map (List Value)) (ks : List Text) (c0 c : Combination) : Type 0 where
  chosen : (k : Text) → In k ks → (v : Value) × In v (axis axes k) × (lookup k c ≡ some v)
  others : (k : Text) → (¬ In k ks) → lookup k c ≡ lookup k c0

-- `c` gives every key of `ks` one of the values of its axis, and binds no other key.
pub record Assigns (axes : Map (List Value)) (ks : List Text) (c : Combination) : Type 0 where
  pub chosen : All (λ k. (v : Value) × In v (axis axes k) × (lookup k c ≡ some v)) ks
  pub only : (k : Text) → In k ks ⊎ (lookup k c ≡ none)

module _ (axes : Map (List Value)) where
  product_from-Extends :
      (ks : List Text) (combos : List Combination) (c : Combination)
      → In c (product_from axes ks combos)
      → (c0 : Combination) × In c0 combos × Extends axes ks c0 c
  unfolding product_from
  product_from-Extends [] combos c h =
      (c, h, record { chosen = λ k m. absurd m; others = λ k m. refl })
  product_from-Extends (k ∷ ks) combos c h =
      let (c1, m1, a) = product_from-Extends ks (extend_all k (axis axes k) combos) c h in
      let (c0, m0, s) = extend_all-Sets k (axis axes k) combos c1 m1 in
      let (v, mv, e) = s in
      let at : (j : Text) → lookup j c1 ≡ (if text_eq k j then some v else lookup j c0) = λ j.
        subst (λ d. lookup j d ≡ (if text_eq k j then some v else lookup j c0)) (sym e)
          (lookup-insert k j v c0) in
      (
        c0,
        m0,
        record {
          chosen = λ j m. elim (In-dec j ks) [
            | inl later ↦ a.chosen j later
            | inr never ↦ elim m [
              | inl same ↦ (
                v,
                subst (λ i. In v (axis axes i)) same mv,
                a.others j never ∙ at j ∙ rw ((text_eq_iff k j).1 same),
              )
              | inr later ↦ absurd (never later)
            ]
          ];
          others = λ j away.
              a.others j (λ m. away (inr m)) ∙ at j ∙ rw (text_eq_ne k j (λ e. away (inl e)));
        },
      )

  product_from_complete :
      (choice : Text → Value) (ks : List Text) (combos : List Combination) (c0 : Combination)
      → In c0 combos
      → ((k : Text) → In k ks → In (choice k) (axis axes k))
      → (c : Combination) × In c (product_from axes ks combos)
        × ((k : Text) → In k ks → lookup k c ≡ some (choice k))
        × ((k : Text) → (¬ In k ks) → lookup k c ≡ lookup k c0)
  unfolding product_from
  product_from_complete choice [] combos c0 m ok_choice = (c0, m, (λ k i. absurd i), (λ k i. refl))
  product_from_complete choice (k ∷ ks) combos c0 m ok_choice =
      let vs = axis axes k in
      let v = choice k in
      let (c, i, chosen, others) =
        product_from_complete choice ks (extend_all k vs combos) (insert k v c0)
          (extend_all_complete k vs combos c0 v m (ok_choice k (inl refl)))
          (λ j mj. ok_choice j (inr mj)) in
      (
        c,
        i,
        (λ j mj. elim (In-dec j ks) [
          | inl later ↦ chosen j later
          | inr never ↦ elim mj [
            | inl same ↦
                others j never
                ∙ lookup-insert k j v c0
                ∙ rw ((text_eq_iff k j).1 same) (ap (λ n. some (choice n)) same)
            | inr later ↦ absurd (never later)
          ]
        ]),
        (λ j away.
            others j (λ mj. away (inr mj))
            ∙ lookup-insert k j v c0
            ∙ rw (text_eq_ne k j (λ e. away (inl e)))),
      )

  -- The product of the lengths of the axes.
  abbrev sizes : List Text → ℕ
  sizes [] = 1
  sizes (k ∷ ks) = length (axis axes k) * sizes ks

  length-product_from :
      (ks : List Text) (combos : List Combination)
      → length (product_from axes ks combos) ≡ length combos * sizes ks
  unfolding product_from
  length-product_from [] combos = omega arith
  length-product_from (k ∷ ks) combos =
      length-product_from ks (extend_all k (axis axes k) combos)
      ∙ ap (λ n. n * sizes ks) (length-extend_all k (axis axes k) combos)
      ∙ mul_assoc (length combos) (length (axis axes k)) (sizes ks)

  -- A job with axes runs once for each choice of a value for every axis: as many combinations as
  -- the product of the lengths of the axes.
  length-product : (k : Text) (ks : List Text) → length (product axes (k ∷ ks)) ≡ sizes (k ∷ ks)
  unfolding product
  length-product k ks = omega (arith, length-product_from (k ∷ ks) ([] ∷ []))

  none_match-of_any :
      (c : Combination) (es : List (Map Value))
      → not (any (matrix_all_match c) es) ≡ true
      → All (λ e. matrix_all_match c e ≡ false) es
  none_match-of_any c [] h = tt
  none_match-of_any c (e ∷ es) h = (ground arith, none_match-of_any c es (ground arith))

  Assigns-product :
      (k : Text) (ks : List Text) (c : Combination)
      → In c (product axes (k ∷ ks))
      → Assigns axes (k ∷ ks) c
  unfolding product lookup
  Assigns-product k ks c h =
      let (c0, m, a) = product_from-Extends (k ∷ ks) ([] ∷ []) c h in
      let empty : c0 ≡ [] = elim m [ inl e ↦ sym e | inr b ↦ absurd b ] in
      record {
        chosen = All-of_In _ (k ∷ ks) a.chosen;
        only = λ j. elim (In-dec j (k ∷ ks)) [
          | inl here ↦ inl here
          | inr away ↦ inr (a.others j away ∙ ap (lookup j) empty)
        ];
      }

  -- What `exclude:` leaves: every combination gives each axis one of its values, binds no other key
  -- and contains no exclude entry.
  pub apply_matrix_exclude-Assigns :
      (k : Text) (ks : List Text) (es : List (Map Value)) (c : Combination)
      → In c (apply_matrix_exclude (product axes (k ∷ ks)) es)
      → Assigns axes (k ∷ ks) c × All (λ e. matrix_all_match c e ≡ false) es
  unfolding apply_matrix_exclude product
  apply_matrix_exclude-Assigns k ks [] c h = (Assigns-product k ks c h, tt)
  apply_matrix_exclude-Assigns k ks (e ∷ es) c h =
      let (i, t) =
        In-keep (λ c. not (any (matrix_all_match c) (e ∷ es))) c (product axes (k ∷ ks)) h in
      (Assigns-product k ks c i, none_match-of_any c (e ∷ es) t)

  -- Every choice of a value for each axis is a combination that is among those left by `exclude:`,
  -- or contains an exclude entry.
  pub apply_matrix_exclude_complete :
      (choice : Text → Value) (k : Text) (ks : List Text) (es : List (Map Value))
      → All (λ j. In (choice j) (axis axes j)) (k ∷ ks)
      → (c : Combination) × All (λ j. lookup j c ≡ some (choice j)) (k ∷ ks)
        × (In c (apply_matrix_exclude (product axes (k ∷ ks)) es)
            ⊎ (any (matrix_all_match c) es ≡ true))
  unfolding apply_matrix_exclude product
  apply_matrix_exclude_complete choice k ks es fits =
      let (c, i, chosen, _) =
        product_from_complete choice (k ∷ ks) ([] ∷ []) [] (inl refl)
          (λ j m. All-In (λ j. In (choice j) (axis axes j)) (k ∷ ks) j fits m) in
      (c, All-of_In _ (k ∷ ks) chosen, kept es c i)
    where
      kept :
          (es : List (Map Value)) (c : Combination)
          → In c (product axes (k ∷ ks))
          → In c (apply_matrix_exclude (product axes (k ∷ ks)) es)
            ⊎ (any (matrix_all_match c) es ≡ true)
      kept [] c i = inl i
      kept (e ∷ es) c i = elim (Bool-cases (any (matrix_all_match c) (e ∷ es))) [
        | inl hit ↦ inr hit
        | inr free ↦ inl (
            In-of_keep (λ c. not (any (matrix_all_match c) (e ∷ es))) c (product axes (k ∷ ks)) i
              (rw free))
      ]
