-- ===== src/Artifacts/Guard.antt =====
-- `Resolve` of internal/artifactserver/storage.go: a path that it lets through stays below the root.
use mathlib.Core.List.{append-nil, reverse-append}
use mirror_gha.Base.{
  Bool-cases, all, All, All-append, Text, lit, text_eq, text_eq_iff, text_eq_ne, has_prefix,
  not-In_of_any, ok-injective, split_rest, split, join, slash, dot_dot, back, clean_step,
  clean_elements, show_path, clean, join_paths, join_path, Free, split-Free, split-sep, split-join,
  split-append, ◌≡◌, refl, sym, ap, ◌∙◌, subst, ◌≢◌, inl, inr, Bool, true, false, ◌||◌, List, [],
  ◌∷◌, ◌++◌, reverse, ok,
}
use mirror_gha.Artifacts.Disk.{Disk, resolve}
use mirror_gha.Artifacts.Below.{
  clean_elements-Name, Name, Forward, flat, Stack-cases, Stack-clean_elements,
  clean_elements-append,
}

module _ (P : Text → Type 0) where
  All-reverse : (ps : List Text) → All P ps → All P (reverse ps)
  All-reverse [] h = tt
  All-reverse (p ∷ ps) h =
      subst (All P) (sym (reverse-append (p ∷ []) ps))
        (All-append P (reverse ps) (p ∷ []) (All-reverse ps h.1) (h.0, tt))

  All-back :
      (rooted : Bool) (stack : List Text) → P dot_dot → All P stack → All P (back rooted stack)
  All-back true [] dots h = tt
  All-back false [] dots h = (dots, tt)
  All-back rooted (top ∷ below) dots h = elim (Bool-cases (text_eq top dot_dot)) [
    | inl q ↦ rw q (dots, h)
    | inr q ↦ rw q h.1
  ]

  All-clean_step :
      (rooted : Bool) (p : Text) (stack : List Text)
      → P dot_dot
      → P p
      → All P stack
      → All P (clean_step rooted p stack)
  unfolding clean_step
  All-clean_step rooted p stack dots new h =
      elim (Bool-cases (text_eq p [] || text_eq p (lit "."))) [
        | inl q ↦ rw q h
        | inr q ↦ elim (Bool-cases (text_eq p dot_dot)) [
          | inl r ↦ rw (q, r) (All-back rooted stack dots h)
          | inr r ↦ rw (q, r) (new, h)
        ]
      ]

  All-clean_elements :
      (rooted : Bool) (stack ps : List Text)
      → P dot_dot
      → All P ps
      → All P stack
      → All P (clean_elements rooted stack ps)
  unfolding clean_elements
  All-clean_elements rooted stack [] dots new h = h
  All-clean_elements rooted stack (p ∷ ps) dots new h =
      All-clean_elements rooted (clean_step rooted p stack) ps dots new.1
        (All-clean_step rooted p stack dots new.0 h)

All-both : (P Q : Text → Type 0) (ps : List Text) → All P ps → All Q ps → All (λ p. P p × Q p) ps
All-both P Q [] h k = tt
All-both P Q (p ∷ ps) h k = ((h.0, k.0), All-both P Q ps h.1 k.1)

-- Below a root nothing leads upwards.
Forward-clean_elements :
    (stack ps : List Text) → All Forward stack → All Forward (clean_elements true stack ps)
unfolding clean_elements clean_step
Forward-clean_elements stack [] h = h
Forward-clean_elements stack (p ∷ ps) h =
    Forward-clean_elements (clean_step true p stack) ps
      (elim (Bool-cases (text_eq p [] || text_eq p (lit "."))) [
        | inl q ↦ rw q h
        | inr q ↦ elim (Bool-cases (text_eq p dot_dot)) [
          | inl r ↦ rw (q, r) (lower stack h)
          | inr r ↦ rw (q, r) ((λ e. cc ((text_eq_iff p dot_dot).1 e, r)), h)
        ]
      ])
  where
    lower : (stack : List Text) → All Forward stack → All Forward (back true stack)
    lower [] k = tt
    lower (top ∷ below) k = rw (text_eq_ne top dot_dot k.0) k.1

-- The elements of a path that is shown lead nowhere but forward, if those given do.
split-show_path :
    (rooted : Bool) (ps : List Text)
    → All (Free b'/') ps
    → All Forward ps
    → All Forward (split b'/' (show_path rooted ps))
unfolding show_path
split-show_path true [] free forward = unfold split split_rest in ((λ e. cc e), ((λ e. cc e), tt))
split-show_path false [] free forward = unfold split split_rest in ((λ e. cc e), tt)
split-show_path true (p ∷ ps) free forward =
    subst (All Forward)
      (sym (
        split-sep b'/' [] (join slash (p ∷ ps)) (λ m. m)
        ∙ ap (λ l. [] ∷ l) (split-join b'/' p ps free)))
      ((λ e. cc e), forward)
split-show_path false (p ∷ ps) free forward =
    subst (All Forward) (sym (split-join b'/' p ps free)) forward

-- The guard of `Resolve`.
abbrev escapes : Text → Bool
escapes cleaned = text_eq cleaned dot_dot || has_prefix cleaned (dot_dot ++ slash)

escapes-show_path : (ps : List Text) → escapes (show_path false (dot_dot ∷ ps)) ≡ true
unfolding show_path join text_eq has_prefix
escapes-show_path [] = refl
escapes-show_path (p ∷ ps) = refl

-- A cleaned path that passes the guard has no element that leads upwards.
split-clean : (rel : Text) → escapes (clean rel) ≡ false → All Forward (split b'/' (clean rel))
unfolding clean
split-clean rel h =
    let free = split-Free b'/' rel in
    let dots : Free b'/' dot_dot = not-In_of_any b'/' dot_dot refl in
    elim (Bool-cases (has_prefix rel slash)) [
      | inl q ↦
          let st = clean_elements true [] (split b'/' rel) in
          rw (q, clean)
            (split-show_path true (reverse st)
              (All-reverse (Free b'/') st
                (All-clean_elements (Free b'/') true [] (split b'/' rel) dots free tt))
              (All-reverse Forward st (Forward-clean_elements [] (split b'/' rel) tt)))
      | inr q ↦
          let st = clean_elements false [] (split b'/' rel) in
          let kept = All-clean_elements (Free b'/') false [] (split b'/' rel) dots free tt in
          elim (Stack-cases st (Stack-clean_elements (split b'/' rel) [] (flat tt))) [
            | inl all ↦
                rw (q, clean)
                  (split-show_path false (reverse st) (All-reverse (Free b'/') st kept)
                    (All-reverse Forward st all))
            | inr (front, e) ↦
                let h' : escapes (show_path false (reverse st)) ≡ false = rw (q, clean) at h in
                let shown : reverse st ≡ dot_dot ∷ reverse front =
                  ap reverse e ∙ reverse-append front (dot_dot ∷ []) in
                let bad : escapes (show_path false (reverse st)) ≡ true =
                  ap (λ l. escapes (show_path false l)) shown ∙ escapes-show_path (reverse front) in
                absurd (cc (bad, h'))
          ]
    ]

-- The names of a rooted path, from the root on.
unfoldable pub elements : Text → List Text
elements path = reverse (clean_elements true [] (split b'/' path))

-- A path with further names behind those of `root`.
pub record Below (root path : Text) : Type 0 where
  pub names : List Text
  pub named : All Name names
  pub extends : path ≡ show_path true (elements root ++ names)

clean-root : (root : Text) → has_prefix root slash ≡ true → Below root (clean root)
unfolding clean elements
clean-root root h = record {
  names = [];
  named = tt;
  extends = rw (h, clean) (ap (show_path true) (sym (append-nil (elements root))));
}

prefix-append : (root s : Text) → has_prefix root slash ≡ true → has_prefix (root ++ s) slash ≡ true
unfolding has_prefix
prefix-append [] s h = cc h
prefix-append (c ∷ root) s h = h

clean-joined :
    (root c : Text)
    → has_prefix root slash ≡ true
    → All Forward (split b'/' c)
    → Below root (clean (root ++ b'/' ∷ c))
unfolding clean elements
clean-joined root c h forward =
    let st = clean_elements true [] (split b'/' root) in
    let names = All-both Forward (Free b'/') (split b'/' c) forward (split-Free b'/' c) in
    let (extra, ahead, grown) = clean_elements-Name true st (split b'/' c) names in
    let pieces : clean_elements true [] (split b'/' (root ++ b'/' ∷ c)) ≡ extra ++ st =
      ap (clean_elements true []) (split-append b'/' root c)
      ∙ clean_elements-append true [] (split b'/' root) (split b'/' c)
      ∙ grown in
    record {
      names = reverse extra;
      named = All-reverse Name extra ahead;
      extends =
          rw (prefix-append root (b'/' ∷ c) h, clean)
            (ap (λ l. show_path true (reverse l)) pieces
              ∙ ap (show_path true) (reverse-append extra st));
    }

no_root : has_prefix [] slash ≢ true
unfolding has_prefix
no_root h = cc h

Below-join_path :
    (root c : Text)
    → has_prefix root slash ≡ true
    → All Forward (split b'/' c)
    → Below root (join_path root c)
unfolding join_paths join
Below-join_path [] c h forward = absurd (no_root h)
Below-join_path (r ∷ root) c h forward = elim (Bool-cases (text_eq c [])) [
  | inl q ↦ rw (q, join_paths) (clean-root (r ∷ root) h)
  | inr q ↦ rw (q, join_paths) (clean-joined (r ∷ root) c h forward)
]

-- A path that `Resolve` gives in a store with a rooted path has the names of the store's root, and
-- behind them names without a slash that are not `..`.
pub resolve-Below :
    (d : Disk) (rel : Text) {path : Text}
    → has_prefix d.root slash ≡ true
    → resolve d rel ≡ ok path
    → Below d.root path
unfolding resolve
resolve-Below d rel rooted h = elim (Bool-cases (escapes (clean rel))) [
  | inl q ↦ let h' = rw (q, resolve) at h in cc h'
  | inr q ↦
      let same = ok-injective (rw (q, resolve) at h) in
      subst (Below d.root) same (Below-join_path d.root (clean rel) rooted (split-clean rel q))
]
