-- ===== src/Artifacts/Below.antt =====
-- The guard of `Resolve` in internal/artifactserver/storage.go: a path that it lets through stays
-- below the root.
use mathlib.Core.List.{append_assoc}
use mirror_gha.Base.{
  Bool-cases, all, All, All-append, Text, lit, text_eq, text_eq_iff, text_eq_ne, dot_dot, back,
  clean_step, clean_elements, Free, ◌≡◌, refl, sym, ap, ◌∙◌, ◌≢◌, ◌⊎◌, inl, inr, Bool, false, ◌||◌,
  List, [], ◌∷◌, ◌++◌,
}

-- An element that does not lead upwards.
abbrev pub Forward : Text → Type 0
Forward p = p ≢ dot_dot

-- The name of a file or a directory that a path goes down to.
abbrev pub Name : Text → Type 0
Name p = Forward p × Free b'/' p

-- The elements of a stack: those that do not lead upwards, above those that do.
pub data Stack : List Text → Type 0 where
  flat : {ps : List Text} → All (λ p. p ≡ dot_dot) ps → Stack ps
  above : {p : Text} {ps : List Text} → Forward p → Stack ps → Stack (p ∷ ps)

Stack-back : (stack : List Text) → Stack stack → Stack (back false stack)
Stack-back [] h = flat (refl, tt)
Stack-back (top ∷ below) (flat dots) = rw ((text_eq_iff top dot_dot).1 dots.0) (flat (refl, dots))
Stack-back (top ∷ below) (above forward rest) = rw (text_eq_ne top dot_dot forward) rest

Stack-clean_step : (p : Text) (stack : List Text) → Stack stack → Stack (clean_step false p stack)
unfolding clean_step
Stack-clean_step p stack h = elim (Bool-cases (text_eq p [] || text_eq p (lit "."))) [
  | inl q ↦ rw q h
  | inr q ↦ elim (Bool-cases (text_eq p dot_dot)) [
    | inl r ↦ rw (q, r) (Stack-back stack h)
    | inr r ↦ rw (q, r) (above (λ e. cc ((text_eq_iff p dot_dot).1 e, r)) h)
  ]
]

pub Stack-clean_elements :
    (ps stack : List Text) → Stack stack → Stack (clean_elements false stack ps)
unfolding clean_elements
Stack-clean_elements [] stack h = h
Stack-clean_elements (p ∷ ps) stack h =
    Stack-clean_elements ps (clean_step false p stack) (Stack-clean_step p stack h)

dots_last :
    (p : Text) (ps : List Text)
    → All (λ q. q ≡ dot_dot) (p ∷ ps)
    → (front : List Text) × (p ∷ ps ≡ front ++ dot_dot ∷ [])
dots_last p [] h = ([], ap (λ q. q ∷ []) h.0)
dots_last p (q ∷ ps) h = let (front, e) = dots_last q ps h.1 in (p ∷ front, ap (λ l. p ∷ l) e)

-- A stack is free of upward elements, or has one at its bottom.
pub Stack-cases :
    (ps : List Text)
    → Stack ps
    → All Forward ps ⊎ ((front : List Text) × (ps ≡ front ++ dot_dot ∷ []))
Stack-cases [] h = inl tt
Stack-cases (p ∷ ps) (flat dots) = inr (dots_last p ps dots)
Stack-cases (p ∷ ps) (above forward rest) = elim (Stack-cases ps rest) [
  | inl all ↦ inl (forward, all)
  | inr (front, e) ↦ inr (p ∷ front, ap (λ l. p ∷ l) e)
]

pub clean_elements-append :
    (rooted : Bool) (stack ps qs : List Text)
    → clean_elements rooted stack (ps ++ qs)
      ≡ clean_elements rooted (clean_elements rooted stack ps) qs
unfolding clean_elements
clean_elements-append rooted stack [] qs = refl
clean_elements-append rooted stack (p ∷ ps) qs =
    clean_elements-append rooted (clean_step rooted p stack) ps qs

-- Elements put on a stack.
abbrev pub Grown : (List Text → List Text) → List Text → Type 0
Grown f stack = (extra : List Text) × All Name extra × (f stack ≡ extra ++ stack)

clean_step-Forward :
    (rooted : Bool) (p : Text) (stack : List Text)
    → Forward p
    → (clean_step rooted p stack ≡ stack) ⊎ (clean_step rooted p stack ≡ p ∷ stack)
unfolding clean_step
clean_step-Forward rooted p stack h = elim (Bool-cases (text_eq p [] || text_eq p (lit "."))) [
  | inl q ↦ inl (rw q refl)
  | inr q ↦ inr (rw (q, text_eq_ne p dot_dot h) refl)
]

-- Elements that do not lead upwards leave the stack below them as it is.
pub clean_elements-Name :
    (rooted : Bool) (stack ps : List Text)
    → All Name ps
    → Grown (λ st. clean_elements rooted st ps) stack
unfolding clean_elements
clean_elements-Name rooted stack [] h = ([], tt, refl)
clean_elements-Name rooted stack (p ∷ ps) h = elim (clean_step-Forward rooted p stack h.0.0) [
  | inl q ↦ rw q (clean_elements-Name rooted stack ps h.1)
  | inr q ↦
      let (extra, forward, e) = clean_elements-Name rooted (p ∷ stack) ps h.1 in
      (
        extra ++ p ∷ [],
        All-append Name extra (p ∷ []) forward (h.0, tt),
        rw q (e ∙ sym (append_assoc extra (p ∷ []) stack)),
      )
]
