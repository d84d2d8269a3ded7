-- ===== src/Commands/Annotations/Shown.antt =====
-- The lines that `ProcessWorkflowCommands` of internal/commands/annotations.go shows.
use mirror_gha.Base.{
  Bool-cases, Option-cases, All, All-append, In, Text, lit, has_prefix, ◌≡◌, refl, ap, ◌∙◌, inl,
  inr, Bool, true, false, Option, none, some, List, [], ◌∷◌, ◌++◌,
}
use mirror_gha.Commands.Annotations.{
  Level, error, warning, notice, add_mask, group_title, debug_message, is_end_group, annotation,
  annotation_prefix, annotated, debugged, grouped, show_line, show_lines, find_masks,
}

abbrev pub IsMaskless : Text → Type 0
IsMaskless line = add_mask line ≡ none

annotated-IsMaskless :
    (o : Option (Level × Text)) (line : Text) → IsMaskless line → All IsMaskless (annotated o line)
unfolding add_mask annotation_prefix has_prefix
annotated-IsMaskless none line h = (h, tt)
annotated-IsMaskless (some (error, message)) line h = (refl, tt)
annotated-IsMaskless (some (warning, message)) line h = (refl, tt)
annotated-IsMaskless (some (notice, message)) line h = (refl, tt)

debugged-IsMaskless :
    (show_debug : Bool) (o : Option Text) (other : List Text)
    → All IsMaskless other
    → All IsMaskless (debugged show_debug o other)
unfolding add_mask has_prefix
debugged-IsMaskless show_debug none other h = h
debugged-IsMaskless true (some message) other h = (refl, tt)
debugged-IsMaskless false (some message) other h = tt

grouped-IsMaskless :
    (o : Option Text) (other : List Text) → All IsMaskless other → All IsMaskless (grouped o other)
unfolding add_mask has_prefix
grouped-IsMaskless none other h = h
grouped-IsMaskless (some title) other h = (refl, tt)

show_line-IsMaskless :
    (show_debug : Bool) (line : Text) → All IsMaskless (show_line show_debug line)
unfolding show_line
show_line-IsMaskless show_debug line = elim (Option-cases (add_mask line)) [
  | inl q ↦ elim (Bool-cases (is_end_group line)) [
    | inl e ↦ rw (q, e, show_line) tt
    | inr e ↦
        rw (q, e, show_line)
          (grouped-IsMaskless (group_title line) _ (
            debugged-IsMaskless show_debug (debug_message line) _
              (annotated-IsMaskless (annotation line) line q)))
  ]
  | inr (v, q) ↦ rw (q, show_line) tt
]

-- None of the lines shown registers a mask.
pub show_lines-IsMaskless :
    (show_debug : Bool) (lines : List Text) → All IsMaskless (show_lines show_debug lines)
unfolding show_lines
show_lines-IsMaskless show_debug [] = tt
show_lines-IsMaskless show_debug (l ∷ ls) =
    All-append IsMaskless (show_line show_debug l) (show_lines show_debug ls)
      (show_line-IsMaskless show_debug l) (show_lines-IsMaskless show_debug ls)

-- What is shown, processed again, registers no mask.
find_masks-nil : (lines : List Text) → All IsMaskless lines → find_masks lines ≡ []
unfolding find_masks
find_masks-nil [] h = refl
find_masks-nil (l ∷ ls) h = rw (h.0, find_masks) (find_masks-nil ls h.1)

add_mask-of_line : (mask : Text) → add_mask (lit "::add-mask::" ++ mask) ≡ some mask
unfolding add_mask has_prefix
add_mask-of_line mask = refl

find_masks_complete :
    (ls : List Text) (mask : Text) → In (lit "::add-mask::" ++ mask) ls → In mask (find_masks ls)
unfolding find_masks
find_masks_complete [] mask m = absurd m
find_masks_complete (l ∷ ls) mask (inl e) =
    rw (ap add_mask e ∙ add_mask-of_line mask, find_masks) (inl refl)
find_masks_complete (l ∷ ls) mask (inr m) =
    let later = find_masks_complete ls mask m in
    elim (Option-cases (add_mask l)) [
      | inl q ↦ rw (q, find_masks) later
      | inr (v, q) ↦ rw (q, find_masks) (inr later)
    ]

-- The value of an add-mask line is registered, whatever stands around it, and none of the lines
-- shown is an add-mask line, so that the lines shown register no mask.
pub find_masks-show_lines :
    (show_debug : Bool) (lines : List Text) (mask : Text)
    → In (lit "::add-mask::" ++ mask) lines
    → In mask (find_masks lines) × (find_masks (show_lines show_debug lines) ≡ [])
find_masks-show_lines show_debug lines mask h =
    (find_masks_complete lines mask h, find_masks-nil _ (show_lines-IsMaskless show_debug lines))
