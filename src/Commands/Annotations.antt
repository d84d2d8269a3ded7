-- ===== src/Commands/Annotations.antt =====
-- internal/commands/annotations.go: the workflow commands on a step's output. The patterns are
-- anchored at line starts and hold no line break, so each is a function of one line.
pub mod Redact
pub mod Shown
use mirror_gha.Base.{
  ◌==◌, if◌then◌else◌, length, drop, all, Text, lit, text_eq, has_prefix, split, join, replace_all,
  ℕ, Bool, false, ◌||◌, Option, none, some, List, [], ◌∷◌, ◌++◌,
}

-- `^…(.*)$` for a literal beginning: what stands behind it.
abbrev pub behind : Text → Text → Option Text
behind p line = if has_prefix line p then some (drop (length p) line) else none

unfoldable pub add_mask : Text → Option Text
unfolding has_prefix
add_mask = behind (lit "::add-mask::")

unfoldable pub group_title : Text → Option Text
unfolding has_prefix
group_title = behind (lit "::group::")

unfoldable pub debug_message : Text → Option Text
unfolding has_prefix
debug_message = behind (lit "::debug::")

-- `\s`
abbrev is_blank : ℕ → Bool
is_blank c = c == 32 || c == 9 || c == 10 || c == 12 || c == 13

abbrev all_blank : Option Text → Bool
all_blank none = false
all_blank (some rest) = all is_blank rest

unfoldable pub is_end_group : Text → Bool
unfolding has_prefix
is_end_group line = all_blank (behind (lit "::endgroup::") line)

pub data Level : Type 0 where
  error warning notice : Level

-- `[^:]*::(.*)$`
unfoldable pub after_parameters : Text → Option Text
unfolding has_prefix
after_parameters [] = none
after_parameters (c ∷ s) =
    let rest = after_parameters s in if c == b':' then behind (lit "::") (c ∷ s) else rest

abbrev or_parameters : Option Text → Text → Option Text
or_parameters (some message) s = some message
or_parameters none [] = none
or_parameters none (c ∷ s) = if is_blank c then after_parameters (c ∷ s) else none

-- `(?:\s+[^:]*)?::(.*)$`
unfoldable pub annotation_tail : Text → Option Text
unfolding has_prefix after_parameters
annotation_tail s = or_parameters (behind (lit "::") s) s

abbrev leveled : Level → Option Text → Option (Level × Text)
leveled level none = none
leveled level (some message) = some (level, message)

abbrev at_level : Level → Text → Text → Option (Level × Text) → Option (Level × Text)
at_level level word line other = elim (behind word line) [
  | none ↦ other
  | some rest ↦ leveled level (annotation_tail rest)
]

-- `annotationPattern.FindStringSubmatch`
unfoldable pub annotation : Text → Option (Level × Text)
unfolding has_prefix annotation_tail
annotation line =
    at_level error (lit "::error") line
      (at_level warning (lit "::warning") line (at_level notice (lit "::notice") line none))

-- The UTF-8 bytes of the signs that the program prints.
unfoldable pub annotation_prefix : Level → Text
annotation_prefix error = 0xe2 ∷ 0x9d ∷ 0x8c ∷ 32 ∷ []
annotation_prefix warning = 0xe2 ∷ 0x9a ∷ 0xa0 ∷ 0xef ∷ 0xb8 ∷ 0x8f ∷ 32 ∷ 32 ∷ []
annotation_prefix notice = 0xe2 ∷ 0x84 ∷ 0xb9 ∷ 0xef ∷ 0xb8 ∷ 0x8f ∷ 32 ∷ 32 ∷ []

abbrev pub group_sign : Text
group_sign = 0xe2 ∷ 0x96 ∷ 0xb6 ∷ 32 ∷ []

abbrev pub debug_sign : Text
debug_sign = 0xf0 ∷ 0x9f ∷ 0x90 ∷ 0x9b ∷ 32 ∷ []

abbrev pub annotated : Option (Level × Text) → Text → List Text
annotated none line = line ∷ []
annotated (some (level, message)) line = (annotation_prefix level ++ message) ∷ []

abbrev pub debugged : Bool → Option Text → List Text → List Text
debugged show_debug none other = other
debugged show_debug (some message) other = if show_debug then (debug_sign ++ message) ∷ [] else []

abbrev pub grouped : Option Text → List Text → List Text
grouped none other = other
grouped (some title) other = (group_sign ++ title) ∷ []

-- The `switch` of `ProcessWorkflowCommands`: the lines that one line is shown as.
unfoldable pub show_line : Bool → Text → List Text
unfolding add_mask group_title debug_message is_end_group annotation annotation_prefix
show_line show_debug line = elim (add_mask line) [
  | some _ ↦ []
  | none ↦
      if is_end_group line
      then []
      else grouped (group_title line)
          (debugged show_debug (debug_message line) (annotated (annotation line) line))
]

unfoldable pub show_lines : Bool → List Text → List Text
unfolding show_line
show_lines show_debug [] = []
show_lines show_debug (l ∷ ls) = show_line show_debug l ++ show_lines show_debug ls

abbrev masked : Option Text → List Text → List Text
masked none masks = masks
masked (some mask) masks = mask ∷ masks

unfoldable pub find_masks : List Text → List Text
unfolding add_mask
find_masks [] = []
find_masks (l ∷ ls) = masked (add_mask l) (find_masks ls)

-- `ProcessWorkflowCommands`
unfoldable pub process_workflow_commands : Text → Bool → Text × List Text
unfolding show_lines find_masks split join
process_workflow_commands text show_debug =
    let lines = split 10 text in (join (10 ∷ []) (show_lines show_debug lines), find_masks lines)

-- `RedactMasks`
unfoldable pub redact_masks : Text → List Text → Text
unfolding text_eq replace_all
redact_masks text [] = text
redact_masks text (v ∷ masks) =
    redact_masks (if text_eq v [] then text else replace_all v (lit "***") text) masks
