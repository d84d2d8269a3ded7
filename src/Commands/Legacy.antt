-- ===== src/Commands/Legacy.antt =====
-- internal/commands/legacy.go: outputs that a step prints. A pattern matches at the start of a line;
-- the name may go over several lines, the value ends with its line.
use mirror_gha.Base.{
  ◌==◌, if◌then◌else◌, length, drop, Text, lit, text_eq, has_prefix, Map, insert, ℕ, zero, suc, ◌+◌,
  ◌-◌, Bool, true, not, ◌&&◌, Option, none, some, List, [], ◌∷◌,
}

-- A pattern `^before([^stop]+)close(.*)$`.
pub record SetOutput : Type 0 where
  pub before : Text
  pub stop : ℕ
  pub close : Text

abbrev pub colon_set_output : SetOutput
colon_set_output = record { before = lit "::set-output name="; stop = b':'; close = lit "::" }

abbrev pub bracket_set_output : SetOutput
bracket_set_output = record { before = lit "##[set-output name="; stop = b';'; close = lit ";]" }

-- What stands before the first `stop`, and the text from there on.
unfoldable pub span_until : ℕ → Text → Text × Text
span_until stop [] = ([], [])
span_until stop (c ∷ s) =
    let (front, rest) = span_until stop s in if c == stop then ([], c ∷ s) else (c ∷ front, rest)

-- A match at the start of the text: the name, the value and how long the match is.
unfoldable pub match_output : SetOutput → Text → Option (Text × Text × ℕ)
unfolding span_until has_prefix text_eq
match_output p s =
    if has_prefix s p.before
    then (let (name, rest) = span_until p.stop (drop (length p.before) s) in
        if not (text_eq name []) && has_prefix rest p.close
        then (let (value, _) = span_until 10 (drop (length p.close) rest) in
            some (name, value, length p.before + length name + length p.close + length value))
        else none)
    else none

-- `FindAllStringSubmatch`: `line_start` tells whether a line begins here, `skip` counts the bytes of
-- a match still to be passed over.
unfoldable pub find_outputs : SetOutput → Bool → ℕ → Text → List (Text × Text)
unfolding match_output
find_outputs p line_start skip [] = []
find_outputs p line_start (suc skip) (c ∷ s) = find_outputs p (c == 10) skip s
find_outputs p line_start zero (c ∷ s) =
    elim (if line_start then match_output p (c ∷ s) else none) [
      | none ↦ find_outputs p (c == 10) 0 s
      | some (name, value, n) ↦ (name, value) ∷ find_outputs p (c == 10) (n - 1) s
    ]

-- `outputs[m[1]] = m[2]` for each match.
unfoldable pub store_outputs : List (Text × Text) → Map Text → Map Text
unfolding insert
store_outputs [] outputs = outputs
store_outputs ((name, value) ∷ found) outputs = store_outputs found (insert name value outputs)

-- `ParseLegacyOutputs`
unfoldable pub parse_legacy_outputs : Text → Map Text
unfolding find_outputs store_outputs
parse_legacy_outputs stdout =
    store_outputs (find_outputs bracket_set_output true 0 stdout)
      (store_outputs (find_outputs colon_set_output true 0 stdout) [])
