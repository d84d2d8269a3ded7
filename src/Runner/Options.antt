-- ===== src/Runner/Options.antt =====
-- `splitDockerOptions` of internal/runner/dockeropts.go. The texts are sequences of runes here.
pub mod Tokens
use mirror_gha.Base.{
  ◌==◌, if◌then◌else◌, Text, Result, ℕ, Bool, true, false, ◌||◌, Option, none, some, List, [], ◌∷◌,
  ◌++◌, ok, err,
}

pub record Scan : Type 0 where
  pub tokens : List Text
  pub current : Text
  pub in_token : Bool
  pub quote : Option ℕ  -- `none` outside a quoted region

unfoldable pub flush : Scan → Scan
flush s =
    if s.in_token
    then record s { tokens = s.tokens ++ s.current ∷ []; current = []; in_token = false }
    else s

abbrev pub is_separator : ℕ → Bool
is_separator r = r == b' ' || r == 9 || r == 10 || r == 13

abbrev pub is_quote : ℕ → Bool
is_quote r = r == b'"' || r == 39

-- One round of the loop over the runes.
unfoldable pub scan_rune : ℕ → Scan → Scan
unfolding flush
scan_rune r s = elim s.quote [
  | some quote ↦
      if r == quote then record s { quote = none } else record s { current = s.current ++ r ∷ [] }
  | none ↦
      if is_separator r
      then flush s
      else if is_quote r
      then record s { quote = some r; in_token = true }
      else record s { in_token = true; current = s.current ++ r ∷ [] }
]

unfoldable pub scan_runes : Text → Scan → Scan
unfolding scan_rune
scan_runes [] s = s
scan_runes (r ∷ rs) s = scan_runes rs (scan_rune r s)

pub data OptionsError : Type 0 where
  unterminated_quote : Text → OptionsError

abbrev pub start : Scan
start = record { tokens = []; current = []; in_token = false; quote = none }

-- What stands behind the loop.
unfoldable pub finish_scan : Text → Scan → Result OptionsError (List Text)
unfolding flush
finish_scan text s = elim s.quote [
  | some _ ↦ err (unterminated_quote text)
  | none ↦ let s' = flush s in ok s'.tokens
]

-- `splitDockerOptions`
unfoldable pub split_docker_options : Text → Result OptionsError (List Text)
unfolding scan_runes finish_scan
split_docker_options text = finish_scan text (scan_runes text start)
