-- ===== src/Commands/Files.antt =====
-- internal/commands/files.go: the file-based workflow commands. What the disk holds is an argument:
-- `none` is a file that cannot be opened.
pub mod RoundTrip
use mirror_gha.Base.{
  leb, ◌==◌, if◌then◌else◌, length, Text, lit, text_eq, has_prefix, Map, insert, Result, split,
  join, cut, ℕ, Bool, true, false, Option, none, some, List, [], ◌∷◌, ◌++◌, ok, err,
}

abbrev pub newline : ℕ
newline = 10

abbrev pub carriage_return : ℕ
carriage_return = 13

-- `bufio.MaxScanTokenSize`: a line with its newline has to fit the scanner's buffer.
abbrev pub max_token : ℕ
max_token = 65536

pub data FileError : Type 0 where
  open_file read_file token_too_long : FileError

unfoldable pub drop_last_empty : List Text → List Text
drop_last_empty [] = []
drop_last_empty ([] ∷ []) = []
drop_last_empty (l ∷ ls) = l ∷ drop_last_empty ls

unfoldable pub drop_cr : Text → Text
drop_cr [] = []
drop_cr (c ∷ []) = if c == carriage_return then [] else c ∷ []
drop_cr (c ∷ d ∷ l) = c ∷ drop_cr (d ∷ l)

-- The lines up to one that is too long, and whether there is one.
unfoldable pub scan_tokens : List Text → List Text × Bool
unfolding drop_cr
scan_tokens [] = ([], false)
scan_tokens (l ∷ ls) =
    let (lines, too_long) = scan_tokens ls in
    if leb max_token (length l) then ([], true) else (drop_cr l ∷ lines, too_long)

-- `bufio.Scanner` with `ScanLines`
unfoldable pub scan_lines : Text → List Text × Bool
unfolding scan_tokens drop_last_empty split
scan_lines text = scan_tokens (drop_last_empty (split newline text))

-- Where the loops of `ParseKeyValueFile` stand: in the outer one, or in the inner one with the name,
-- the delimiter and `valueLines`.
pub data Mode : Type 0 where
  top : Mode
  heredoc : Text → Text → List Text → Mode

abbrev pub store_line : Option (Text × Text) → Map Text → Map Text
store_line none result = result
store_line (some (name, value)) result = insert name value result

-- A line of the outer loop: the mode and the result after it.
abbrev pub outer_line : Text → Option (Text × Text) → Map Text → Mode × Map Text
outer_line line (some (name, delim)) result = (heredoc name delim [], result)
outer_line line none result = (top, store_line (cut (lit "=") line) result)

unfoldable pub parse_line : Mode → Text → Map Text → Mode × Map Text
unfolding insert cut has_prefix text_eq join
parse_line top line result =
    if text_eq line [] then (top, result) else outer_line line (cut (lit "<<") line) result
parse_line (heredoc name delim value_lines) l result =
    if text_eq l delim
    then (top, insert name (join (newline ∷ []) value_lines) result)
    else (heredoc name delim (value_lines ++ l ∷ []), result)

-- At the end of the file the inner loop stops without its delimiter.
unfoldable pub parse_end : Mode → Map Text → Map Text
unfolding insert join
parse_end top result = result
parse_end (heredoc name delim value_lines) result =
    insert name (join (newline ∷ []) value_lines) result

unfoldable pub parse_lines : Mode → List Text → Map Text → Map Text
unfolding parse_line parse_end
parse_lines mode [] result = parse_end mode result
parse_lines mode (l ∷ ls) result =
    let (mode', result') = parse_line mode l result in parse_lines mode' ls result'

-- `ParseKeyValueFile`
unfoldable pub parse_key_value_file : Option Text → Result FileError (Map Text)
unfolding scan_lines parse_lines
parse_key_value_file none = err open_file
parse_key_value_file (some text) =
    let (lines, too_long) = scan_lines text in
    if too_long then err token_too_long else ok (parse_lines top lines [])

keep_lines : List Text → List Text
unfolding text_eq
keep_lines [] = []
keep_lines (l ∷ ls) = let rest = keep_lines ls in if text_eq l [] then rest else l ∷ rest

-- `ParseLines`
unfoldable pub parse_path_lines : Option Text → Result FileError (List Text)
unfolding keep_lines split
parse_path_lines none = err read_file
parse_path_lines (some text) = ok (keep_lines (split newline text))
