-- ===== src/Commands/Files/RoundTrip.antt =====
-- Writing a command file and reading it back with `ParseKeyValueFile` (internal/commands/files.go).
use mathlib.Core.List.{append-nil, append_assoc}
use mirror_gha.Base.{
  length, All, In, Text, lit, text_eq, text_eq_refl, text_eq_ne, has_prefix, Map, insert, split,
  join, cut, contains, ℕ, ◌<◌, ◌≡◌, refl, ap, ◌∙◌, ◌≢◌, inl, inr, false, none, some, List, [], ◌∷◌,
  ◌++◌, arith, ok,
}
use mirror_gha.Commands.Files.{
  newline, Mode, top, heredoc, parse_line, parse_lines, drop_cr, drop_last_empty,
  parse_key_value_file, scan_tokens, max_token, scan_lines,
}

-- An entry that a step writes: `NAME=value`, or `NAME<<DELIM`, the lines of the value, and `DELIM`.
pub data Entry : Type 0 where
  single : (name value : Text) → Entry
  multi : (name delim : Text) (value : List Text) → Entry

unfoldable pub print_entry : Entry → List Text
print_entry (single name value) = (name ++ b'=' ∷ value) ∷ []
print_entry (multi name delim value) = (name ++ b'<' ∷ b'<' ∷ delim) ∷ (value ++ delim ∷ [])

unfoldable pub print_entries : List Entry → List Text
print_entries [] = []
print_entries (e ∷ es) = print_entry e ++ print_entries es

abbrev pub bind_entry : Entry → Map Text → Map Text
bind_entry (single name value) m = insert name value m
bind_entry (multi name delim value) m = insert name (join (newline ∷ []) value) m

abbrev pub bind_entries : List Entry → Map Text → Map Text
bind_entries [] m = m
bind_entries (e ∷ es) m = bind_entries es (bind_entry e m)

-- A single line holds no `<<`, the names no `=` or `<`, and no line of a longer value is its
-- delimiter.
abbrev pub IsPlain : Entry → Type 0
IsPlain (single name value) =
    (¬ In b'=' name) × (contains (name ++ b'=' ∷ value) (lit "<<") ≡ false)
IsPlain (multi name delim value) = (¬ In b'<' name) × All (λ l. l ≢ delim) value

cut-byte :
    (c : ℕ) (name rest : Text) → (¬ In c name) → cut (c ∷ []) (name ++ c ∷ rest) ≡ some (name, rest)
unfolding cut has_prefix
cut-byte c [] rest h = ground arith
cut-byte c (b ∷ name) rest h =
    let away : b ≢ c = λ e. h (inl e) in ground (arith, cut-byte c name rest (λ m. h (inr m)))

pub cut-heredoc :
    (name rest : Text)
    → (¬ In b'<' name)
    → cut (lit "<<") (name ++ b'<' ∷ b'<' ∷ rest) ≡ some (name, rest)
unfolding cut has_prefix
cut-heredoc [] rest h = ground arith
cut-heredoc (b ∷ name) rest h =
    let away : b ≢ b'<' = λ e. h (inl e) in ground (arith, cut-heredoc name rest (λ m. h (inr m)))

cut-of_not_contains : (line : Text) → contains line (lit "<<") ≡ false → cut (lit "<<") line ≡ none
unfolding cut contains has_prefix
cut-of_not_contains [] h = refl
cut-of_not_contains (b ∷ line) h = ground (arith, cut-of_not_contains line)

not_empty : (name rest : Text) (c : ℕ) → text_eq (name ++ c ∷ rest) [] ≡ false
unfolding text_eq
not_empty [] rest c = refl
not_empty (b ∷ name) rest c = refl

parse_line-single :
    (name value : Text) (m : Map Text)
    → IsPlain (single name value)
    → parse_line top (name ++ b'=' ∷ value) m ≡ (top, insert name value m)
unfolding parse_line
parse_line-single name value m h =
    rw (not_empty name value b'=', cut-of_not_contains _ h.1, cut-byte b'=' name value h.0) refl

parse_line-multi :
    (name delim : Text) (m : Map Text)
    → (¬ In b'<' name)
    → parse_line top (name ++ b'<' ∷ b'<' ∷ delim) m ≡ (heredoc name delim [], m)
unfolding parse_line
parse_line-multi name delim m h =
    rw (not_empty name (b'<' ∷ delim) b'<', cut-heredoc name delim h) refl

parse_lines-step :
    (mode mode' : Mode) (l : Text) (ls : List Text) (m m' : Map Text)
    → parse_line mode l m ≡ (mode', m')
    → parse_lines mode (l ∷ ls) m ≡ parse_lines mode' ls m'
unfolding parse_lines
parse_lines-step mode mode' l ls m m' h = ap (λ (p : Mode × Map Text). parse_lines p.0 ls p.1) h

parse_line-delim :
    (name delim : Text) (seen : List Text) (m : Map Text)
    → parse_line (heredoc name delim seen) delim m ≡ (top, insert name (join (newline ∷ []) seen) m)
unfolding parse_line
parse_line-delim name delim seen m = ground (arith, text_eq_refl delim)

parse_line-value :
    (name delim l : Text) (seen : List Text) (m : Map Text)
    → l ≢ delim
    → parse_line (heredoc name delim seen) l m ≡ (heredoc name delim (seen ++ l ∷ []), m)
unfolding parse_line
parse_line-value name delim l seen m h = ground (arith, text_eq_ne l delim h)

-- The inner loop up to the delimiter.
parse_lines-heredoc :
    (name delim : Text) (seen value rest : List Text) (m : Map Text)
    → All (λ l. l ≢ delim) value
    → parse_lines (heredoc name delim seen) (value ++ delim ∷ rest) m
      ≡ parse_lines top rest (insert name (join (newline ∷ []) (seen ++ value)) m)
parse_lines-heredoc name delim seen [] rest m h =
    parse_lines-step (heredoc name delim seen) top delim rest m _
      (parse_line-delim name delim seen m)
    ∙ rw append-nil refl
parse_lines-heredoc name delim seen (l ∷ value) rest m h =
    parse_lines-step (heredoc name delim seen) (heredoc name delim (seen ++ l ∷ [])) l
      (value ++ delim ∷ rest) m m (parse_line-value name delim l seen m h.0)
    ∙ parse_lines-heredoc name delim (seen ++ l ∷ []) value rest m h.1
    ∙ ap (λ v. parse_lines top rest (insert name (join (newline ∷ []) v) m))
        (append_assoc seen (l ∷ []) value)

parse_lines-entry :
    (e : Entry) (rest : List Text) (m : Map Text)
    → IsPlain e
    → parse_lines top (print_entry e ++ rest) m ≡ parse_lines top rest (bind_entry e m)
unfolding print_entry
parse_lines-entry (single name value) rest m h =
    parse_lines-step top top (name ++ b'=' ∷ value) rest m (insert name value m)
      (parse_line-single name value m h)
parse_lines-entry (multi name delim value) rest m h =
    parse_lines-step top (heredoc name delim []) (name ++ b'<' ∷ b'<' ∷ delim)
      ((value ++ delim ∷ []) ++ rest) m m (parse_line-multi name delim m h.0)
    ∙ ap (λ ls. parse_lines (heredoc name delim []) ls m) (append_assoc value (delim ∷ []) rest)
    ∙ parse_lines-heredoc name delim [] value rest m h.1

-- Reading back the lines of any entries binds each name to its value, later entries over earlier.
pub parse_lines-print_entries :
    (es : List Entry) (m : Map Text)
    → All IsPlain es
    → parse_lines top (print_entries es) m ≡ bind_entries es m
unfolding print_entries
parse_lines-print_entries [] m h = unfold parse_lines in refl
parse_lines-print_entries (e ∷ es) m h =
    parse_lines-entry e (print_entries es) m h.0 ∙ parse_lines-print_entries es (bind_entry e m) h.1

-- A line that `bufio.Scanner` gives back as it is written.
pub record IsLine (l : Text) : Type 0 where
  pub no_newline : ¬ In newline l
  pub no_cr : drop_cr l ≡ l
  pub fits : length l < max_token

-- Each line with its newline.
unfoldable pub print_lines : List Text → Text
print_lines [] = []
print_lines (l ∷ ls) = l ++ newline ∷ print_lines ls

split-line :
    (l rest : Text)
    → (¬ In newline l)
    → split newline (l ++ newline ∷ rest) ≡ l ∷ split newline rest
unfolding split
split-line [] rest h = refl
split-line (c ∷ l) rest h =
    let away : c ≢ newline = λ e. h (inl e) in ground (arith, split-line l rest (λ m. h (inr m)))

drop_last_empty-cons :
    (l s : Text) → drop_last_empty (l ∷ split newline s) ≡ l ∷ drop_last_empty (split newline s)
unfolding drop_last_empty split
drop_last_empty-cons [] s = refl
drop_last_empty-cons (c ∷ l) s = refl

split-print_lines :
    (ls : List Text) → All IsLine ls → drop_last_empty (split newline (print_lines ls)) ≡ ls
unfolding print_lines
split-print_lines [] h = unfold drop_last_empty split in refl
split-print_lines (l ∷ ls) h =
    ap drop_last_empty (split-line l (print_lines ls) h.0.no_newline)
    ∙ drop_last_empty-cons l (print_lines ls)
    ∙ ap (λ (k : List Text). l ∷ k) (split-print_lines ls h.1)

scan_tokens-IsLine : (ls : List Text) → All IsLine ls → scan_tokens ls ≡ (ls, false)
unfolding scan_tokens
scan_tokens-IsLine [] h = refl
scan_tokens-IsLine (l ∷ ls) h = ground (arith, scan_tokens-IsLine ls h.1, h.0.no_cr, h.0.fits)

-- A file of entries, one line after another, is read back to what the entries bind, each name to its
-- value, later entries over earlier ones, on these conditions: a single line `NAME=value` holds no `<<`
-- and its name no `=`; the name of a heredoc holds no `<`, and no line of its value is its delimiter;
-- and each line of the file is shorter than the scanner's limit of 64 KiB, holds no newline and does not
-- end in a carriage return.
pub parse_key_value_file-print :
    (es : List Entry)
    → All IsPlain es
    → All IsLine (print_entries es)
    → parse_key_value_file (some (print_lines (print_entries es))) ≡ ok (bind_entries es [])
unfolding parse_key_value_file
parse_key_value_file-print es plain lines =
    ground (arith, scan_lines-print, parse_lines-print_entries es [] plain)
  where
    scan_lines-print : scan_lines (print_lines (print_entries es)) ≡ (print_entries es, false)
    scan_lines-print =
        unfold scan_lines in
        ap scan_tokens (split-print_lines (print_entries es) lines)
        ∙ scan_tokens-IsLine (print_entries es) lines

-- A line `NAME=value` whose value holds `<<`, with no `<` before that, is read as a heredoc: what
-- stands before the `<<`, `=` included, becomes a name, and its value is made of the lines that follow,
-- up to the first one that is the rest behind the `<<`: that one is left out, and the lines after it
-- are read as usual. Where no line is that rest, the value is made of all lines that follow.
pub parse_lines-value_with_heredoc :
    (name before after : Text) (ls rest : List Text) (m : Map Text)
    → (¬ In b'<' (name ++ b'=' ∷ before))
    → All (λ l. l ≢ after) ls
    → (parse_lines top (((name ++ b'=' ∷ before) ++ b'<' ∷ b'<' ∷ after) ∷ (ls ++ after ∷ rest)) m
        ≡ parse_lines top rest (insert (name ++ b'=' ∷ before) (join (newline ∷ []) ls) m))
      × (parse_lines top (((name ++ b'=' ∷ before) ++ b'<' ∷ b'<' ∷ after) ∷ ls) m
          ≡ insert (name ++ b'=' ∷ before) (join (newline ∷ []) ls) m)
parse_lines-value_with_heredoc name before after ls rest m h away = (
  opened (ls ++ after ∷ rest) ∙ parse_lines-heredoc (name ++ b'=' ∷ before) after [] ls rest m away,
  opened ls ∙ to_end (name ++ b'=' ∷ before) after [] ls m away,
)
  where
    opened :
        (k : List Text)
        → parse_lines top (((name ++ b'=' ∷ before) ++ b'<' ∷ b'<' ∷ after) ∷ k) m
          ≡ parse_lines (heredoc (name ++ b'=' ∷ before) after []) k m
    opened k =
        parse_lines-step top (heredoc (name ++ b'=' ∷ before) after [])
          ((name ++ b'=' ∷ before) ++ b'<' ∷ b'<' ∷ after) k m m
          (parse_line-multi (name ++ b'=' ∷ before) after m h)

    to_end :
        (n delim : Text) (seen value : List Text) (m : Map Text)
        → All (λ l. l ≢ delim) value
        → parse_lines (heredoc n delim seen) value m
          ≡ insert n (join (newline ∷ []) (seen ++ value)) m
    to_end n delim seen [] m h = unfold parse_lines in rw append-nil refl
    to_end n delim seen (l ∷ value) m h =
        parse_lines-step (heredoc n delim seen) (heredoc n delim (seen ++ l ∷ [])) l value m m
          (parse_line-value n delim l seen m h.0)
        ∙ to_end n delim (seen ++ l ∷ []) value m h.1
        ∙ ap (λ v. insert n (join (newline ∷ []) v) m) (append_assoc seen (l ∷ []) value)
