-- ===== src/Commands/Samples.antt =====
-- internal/commands on small files, and the theorems about it at them.
use mirror_gha.Base.{
  ◌==◌, length, any, All, In, Text, lit, has_prefix, not-In_of_any, insert, join, contains, ◌<◌,
  ◌≡◌, refl, ◌⊎◌, inl, inr, true, false, some, List, [], ◌∷◌, ◌++◌, arith, ok,
}
use mirror_gha.Commands.Files.{max_token, newline, drop_cr, parse_key_value_file, parse_lines, top}
use mirror_gha.Commands.Annotations.{redact_masks, find_masks, show_lines}
use mirror_gha.Commands.Annotations.Shown.{find_masks-show_lines}
use mirror_gha.Commands.Annotations.Redact.{NoStar, redact_masks_hides}
use mirror_gha.Commands.Files.RoundTrip.{
  Entry, single, multi, print_entries, print_lines, bind_entries, print_entry, IsPlain, IsLine,
  parse_key_value_file-print, parse_lines-value_with_heredoc,
}

abbrev written : List Entry
written = single (lit "A") (lit "1") ∷ multi (lit "B") (lit "E") (lit "x" ∷ lit "y" ∷ []) ∷ []

written-IsPlain : All IsPlain written
unfolding contains has_prefix
written-IsPlain = (
  (not-In_of_any b'=' (lit "A") refl, refl),
  ((not-In_of_any b'<' (lit "B") refl, ((λ e. cc e), ((λ e. cc e), tt))), tt),
)

line :
    (l : Text) → any (λ x. x == newline) l ≡ false → drop_cr l ≡ l → length l < max_token → IsLine l
line l a b c = record { no_newline = not-In_of_any newline l a; no_cr = b; fits = c }

written-IsLine : All IsLine (print_entries written)
unfolding print_entries print_entry drop_cr
written-IsLine = (
  line (lit "A=1") refl refl (omega arith),
  (
    line (lit "B<<E") refl refl (omega arith),
    (
      line (lit "x") refl refl (omega arith),
      (line (lit "y") refl refl (omega arith), (line (lit "E") refl refl (omega arith), tt)),
    ),
  ),
)

parse_key_value_file-print_example :
    parse_key_value_file (some (print_lines (print_entries written))) ≡ ok (bind_entries written [])
parse_key_value_file-print_example =
    parse_key_value_file-print written written-IsPlain written-IsLine

-- `URL=a<<b` and then `NEXT=1`.
parse_lines-value_with_heredoc_example :
    (parse_lines top
        ((lit "URL=a" ++ b'<' ∷ b'<' ∷ lit "b") ∷ lit "NEXT=1" ∷ lit "b" ∷ lit "LAST=2" ∷ [])
        []
      ≡ parse_lines top (lit "LAST=2" ∷ []) (insert (lit "URL=a") (lit "NEXT=1") []))
    × (parse_lines top ((lit "URL=a" ++ b'<' ∷ b'<' ∷ lit "b") ∷ lit "NEXT=1" ∷ []) []
        ≡ insert (lit "URL=a") (lit "NEXT=1") [])
unfolding join
parse_lines-value_with_heredoc_example =
    parse_lines-value_with_heredoc (lit "URL") (lit "a") (lit "b") (lit "NEXT=1" ∷ [])
      (lit "LAST=2" ∷ []) [] (not-In_of_any b'<' (lit "URL=a") refl) ((λ e. cc e), tt)

-- The second mask holds the first, and is hidden too.
abbrev secrets : List Text
secrets = lit "key" ∷ lit "key-7" ∷ []

secrets-NoStar : All NoStar secrets
secrets-NoStar = (not-In_of_any b'*' (lit "key") refl, (not-In_of_any b'*' (lit "key-7") refl, tt))

redact_masks_hides_example :
    All (λ v. (v ≡ []) ⊎ (contains (redact_masks (lit "a key-7 key") secrets) v ≡ false)) secrets
redact_masks_hides_example = redact_masks_hides secrets (lit "a key-7 key") secrets-NoStar

abbrev output : List Text
output = lit "::group::setup" ∷ lit "::add-mask::key" ∷ lit "::debug::x" ∷ lit "done" ∷ []

find_masks-show_lines_example :
    In (lit "key") (find_masks output) × (find_masks (show_lines true output) ≡ [])
find_masks-show_lines_example = find_masks-show_lines true output (lit "key") (inr (inl refl))
