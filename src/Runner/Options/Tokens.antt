-- ===== src/Runner/Options/Tokens.antt =====
-- Options that are printed token by token, and `splitDockerOptions` on them.
use mirror_gha.Base.{
  ◌==◌, Bool-cases, &&-eq_true, all, All, In, Text, ℕ, ◌≡◌, refl, sym, ap, ◌∙◌, ◌≢◌, inl, inr, Bool,
  true, false, not, ◌||◌, Option, none, some, List, [], ◌∷◌, ◌++◌, map, arith, ok,
}
use mathlib.Core.List.{append-nil, append_assoc}
use mirror_gha.Runner.Options.{
  Scan, flush, scan_rune, scan_runes, finish_scan, split_docker_options, is_separator, is_quote,
}

-- A part of a token: runes as they are, or in quotes.
pub data Part : Type 0 where
  bare : Text → Part
  quoted : ℕ → Text → Part

abbrev pub IsPart : Part → Type 0
IsPart (bare s) = (s ≢ []) × (all (λ r. not (is_separator r || is_quote r)) s ≡ true)
IsPart (quoted q s) = (is_quote q ≡ true) × (¬ In q s)

abbrev pub print_part : Part → Text
print_part (bare s) = s
print_part (quoted q s) = q ∷ s ++ q ∷ []

abbrev pub part_text : Part → Text
part_text (bare s) = s
part_text (quoted q s) = s

unfoldable pub print_token : List Part → Text
print_token [] = []
print_token (p ∷ ps) = print_part p ++ print_token ps

unfoldable pub token_text : List Part → Text
token_text [] = []
token_text (p ∷ ps) = part_text p ++ token_text ps

abbrev pub IsToken : List Part → Type 0
IsToken parts = (parts ≢ []) × All IsPart parts

unfoldable pub print_options : List (List Part) → Text
unfolding print_token
print_options [] = []
print_options (t ∷ ts) = print_token t ++ b' ' ∷ print_options ts

abbrev inside : List Text → Text → Bool → Option ℕ → Scan
inside tokens current in_token quote = record {
  tokens = tokens;
  current = current;
  in_token = in_token;
  quote = quote;
}

scan_runes-append : (a b : Text) (s : Scan) → scan_runes (a ++ b) s ≡ scan_runes b (scan_runes a s)
unfolding scan_runes
scan_runes-append [] b s = refl
scan_runes-append (r ∷ a) b s = scan_runes-append a b (scan_rune r s)

scan_rune-bare :
    (r : ℕ) (tokens : List Text) (current : Text) (b : Bool)
    → not (is_separator r || is_quote r) ≡ true
    → scan_rune r (inside tokens current b none) ≡ inside tokens (current ++ r ∷ []) true none
unfolding scan_rune
scan_rune-bare r tokens current b h = elim (Bool-cases (is_separator r)) [
  | inl e ↦ let h' = rw e at h in cc h'
  | inr e ↦ elim (Bool-cases (is_quote r)) [
    | inl q ↦ let h' = rw (e, q) at h in cc h'
    | inr q ↦ rw (e, q) refl
  ]
]

scan_bare :
    (s : Text) (tokens : List Text) (current : Text) (b : Bool)
    → s ≢ []
    → all (λ r. not (is_separator r || is_quote r)) s ≡ true
    → scan_runes s (inside tokens current b none) ≡ inside tokens (current ++ s) true none
unfolding scan_runes
scan_bare [] tokens current b full h = absurd (full refl)
scan_bare (r ∷ []) tokens current b full h =
    scan_rune-bare r tokens current b ((&&-eq_true _ true h).0)
scan_bare (r ∷ r' ∷ s) tokens current b full h =
    let (here, there) = &&-eq_true _ (all (λ r. not (is_separator r || is_quote r)) (r' ∷ s)) h in
    ap (scan_runes (r' ∷ s)) (scan_rune-bare r tokens current b here)
    ∙ scan_bare (r' ∷ s) tokens (current ++ r ∷ []) true (λ e. cc e) there
    ∙ ap (λ t. inside tokens t true none) (append_assoc current (r ∷ []) (r' ∷ s))

scan_rune-quoted :
    (q r : ℕ) (tokens : List Text) (current : Text)
    → r ≢ q
    → scan_rune r (inside tokens current true (some q))
      ≡ inside tokens (current ++ r ∷ []) true (some q)
unfolding scan_rune
scan_rune-quoted q r tokens current differ =
    let other : r == q ≡ false = ground arith in rw other refl

scan_rune-open :
    (q : ℕ) (tokens : List Text) (current : Text) (b : Bool)
    → is_quote q ≡ true
    → scan_rune q (inside tokens current b none) ≡ inside tokens current true (some q)
unfolding scan_rune
scan_rune-open q tokens current b h =
    let apart : is_separator q ≡ false = ground arith in rw (apart, h) refl

scan_quoted :
    (q : ℕ) (s : Text) (tokens : List Text) (current : Text)
    → ¬ In q s
    → scan_runes (s ++ q ∷ []) (inside tokens current true (some q))
      ≡ inside tokens (current ++ s) true none
unfolding scan_runes scan_rune
scan_quoted q [] tokens current away =
    let same : q == q ≡ true = ground arith in
    rw same (ap (λ t. inside tokens t true none) (sym (append-nil current)))
scan_quoted q (r ∷ s) tokens current away =
    ap (scan_runes (s ++ q ∷ [])) (scan_rune-quoted q r tokens current (λ e. away (inl e)))
    ∙ scan_quoted q s tokens (current ++ r ∷ []) (λ m. away (inr m))
    ∙ ap (λ t. inside tokens t true none) (append_assoc current (r ∷ []) s)

scan_part :
    (p : Part) (tokens : List Text) (current : Text) (b : Bool)
    → IsPart p
    → scan_runes (print_part p) (inside tokens current b none)
      ≡ inside tokens (current ++ part_text p) true none
unfolding scan_runes scan_rune
scan_part (bare s) tokens current b h = scan_bare s tokens current b h.0 h.1
scan_part (quoted q s) tokens current b h =
    ap (scan_runes (s ++ q ∷ [])) (scan_rune-open q tokens current b h.0)
    ∙ scan_quoted q s tokens current h.1

scan_token :
    (ps : List Part) (tokens : List Text) (current : Text) (b : Bool)
    → ps ≢ []
    → All IsPart ps
    → scan_runes (print_token ps) (inside tokens current b none)
      ≡ inside tokens (current ++ token_text ps) true none
unfolding print_token token_text
scan_token [] tokens current b full h = absurd (full refl)
scan_token (p ∷ []) tokens current b full h =
    ap (λ t. scan_runes t (inside tokens current b none)) (append-nil (print_part p))
    ∙ scan_part p tokens current b h.0
    ∙ ap (λ t. inside tokens (current ++ t) true none) (sym (append-nil (part_text p)))
scan_token (p ∷ p' ∷ ps) tokens current b full h =
    scan_runes-append (print_part p) (print_token (p' ∷ ps)) _
    ∙ ap (scan_runes (print_token (p' ∷ ps))) (scan_part p tokens current b h.0)
    ∙ scan_token (p' ∷ ps) tokens (current ++ part_text p) true (λ e. cc e) h.1
    ∙ ap (λ t. inside tokens t true none)
        (append_assoc current (part_text p) (token_text (p' ∷ ps)))

scan_options :
    (ts : List (List Part)) (tokens : List Text)
    → All IsToken ts
    → scan_runes (print_options ts) (inside tokens [] false none)
      ≡ inside (tokens ++ map token_text ts) [] false none
unfolding print_options scan_runes scan_rune flush
scan_options [] tokens h = ap (λ t. inside t [] false none) (sym (append-nil tokens))
scan_options (t ∷ ts) tokens h =
    scan_runes-append (print_token t) (b' ' ∷ print_options ts) _
    ∙ ap (scan_runes (b' ' ∷ print_options ts)) (scan_token t tokens [] false h.0.0 h.0.1)
    ∙ space
    ∙ scan_options ts (tokens ++ token_text t ∷ []) h.1
    ∙ ap (λ t. inside t [] false none) (append_assoc tokens (token_text t ∷ []) (map token_text ts))
  where
    space :
        scan_runes (b' ' ∷ print_options ts) (inside tokens (token_text t) true none)
        ≡ scan_runes (print_options ts) (inside (tokens ++ token_text t ∷ []) [] false none)
    space = refl

-- Tokens of bare and quoted parts, each with a space behind it, are read back: the quotes go, and
-- what stands in them stays as it is, separators and quotes of the other kind too.
pub split_docker_options-print :
    (ts : List (List Part))
    → All IsToken ts
    → split_docker_options (print_options ts) ≡ ok (map token_text ts)
unfolding split_docker_options finish_scan flush
split_docker_options-print ts h = ap (finish_scan (print_options ts)) (scan_options ts [] h)
