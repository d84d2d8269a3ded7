-- ===== src/Base/Strings.antt =====
-- The functions of Go's `strings` package that the program calls.
use Prim.Native.Nat.{ℕ, zero, suc, ◌+◌, ◌-◌}
use mathlib.Core.Bool.{Bool, ◌&&◌, ◌||◌}
use mathlib.Core.Option.{Option, none, some}
use mathlib.Core.List.{List, [], ◌∷◌, ◌++◌, reverse}
use mirror_gha.Base.Tests.{◌==◌, leb, if◌then◌else◌}
use mirror_gha.Base.Lists.{length, drop}
use mirror_gha.Base.Texts.{Text, text_eq, has_prefix}

-- The first piece and the others of `strings.Split(s, sep)`, for a separator of one byte.
unfoldable pub split_rest : ℕ → Text → Text × List Text
split_rest sep [] = ([], [])
split_rest sep (c ∷ s) =
    let (piece, rest) = split_rest sep s in
    if c == sep then ([], piece ∷ rest) else (c ∷ piece, rest)

unfoldable pub split : ℕ → Text → List Text
unfolding split_rest
split sep s = let (piece, rest) = split_rest sep s in piece ∷ rest

-- `strings.Join`
unfoldable pub join : Text → List Text → Text
join sep [] = []
join sep (p ∷ []) = p
join sep (p ∷ q ∷ ps) = p ++ (sep ++ join sep (q ∷ ps))

-- What stands before and after the first `sep`: `strings.Cut`, and `strings.Index` with the slices
-- that its callers take.
unfoldable pub cut : Text → Text → Option (Text × Text)
cut sep [] = elim sep [ [] ↦ some ([], []) | _ ∷ _ ↦ none ]
cut sep (c ∷ s) =
    let rest = cut sep s in
    if has_prefix (c ∷ s) sep
    then some ([], drop (length sep) (c ∷ s))
    else elim rest [ none ↦ none | some (before, after) ↦ some (c ∷ before, after) ]

-- The same for the last occurrence of a byte: `strings.LastIndex`.
unfoldable pub cut_last : ℕ → Text → Option (Text × Text)
cut_last sep [] = none
cut_last sep (c ∷ s) = elim (cut_last sep s) [
  | some (before, after) ↦ some (c ∷ before, after)
  | none ↦ if c == sep then some ([], s) else none
]

-- `strings.Contains`
unfoldable pub contains : Text → Text → Bool
contains [] sub = has_prefix [] sub
contains (c ∷ s) sub = has_prefix (c ∷ s) sub || contains s sub

-- `strings.ReplaceAll(s, old, new)` for an `old` that is not empty; `skip` counts the bytes of an
-- occurrence that are still to be passed over.
unfoldable pub replace_from : Text → Text → ℕ → Text → Text
replace_from old new skip [] = []
replace_from old new (suc skip) (c ∷ s) = replace_from old new skip s
replace_from old new zero (c ∷ s) =
    let hit = has_prefix (c ∷ s) old in
    let rest = replace_from old new (if hit then length old - 1 else 0) s in
    if hit then new ++ rest else c ∷ rest

unfoldable pub replace_all : Text → Text → Text → Text
unfolding replace_from
replace_all old new s = replace_from old new 0 s

-- `strings.TrimPrefix`
unfoldable pub trim_prefix : Text → Text → Text
trim_prefix s p = if has_prefix s p then drop (length p) s else s

-- `strings.HasSuffix`
unfoldable pub has_suffix : Text → Text → Bool
has_suffix s p = has_prefix (reverse s) (reverse p)

-- The ASCII space of `strings.TrimSpace` and `strings.Fields`.
abbrev pub is_space : ℕ → Bool
is_space c = c == 32 || leb 9 c && leb c 13

unfoldable pub trim_left : Text → Text
trim_left [] = []
trim_left (c ∷ s) = if is_space c then trim_left s else c ∷ s

-- `strings.TrimSpace` of a text whose ends have no white space outside ASCII: what Unicode adds to the
-- white space (NEL, the no-break space, the spaces from U+1680 on) is not trimmed.
unfoldable pub trim_space : Text → Text
unfolding trim_left
trim_space s = reverse (trim_left (reverse (trim_left s)))

abbrev keep_nonempty : List Text → List Text
keep_nonempty [] = []
keep_nonempty (p ∷ ps) = let rest = keep_nonempty ps in if text_eq p [] then rest else p ∷ rest

-- The pieces of `s` at white space: the first, which may be empty, and the others.
unfoldable pub fields_rest : Text → Text × List Text
fields_rest [] = ([], [])
fields_rest (c ∷ s) =
    let (piece, rest) = fields_rest s in
    if is_space c then ([], piece ∷ rest) else (c ∷ piece, rest)

-- `strings.Fields`
unfoldable pub fields : Text → List Text
unfolding fields_rest text_eq
fields s = let (piece, rest) = fields_rest s in keep_nonempty (piece ∷ rest)

abbrev pub upper_byte : ℕ → ℕ
upper_byte c = if leb b'a' c && leb c b'z' then c - 32 else c

abbrev pub lower_byte : ℕ → ℕ
lower_byte c = if leb b'A' c && leb c b'Z' then 32 + c else c
