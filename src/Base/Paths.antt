-- ===== src/Base/Paths.antt =====
-- Go's `path/filepath` on a system whose separator is `/`.

use mathlib.Core.Bool.{Bool, true, false, ◌||◌}
use mathlib.Core.List.{List, [], ◌∷◌, reverse}
use mirror_gha.Base.Tests.{if◌then◌else◌}
use mirror_gha.Base.Texts.{Text, lit, text_eq, has_prefix}
use mirror_gha.Base.Strings.{split, join}

abbrev pub slash : Text
slash = b'/' ∷ []

abbrev pub dot_dot : Text
dot_dot = lit ".."

abbrev pub back : Bool → List Text → List Text
back rooted [] = if rooted then [] else dot_dot ∷ []
back rooted (top ∷ below) = if text_eq top dot_dot then dot_dot ∷ top ∷ below else below

-- What one element of a path makes of the elements before it, the last of them first.
unfoldable pub clean_step : Bool → Text → List Text → List Text
unfolding text_eq
clean_step rooted p stack =
    if text_eq p [] || text_eq p (lit ".")
    then stack
    else if text_eq p dot_dot
    then back rooted stack
    else p ∷ stack

unfoldable pub clean_elements : Bool → List Text → List Text → List Text
unfolding clean_step
clean_elements rooted stack [] = stack
clean_elements rooted stack (p ∷ ps) = clean_elements rooted (clean_step rooted p stack) ps

-- The path of elements.
unfoldable pub show_path : Bool → List Text → Text
unfolding join
show_path true elements = b'/' ∷ join slash elements
show_path false [] = lit "."
show_path false (p ∷ ps) = join slash (p ∷ ps)

-- `filepath.Clean`
unfoldable pub clean : Text → Text
unfolding clean_elements show_path split has_prefix
clean s =
    let rooted = has_prefix s slash in
    show_path rooted (reverse (clean_elements rooted [] (split b'/' s)))

abbrev nonempty : List Text → List Text
nonempty [] = []
nonempty (p ∷ ps) = let rest = nonempty ps in if text_eq p [] then rest else p ∷ rest

abbrev cleaned : List Text → Text
cleaned [] = []
cleaned (p ∷ ps) = clean (join slash (p ∷ ps))

-- `filepath.Join`
unfoldable pub join_paths : List Text → Text
unfolding clean text_eq join
join_paths elements = cleaned (nonempty elements)

abbrev pub join_path : Text → Text → Text
join_path a b = join_paths (a ∷ b ∷ [])
