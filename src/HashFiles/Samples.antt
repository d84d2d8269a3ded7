-- ===== src/HashFiles/Samples.antt =====
-- internal/engine/hashfiles.go on small inputs, and the theorems about it at them.

use mathlib.Core.List.Perm
use mirror_gha.Base.{
  length, drop, Text, lit, text_eq, insert, Result, split, join_paths, ◌+◌, ◌≡◌, refl, ◌↔◌, Bool,
  true, false, Option, none, some, List, [], ◌∷◌, ok,
}
use mirror_gha.HashFiles.Glob.{FitsAll, concat, match_segments, glob_match, glob_match_iff}
use mirror_gha.HashFiles.Digest.{Visit, hash_files}
use mirror_gha.HashFiles.Order.{hash_files_perm}

-- a pattern without `*`, `?` and `[`
abbrev same_name : Text → Text → Option Bool
same_name q s = some (text_eq q s)

glob_match_iff_example :
    (glob_match same_name (lit "**/go.sum") (lit "tools/lint/go.sum") ≡ true) ↔ (
      (parts : List (List Text)) × FitsAll same_name (split b'/' (lit "**/go.sum")) parts
      × (concat parts ≡ split b'/' (lit "tools/lint/go.sum")))
glob_match_iff_example = glob_match_iff same_name (lit "**/go.sum") (lit "tools/lint/go.sum")

no_directory : glob_match same_name (lit "**/go.sum") (lit "go.sum") ≡ true
unfolding glob_match split match_segments text_eq
no_directory = refl

below_go_sum : glob_match same_name (lit "**/go.sum") (lit "go.sum/x") ≡ false
unfolding glob_match split match_segments text_eq
below_go_sum = refl

abbrev file : Text → Visit
file path = record { path = path; is_dir = false; failure = none }

abbrev rel_to : Text → Text → Result Text Text
rel_to root path = ok (drop (length root + 1) path)

abbrev forward : Text → List Visit
forward root = file (lit "w/a/go.sum") ∷ file (lit "w/go.sum") ∷ []

abbrev backward : Text → List Visit
backward root = file (lit "w/go.sum") ∷ file (lit "w/a/go.sum") ∷ []

forward_hash :
    hash_files same_name rel_to ok (λ c. c) forward (lit "w") (lit "**/go.sum" ∷ [])
    ≡ ok (lit "w/a/go.sumw/go.sum")
unfolding hash_files glob_match split text_eq mirror_gha.Base.insert mirror_gha.Base.join_paths
forward_hash = refl

hash_files_perm_example :
    hash_files same_name rel_to ok (λ c. c) backward (lit "w") (lit "**/go.sum" ∷ [])
    ≡ ok (lit "w/a/go.sumw/go.sum")
hash_files_perm_example =
    hash_files_perm same_name rel_to ok (λ c. c) (lit "w") (lit "**/go.sum" ∷ []) forward backward
      (lit "w/a/go.sumw/go.sum") (Perm.swap (file (lit "w/go.sum")) (file (lit "w/a/go.sum")) [])
      forward_hash
