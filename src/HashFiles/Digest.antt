-- ===== src/HashFiles/Digest.antt =====
-- `hashFiles` of internal/engine/hashfiles.go.
use mirror_gha.Base.{
  if◌then◌else◌, any, Text, Map, insert, keys, sort_strings, Result, ◌>>=◌, join_path, Bool, true,
  Option, none, some, List, [], ◌∷◌, ◌++◌, ok, err,
}
use mirror_gha.HashFiles.Glob.{glob_match}

-- What `filepath.WalkDir` calls its function with.
pub record Visit : Type 0 where
  pub path : Text
  pub is_dir : Bool
  pub failure : Option Text

-- `accepts` is `filepath.Match` and `rel_path` is `filepath.Rel`.
module _ (accepts : Text → Text → Option Bool) (rel_path : Text → Text → Result Text Text) where
  -- One call of the function that `hashFiles` walks with. Its `filepath.ToSlash` changes nothing
  -- where the separator is `/`.
  unfoldable pub visit_file : Text → List Text → Visit → Map Bool → Result Text (Map Bool)
  visit_file root patterns v matched = elim v.failure [
    | some e ↦ err e
    | none ↦
        if v.is_dir
        then ok matched
        else rel_path root v.path >>= λ rel. ok (
            if any (λ pattern. glob_match accepts pattern rel) patterns
            then insert rel true matched
            else matched)
  ]

  unfoldable pub walk_files : Text → List Text → List Visit → Map Bool → Result Text (Map Bool)
  unfolding visit_file
  walk_files root patterns [] matched = ok matched
  walk_files root patterns (v ∷ vs) matched =
      visit_file root patterns v matched >>= walk_files root patterns vs

-- `read` gives what a file holds, and `sha256` the digest of bytes in hexadecimal digits.
module _ (read : Text → Result Text Text) (sha256 : Text → Text) where
  -- What the loop over the files writes to the hash.
  unfoldable pub read_all : Text → List Text → Result Text Text
  read_all root [] = ok []
  read_all root (rel ∷ rels) = do
    content ← read (join_path root rel)
    rest ← read_all root rels
    ok (content ++ rest)

  unfoldable pub digest : Text → List Text → Result Text Text
  unfolding read_all sort_strings
  digest root [] = ok []
  digest root (rel ∷ rels) = do
    content ← read_all root (sort_strings (rel ∷ rels))
    ok (sha256 content)

-- `walk` lists the calls that `filepath.WalkDir` makes as long as they return no error.
unfoldable pub hash_files :
    (accepts : Text → Text → Option Bool) (rel_path : Text → Text → Result Text Text)
    (read : Text → Result Text Text) (sha256 : Text → Text) (walk : Text → List Visit)
    → Text
    → List Text
    → Result Text Text
unfolding walk_files digest
hash_files accepts rel_path read sha256 walk root patterns = do
  matched ← walk_files accepts rel_path root patterns (walk root) []
  digest read sha256 root (keys matched)
