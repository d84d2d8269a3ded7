-- ===== src/Artifacts/Disk.antt =====
-- internal/artifactserver/storage.go. The files are kept by their paths; whether the system lets a
-- file be written is an argument.
use mirror_gha.Base.{
  if◌then◌else◌, Text, lit, text_eq, has_prefix, Map, lookup, insert, Result, cut_last, slash,
  dot_dot, clean, join_path, ℕ, Bool, true, false, ◌||◌, Option, none, some, [], ◌∷◌, ◌++◌, ok, err,
}
use mirror_gha.Cache.Handlers.{write_at, or_empty}

pub record Disk : Type 0 where
  pub root : Text
  pub files : Map Text

pub data DiskError : Type 0 where
  escapes_root : (rel : Text) → DiskError
  write_failed : (message : Text) → DiskError

-- `Resolve`
unfoldable pub resolve : Disk → Text → Result DiskError Text
resolve d rel =
    let cleaned = clean rel in
    if text_eq cleaned dot_dot || has_prefix cleaned (dot_dot ++ slash)
    then err (escapes_root rel)
    else ok (join_path d.root cleaned)

-- What the system does with a file that is to be written: an error before the first byte, or the
-- bytes written, all of them or those before an error.
pub data Written : Type 0 where
  refused : (message : Text) → Written
  broken : (message bytes : Text) → Written
  whole : (bytes : Text) → Written

abbrev pub set_file : Text → ℕ → Text → Disk → Disk
set_file path offset bytes d = record d {
  files = insert path (write_at offset bytes (or_empty (lookup path d.files))) d.files;
}

-- `WriteAt`
unfoldable pub write_blob : Text → ℕ → Written → Disk → Result DiskError (Unit {0}) × Disk
write_blob rel offset written d = elim (resolve d rel) [
  | err e ↦ (err e, d)
  | ok path ↦ elim written [
    | refused message ↦ (err (write_failed message), d)
    | broken message bytes ↦ (err (write_failed message), set_file path offset bytes d)
    | whole bytes ↦ (ok tt, set_file path offset bytes d)
  ]
]

abbrev is_some {ℓ} : {A : Type ℓ} → Option A → Bool
is_some none = false
is_some (some a) = true

-- `Exists`, of a file.
unfoldable pub exists_file : Text → Disk → Bool
exists_file rel d = elim (resolve d rel) [ err e ↦ false | ok path ↦ is_some (lookup path d.files) ]

-- `filepath.Dir` of a cleaned path that has a slash.
unfoldable pub dir_of : Text → Text
dir_of path = elim (cut_last b'/' path) [ none ↦ lit "." | some (dir, name) ↦ clean (dir ++ slash) ]

abbrev pub is_below : Text → Text → Bool
is_below dir path = text_eq path dir || has_prefix path (dir ++ slash)

-- `os.RemoveAll`
unfoldable pub remove_all : Text → Map Text → Map Text
remove_all dir [] = []
remove_all dir ((path, file) ∷ files) =
    let rest = remove_all dir files in if is_below dir path then rest else (path, file) ∷ rest
