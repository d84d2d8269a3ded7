-- ===== src/Commands/FileSets.antt =====
-- `FileSet` and `CreateFileSet` of internal/commands/files.go. Writing a file is an argument: it
-- changes the world `W`, or answers with a message.
use mirror_gha.Base.{Text, lit, Result, join_paths, join_path, List, [], ◌∷◌, ok, err}

pub record FileSet : Type 0 where
  pub env_file : Text
  pub path_file : Text
  pub output_file : Text
  pub summary_file : Text
  pub state_file : Text

pub data CreateError : Type 0 where
  create_failed : (path message : Text) → CreateError

abbrev pub file_set_in : Text → FileSet
file_set_in dir = record {
  env_file = join_path dir (lit "github_env");
  path_file = join_path dir (lit "github_path");
  output_file = join_path dir (lit "github_output");
  summary_file = join_path dir (lit "github_step_summary");
  state_file = join_path dir (lit "github_state");
}

module _ {W : Type 0} (write_file : Text → Text → W → Result Text (Unit {0}) × W) where
  unfoldable pub create_files : List Text → W → Result CreateError (Unit {0}) × W
  create_files [] w = (ok tt, w)
  create_files (path ∷ paths) w =
      let (written, w') = write_file path [] w in
      elim written [ ok _ ↦ create_files paths w' | err e ↦ (err (create_failed path e), w') ]

  abbrev created : FileSet → Result CreateError (Unit {0}) × W → Result CreateError FileSet × W
  created fs (ok _, w) = (ok fs, w)
  created fs (err e, w) = (err e, w)

  -- `CreateFileSet`
  unfoldable pub create_file_set : Text → W → Result CreateError FileSet × W
  unfolding create_files join_paths
  create_file_set dir w =
      let fs = file_set_in dir in
      created fs (
        create_files
          (fs.env_file ∷ fs.path_file ∷ fs.output_file ∷ fs.summary_file ∷ fs.state_file ∷ []) w)
