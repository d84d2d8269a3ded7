-- ===== src/Runner/HostJob.antt =====
-- internal/runner/host_backend.go
use mirror_gha.Workflow.{pos}
use mirror_gha.Base.{
  if◌then◌else◌, Text, lit, text_eq, has_prefix, Map, insert, merge, Result, join_paths, join_path,
  Option, none, some, List, [], ◌∷◌, ◌++◌, map, ok, err,
}
use mirror_gha.Runner.Backend.{StepResult, StepSpec, ContainerSpec, RunnerJob, Backend}
use mirror_gha.Os.{
  em_dash, Command, Os, Io, Ran, completed, exit_error, run_error, ◌>>=◌, ◌>>◌, give, raise, wrap,
  on_error, ignore_error, checked,
}

-- `translateMirrorPath`
unfoldable pub translate_mirror_path : Text → Text → Text
unfolding has_prefix join_paths
translate_mirror_path root p = if has_prefix p (lit "/mirror-") then join_path root p else p

abbrev translate_env : Text → Text × Text → Text × Text
translate_env root (k, v) =
    (k, if text_eq k (lit "GITHUB_ACTION_PATH") then translate_mirror_path root v else v)

-- The five files of a step, on top of its own environment.
unfoldable pub host_env : Text → StepSpec → Map Text
unfolding insert merge join_paths
host_env root spec = insert (lit "GITHUB_STATE") (join_path spec.files_dir (lit "github_state")) (
    insert (lit "GITHUB_STEP_SUMMARY") (join_path spec.files_dir (lit "github_step_summary")) (
      insert (lit "GITHUB_OUTPUT") (join_path spec.files_dir (lit "github_output")) (
        insert (lit "GITHUB_PATH") (join_path spec.files_dir (lit "github_path")) (
          insert (lit "GITHUB_ENV") (join_path spec.files_dir (lit "github_env"))
            (map (translate_env root) spec.env)))))

abbrev pub env_line : Text × Text → Text
env_line (k, v) = k ++ (b'=' ∷ v)

-- What a process that was started gives, for an error that the message `before` stands before.
abbrev pub step_result : Text → Ran → Result Text StepResult
step_result before (completed o) =
    ok (record { exit_code = pos 0; stdout = o.stdout; stderr = o.stderr })
step_result before (exit_error code e o) =
    ok (record { exit_code = code; stdout = o.stdout; stderr = o.stderr })
step_result before (run_error e o) = err (before ++ e)

abbrev or_shell : Text → Text → Text
or_shell shell default = if text_eq shell [] then default else shell

-- The command of a step: its arguments without a shell, or its text with one.
unfoldable pub host_command : Text → List Text → StepSpec → Command
unfolding translate_mirror_path host_env text_eq
host_command root inherited spec =
    let environ = some (inherited ++ map env_line (host_env root spec)) in
    elim (map (translate_mirror_path root) spec.args) [
      | program ∷ args ↦ record {
        program = program;
        args = args;
        dir = spec.working_directory;
        environ = environ;
        stdin = [];
      }
      | [] ↦ record {
        program = or_shell spec.shell (lit "bash");
        args = lit "-c" ∷ spec.command ∷ [];
        dir = spec.working_directory;
        environ = environ;
        stdin = [];
      }
    ]

abbrev docker_on_mac : Text
docker_on_mac =
    lit "docker actions require a Linux job "
    ++ em_dash
    ++ lit " real GitHub Actions only supports Docker container actions on Linux runners, not macOS"

abbrev container_on_mac : Text
container_on_mac =
    lit "container: is not supported on macOS jobs "
    ++ em_dash
    ++ lit " real GitHub Actions only supports container jobs on Linux runners"

abbrev services_on_mac : Text
services_on_mac =
    lit "services: is not supported on macOS jobs "
    ++ em_dash
    ++ lit " real GitHub Actions only supports service containers on Linux runners"

module _ {W : Type 0} (os : Os W) where
  unfoldable pub host_copy : Text → Text → Text → Io W (Unit {0})
  unfolding translate_mirror_path ◌>>=◌ wrap give checked
  host_copy root host_path container_path =
      let dest = translate_mirror_path root container_path in
      let failed : Text → Text → Text = λ e stderr.
        lit "cp " ++ host_path ++ lit " -> " ++ dest ++ lit ": " ++ e ++ lit ": " ++ stderr in
      let cp : Command = record {
        program = lit "cp";
        args = lit "-R" ∷ (host_path ++ lit "/.") ∷ dest ∷ [];
        dir = [];
        environ = none;
        stdin = [];
      } in
      wrap (lit "mkdir " ++ dest ++ lit ": ") (os.make_dirs dest)
      >> (checked os failed cp >>= λ _. give tt)

  unfoldable pub host_exec : Text → StepSpec → Io W StepResult
  unfolding host_command
  host_exec root spec w =
      let (r, w') = os.run (host_command root (os.environ w) spec) w in
      (step_result (lit "exec: ") r, w')

  -- `hostJob`
  unfoldable pub host_job : (root files_root workspace_dir : Text) → RunnerJob W
  unfolding host_copy host_exec raise
  host_job root files_root workspace_dir = record {
    files_root = files_root;
    workspace_path = workspace_dir;
    copy_to_container = host_copy root;
    exec = host_exec root;
    run_docker_action = λ _. raise docker_on_mac;
    stop = os.remove_all root;
    platform = lit "darwin";
  }

  -- `HostBackend.StartJob`
  unfoldable pub start_host :
      Text → Text → Option ContainerSpec → Map ContainerSpec → Io W (RunnerJob W)
  unfolding host_job ◌>>=◌ wrap give raise on_error text_eq join_paths
  start_host job_id host_workspace_dir container services =
      if text_eq host_workspace_dir []
      then raise (lit "hostWorkspaceDir must not be empty")
      else elim container [
        | some _ ↦ raise container_on_mac
        | none ↦ elim services [
          | _ ∷ _ ↦ raise services_on_mac
          | [] ↦ do
            root ← wrap (lit "create job root: ") (os.make_temp (lit "mirror-host-job-"))
            let files_root = join_path root (lit "files")
            on_error (ignore_error (os.remove_all root))
                (wrap (lit "create files root: ") (os.make_dirs files_root))
            give (host_job root files_root host_workspace_dir)
        ]
      ]

  abbrev pub host_backend : Backend W
  host_backend = record { start_job = start_host }
