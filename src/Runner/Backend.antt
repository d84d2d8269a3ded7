-- ===== src/Runner/Backend.antt =====
-- internal/runner/backend.go: what a job's environment is asked for. What it answers depends on the
-- world `W`, which each call changes.
use mirror_gha.Workflow.{ℤ}
use mirror_gha.Base.{
  if◌then◌else◌, Text, lit, text_eq, Map, Result, ℕ, Bool, ◌||◌, Option, List, ok, err,
}

pub record StepResult : Type 0 where
  pub exit_code : ℤ
  pub stdout : Text
  pub stderr : Text

-- `timeout` is in nanoseconds, 0 for a context without one.
pub record StepSpec : Type 0 where
  pub command : Text
  pub args : List Text
  pub shell : Text
  pub env : Map Text
  pub working_directory : Text
  pub files_dir : Text
  pub timeout : ℕ

pub record DockerActionSpec : Type 0 where
  pub image : Text
  pub entrypoint : List Text
  pub args : List Text
  pub env : Map Text
  pub action_source_dir : Text
  pub action_path_in_container : Text
  pub files_dir : Text
  pub timeout : ℕ

pub record ContainerSpec : Type 0 where
  pub image : Text
  pub env : Map Text
  pub ports : List Text
  pub volumes : List Text
  pub options : Text
  pub username : Text
  pub password : Text

-- `Job`
pub record RunnerJob (W : Type 0) : Type 0 where
  pub files_root : Text
  pub workspace_path : Text
  pub copy_to_container : Text → Text → W → Result Text (Unit {0}) × W
  pub exec : StepSpec → W → Result Text StepResult × W
  pub run_docker_action : DockerActionSpec → W → Result Text StepResult × W
  pub stop : W → Result Text (Unit {0}) × W
  pub platform : Text

pub record Backend (W : Type 0) : Type 0 where
  pub start_job :
      Text → Text → Option ContainerSpec → Map ContainerSpec → W → Result Text (RunnerJob W) × W

pub data BackendKind : Type 0 where
  linux_docker host : BackendKind

pub data SelectError : Type 0 where
  needs_mac unsupported_runner : Text → SelectError

-- `SelectBackend`, on a host of the operating system `goos`.
unfoldable pub select_backend : Text → Text → Result SelectError BackendKind
unfolding text_eq
select_backend goos runs_on =
    let is : Text → Bool = text_eq runs_on in
    if is (lit "ubuntu-latest") || is (lit "ubuntu-24.04") || is (lit "ubuntu-22.04")
    then ok linux_docker
    else if is (lit "macos-latest")
        || is (lit "macos-15")
        || is (lit "macos-14")
        || is (lit "macos-13")
    then (if text_eq goos (lit "darwin") then ok host else err (needs_mac runs_on))
    else err (unsupported_runner runs_on)
