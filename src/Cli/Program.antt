-- ===== src/Cli/Program.antt =====
-- What cmd/mirror/main.go calls and what it is told, and the backends that it chooses from.
use mirror_gha.Workflow.{Value, ParseError}
use mirror_gha.Matrix.{MatrixError}
use mirror_gha.Topo.{TopoError}
use mirror_gha.Base.{if◌then◌else◌, Text, lit, Map, Result, ℕ, Bool, Option, List, ◌++◌, ok, err}
use mirror_gha.Actions.Metadata.{FileRead, contents, not_exist, failed}
use mirror_gha.Runner.Backend.{
  Backend, BackendKind, linux_docker, host, SelectError, needs_mac, unsupported_runner,
  select_backend,
}
use mirror_gha.Runner.DryRun.{dry_run_backend}
use mirror_gha.Runner.HostJob.{host_backend}
use mirror_gha.Runner.Docker.Start.{linux_docker_backend}
use mirror_gha.Os.{em_dash, Os, Io, Call}
use mirror_gha.Flow.{Group, FlowError, GroupSpec}

-- `runMode`
pub record RunMode : Type 0 where
  pub list : Bool
  pub graph : Bool
  pub dry_run : Bool
  pub workdir : Text
  pub overrides : Map Text
  pub vars : Map Text
  pub debug : Bool
  pub event_path : Text
  pub event_name : Text

-- What the program writes to its standard error before it returns 1.
pub data CliError : Type 0 where
  bad_override : (value : Text) → CliError
  bad_var_file read_workflow : Text → CliError
  parse_workflow parse_on : ParseError → CliError
  job_matrix : (job : Text) → MatrixError → CliError
  bad_graph : TopoError → CliError
  no_current_directory no_workspace_directory : Text → CliError
  read_event_path create_event_dir write_event : Text → CliError
  no_store_root open_store start_cache create_artifacts start_artifacts : Text → CliError
  workflow_failed : FlowError → CliError
  -- `flag` has printed the error, or there is no path and the usage is printed.
  bad_flags no_path : CliError
  -- A job of the order that has no result: the program panics.
  no_result : (job : Text) → CliError

-- What `RunWorkflow` is called with besides the workflow.
pub record RunOptions (W : Type 0) : Type 0 where
  pub select : Text → Result Text (Backend W)
  pub workspace_dir : Text
  pub overrides : Map Text
  pub vars : Map Text
  pub extra_env : Map Text
  pub event_name : Text
  pub event_dir : Text

-- What the flag package makes of the arguments of `run`.
pub record Flags : Type 0 where
  pub list : Bool
  pub graph : Bool
  pub dry_run : Bool
  pub workdir : Text
  pub local_repos : List Text
  pub var_flags : List Text
  pub var_file : Text
  pub debug : Bool
  pub event_path : Text
  pub event_name : Text
  pub rest : List Text

-- What is not decided by main.go: the system, the printing of errors by their messages, the flag
-- package, numbers and values as text, the servers with their ports, and how the goroutines of a
-- job run.
pub record Program (W : Type 0) : Type 0 where
  pub os : Os W
  pub read_file : Text → W → FileRead
  pub write_file : Text → Text → Io W (Unit {0})
  pub getwd : W → Result Text Text
  pub abs : Text → W → Result Text Text
  pub goos : Text
  pub base64 : Text → Text
  pub show_number : ℕ → Text
  pub show_value : Value → Text
  pub print : Text → W → W
  pub print_error : Text → W → W
  pub report : CliError → W → W
  pub parse_flags : List Text → W → Option Flags × W
  pub open_store : Text → Io W (Unit {0})
  pub start_cache_server : Io W ℕ
  pub stop_cache_server : W → W
  pub open_artifact_store : Text → Io W (Unit {0})
  pub start_artifact_server : Io W ℕ
  pub stop_artifact_server : W → W
  pub run_group : RunOptions W → GroupSpec → W → Group × W

abbrev select_message : (Text → Text) → Text → SelectError → Text
select_message quote goos (needs_mac runs_on) =
    lit "runner "
    ++ quote runs_on
    ++ lit " requires running mirror-gha on a Mac host (this host is "
    ++ goos
    ++ lit ") "
    ++ em_dash
    ++ lit
        " macOS cannot be virtualized on non-Apple hardware, so cross-host macOS execution isn't possible"
select_message quote goos (unsupported_runner runs_on) =
    lit "runner "
    ++ quote runs_on
    ++ lit
        " is not supported yet (only ubuntu-latest/ubuntu-22.04/ubuntu-24.04/macos-latest/macos-13/macos-14/macos-15 run today "
    ++ em_dash
    ++ lit " see docs/design/specs for the Phase 2 roadmap)"

module _ {W : Type 0} (p : Program W) where
  abbrev backend_of : BackendKind → Backend W
  backend_of linux_docker = linux_docker_backend p.os
  backend_of host = host_backend p.os

  -- `selectBackend`: the backend of a run, or the one of a dry run where the runner is supported.
  unfoldable pub choose_backend : Bool → Text → Result Text (Backend W)
  unfolding select_backend
  choose_backend dry_run runs_on = elim (select_backend p.goos runs_on) [
    | err e ↦ err (select_message p.os.quote p.goos e)
    | ok kind ↦ if dry_run then ok (dry_run_backend p.os) else ok (backend_of kind)
  ]

  -- `if err != nil { fmt.Fprintf(os.Stderr, …, err); return 1 }`
  unfoldable pub tell : {E A : Type 0} → (E → CliError) → Call W E A → Call W CliError A
  tell error m w =
      let (r, w') = m w in
      elim r [ ok a ↦ (ok a, w') | err e ↦ (err (error e), p.report (error e) w') ]

  abbrev pub told : {E A : Type 0} → (E → CliError) → Result E A → Call W CliError A
  told error r = tell error (λ w. (r, w))

  abbrev pub read_result : Text → FileRead → Result Text Text
  read_result path (contents c) = ok c
  read_result path not_exist = err (lit "open " ++ path ++ lit ": no such file or directory")
  read_result path (failed e) = err e

  abbrev pub read : (Text → CliError) → Text → Call W CliError Text
  read error path = tell error (λ w. (read_result path (p.read_file path w), w))
