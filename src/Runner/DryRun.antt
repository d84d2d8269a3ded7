-- ===== src/Runner/DryRun.antt =====
-- internal/runner/dryrun.go
use mirror_gha.Workflow.{pos}
use mirror_gha.Base.{Text, lit, Map, Option, [], ◌∷◌, ◌++◌}
use mirror_gha.Runner.Backend.{StepResult, ContainerSpec, RunnerJob, Backend}
use mirror_gha.Os.{Os, Io, ◌>>=◌, give, wrap}

abbrev pub not_executed : StepResult
not_executed = record {
  exit_code = pos 0;
  stdout = lit "(dry run: not executed)" ++ 10 ∷ [];
  stderr = [];
}

module _ {W : Type 0} (os : Os W) where
  -- `dryRunJob`
  unfoldable pub dry_run_job : (dir workspace_dir : Text) → RunnerJob W
  unfolding give
  dry_run_job dir workspace_dir = record {
    files_root = dir;
    workspace_path = workspace_dir;
    copy_to_container = λ _ _. give tt;
    exec = λ _. give not_executed;
    run_docker_action = λ _. give not_executed;
    stop = os.remove_all dir;
    platform = lit "linux";
  }

  -- `DryRunBackend.StartJob`
  unfoldable pub start_dry_run :
      Text → Text → Option ContainerSpec → Map ContainerSpec → Io W (RunnerJob W)
  unfolding dry_run_job ◌>>=◌ wrap give
  start_dry_run job_id host_workspace_dir container services = do
    dir ← wrap (lit "create dry-run files root: ") (os.make_temp (lit "mirror-dryrun-"))
    give (dry_run_job dir host_workspace_dir)

  abbrev pub dry_run_backend : Backend W
  dry_run_backend = record { start_job = start_dry_run }
