-- ===== src/Executor/Dry/Samples.antt =====
-- A dry run of a job with two steps, and the theorem about it.
use mirror_gha.Base.{Text, lit, ◌≡◌, refl, ap, false, none, some, List, [], ◌∷◌, ◌++◌, ok, err}
use mirror_gha.Workflow.{Step, Job, Workflow, Value}
use mirror_gha.Topo.Samples.{no_yaml, job}
use mirror_gha.Expr.{success}
use mirror_gha.Expr.Samples.{names_library}
use mirror_gha.Actions.Metadata.{not_exist}
use mirror_gha.Os.Samples.{logging_os}
use mirror_gha.Runner.DryRun.{dry_run_backend, not_executed}
use mirror_gha.Executor.Types.{StepReport, JobResult, JobRunOptions}
use mirror_gha.Executor.Machine.{Host}
use mirror_gha.Executor.Jobs.{run_job}
use mirror_gha.Executor.Dry.{DidWell, run_job-DidWell}

abbrev host : Host (List Text)
host = record {
  library = names_library;
  make_temp = λ root name w. (ok (root ++ lit "/f"), w);
  write_file = λ path text w. (ok tt, w);
  read_file = λ path w. some [];
  cache_root = err [];
  fetch_remote = λ owner repo ref root w. (err [], w);
  read_action = λ dir name w. not_exist;
  unmarshal_action = λ text. err [];
  ensure_node = λ root platform w. (err [], w);
  build_image = λ dir file uses w. (err [], w);
}

-- It would fail if it ran.
abbrev step : Step
step = record {
  id = [];
  name = lit "stop";
  run = lit "exit 1";
  uses = [];
  «with» = [];
  shell = [];
  env = [];
  if_expr = [];
  continue_on_error = false;
  working_directory = [];
  timeout = 0;
}

abbrev two_steps : Job (Unit {0})
two_steps = record (job []) { steps = step ∷ step ∷ [] }

abbrev workflow : Workflow (Unit {0})
workflow = record {
  name = [];
  on = Value.null;
  env = [];
  defaults = none;
  jobs = (lit "stop", two_steps) ∷ [];
  raw_permissions = tt;
  raw_concurrency = tt;
}

abbrev options : JobRunOptions
options = record {
  needs = [];
  matrix = [];
  vars = [];
  workspace_dir = lit "/work";
  overrides = [];
  extra_env = [];
  job_id = lit "stop";
  event_name = lit "push";
  event_json_dir = [];
}

abbrev report : Text → StepReport
report id = record {
  id = id;
  name = lit "stop";
  conclusion = success;
  exit_code = not_executed.exit_code;
  stdout = not_executed.stdout;
  stderr = [];
}

abbrev result : JobResult
result = record {
  conclusion = success;
  steps = report (lit "step-0") ∷ report (lit "step-1") ∷ [];
  outputs = [];
}

job_runs :
    run_job host (dry_run_backend logging_os) no_yaml workflow two_steps options []
    ≡ (ok result, lit "rm /tmp/mirror-dryrun-" ∷ [])
unfolding run_job mirror_gha.Runner.DryRun.start_dry_run mirror_gha.Executor.Machine.◌>>=◌
    mirror_gha.Executor.Machine.change mirror_gha.Executor.Machine.give
    mirror_gha.Executor.Composite.run_step_with mirror_gha.Executor.Steps.check_if
    mirror_gha.Executor.Steps.prepare mirror_gha.Executor.Machine.get_machine
    mirror_gha.Executor.Machine.lift mirror_gha.Executor.Composite.run_prepared
    mirror_gha.Executor.Composite.run_process mirror_gha.Executor.Steps.execute
    mirror_gha.Executor.Machine.call mirror_gha.Executor.Steps.conclude
    mirror_gha.Commands.Annotations.redact_masks
    mirror_gha.Commands.Annotations.process_workflow_commands
job_runs = refl

run_job-DidWell_example : DidWell result
run_job-DidWell_example =
    run_job-DidWell logging_os host no_yaml workflow two_steps options [] (ap (λ r. r.0) job_runs)
