-- ===== src/Executor/Samples.antt =====
-- internal/engine/executor.go on two small steps, and the theorems about it at them.
use mirror_gha.Base.{
  All, Text, lit, not-In_of_any, ℕ, suc, ◌≡◌, refl, false, none, some, List, [], ◌∷◌, ◌++◌, ok, err,
}
use mirror_gha.Workflow.{Step, pos, ℤ}
use mirror_gha.Expr.{Conclusion, success, failure}
use mirror_gha.Expr.Samples.{names_library, context}
use mirror_gha.Commands.Annotations.{redact_masks, process_workflow_commands}
use mirror_gha.Commands.Annotations.Redact.{NoStar}
use mirror_gha.Actions.Metadata.{not_exist}
use mirror_gha.Runner.Backend.{StepResult}
use mirror_gha.Executor.Types.{StepReport, StepParams, empty_plan}
use mirror_gha.Executor.Machine.{System, Machine, ◌>>=◌, give, get_machine, lift, call, change}
use mirror_gha.Executor.Composite.{run_step, run_process, run_step_with, run_prepared}
use mirror_gha.Executor.Steps.{check_if, prepare, execute, conclude}
use mirror_gha.Executor.Started.{run_steps}
use mirror_gha.Executor.Outcome.{Records, run_step-Records}
use mirror_gha.Executor.Sequence.{Ran, run_steps-Ran}
use mirror_gha.Executor.Redaction.{run_process-Hides, Hides}

abbrev printed : StepResult
printed = record { exit_code = pos 0; stdout = lit "::add-mask::k9\nkey k9\n"; stderr = lit "k9" }

-- Every process prints the same and every file is empty; the world counts the calls.
abbrev system : System ℕ
system = record {
  job = record {
    files_root = lit "/tmp";
    workspace_path = lit "/work";
    copy_to_container = λ dir target n. (ok tt, n);
    exec = λ spec n. (ok (record printed { exit_code = pos n }), suc n);
    run_docker_action = λ spec n. (err [], n);
    stop = λ n. (ok tt, n);
    platform = lit "linux";
  };
  host = record {
    library = names_library;
    make_temp = λ root name n. (ok (root ++ lit "/f"), n);
    write_file = λ path text n. (ok tt, n);
    read_file = λ path n. some [];
    cache_root = err [];
    fetch_remote = λ owner repo ref root n. (err [], n);
    read_action = λ dir name n. not_exist;
    unmarshal_action = λ text. err [];
    ensure_node = λ root platform n. (err [], n);
    build_image = λ dir file uses n. (err [], n);
  };
}

abbrev params : StepParams
params = record {
  job_defaults = none;
  workflow_defaults = none;
  workspace_dir = lit "/src";
  overrides = [];
}

abbrev machine : Machine ℕ
machine = record { context = context; masks = []; node_ready = false; world = 0 }

abbrev step : Step
step = record {
  id = lit "build";
  name = [];
  run = lit "make";
  uses = [];
  «with» = [];
  shell = [];
  env = [];
  if_expr = [];
  continue_on_error = false;
  working_directory = [];
  timeout = 0;
}

abbrev report : ℤ → Conclusion → Text → StepReport
report code conclusion id = record {
  id = id;
  name = [];
  conclusion = conclusion;
  exit_code = code;
  stdout = lit "key ***\n";
  stderr = lit "***";
}

step_runs :
    (run_step system 10 params step (lit "build") machine).0
    ≡ ok (report (pos 0) success (lit "build"), none)
unfolding run_step run_step_with ◌>>=◌ check_if give prepare get_machine lift run_prepared
    run_process execute call conclude change redact_masks process_workflow_commands
step_runs = refl

run_step-Records_example :
    Records
      (lit "build")
      (report (pos 0) success (lit "build"))
      context
      (run_step system 10 params step (lit "build") machine).1.context
run_step-Records_example = run_step-Records system 10 params step (lit "build") machine step_runs

-- The second step fails; the third does not run.
abbrev steps : List Step
steps = step ∷ record step { id = [] } ∷ step ∷ []

abbrev reports : List StepReport
reports = report (pos 0) success (lit "build") ∷ report (pos 1) failure (lit "step-1") ∷ []

steps_run :
    (run_steps system (run_step system 10 params) 0 steps machine).0 ≡ ok (reports, [], failure)
unfolding run_steps run_step run_step_with ◌>>=◌ check_if give prepare get_machine lift run_prepared
    run_process execute call conclude change redact_masks process_workflow_commands
steps_run = refl

run_steps-Ran_example :
    Ran 0 steps context reports failure
      (run_steps system (run_step system 10 params) 0 steps machine).1.context
run_steps-Ran_example = run_steps-Ran system 10 params 0 steps machine steps_run

process_runs :
    (run_process system params step (lit "build") (lit "make") empty_plan machine).0
    ≡ ok (report (pos 0) success (lit "build"), none)
unfolding run_step run_step_with ◌>>=◌ check_if give prepare get_machine lift run_prepared
    run_process execute call conclude change redact_masks process_workflow_commands
process_runs = refl

masks_free :
    All NoStar
      (run_process system params step (lit "build") (lit "make") empty_plan machine).1.masks
unfolding run_step run_step_with ◌>>=◌ check_if give prepare get_machine lift run_prepared
    run_process execute call conclude change redact_masks process_workflow_commands
masks_free = (not-In_of_any b'*' (lit "k9") refl, tt)

run_process-Hides_example :
    Hides
      (run_process system params step (lit "build") (lit "make") empty_plan machine).1.masks
      (lit "key ***\n")
    × Hides
        (run_process system params step (lit "build") (lit "make") empty_plan machine).1.masks
        (lit "***")
run_process-Hides_example =
    run_process-Hides system params step (lit "build") (lit "make") empty_plan machine process_runs
      masks_free
