-- ===== src/Cli/Samples.antt =====
-- cmd/mirror/main.go on a small workflow, and the theorems about it at it.
use mirror_gha.Base.{Text, lit, text_eq, ◌≡◌, refl, ap, false, none, List, [], ◌∷◌, ok}
use mirror_gha.Workflow.{Value, Yaml, parse}
use mirror_gha.Topo.Samples.{no_yaml, two_jobs}
use mirror_gha.Actions.Metadata.{contents}
use mirror_gha.Flow.{Group, GroupSpec, Combo, over, new_group, run_workflow}
use mirror_gha.Os.Samples.{logging_os}
use mirror_gha.Cli.Program.{Program, RunMode, Flags, RunOptions}
use mirror_gha.Cli.Run.{command_result, run_command}
use mirror_gha.Cli.Exit.{Succeeded, run_command-Succeeded}
use mirror_gha.Cli.Main.{main}
use mirror_gha.Cli.Vars.{parse_var_file}

-- Every combination ends well.
abbrev all_succeed : RunOptions (List Text) → GroupSpec → List Text → Group × List Text
all_succeed options spec w =
    let c : Combo = record { phase = over; steps = []; failed = false; skipped = false } in
    (record new_group { combos = λ i. c; started = 1 }, spec.job_name ∷ w)

abbrev two_job_yaml : Yaml
two_job_yaml = record no_yaml {
  unmarshal = λ t. ok (record {
    name = [];
    on = Value.null;
    env = [];
    defaults = none;
    jobs = two_jobs;
    raw_permissions = tt;
    raw_concurrency = tt;
  });
}

abbrev program : Program (List Text)
program = record {
  os = logging_os;
  read_file = λ path w. contents (lit "jobs");
  write_file = λ path text w. (ok tt, w);
  getwd = λ w. ok (lit "/work");
  abs = λ path w. ok path;
  goos = lit "linux";
  base64 = λ t. t;
  show_number = λ n. lit "8080";
  show_value = λ v. [];
  print = λ t w. t ∷ w;
  print_error = λ t w. t ∷ w;
  report = λ e w. lit "error" ∷ w;
  parse_flags = λ args w. (none, w);
  open_store = λ root w. (ok tt, w);
  start_cache_server = λ w. (ok 8080, w);
  stop_cache_server = λ w. lit "stop cache" ∷ w;
  open_artifact_store = λ root w. (ok tt, w);
  start_artifact_server = λ w. (ok 8080, w);
  stop_artifact_server = λ w. lit "stop artifacts" ∷ w;
  run_group = all_succeed;
}

abbrev mode : RunMode
mode = record {
  list = false;
  graph = false;
  dry_run = false;
  workdir = [];
  overrides = [];
  vars = [];
  debug = false;
  event_path = [];
  event_name = [];
}

-- The job `build` needs `test`.
abbrev ran_log : List Text
ran_log =
    lit "rm /tmp/mirror-event-"
    ∷ lit "stop cache"
    ∷ lit "stop artifacts"
    ∷ lit "artifacts stored at: /tmp/mirror-artifacts-\n"
    ∷ lit "build"
    ∷ lit "test"
    ∷ []

two_jobs_run : run_command program two_job_yaml (lit "ci.yml") mode [] ≡ (0, ran_log)
unfolding run_command command_result mirror_gha.Os.◌>>=◌ mirror_gha.Cli.Program.tell parse
    mirror_gha.Cli.Run.run_mode mirror_gha.Cli.Run.event_name_of mirror_gha.Cli.Run.workspace_of
    mirror_gha.Cli.Run.event_payload mirror_gha.Os.finally mirror_gha.Cli.Run.with_servers
    mirror_gha.Cli.Run.store_root mirror_gha.Cli.Run.new_temp_store
    mirror_gha.Cli.Run.run_and_report run_workflow mirror_gha.Cli.Run.report_jobs
two_jobs_run = refl

run_command-Succeeded_example : Succeeded program two_job_yaml (lit "ci.yml") mode []
run_command-Succeeded_example =
    run_command-Succeeded program two_job_yaml (lit "ci.yml") mode [] refl refl
      (ap (λ r. r.0) two_jobs_run)

unknown_command :
    main program two_job_yaml [] [] [] [] (lit "help" ∷ []) []
    ≡ (1, lit "usage: mirror <version|run|dashboard>\n" ∷ [])
unfolding main text_eq
unknown_command = refl

var_file :
    parse_var_file (lit ".vars") (contents (lit "# local\n A=1=2\n\nB\nA=3"))
    ≡ ok ((lit "A", lit "3") ∷ (lit "B", []) ∷ [])
unfolding parse_var_file
var_file = refl
