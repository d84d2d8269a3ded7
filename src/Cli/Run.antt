-- ===== src/Cli/Run.antt =====
-- `runCommand` of cmd/mirror/main.go.
use mirror_gha.Base.{
  if◌then◌else◌, Text, lit, text_eq, Map, lookup, insert, Result, join_paths, join_path, ℕ, none,
  some, List, [], ◌∷◌, ◌++◌, ok, err,
}
use mirror_gha.Workflow.{Value, Workflow, Yaml, parse, on_event_names}
use mirror_gha.Expr.{conclusion_text, is_failure}
use mirror_gha.Executor.{StepReport, JobResult}
use mirror_gha.Flow.{run_workflow}
use mirror_gha.Actions.Install.{cache_root}
use mirror_gha.Os.{Io, Call, ◌>>=◌, ◌>>◌, give, raise, finally, ignore_error, wrap}
use mirror_gha.Cli.Vars.{fake_runtime_token, fake_git_hub_token}
use mirror_gha.Cli.Events.{default_event_payload}
use mirror_gha.Cli.Listing.{list_jobs, print_graph}
use mirror_gha.Cli.Program.{
  RunMode, CliError, RunOptions, Program, choose_backend, tell, told, read, read_workflow,
  parse_workflow, parse_on, no_current_directory, no_workspace_directory, read_event_path,
  create_event_dir, write_event, no_store_root, open_store, start_cache, create_artifacts,
  start_artifacts, workflow_failed, no_result,
}

-- The name of the only event, or else `push`.
unfoldable pub only_event : List Text → Text
only_event (name ∷ []) = name
only_event [] = lit "push"
only_event (_ ∷ _ ∷ _) = lit "push"

abbrev pub exit_code : Result CliError ℕ → ℕ
exit_code (ok n) = n
exit_code (err _) = 1

module _ {W : Type 0} (p : Program W) where
  unfoldable pub event_name_of : RunMode → Value → Call W CliError Text
  unfolding on_event_names only_event tell ◌>>=◌ give text_eq
  event_name_of mode on =
      if text_eq mode.event_name []
      then (told p parse_on (on_event_names on) >>= λ names. give (only_event names))
      else give mode.event_name

  -- The workspace directory, as an absolute path.
  unfoldable pub workspace_of : RunMode → Call W CliError Text
  unfolding tell ◌>>=◌ give text_eq
  workspace_of mode = do
    dir ←
        (if text_eq mode.workdir []
          then tell p no_current_directory (λ w. (p.getwd w, w))
          else give mode.workdir)
    tell p no_workspace_directory (λ w. (p.abs dir w, w))

  unfoldable pub event_payload : RunMode → Text → Call W CliError Text
  unfolding default_event_payload tell give text_eq
  event_payload mode event_name =
      if text_eq mode.event_path []
      then give (default_event_payload event_name)
      else read p read_event_path mode.event_path

  unfoldable pub base_env : RunMode → Map Text
  unfolding fake_git_hub_token insert
  base_env mode =
      let token = (lit "GITHUB_TOKEN", fake_git_hub_token) ∷ [] in
      if mode.debug then insert (lit "ACTIONS_STEP_DEBUG") (lit "true") token else token

  abbrev server_url : ℕ → Text
  server_url port = lit "http://host.docker.internal:" ++ p.show_number port ++ lit "/"

  -- `cacheserver.StoreRoot`
  unfoldable pub store_root : Result Text Text
  unfolding cache_root join_paths
  store_root = elim (cache_root p.os) [
    | err e ↦ err e
    | ok root ↦ ok (join_path root (lit "action-cache"))
  ]

  -- `artifactserver.NewTempStore`
  unfoldable pub new_temp_store : Io W Text
  unfolding wrap ◌>>=◌ give
  new_temp_store = do
    root ← wrap (lit "create artifact store temp dir: ") (p.os.make_temp (lit "mirror-artifacts-"))
    p.open_artifact_store root
    give root

  unfoldable pub cache_env : ℕ → Map Text → Map Text
  unfolding insert fake_runtime_token
  cache_env port env =
      insert (lit "ACTIONS_RUNTIME_TOKEN") (fake_runtime_token p.base64)
        (insert (lit "ACTIONS_CACHE_URL") (server_url port) env)

  unfoldable pub artifact_env : ℕ → Map Text → Map Text
  unfolding insert
  artifact_env port env =
      insert (lit "ACTIONS_RESULTS_URL") (server_url port)
        (insert (lit "ACTIONS_RUNTIME_URL") (server_url port) env)

  -- The servers of a run that is not dry, around what runs; they are stopped on every path.
  unfoldable pub with_servers : Map Text → (Map Text → Call W CliError ℕ) → Call W CliError ℕ
  with_servers env run = do
    root ← told p no_store_root store_root
    tell p open_store (p.open_store root)
    cache_port ← tell p start_cache p.start_cache_server
    finally p.stop_cache_server (do
      artifact_root ← tell p create_artifacts new_temp_store
      artifact_port ← tell p start_artifacts p.start_artifact_server
      finally p.stop_artifact_server (
          finally (p.print (lit "artifacts stored at: " ++ artifact_root ++ 10 ∷ []))
            (run (artifact_env artifact_port (cache_env cache_port env)))))

  abbrev print_output : (Text → W → W) → Text → W → W
  print_output print [] w = w
  print_output print (c ∷ out) w = print (c ∷ out) w

  unfoldable pub print_step : Text → StepReport → W → W
  print_step name s w = print_output p.print_error s.stderr (
      print_output p.print s.stdout (
        p.print
          (b'[' ∷ name ++ lit "] " ++ s.name ++ lit ": " ++ conclusion_text s.conclusion ++ 10 ∷ [])
          w))

  unfoldable pub print_steps : Text → List StepReport → W → W
  unfolding print_step
  print_steps name [] w = w
  print_steps name (s ∷ ss) w = print_steps name ss (print_step name s w)

  -- The loop over the jobs of the result, with `overallExit` so far.
  unfoldable pub report_jobs : Map JobResult → List Text → ℕ → Call W CliError ℕ
  unfolding print_steps raise lookup
  report_jobs jobs [] exit w = (ok exit, w)
  report_jobs jobs (name ∷ names) exit w = elim (lookup name jobs) [
    | none ↦ raise (no_result name) w
    | some r ↦
        report_jobs jobs names (if is_failure r.conclusion then 1 else exit)
          (print_steps name r.steps w)
  ]

  module _ (yaml : Yaml) where
    open yaml use {Node}

    unfoldable pub run_and_report : Workflow Node → RunOptions W → Call W CliError ℕ
    run_and_report wf options = do
      result ←
          tell p workflow_failed
            (run_workflow yaml p.show_value (p.run_group options) wf.jobs options.workspace_dir)
      report_jobs result.jobs result.order 0

    -- From the choice of the mode on, for a run.
    unfoldable pub run_mode : RunMode → Workflow Node → Call W CliError ℕ
    run_mode mode wf = do
      event_name ← event_name_of mode wf.on
      workspace_dir ← workspace_of mode
      payload ← event_payload mode event_name
      event_dir ← tell p create_event_dir (p.os.make_temp (lit "mirror-event-"))
      let run : Map Text → Call W CliError ℕ = λ env. run_and_report wf (record {
        select = choose_backend p mode.dry_run;
        workspace_dir = workspace_dir;
        overrides = mode.overrides;
        vars = mode.vars;
        extra_env = env;
        event_name = event_name;
        event_dir = event_dir;
      })
      finally (ignore_error (p.os.remove_all event_dir)) (do
        tell p write_event (p.write_file (join_path event_dir (lit "event.json")) payload)
        if mode.dry_run then run (base_env mode) else with_servers (base_env mode) run)

    unfoldable pub command_result : Text → RunMode → Call W CliError ℕ
    command_result path mode = do
      source ← read p read_workflow path
      wf ← told p parse_workflow (parse yaml source)
      if mode.list
          then list_jobs p wf
          else if mode.graph
          then print_graph p wf
          else run_mode mode wf

    -- `runCommand`
    unfoldable pub run_command : Text → RunMode → W → ℕ × W
    run_command path mode w = let (r, w') = command_result path mode w in (exit_code r, w')
