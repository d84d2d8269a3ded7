-- ===== src/Executor/Started.antt =====
-- `RunJob` of internal/engine/executor.go once the environment is started: the event, the steps, the
-- post actions and the outputs.
use mirror_gha.Base.{
  if◌then◌else◌, Text, lit, text_eq, Map, insert, merge, Result, fields, join_paths, join_path, ℕ,
  ◌+◌, Bool, true, false, Option, none, some, List, [], ◌∷◌, ◌++◌, reverse, ok, err,
}
use mirror_gha.Workflow.{Value, null, str, dict, end, Step, Job}
use mirror_gha.Expr.{Conclusion, success, failure, Context, eval_bool}
use mirror_gha.Commands.Files.{parse_key_value_file}
use mirror_gha.Commands.FileSets.{create_file_set}
use mirror_gha.Runner.Backend.{StepResult, StepSpec}
use mirror_gha.Executor.Types.{
  JobRunOptions, StepReport, JobResult, PendingPost, StepParams, RunError, temp_dir_failed,
  command_files_failed, exec_failed, bad_env_updates, bad_state, post_if_failed, event_read_failed,
  event_parse_failed, event_stage_failed,
}
use mirror_gha.Executor.Machine.{System, M, ◌>>=◌, ◌>>◌, give, lift, call, change, get_machine}
use mirror_gha.Executor.Composite.{Runner, run_step, max_composite_depth}
use mirror_gha.Executor.Reports.{
  conclusion_of, stops, step_id, eval_outputs, export_github_context_env,
}
use mirror_gha.Executor.Steps.{update_env}

-- A webhook payload has to be an object; JSON's null is the nil map.
abbrev event_object : Value → Result Text Value
event_object (dict fields) = ok (dict fields)
event_object null = ok (dict end)
event_object _ = err (lit "not an object")

abbrev with_state : Map Text → Map Text → Map Text
with_state [] env = env
with_state ((k, v) ∷ state) env = with_state state (insert (lit "STATE_" ++ k) v env)

module _ {W : Type 0} (sys : System W) where
  abbrev set_github : Text → Value → M W RunError (Unit {0})
  set_github key v =
      change
        (λ s. record s { context = record s.context { github = insert key v s.context.github } })

  -- The loop over the steps: the reports, the post actions, and the conclusion.
  unfoldable pub run_steps :
      Runner sys → ℕ → List Step → M W RunError (List StepReport × List PendingPost × Conclusion)
  unfolding step_id
  run_steps run i [] = give ([], [], success)
  run_steps run i (step ∷ steps) = do
    (report, post) ← run step (step_id i step)
    let posts : List PendingPost = elim post [ none ↦ [] | some p ↦ p ∷ [] ]
    elim (stops report step) [
      | true ↦ give (report ∷ [], posts, failure)
      | false ↦ run_steps run (i + 1) steps >>= λ (reports, more, conclusion).
          give (report ∷ reports, posts ++ more, conclusion)
    ]

  -- The environment of a post action.
  unfoldable pub post_env : Context → PendingPost → Map Text → Map Text
  unfolding merge insert export_github_context_env
  post_env c pa state = export_github_context_env c.github (
      insert (lit "GITHUB_WORKSPACE") sys.job.workspace_path
        (with_state state (merge (merge [] c.env) pa.env)))

  abbrev post_report : PendingPost → StepResult → StepReport
  post_report pa result = record {
    id = pa.step_id ++ lit "-post";
    name = lit "Post " ++ pa.step_id;
    conclusion = conclusion_of result.exit_code;
    exit_code = result.exit_code;
    stdout = result.stdout;
    stderr = result.stderr;
  }

  -- The post action once its condition holds.
  unfoldable pub execute_post : PendingPost → M W RunError StepReport
  unfolding parse_key_value_file create_file_set post_env update_env
  execute_post pa = do
    s ← get_machine
    state ← lift (bad_state pa.step_id) (parse_key_value_file (sys.read_file pa.state_file s.world))
    dir ← call (temp_dir_failed pa.step_id) (sys.make_temp sys.job.files_root (lit "post-"))
    fs ← call (command_files_failed pa.step_id) (create_file_set sys.write_file dir)
    let spec : StepSpec = record {
      command = [];
      args = pa.args;
      shell = [];
      env = post_env s.context pa state;
      working_directory = sys.job.workspace_path;
      files_dir = dir;
      timeout = 0;
    }
    result ← call (exec_failed pa.step_id) (sys.job.exec spec)
    s' ← get_machine
    updates ←
        lift (bad_env_updates pa.step_id)
          (parse_key_value_file (sys.read_file fs.env_file s'.world))
    update_env updates
    give (post_report pa result)

  unfoldable pub check_post_if : PendingPost → M W RunError Bool
  unfolding eval_bool text_eq
  check_post_if pa = if text_eq pa.post_if [] then give true else do
    s ← get_machine
    lift (post_if_failed pa.step_id) (eval_bool sys.library s.context pa.post_if)

  -- The post actions in the order given.
  unfoldable pub run_posts : List PendingPost → M W RunError (List StepReport)
  unfolding check_post_if execute_post
  run_posts [] = give []
  run_posts (pa ∷ posts) = do
    runs ← check_post_if pa
    elim runs [
      | false ↦ run_posts posts
      | true ↦ execute_post pa >>= λ report. run_posts posts >>= λ reports. give (report ∷ reports)
    ]

  abbrev event_text : Option Text → Result Text Text
  event_text none = err (lit "event.json")
  event_text (some text) = ok text

  -- The payload of the event is read and staged.
  unfoldable pub stage_event : Text → M W RunError (Unit {0})
  unfolding text_eq join_paths insert
  stage_event dir = if text_eq dir [] then give tt else do
    s ← get_machine
    text ←
        lift event_read_failed
          (event_text (sys.read_file (join_path dir (lit "event.json")) s.world))
    parsed ← lift event_parse_failed (sys.library.json_unmarshal text)
    event ← lift event_parse_failed (event_object parsed)
    set_github (lit "event") event
    call event_stage_failed (sys.job.copy_to_container dir (lit "/mirror-event"))
    set_github (lit "event_path") (str (lit "/mirror-event/event.json"))

  -- From the started environment to the result: `evaluate` runs the job's outputs.
  unfoldable pub run_started :
      {Node : Type 0} → StepParams → Job Node → JobRunOptions → M W RunError JobResult
  unfolding stage_event run_steps run_posts run_step eval_outputs insert text_eq
  run_started p job opts = do
    (if text_eq opts.event_name []
        then give tt
        else set_github (lit "event_name") (str opts.event_name))
    stage_event opts.event_json_dir
    set_github (lit "workspace") (str sys.job.workspace_path)
    (reports, posts, conclusion) ← run_steps (run_step sys max_composite_depth p) 0 job.steps
    post_reports ← run_posts (reverse posts)
    s ← get_machine
    outputs ← lift (λ e. e) (eval_outputs sys.library s.context job.outputs)
    give (record { conclusion = conclusion; steps = reports ++ post_reports; outputs = outputs })
