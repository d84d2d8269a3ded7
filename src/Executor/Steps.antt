-- ===== src/Executor/Steps.antt =====
-- The parts of `runStep` of internal/engine/executor.go: condition, preparation, process, and what the
-- process leaves.
use mirror_gha.Base.{
  if◌then◌else◌, Text, lit, text_eq, Map, lookup, insert, merge, Result, Bool, true, false, not,
  ◌&&◌, Option, none, some, [], ◌++◌,
}
use mirror_gha.Workflow.{Step}
use mirror_gha.Expr.{Conclusion, Context, eval_bool, substitute_expressions}
use mirror_gha.Commands.Files.{parse_key_value_file}
use mirror_gha.Commands.FileSets.{FileSet, create_file_set}
use mirror_gha.Commands.Legacy.{parse_legacy_outputs}
use mirror_gha.Commands.Annotations.{process_workflow_commands, redact_masks}
use mirror_gha.Runner.Backend.{StepResult, StepSpec}
use mirror_gha.Executor.Types.{
  StepReport, PendingPost, UsesStepPlan, empty_plan, StepParams, RunError, if_failed,
  prepare_failed, substitute_failed, temp_dir_failed, command_files_failed, exec_failed,
  bad_outputs, bad_env_updates,
}
use mirror_gha.Executor.Machine.{
  System, M, ◌>>=◌, ◌>>◌, give, lift, call, rewrap, change, get_machine,
}
use mirror_gha.Executor.Uses.{prepare_uses_step}
use mirror_gha.Executor.Reports.{
  effective_shell, effective_working_directory, export_github_context_env, add_missing,
  conclusion_of,
}

module _ {W : Type 0} where
  -- `actx.Steps[id] = …`
  unfoldable pub set_outcome : Text → Conclusion → Map Text → M W RunError (Unit {0})
  unfolding insert
  set_outcome id conclusion outputs = change (λ s. record s {
    context = record s.context {
      steps = insert id (record { outcome = conclusion; outputs = outputs }) s.context.steps;
    };
  })

  -- `for k, v := range envUpdates { actx.Env[k] = v }`
  unfoldable pub update_env : Map Text → M W RunError (Unit {0})
  unfolding merge
  update_env updates =
      change (λ s. record s { context = record s.context { env = merge s.context.env updates } })

  -- The commands on the output: masks are registered, and what is shown is redacted.
  unfoldable pub show_output : Text → Text → M W RunError (Text × Text)
  show_output stdout stderr = do
    s ← get_machine
    let show_debug : Bool = elim (lookup (lit "ACTIONS_STEP_DEBUG") s.context.env) [
      | none ↦ false
      | some v ↦ text_eq v (lit "true")
    ]
    let (out, out_masks) = process_workflow_commands stdout show_debug
    let (error, err_masks) = process_workflow_commands stderr show_debug
    let masks = (s.masks ++ out_masks) ++ err_masks
    change (λ s. record s { masks = masks })
    give (redact_masks out masks, redact_masks error masks)

  module _ (sys : System W) where
    -- The environment of a step's process.
    unfoldable pub step_env : Context → Map Text → Map Text → Map Text
    unfolding merge insert export_github_context_env
    step_env c env plan_env =
        merge
          (export_github_context_env c.github
            (insert (lit "GITHUB_WORKSPACE") sys.job.workspace_path (merge (merge [] c.env) env)))
          plan_env

    abbrev pub run_plan : UsesStepPlan → StepSpec → W → Result Text StepResult × W
    run_plan plan spec = elim plan.docker [
      | some docker ↦
          sys.job.run_docker_action
            (record docker { env = spec.env; files_dir = spec.files_dir; timeout = spec.timeout })
      | none ↦ sys.job.exec spec
    ]

    -- From the files for the step on: its process.
    unfoldable pub execute :
        StepParams → Step → Text → Text → UsesStepPlan → M W RunError (StepResult × FileSet)
    unfolding create_file_set step_env effective_shell effective_working_directory text_eq
    execute p step id command plan = do
      dir ← call (temp_dir_failed id) (sys.make_temp sys.job.files_root (lit "step-"))
      fs ← call (command_files_failed id) (create_file_set sys.write_file dir)
      s ← get_machine
      let wanted = effective_working_directory step p
      let own = text_eq step.uses [] && not (text_eq wanted [])
      let spec : StepSpec = record {
        command = command;
        args = plan.args;
        shell = effective_shell step p;
        env = step_env s.context step.env plan.env;
        working_directory = if own then wanted else sys.job.workspace_path;
        files_dir = dir;
        timeout = step.timeout;
      }
      result ← call (exec_failed id) (run_plan plan spec)
      give (result, fs)

    -- What a process that has ended leaves: outputs, environment, outcome, masks.
    unfoldable pub conclude :
        Step
        → Text
        → UsesStepPlan
        → StepResult
        → FileSet
        → M W RunError (StepReport × Option PendingPost)
    unfolding parse_key_value_file parse_legacy_outputs add_missing update_env set_outcome
        show_output
    conclude step id plan result fs = do
      s ← get_machine
      outputs ← lift (bad_outputs id) (parse_key_value_file (sys.read_file fs.output_file s.world))
      updates ← lift (bad_env_updates id) (parse_key_value_file (sys.read_file fs.env_file s.world))
      update_env updates
      let conclusion = conclusion_of result.exit_code
      set_outcome id conclusion (add_missing (parse_legacy_outputs result.stdout) outputs)
      (out, error) ← show_output result.stdout result.stderr
      let post : Option PendingPost = elim plan.post [
        | none ↦ none
        | some a ↦ some (record { action = a; step_id = id; state_file = fs.state_file })
      ]
      give (
        record {
          id = id;
          name = step.name;
          conclusion = conclusion;
          exit_code = result.exit_code;
          stdout = out;
          stderr = error;
        },
        post,
      )

    -- The `if:` of a step: whether it runs.
    unfoldable pub check_if : Step → Text → M W RunError Bool
    unfolding eval_bool text_eq
    check_if step id =
        if text_eq step.if_expr []
        then give true
        else do s ← get_machine; lift (if_failed id) (eval_bool sys.library s.context step.if_expr)

    -- The command of a `run:` step, or the plan of a `uses:` step.
    unfoldable pub prepare : StepParams → Step → Text → M W RunError (Text × UsesStepPlan)
    unfolding prepare_uses_step substitute_expressions text_eq
    prepare p step id =
        if text_eq step.uses []
        then (do
          s ← get_machine
          command ←
              lift (substitute_failed id) (substitute_expressions sys.library s.context step.run)
          give (command, empty_plan))
        else (do
          plan ← rewrap (prepare_failed id) (prepare_uses_step sys p id step)
          give ([], plan))
