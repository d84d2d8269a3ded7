-- ===== src/Executor/Composite.antt =====
-- `runStep` of internal/engine/executor.go with `runCompositeSteps` of
-- internal/engine/composite_step.go.
use mirror_gha.Base.{
  if◌then◌else◌, Text, text_eq, Map, merge, ℕ, zero, suc, ◌+◌, true, false, not, ◌&&◌, Option, none,
  some, List, [], ◌∷◌, ◌++◌, map,
}
use mirror_gha.Workflow.{Step}
use mirror_gha.Expr.{Conclusion, success, failure, skipped, Context}
use mirror_gha.Executor.Types.{
  StepReport, PendingPost, CompositeInvocation, UsesStepPlan, StepParams, RunError, run_and_uses,
  composite_failed, too_deep, nested_failed,
}
use mirror_gha.Executor.Machine.{
  System, M, ◌>>=◌, ◌>>◌, give, raise, lift, rewrap, with_context, get_machine,
}
use mirror_gha.Executor.Reports.{
  stops, step_id, eval_outputs, skipped_report, Composed, composite_report,
}
use mirror_gha.Executor.Steps.{set_outcome, execute, conclude, check_if, prepare}

module _ {W : Type 0} (sys : System W) where
  abbrev pub Runner : Type 0
  Runner = Step → Text → M W RunError (StepReport × Option PendingPost)

  -- The run of a composite action, by what `compose` makes of it.
  unfoldable pub run_composite :
      (CompositeInvocation → M W RunError Composed)
      → Step
      → Text
      → CompositeInvocation
      → M W RunError (StepReport × Option PendingPost)
  run_composite compose step id comp = do
    composed ← rewrap (composite_failed id) (compose comp)
    set_outcome id composed.0 composed.1
    give (composite_report id step composed, none)

  -- The process of a `run:` step or of an action that is not composite.
  unfoldable pub run_process :
      StepParams
      → Step
      → Text
      → Text
      → UsesStepPlan
      → M W RunError (StepReport × Option PendingPost)
  run_process p step id command plan = do
    (result, fs) ← execute sys p step id command plan
    conclude sys step id plan result fs

  unfoldable pub run_prepared :
      (CompositeInvocation → M W RunError Composed)
      → StepParams
      → Step
      → Text
      → Text × UsesStepPlan
      → M W RunError (StepReport × Option PendingPost)
  run_prepared compose p step id (command, plan) = elim plan.composite [
    | some comp ↦ run_composite compose step id comp
    | none ↦ run_process p step id command plan
  ]

  unfoldable pub skip_step : Step → Text → M W RunError (StepReport × Option PendingPost)
  skip_step step id = do set_outcome id skipped []; give (skipped_report id step, none)

  -- `runStep`, with the run of a composite action as an argument.
  unfoldable pub run_step_with : (CompositeInvocation → M W RunError Composed) → StepParams → Runner
  unfolding text_eq
  run_step_with compose p step id =
      if not (text_eq step.run []) && not (text_eq step.uses [])
      then raise (run_and_uses id)
      else do
        runs ← check_if sys step id
        elim runs [
          | false ↦ skip_step step id
          | true ↦ prepare sys p step id >>= run_prepared compose p step id
        ]

  -- The loop over the nested steps, with the output so far.
  unfoldable pub run_nested :
      Runner → ℕ → List Step → Text → Text → M W RunError (Conclusion × Text × Text)
  unfolding step_id
  run_nested run i [] stdout stderr = give (success, stdout, stderr)
  run_nested run i (step ∷ steps) stdout stderr = do
    let id = step_id i step
    (report, _) ← rewrap (nested_failed id) (run step id)
    let stdout' = stdout ++ report.stdout
    let stderr' = stderr ++ report.stderr
    elim (stops report step) [
      | true ↦ give (failure, stdout', stderr')
      | false ↦ run_nested run (i + 1) steps stdout' stderr'
    ]

  -- `childActx`
  unfoldable pub child_context : Context → Map Text → Context
  unfolding merge
  child_context c base_env = record c {
    env = merge (merge [] c.env) base_env;
    steps = [];
    secrets = [];
  }

  -- `runCompositeSteps`, below the bound on the depth.
  unfoldable pub run_composite_steps : Runner → CompositeInvocation → M W RunError Composed
  unfolding child_context run_nested eval_outputs
  run_composite_steps run comp = do
    parent ← get_machine
    with_context (child_context parent.context comp.base_env) (do
      (conclusion, stdout, stderr) ← run_nested run 0 comp.steps [] []
      s ← get_machine
      outputs ←
          lift (λ e. e)
            (eval_outputs sys.library s.context
              (map (λ (name, out). (name, out.value)) comp.outputs))
      give (conclusion, outputs, stdout, stderr))

  -- A composite action's steps have no defaults.
  abbrev pub nested_params : StepParams → StepParams
  nested_params p = record p { job_defaults = none; workflow_defaults = none }

  -- `runStep`; the number is how many composite actions may still nest: `maxCompositeDepth` less
  -- `p.Depth`.
  unfoldable pub run_step : ℕ → StepParams → Runner
  run_step zero p = run_step_with (λ comp. raise too_deep) p
  run_step (suc levels) p =
      run_step_with (run_composite_steps (run_step levels (nested_params p))) p

abbrev pub max_composite_depth : ℕ
max_composite_depth = 10
