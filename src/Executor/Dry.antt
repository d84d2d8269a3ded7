-- ===== src/Executor/Dry.antt =====
-- Jobs of internal/engine/executor.go whose environment ends every process well, as the one of a dry
-- run does.
mod Samples
use mirror_gha.Base.{
  Option-cases, all, All, All-append, Text, lit, Map, ok-injective, Result-cases, ℕ, zero, suc, ◌+◌,
  ◌≡◌, refl, sym, ap, inl, inr, false, Option, List, [], ◌∷◌, ok,
}
use mirror_gha.Workflow.{Step, Job, Yaml, Workflow, pos}
use mirror_gha.Expr.{Context, Conclusion, success}
use mirror_gha.Commands.FileSets.{FileSet}
use mirror_gha.Os
use mirror_gha.Os.{Os, wrap}
use mirror_gha.Runner.DryRun.{dry_run_job, dry_run_backend, start_dry_run}
use mirror_gha.Executor.Jobs.{prepare_job, run_in_environment, run_job}
use mirror_gha.Runner.Backend.{ContainerSpec, StepResult, StepSpec, DockerActionSpec, RunnerJob}
use mirror_gha.Executor.Types.{
  StepReport, JobResult, JobRunOptions, PendingPost, UsesStepPlan, CompositeInvocation, StepParams,
  RunError, too_deep, run_and_uses, composite_failed,
}
use mirror_gha.Executor.Machine.{
  Host, System, Machine, M, ◌>>=◌, give, raise, lift, call, rewrap, with_context,
}
use mirror_gha.Executor.Reports.{step_id, is_failure, composite_report, Composed}
use mirror_gha.Executor.Steps.{run_plan, execute, conclude}
use mirror_gha.Executor.Composite.{
  Runner, run_composite, run_process, run_prepared, skip_step, run_step_with, run_nested,
  run_composite_steps, run_step, nested_params, max_composite_depth,
}
use mirror_gha.Executor.Started.{run_steps, run_posts, run_started, execute_post}
use mirror_gha.Executor.Gives.{
  Gives, Gives-bind, Gives-then, Gives-give, Gives-raise, Gives-if, Gives-bool, Gives-rewrap,
  Gives-with_context, Gives-call,
}

abbrev Passes : StepReport × Option PendingPost → Type 0
Passes (report, post) = is_failure report.conclusion ≡ false

abbrev pub Unfailed : StepReport → Type 0
Unfailed report = is_failure report.conclusion ≡ false

-- None of the steps of the job failed, and the job is a success.
abbrev pub DidWell : JobResult → Type 0
DidWell r = All Unfailed r.steps × (r.conclusion ≡ success)

-- Every process ends with the code 0.
pub record EndsWell {W : Type 0} (job : RunnerJob W) : Type 0 where
  pub exec_well :
      (spec : StepSpec) (w : W) {r : StepResult} → (job.exec spec w).0 ≡ ok r → r.exit_code ≡ pos 0
  pub action_well :
      (spec : DockerActionSpec) (w : W) {r : StepResult}
      → (job.run_docker_action spec w).0 ≡ ok r
      → r.exit_code ≡ pos 0

module _ {W : Type 0} (sys : System W) (well : EndsWell sys.job) where
  -- What a plan runs.
  run_plan-well :
      (plan : UsesStepPlan) (spec : StepSpec) (w : W) {r : StepResult}
      → (run_plan sys plan spec w).0 ≡ ok r
      → r.exit_code ≡ pos 0
  run_plan-well plan spec w h = elim (Option-cases plan.docker) [
    | inl q ↦ well.exec_well spec w (rw (q, run_plan) at h)
    | inr (docker, q) ↦ well.action_well _ w (rw (q, run_plan) at h)
  ]

  Gives-run_plan :
      (wrap : Text → RunError) (plan : UsesStepPlan) (spec : StepSpec)
      → Gives (λ (r : StepResult). r.exit_code ≡ pos 0) (call wrap (run_plan sys plan spec))
  Gives-run_plan wrap plan spec = Gives-call _ _ (λ w r h. run_plan-well plan spec w h)

  Gives-execute :
      (p : StepParams) (step : Step) (id command : Text) (plan : UsesStepPlan)
      → Gives
          (λ (r : StepResult × FileSet). r.0.exit_code ≡ pos 0)
          (execute sys p step id command plan)
  unfolding execute
  Gives-execute p step id command plan = Gives-then _ _ (λ dir. Gives-then _ _ (λ fs.
      Gives-then _ _ (λ s.
        Gives-bind (λ (r : StepResult). r.exit_code ≡ pos 0) _ _ (Gives-run_plan _ plan _)
          (λ r q. Gives-give _ q))))

  Gives-conclude :
      (step : Step) (id : Text) (plan : UsesStepPlan) (result : StepResult) (fs : FileSet)
      → result.exit_code ≡ pos 0
      → Gives Passes (conclude sys step id plan result fs)
  unfolding conclude
  Gives-conclude step id plan result fs q = Gives-then _ _ (λ s. Gives-then _ _ (λ outputs.
      Gives-then _ _ (λ updates.
        Gives-then _ _
          (λ _. Gives-then _ _ (λ _. Gives-then _ _ (λ shown. Gives-give _ (rw q refl)))))))

  Gives-run_process :
      (p : StepParams) (step : Step) (id command : Text) (plan : UsesStepPlan)
      → Gives Passes (run_process sys p step id command plan)
  unfolding run_process
  Gives-run_process p step id command plan =
      Gives-bind _ _ _ (Gives-execute p step id command plan)
        (λ r q. Gives-conclude step id plan r.0 r.1 q)

  abbrev Sound : Composed → Type 0
  Sound x = is_failure x.0 ≡ false

  Gives-run_prepared :
      (compose : CompositeInvocation → M W RunError Composed) (p : StepParams) (step : Step)
      (id : Text) (prepared : Text × UsesStepPlan)
      → ((comp : CompositeInvocation) → Gives Sound (compose comp))
      → Gives Passes (run_prepared sys compose p step id prepared)
  unfolding run_prepared run_composite composite_report
  Gives-run_prepared compose p step id (command, plan) k = elim (Option-cases plan.composite) [
    | inl q ↦ rw q (Gives-run_process p step id command plan)
    | inr (comp, q) ↦ rw q (
        Gives-bind Sound _ _ (Gives-rewrap (composite_failed id) (compose comp) (k comp))
          (λ x sound. Gives-then _ _ (λ _. Gives-give _ sound)))
  ]

  Gives-run_step_with :
      (compose : CompositeInvocation → M W RunError Composed) (p : StepParams) (step : Step)
      (id : Text)
      → ((comp : CompositeInvocation) → Gives Sound (compose comp))
      → Gives Passes (run_step_with sys compose p step id)
  unfolding run_step_with skip_step
  Gives-run_step_with compose p step id k = Gives-if _ _ _ (Gives-raise (run_and_uses id)) (
      Gives-then _ _ (λ runs.
        Gives-bool runs _ _ (Gives-then _ _ (λ _. Gives-give _ refl))
          (Gives-then _ _ (λ prepared. Gives-run_prepared compose p step id prepared k))))

  Gives-run_nested :
      (run : Runner sys) (i : ℕ) (steps : List Step) (stdout stderr : Text)
      → ((step : Step) (id : Text) → Gives Passes (run step id))
      → Gives
          (λ (r : Conclusion × Text × Text). is_failure r.0 ≡ false)
          (run_nested sys run i steps stdout stderr)
  unfolding run_nested
  Gives-run_nested run i [] stdout stderr k = Gives-give _ refl
  Gives-run_nested run i (step ∷ steps) stdout stderr k =
      Gives-bind Passes _ _ (Gives-rewrap _ _ (k step (step_id i step)))
        (λ r q. rw q (Gives-run_nested run (i + 1) steps _ _ k))

  Gives-run_step :
      (levels : ℕ) (p : StepParams) (step : Step) (id : Text)
      → Gives Passes (run_step sys levels p step id)
  unfolding run_step run_composite_steps
  Gives-run_step zero p step id =
      Gives-run_step_with (λ comp. raise too_deep) p step id (λ comp. Gives-raise too_deep)
  Gives-run_step (suc levels) p step id =
      let run = run_step sys levels (nested_params sys p) in
      Gives-run_step_with _ p step id (λ comp. Gives-then _ _ (λ parent. Gives-with_context _ _ (
        Gives-bind _ _ _
          (Gives-run_nested run 0 comp.steps [] [] (Gives-run_step levels (nested_params sys p)))
          (λ r q. Gives-then _ _ (λ s. Gives-then _ _ (λ outputs. Gives-give _ q))))))

  -- All that a list of steps reports, and its conclusion.
  abbrev AllWell : List StepReport × List PendingPost × Conclusion → Type 0
  AllWell (reports, _, conclusion) = All Unfailed reports × (conclusion ≡ success)

  Gives-run_steps :
      (run : Runner sys) (i : ℕ) (steps : List Step)
      → ((step : Step) (id : Text) → Gives Passes (run step id))
      → Gives AllWell (run_steps sys run i steps)
  unfolding run_steps
  Gives-run_steps run i [] k = Gives-give _ (tt, refl)
  Gives-run_steps run i (step ∷ steps) k = Gives-bind Passes _ _ (k step (step_id i step)) (λ r q.
      rw q (
        Gives-bind AllWell _ _ (Gives-run_steps run (i + 1) steps k)
          (λ rest (well_rest, all). Gives-give _ ((q, well_rest), all))))

  Gives-run_posts : (posts : List PendingPost) → Gives (All Unfailed) (run_posts sys posts)
  unfolding run_posts execute_post
  Gives-run_posts [] = Gives-give _ tt
  Gives-run_posts (pa ∷ posts) =
      let rest = Gives-run_posts posts in
      Gives-then _ _ (λ runs. Gives-bool runs _ _ rest (
        Gives-bind Unfailed _ _
          (Gives-then _ _ (λ s. Gives-then _ _ (λ state. Gives-then _ _ (λ dir.
            Gives-then _ _ (λ fs.
              Gives-bind (λ (r : StepResult). r.exit_code ≡ pos 0) _ _
                (Gives-call _ _ (λ w r h. well.exec_well _ w h))
                (λ r q. Gives-then _ _ (λ s'.
                  Gives-then _ _ (λ updates. Gives-then _ _ (λ _. Gives-give _ (rw q refl))))))))))
          (λ report q. Gives-bind _ _ _ rest (λ reports all. Gives-give _ (q, all)))))

  Gives-run_started :
      {Node : Type 0} (p : StepParams) (job : Job Node) (opts : JobRunOptions)
      → Gives DidWell (run_started sys p job opts)
  unfolding run_started
  Gives-run_started p job opts = Gives-then _ _ (λ _. Gives-then _ _ (λ _. Gives-then _ _ (λ _.
      Gives-bind AllWell _ _ (Gives-run_steps _ 0 job.steps (Gives-run_step max_composite_depth p))
        (λ r (all, ended). Gives-bind (All Unfailed) _ _ (Gives-run_posts _) (λ posts more.
          Gives-then _ _ (λ s.
            Gives-then _ _
              (λ outputs. Gives-give _ (All-append Unfailed r.0 posts all more, ended))))))))

EndsWell-dry_run_job : {W : Type 0} (os : Os W) (dir ws : Text) → EndsWell (dry_run_job os dir ws)
unfolding dry_run_job mirror_gha.Os.give
EndsWell-dry_run_job os dir ws = record {
  exec_well = λ spec w h. ap (λ (r : StepResult). r.exit_code) (sym (ok-injective h));
  action_well = λ spec w h. ap (λ (r : StepResult). r.exit_code) (sym (ok-injective h));
}

module _ {W : Type 0} (os : Os W) (host : Host W) (yaml : Yaml) where
  run_in_environment-DidWell :
      (wf : Workflow yaml.Node) (job : Job yaml.Node) (opts : JobRunOptions)
      (prepared : Context × Option ContainerSpec × Map ContainerSpec) (w : W) {result : JobResult}
      → (run_in_environment host (dry_run_backend os) yaml wf job opts prepared w).0 ≡ ok result
      → DidWell result
  unfolding run_in_environment start_dry_run mirror_gha.Os.◌>>=◌ mirror_gha.Os.give wrap
  run_in_environment-DidWell wf job opts prepared w h =
      elim (Result-cases (os.make_temp (lit "mirror-dryrun-") w).0) [
        | inr (e, q) ↦ let h' = rw (q, run_in_environment) at h in cc h'
        | inl (dir, q) ↦
            let sys : System W = record {
              job = dry_run_job os dir opts.workspace_dir;
              host = host;
            } in
            (Gives-run_started sys (EndsWell-dry_run_job os dir opts.workspace_dir) _ job
                opts).gives
              _ (rw (q, run_in_environment) at h)
      ]

  -- In a dry run, whatever the workflow, the contexts and the files are: a job that comes to a
  -- result is a success, and none of its steps and post actions has failed.
  pub run_job-DidWell :
      (wf : Workflow yaml.Node) (job : Job yaml.Node) (opts : JobRunOptions) (w : W)
      {result : JobResult}
      → (run_job host (dry_run_backend os) yaml wf job opts w).0 ≡ ok result
      → DidWell result
  unfolding run_job
  run_job-DidWell wf job opts w h =
      elim (Result-cases (prepare_job host (dry_run_backend os) yaml wf job opts)) [
        | inr (e, q) ↦ let h' = rw (q, run_job) at h in cc h'
        | inl (prepared, q) ↦
            run_in_environment-DidWell wf job opts prepared w (rw (q, run_job) at h)
      ]
