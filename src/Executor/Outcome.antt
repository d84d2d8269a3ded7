-- ===== src/Executor/Outcome.antt =====
-- What `runStep` of internal/engine/executor.go leaves in the context, on all of its paths.
use mirror_gha.Base.{
  if◌then◌else◌, Text, Map, insert, merge, ok-injective, Result-cases, ℕ, zero, suc, ◌≡◌, refl, sym,
  ap, ◌∙◌, subst, inl, inr, Bool, true, false, Option, none, some, [], ok,
}
use mirror_gha.Workflow.{Step}
use mirror_gha.Expr.{Context, StepOutcome, Conclusion, skipped}
use mirror_gha.Commands.Files.{parse_key_value_file}
use mirror_gha.Commands.Legacy.{parse_legacy_outputs}
use mirror_gha.Commands.FileSets.{FileSet}
use mirror_gha.Runner.Backend.{StepResult}
use mirror_gha.Executor.Types.{
  run_and_uses, StepParams, composite_failed, StepReport, PendingPost, UsesStepPlan,
  CompositeInvocation, RunError, too_deep,
}
use mirror_gha.Executor.Machine.{
  System, Machine, M, ◌>>=◌, give, lift, change, get_machine, with_context, rewrap, raise,
}
use mirror_gha.Executor.Composite.{
  run_process, run_composite, skip_step, run_prepared, run_step_with, run_composite_steps, Runner,
  run_step, nested_params,
}
use mirror_gha.Executor.Steps.{
  set_outcome, check_if, prepare, execute, conclude, update_env, show_output,
}
use mirror_gha.Executor.Reports.{composite_report, conclusion_of, add_missing, Composed}
use mirror_gha.Executor.Frame.{
  Keeps-rewrap, Keeps-check_if, Keeps-prepare, Keeps-execute, keeping, bind-cases, Keeps,
  Keeps-raise,
}

-- The context after a step: the outcome of the step is recorded under its id, the environment may
-- be another, and all else is as it was.
pub record Records (id : Text) (report : StepReport) (c c' : Context) : Type 0 where
  pub outcome : StepOutcome
  pub agrees : outcome.outcome ≡ report.conclusion
  pub names : report.id ≡ id
  pub env : Map Text
  pub after : c' ≡ record c { steps = insert id outcome c.steps; env = env }

module _ {W E : Type 0} where
  -- A chain that succeeds: its first step does, and the rest from there.
  pub bind-ok :
      {A B : Type 0} (m : M W E A) (f : A → M W E B) (s : Machine W) {b : B}
      → ((m >>= f) s).0 ≡ ok b
      → (a : A) × ((m s).0 ≡ ok a) × ((m >>= f) s ≡ f a (m s).1)
  bind-ok m f s h = elim (bind-cases m f s) [
    | inl (a, q, same) ↦ (a, q, same)
    | inr (e, q, same) ↦ let h' = sym (ap (λ r. r.0) same) ∙ h in cc h'
  ]

-- A computation that leaves the record of the step it reports, where it succeeds.
record Recording {W E : Type 0} (id : Text) (m : M W E (StepReport × Option PendingPost))
    : Type 0 where
  pub recorded :
      (s : Machine W) {report : StepReport} {post : Option PendingPost}
      → (m s).0 ≡ ok (report, post)
      → Records id report s.context (m s).1.context

module _ {W E : Type 0} (id : Text) where
  Recording-bind :
      {A : Type 0} (m : M W E A) (f : A → M W E (StepReport × Option PendingPost))
      → Keeps m
      → ((a : A) → Recording id (f a))
      → Recording id (m >>= f)
  Recording-bind m f keeps records = record {
    recorded = λ s {report} {post} h.
        let (a, q, whole) = bind-ok m f s h in
        let rest = (records a).recorded (m s).1 (sym (ap (λ x. x.0) whole) ∙ h) in
        subst (λ x. Records id report s.context x.1.context) (sym whole)
          (subst (λ d. Records id report d (f a (m s).1).1.context) (keeps.same s) rest);
  }

  Recording-raise : (e : E) → Recording {W = W} id (raise e)
  unfolding raise
  Recording-raise e = record { recorded = λ s h. cc h }

  Recording-if :
      (b : Bool) (m n : M W E (StepReport × Option PendingPost))
      → Recording id m
      → Recording id n
      → Recording id (if b then m else n)
  Recording-if true m n km kn = km
  Recording-if false m n km kn = kn

  Recording-bool :
      (b : Bool) (m n : M W E (StepReport × Option PendingPost))
      → Recording id m
      → Recording id n
      → Recording id (elim b [ false ↦ m | true ↦ n ])
  Recording-bool true m n km kn = kn
  Recording-bool false m n km kn = km

  Recording-option :
      {B : Type 0} (o : Option B) (m : M W E (StepReport × Option PendingPost))
      (f : B → M W E (StepReport × Option PendingPost))
      → ((b : B) → Recording id (f b))
      → Recording id m
      → Recording id (elim o [ some b ↦ f b | none ↦ m ])
  Recording-option none m f kf km = km
  Recording-option (some b) m f kf km = kf b

-- A context that has one outcome more.
Records-insert :
    (id : Text) (o : StepOutcome) {report : StepReport} (d c : Context)
    → d ≡ c
    → o.outcome ≡ report.conclusion
    → report.id ≡ id
    → Records id report c (record d { steps = insert id o d.steps })
Records-insert id o d c same agrees names = record {
  outcome = o;
  agrees = agrees;
  names = names;
  env = c.env;
  after = ap (λ (e : Context). record e { steps = insert id o e.steps }) same;
}

module _ {W : Type 0} (sys : System W) where
  conclude-Records :
      (step : Step) (id : Text) (plan : UsesStepPlan) (result : StepResult) (fs : FileSet)
      (s : Machine W) {report : StepReport} {post : Option PendingPost}
      → (conclude sys step id plan result fs s).0 ≡ ok (report, post)
      → Records id report s.context (conclude sys step id plan result fs s).1.context
  unfolding conclude ◌>>=◌ lift change get_machine give set_outcome update_env show_output
  conclude-Records step id plan result fs s {report = report} {post = post} h =
      elim (Result-cases (parse_key_value_file (sys.read_file fs.output_file s.world))) [
        | inr (e, q) ↦ let h' = rw (q, conclude) at h in cc h'
        | inl (outputs, q) ↦
            elim (Result-cases (parse_key_value_file (sys.read_file fs.env_file s.world))) [
              | inr (e, r) ↦ let h' = rw (q, r, conclude) at h in cc h'
              | inl (updates, r) ↦
                  let h' = ok-injective (rw (q, r, conclude) at h) in
                  let same = ap (λ (p : StepReport × Option PendingPost). p.0) h' in
                  record {
                    outcome = record {
                      outcome = conclusion_of result.exit_code;
                      outputs = add_missing (parse_legacy_outputs result.stdout) outputs;
                    };
                    agrees = ap (λ (p : StepReport). p.conclusion) same;
                    names = ap (λ (p : StepReport). p.id) (sym same);
                    env = merge s.context.env updates;
                    after = rw (q, r, conclude) refl;
                  }
            ]
      ]

  Keeps-with_context : {E A : Type 0} (c : Context) (m : M W E A) → Keeps (with_context c m)
  unfolding with_context
  Keeps-with_context c m = record { same = λ s. refl }

  -- A composite action leaves its caller's context alone, whatever its steps do.
  pub Keeps-run_composite_steps :
      (run : Runner sys) (comp : CompositeInvocation) → Keeps (run_composite_steps sys run comp)
  unfolding run_composite_steps
  Keeps-run_composite_steps run comp = search (keeping, Keeps-with_context)

  Recording-conclude :
      (step : Step) (id : Text) (plan : UsesStepPlan) (result : StepResult) (fs : FileSet)
      → Recording id (conclude sys step id plan result fs)
  Recording-conclude step id plan result fs = record {
    recorded = conclude-Records step id plan result fs;
  }

  Recording-set_outcome :
      (id : Text) (conclusion : Conclusion) (outputs : Map Text) (report : StepReport)
      (post : Option PendingPost)
      → report.conclusion ≡ conclusion
      → report.id ≡ id
      → Recording {W = W} id
          (set_outcome id conclusion outputs >>= λ (_ : Unit {0}). give (report, post))
  unfolding set_outcome ◌>>=◌ change give
  Recording-set_outcome id conclusion outputs report post agrees names = record {
    recorded = λ s h.
        let same = ap (λ (x : StepReport × Option PendingPost). x.0) (ok-injective h) in
        record {
          outcome = record { outcome = conclusion; outputs = outputs };
          agrees = sym agrees ∙ ap (λ (x : StepReport). x.conclusion) same;
          names = ap (λ (x : StepReport). x.id) (sym same) ∙ names;
          env = s.context.env;
          after = refl;
        };
  }

  Recording-run_process :
      (p : StepParams) (step : Step) (id command : Text) (plan : UsesStepPlan)
      → Recording id (run_process sys p step id command plan)
  unfolding run_process
  Recording-run_process p step id command plan =
      Recording-bind id (execute sys p step id command plan)
        (λ r. conclude sys step id plan r.0 r.1) (Keeps-execute sys p step id command plan)
        (λ r. Recording-conclude step id plan r.0 r.1)

  Recording-run_composite :
      (compose : CompositeInvocation → M W RunError Composed) (step : Step) (id : Text)
      (comp : CompositeInvocation)
      → Keeps (compose comp)
      → Recording id (run_composite sys compose step id comp)
  unfolding run_composite composite_report
  Recording-run_composite compose step id comp keeps =
      Recording-bind id (rewrap (composite_failed id) (compose comp))
        (λ (x : Composed).
          set_outcome id x.0 x.1 >>= λ (_ : Unit {0}). give (composite_report id step x, none))
        (Keeps-rewrap (composite_failed id) (compose comp) keeps)
        (λ x. Recording-set_outcome id x.0 x.1 (composite_report id step x) none refl refl)

  Recording-skip_step : (step : Step) (id : Text) → Recording id (skip_step sys step id)
  unfolding skip_step
  Recording-skip_step step id = Recording-set_outcome id skipped [] _ none refl refl

  Recording-run_prepared :
      (compose : CompositeInvocation → M W RunError Composed) (p : StepParams) (step : Step)
      (id : Text) (prepared : Text × UsesStepPlan)
      → ((comp : CompositeInvocation) → Keeps (compose comp))
      → Recording id (run_prepared sys compose p step id prepared)
  unfolding run_prepared
  Recording-run_prepared compose p step id (command, plan) keeps =
      Recording-option id plan.composite (run_process sys p step id command plan)
        (λ comp. run_composite sys compose step id comp)
        (λ comp. Recording-run_composite compose step id comp (keeps comp))
        (Recording-run_process p step id command plan)

  Recording-run_step_with :
      (compose : CompositeInvocation → M W RunError Composed) (p : StepParams) (step : Step)
      (id : Text)
      → ((comp : CompositeInvocation) → Keeps (compose comp))
      → Recording id (run_step_with sys compose p step id)
  unfolding run_step_with
  Recording-run_step_with compose p step id keeps =
      Recording-if id _ (raise (run_and_uses id))
        (check_if sys step id >>= λ (runs : Bool). elim runs [
          | false ↦ skip_step sys step id
          | true ↦ prepare sys p step id >>= run_prepared sys compose p step id
        ])
        (Recording-raise id (run_and_uses id))
        (Recording-bind id _ _ (Keeps-check_if sys step id) (λ runs.
          Recording-bool id runs (skip_step sys step id) _ (Recording-skip_step step id) (
            Recording-bind id _ _ (Keeps-prepare sys p step id)
              (λ prepared. Recording-run_prepared compose p step id prepared keeps))))

  Recording-run_step :
      (levels : ℕ) (p : StepParams) (step : Step) (id : Text)
      → Recording id (run_step sys levels p step id)
  unfolding run_step
  Recording-run_step zero p step id =
      Recording-run_step_with (λ comp. raise too_deep) p step id (λ comp. Keeps-raise too_deep)
  Recording-run_step (suc levels) p step id =
      Recording-run_step_with _ p step id
        (λ comp. Keeps-run_composite_steps (run_step sys levels (nested_params sys p)) comp)

  -- A step that runs or is skipped without an error leaves its outcome, with the conclusion that
  -- is reported, under its id; of the rest of the context only the environment may be another,
  -- whatever kind of step it is and however deep its composite actions nest.
  pub run_step-Records :
      (levels : ℕ) (p : StepParams) (step : Step) (id : Text) (s : Machine W) {report : StepReport}
      {post : Option PendingPost}
      → (run_step sys levels p step id s).0 ≡ ok (report, post)
      → Records id report s.context (run_step sys levels p step id s).1.context
  run_step-Records levels p step id s h = (Recording-run_step levels p step id).recorded s h
