-- ===== src/Executor/Redaction.antt =====
-- What a step shows of the values that `::add-mask::` registered: `runStep` and the post actions of
-- internal/engine/executor.go.
use mirror_gha.Base.{
  All, Text, ok-injective, contains, ◌≡◌, sym, ap, ◌∙◌, subst, ◌⊎◌, false, Option, List, [], ok,
}
use mirror_gha.Workflow.{Step, ℤ}
use mirror_gha.Expr.{Conclusion}
use mirror_gha.Commands.FileSets.{FileSet}
use mirror_gha.Commands.Annotations.Redact.{NoStar, redact_masks_hides}
use mirror_gha.Runner.Backend.{StepResult}
use mirror_gha.Executor.Types.{StepReport, PendingPost, UsesStepPlan, StepParams}
use mirror_gha.Executor.Machine.{M, System, Machine, ◌>>=◌, change, get_machine, give}
use mirror_gha.Executor.Steps.{conclude, execute, show_output}
use mirror_gha.Executor.Composite.{run_process}
use mirror_gha.Executor.Outcome.{bind-ok}

-- A text holds none of the masks, but the empty one.
abbrev pub Hides : List Text → Text → Type 0
Hides masks text = All (λ v. (v ≡ []) ⊎ (contains text v ≡ false)) masks

-- A computation whose report holds no mask, where it succeeds.
record Hiding {W E : Type 0} (m : M W E (StepReport × Option PendingPost)) : Type 0 where
  pub hidden :
      (s : Machine W) {report : StepReport} {post : Option PendingPost}
      → (m s).0 ≡ ok (report, post)
      → All NoStar (m s).1.masks
      → Hides (m s).1.masks report.stdout × Hides (m s).1.masks report.stderr

module _ {W E : Type 0} where
  Hiding-bind :
      {A : Type 0} (m : M W E A) (f : A → M W E (StepReport × Option PendingPost))
      → ((a : A) → Hiding (f a))
      → Hiding (m >>= f)
  Hiding-bind m f hides = record {
    hidden = λ s {report} {post} h free.
        let (a, q, whole) = bind-ok m f s h in
        let rest =
          (hides a).hidden (m s).1 (sym (ap (λ x. x.0) whole) ∙ h)
            (subst (λ x. All NoStar x.1.masks) whole free) in
        subst (λ x. Hides x.1.masks report.stdout × Hides x.1.masks report.stderr) (sym whole) rest;
  }

module _ {W : Type 0} (sys : System W) where
  Hiding-show_output :
      (step : Step) (id stdout stderr : Text) (conclusion : Conclusion) (code : ℤ)
      (post : Option PendingPost)
      → Hiding {W = W} (
          show_output stdout stderr >>= λ (out, error). give (
            record {
              id = id;
              name = step.name;
              conclusion = conclusion;
              exit_code = code;
              stdout = out;
              stderr = error;
            },
            post,
          ))
  unfolding ◌>>=◌ show_output change get_machine give
  Hiding-show_output step id stdout stderr conclusion code post = record {
    hidden = λ s {report} {post} h free.
        let m = show_output stdout stderr in
        let same = ap (λ (x : StepReport × Option PendingPost). x.0) (ok-injective h) in
        (
          subst (λ (x : StepReport). Hides (m s).1.masks x.stdout) same
              (redact_masks_hides (m s).1.masks _ free),
          subst (λ (x : StepReport). Hides (m s).1.masks x.stderr) same
              (redact_masks_hides (m s).1.masks _ free),
        );
  }

  Hiding-conclude :
      (step : Step) (id : Text) (plan : UsesStepPlan) (result : StepResult) (fs : FileSet)
      → Hiding (conclude sys step id plan result fs)
  unfolding conclude
  Hiding-conclude step id plan result fs = Hiding-bind _ _ λ s. Hiding-bind _ _ λ outputs.
      Hiding-bind _ _ λ updates.
        Hiding-bind _ _
          λ _. Hiding-bind _ _ λ _. Hiding-show_output step id result.stdout result.stderr _ _ _

  -- If no registered mask holds a star, what a step shows of its process, on either stream, holds
  -- none of the masks of the job, those that the step itself registered included.
  pub run_process-Hides :
      (p : StepParams) (step : Step) (id command : Text) (plan : UsesStepPlan) (s : Machine W)
      {report : StepReport} {post : Option PendingPost}
      → (run_process sys p step id command plan s).0 ≡ ok (report, post)
      → All NoStar (run_process sys p step id command plan s).1.masks
      → Hides (run_process sys p step id command plan s).1.masks report.stdout
        × Hides (run_process sys p step id command plan s).1.masks report.stderr
  unfolding run_process
  run_process-Hides p step id command plan s =
      (Hiding-bind (execute sys p step id command plan) (λ r. conclude sys step id plan r.0 r.1)
          (λ r. Hiding-conclude step id plan r.0 r.1)).hidden
        s
