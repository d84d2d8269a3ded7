-- ===== src/Executor/Sequence.antt =====
-- The loop over a job's steps of `RunJob` in internal/engine/executor.go, against a relation that
-- says which reports a list of steps may end with.
use mirror_gha.Base.{
  Bool-cases, Result, ok-injective, ℕ, ◌+◌, ◌≡◌, refl, sym, ◌∙◌, subst, inl, inr, true, false,
  Option, none, some, List, [], ◌∷◌, ◌++◌, ok,
}
use mirror_gha.Workflow.{Step}
use mirror_gha.Expr.{Context, Conclusion, success, failure}
use mirror_gha.Executor.Types.{StepReport, PendingPost, StepParams, RunError}
use mirror_gha.Executor.Machine.{System, Machine, M, ◌>>=◌, give}
use mirror_gha.Executor.Composite.{run_step, Runner}
use mirror_gha.Executor.Reports.{stops, step_id}
use mirror_gha.Executor.Started.{run_steps}
use mirror_gha.Executor.Outcome.{Records, bind-ok, run_step-Records}

-- From the `i`th step on: the reports of the steps that ran, the contexts between them, and the
-- conclusion. A step that failed and may not is the last one.
pub data Ran : ℕ → List Step → Context → List StepReport → Conclusion → Context → Type 0 where
  done : {i : ℕ} {c : Context} → Ran i [] c [] success c
  stopped :
      {i : ℕ} {step : Step} {steps : List Step} {c d : Context} {report : StepReport}
      → stops report step ≡ true
      → Records (step_id i step) report c d
      → Ran i (step ∷ steps) c (report ∷ []) failure d
  next :
      {i : ℕ} {step : Step} {steps : List Step} {c d e : Context} {report : StepReport}
      {reports : List StepReport} {conclusion : Conclusion}
      → stops report step ≡ false
      → Records (step_id i step) report c d
      → Ran (i + 1) steps d reports conclusion e
      → Ran i (step ∷ steps) c (report ∷ reports) conclusion e

module _ {W : Type 0} (sys : System W) where
  abbrev pub Ended : Type 0
  Ended = List StepReport × List PendingPost × Conclusion

  abbrev pub posts_of : Option PendingPost → List PendingPost
  posts_of none = []
  posts_of (some p) = p ∷ []

  -- What the loop does behind a step.
  abbrev go_on :
      Runner sys → ℕ → List Step → Step → StepReport → List PendingPost → M W RunError Ended
  go_on run i steps step report posts = elim (stops report step) [
    | true ↦ give (report ∷ [], posts, failure)
    | false ↦ run_steps sys run (i + 1) steps >>= λ (reports, more, conclusion).
        give (report ∷ reports, posts ++ more, conclusion)
  ]

  Ran-ok :
      {i : ℕ} {steps : List Step} {c d : Context} {r r' : Ended}
      → (a : Result RunError Ended) → a ≡ ok r
      → a ≡ ok r'
      → Ran i steps c r.0 r.2 d
      → Ran i steps c r'.0 r'.2 d
  Ran-ok {i = i} {steps = steps} {c = c} {d = d} a p q ran =
      subst (λ (r : Ended). Ran i steps c r.0 r.2 d) (ok-injective (sym p ∙ q)) ran

  go_on-Ran :
      (run : Runner sys) (i : ℕ) (steps : List Step) (step : Step) (report : StepReport)
      (before : List PendingPost) (c : Context) (s : Machine W)
      → Records (step_id i step) report c s.context
      → ((r : Ended)
          → (run_steps sys run (i + 1) steps s).0 ≡ ok r
          → Ran (i + 1) steps s.context r.0 r.2 (run_steps sys run (i + 1) steps s).1.context)
      → (r : Ended) → (go_on run i steps step report before s).0 ≡ ok r
      → Ran i (step ∷ steps) c r.0 r.2 (go_on run i steps step report before s).1.context
  unfolding give
  go_on-Ran run i steps step report before c s records rest r h =
      elim (Bool-cases (stops report step)) [
        | inl q ↦ rw (q, go_on) (Ran-ok _ refl (rw (q, go_on) at h) (stopped q records))
        | inr q ↦
            let f : Ended → M W RunError Ended =
              λ (reports, more, conclusion). give (report ∷ reports, before ++ more, conclusion) in
            let m = run_steps sys run (i + 1) steps in
            let (x, ran, whole) = bind-ok m f s (rw (q, go_on) at h) in
            rw (q, go_on, whole)
              (Ran-ok _ refl (rw (q, go_on, whole) at h) (next q records (rest x ran)))
      ]

  run_steps_ended :
      (levels : ℕ) (p : StepParams) (i : ℕ) (steps : List Step) (s : Machine W) (r : Ended)
      → (run_steps sys (run_step sys levels p) i steps s).0 ≡ ok r
      → Ran i steps s.context r.0 r.2 (run_steps sys (run_step sys levels p) i steps s).1.context
  unfolding run_steps give
  run_steps_ended levels p i [] s r h = Ran-ok _ refl h done
  run_steps_ended levels p i (step ∷ steps) s r h =
      let run = run_step sys levels p in
      let m = run step (step_id i step) in
      let f : StepReport × Option PendingPost → M W RunError Ended = λ (report, post).
        go_on run i steps step report (elim post [ none ↦ [] | some p ↦ p ∷ [] ]) in
      let (x, q, whole) = bind-ok m f s h in
      rw whole (
        go_on-Ran run i steps step x.0 _ s.context (m s).1
          (run_step-Records sys levels p step (step_id i step) s q)
          (run_steps_ended levels p (i + 1) steps (m s).1) r (rw whole at h))

  -- If a job's steps end without an error, the reports are those of the steps in their order up to
  -- the first failure that `continue-on-error` does not allow, the conclusion is success just where
  -- there is none, and the context goes from each step to the next with the outcome that is
  -- reported for it.
  pub run_steps-Ran :
      (levels : ℕ) (p : StepParams) (i : ℕ) (steps : List Step) (s : Machine W)
      {reports : List StepReport} {posts : List PendingPost} {conclusion : Conclusion}
      → (run_steps sys (run_step sys levels p) i steps s).0 ≡ ok (reports, posts, conclusion)
      → Ran i steps s.context reports conclusion
          (run_steps sys (run_step sys levels p) i steps s).1.context
  run_steps-Ran levels p i steps s h = run_steps_ended levels p i steps s _ h
