-- ===== src/Executor/Reports.antt =====
-- What `runStep` and `RunJob` of internal/engine/executor.go compute from a step, its result and the
-- context alone.
use mirror_gha.Base.{
  ◌==◌, if◌then◌else◌, Text, lit, text_eq, Map, lookup, insert, Result, ℕ, Bool, true, false, not,
  ◌&&◌, Option, none, some, [], ◌∷◌, ◌++◌, ok, err,
}
use mirror_gha.Workflow.{ℤ, pos, Value, str, Step, RunDefaults}
use mirror_gha.Expr.{
  Conclusion, success, failure, skipped, Context, Library, to_upper, substitute_expressions,
  decimal,
}
use mirror_gha.Executor.Types.{StepReport, StepParams, RunError, output_failed}

abbrev first_set : Text → Text → Text → Text
first_set a b c = if text_eq a [] then (if text_eq b [] then c else b) else a

abbrev shell_of : Option RunDefaults → Text
shell_of none = []
shell_of (some d) = d.shell

abbrev directory_of : Option RunDefaults → Text
directory_of none = []
directory_of (some d) = d.working_directory

-- `effectiveShell`
unfoldable pub effective_shell : Step → StepParams → Text
unfolding text_eq
effective_shell step p =
    first_set step.shell (shell_of p.job_defaults) (shell_of p.workflow_defaults)

-- `effectiveWorkingDirectory`
unfoldable pub effective_working_directory : Step → StepParams → Text
unfolding text_eq
effective_working_directory step p =
    first_set step.working_directory (directory_of p.job_defaults)
      (directory_of p.workflow_defaults)

-- `exportGitHubContextEnv`
unfoldable pub export_github_context_env : Map Value → Map Text → Map Text
unfolding insert
export_github_context_env [] env = env
export_github_context_env ((k, v) ∷ github) env =
    export_github_context_env github
      (elim v [ str s ↦ insert (lit "GITHUB_" ++ to_upper k) s env | _ ↦ env ])

-- The outputs that a step prints, where no file gives the name.
unfoldable pub add_missing : Map Text → Map Text → Map Text
unfolding insert lookup
add_missing [] outputs = outputs
add_missing ((k, v) ∷ legacy) outputs =
    add_missing legacy (elim (lookup k outputs) [ none ↦ insert k v outputs | some _ ↦ outputs ])

abbrev is_zero : ℤ → Bool
is_zero (pos n) = n == 0
is_zero _ = false

abbrev pub conclusion_of : ℤ → Conclusion
conclusion_of code = if is_zero code then success else failure

abbrev pub is_failure : Conclusion → Bool
is_failure failure = true
is_failure _ = false

-- The step's failure ends the list of steps.
abbrev pub stops : StepReport → Step → Bool
stops report step = is_failure report.conclusion && not step.continue_on_error

-- `fmt.Sprintf("step-%d", i)` for a step that has no id.
unfoldable pub step_id : ℕ → Step → Text
unfolding text_eq decimal
step_id i step = if text_eq step.id [] then lit "step-" ++ decimal i else step.id

-- The values of `outputs:`, by name.
unfoldable pub eval_outputs : Library → Context → Map Text → Result RunError (Map Text)
unfolding substitute_expressions
eval_outputs lib c [] = ok []
eval_outputs lib c ((name, value) ∷ rest) = elim (substitute_expressions lib c value) [
  | err e ↦ err (output_failed name e)
  | ok v ↦ elim (eval_outputs lib c rest) [ err e ↦ err e | ok m ↦ ok ((name, v) ∷ m) ]
]

abbrev pub skipped_report : Text → Step → StepReport
skipped_report id step = record {
  id = id;
  name = step.name;
  conclusion = skipped;
  exit_code = pos 0;
  stdout = [];
  stderr = [];
}

-- What a composite action comes to: conclusion, outputs, stdout and stderr.
abbrev pub Composed : Type 0
Composed = Conclusion × Map Text × Text × Text

unfoldable pub composite_report : Text → Step → Composed → StepReport
composite_report id step (conclusion, outputs, stdout, stderr) = record {
  id = id;
  name = step.name;
  conclusion = conclusion;
  exit_code = pos 0;
  stdout = stdout;
  stderr = stderr;
}
