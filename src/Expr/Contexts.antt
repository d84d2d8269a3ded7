-- ===== src/Expr/Contexts.antt =====
-- `Context` of internal/engine/context.go. A map whose keys are compared without case is searched in
-- the order of its list, for ASCII letters.
use mirror_gha.Base.{
  leb, ◌==◌, if◌then◌else◌, replicate, Text, lit, text_eq, Map, insert, merge, upper_byte,
  lower_byte, ℕ, Bool, ◌&&◌, ◌||◌, Option, none, some, [], ◌∷◌, ◌++◌, map,
}
use mirror_gha.Workflow.{Value, str, Job, Workflow}

-- "success", "failure" or "skipped"
pub data Conclusion : Type 0 where
  success failure skipped : Conclusion

unfoldable pub conclusion_text : Conclusion → Text
conclusion_text success = lit "success"
conclusion_text failure = lit "failure"
conclusion_text skipped = lit "skipped"

pub record StepOutcome : Type 0 where
  pub outcome : Conclusion
  pub outputs : Map Text

pub record JobOutcome : Type 0 where
  pub result : Conclusion
  pub outputs : Map Text

pub record Context : Type 0 where
  pub github : Map Value
  pub env : Map Text
  pub runner : Map Value
  pub steps : Map StepOutcome
  pub needs : Map JobOutcome
  pub matrix : Map Value
  pub vars : Map Text
  pub secrets : Map Text

abbrev github_defaults : Text → Map Value
github_defaults workflow_name =
    (lit "event_name", str (lit "workflow_dispatch"))
    ∷ (lit "ref", str (lit "refs/heads/main"))
    ∷ (lit "sha", str (replicate 40 b'0'))
    ∷ (lit "repository", str (lit "local/mirror-gha"))
    ∷ (lit "workflow", str workflow_name)
    ∷ (lit "actor", str (lit "local"))
    ∷ (lit "run_id", str (lit "1"))
    ∷ (lit "run_number", str (lit "1"))
    ∷ (lit "run_attempt", str (lit "1"))
    ∷ []

-- `NewContext`
unfoldable pub new_context : {Node : Type 0} → Workflow Node → Job Node → Context
unfolding merge insert
new_context wf job = record {
  github = github_defaults wf.name;
  env = merge (merge [] wf.env) job.env;
  runner = (lit "os", str (lit "Linux")) ∷ (lit "temp", str (lit "/tmp")) ∷ [];
  steps = [];
  needs = [];
  matrix = [];
  vars = [];
  secrets = [];
}

-- `strings.ToLower` and `strings.ToUpper`
abbrev pub to_lower : Text → Text
to_lower s = map lower_byte s

abbrev pub to_upper : Text → Text
to_upper s = map upper_byte s

-- `strings.EqualFold`
unfoldable pub equal_fold : Text → Text → Bool
unfolding text_eq
equal_fold s t = text_eq (to_lower s) (to_lower t)

-- The value of the first key that is the asked one but for case.
unfoldable pub lookup_ci {ℓ} : {V : Type ℓ} → Text → Map V → Option V
unfolding equal_fold
lookup_ci key [] = none
lookup_ci key ((k, v) ∷ m) = if equal_fold k key then some v else lookup_ci key m

-- `[^A-Z0-9-]` becomes `_`, for an ASCII name.
abbrev sanitized : ℕ → ℕ
sanitized c = if leb b'A' c && leb c b'Z' || leb b'0' c && leb c b'9' || c == b'-' then c else b'_'

-- `inputEnvKeyFor`, and `inputEnvKey` of internal/actions/input_env.go.
unfoldable pub input_env_key : Text → Text
input_env_key name = lit "INPUT_" ++ map sanitized (to_upper name)
