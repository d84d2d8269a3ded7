-- ===== src/Executor/Types.antt =====
-- The types of internal/engine/executor.go, uses_step.go and composite_step.go.
use mirror_gha.Base.{Text, Map, Option, none, List, []}
use mirror_gha.Workflow.{Value, ℤ, Step, RunDefaults, ParseError}
use mirror_gha.Expr.{JobOutcome, Conclusion, ExprError}
use mirror_gha.Actions.Resolve.{UsesError}
use mirror_gha.Actions.Metadata.{ActionOutput, MetadataError}
use mirror_gha.Commands.Files.{FileError}
use mirror_gha.Commands.FileSets.{CreateError}
use mirror_gha.Credentials.{CredentialsError}
use mirror_gha.Runner.Backend.{DockerActionSpec}

pub record StepReport : Type 0 where
  pub id : Text
  pub name : Text
  pub conclusion : Conclusion
  pub exit_code : ℤ
  pub stdout : Text
  pub stderr : Text

pub record JobResult : Type 0 where
  pub conclusion : Conclusion
  pub steps : List StepReport
  pub outputs : Map Text

-- `postAction`
pub record PostAction : Type 0 where
  pub args : List Text
  pub env : Map Text
  pub post_if : Text

-- `pendingPostAction`
pub record PendingPost : Type 0 where
  pub action : PostAction
  pub open action use *
  pub step_id : Text
  pub state_file : Text

-- `compositeInvocation`
pub record CompositeInvocation : Type 0 where
  pub steps : List Step
  pub outputs : Map ActionOutput
  pub base_env : Map Text

-- `usesStepPlan`
pub record UsesStepPlan : Type 0 where
  pub args : List Text
  pub env : Map Text
  pub docker : Option DockerActionSpec
  pub composite : Option CompositeInvocation
  pub post : Option PostAction

abbrev pub empty_plan : UsesStepPlan
empty_plan = record { args = []; env = []; docker = none; composite = none; post = none }

-- `JobRunOptions`
pub record JobRunOptions : Type 0 where
  pub needs : Map JobOutcome
  pub matrix : Map Value
  pub vars : Map Text
  pub workspace_dir : Text
  pub overrides : Map Text
  pub extra_env : Map Text
  pub job_id : Text
  pub event_name : Text
  pub event_json_dir : Text

-- What `runStep` reads of `runStepParams`; the masks, the node flag and the job's environment are
-- part of the state.
pub record StepParams : Type 0 where
  pub job_defaults : Option RunDefaults
  pub workflow_defaults : Option RunDefaults
  pub workspace_dir : Text
  pub overrides : Map Text

pub data UsesStepError : Type 0 where
  with_failed : Text → ExprError → UsesStepError
  bad_ref : UsesError → UsesStepError
  docker_needs_linux : Text → UsesStepError
  no_cache_root fetch_failed node_failed copy_failed image_failed : Text → UsesStepError
  bad_metadata : MetadataError → UsesStepError
  unsupported_using : Text → UsesStepError

-- The errors of a step and of a job, by the messages of the source; a text is what the system says.
pub data RunError : Type 0 where
  run_and_uses : (step : Text) → RunError
  if_failed : (step : Text) → ExprError → RunError
  prepare_failed : (step : Text) → UsesStepError → RunError
  substitute_failed : (step : Text) → ExprError → RunError
  composite_failed : (step : Text) → RunError → RunError
  too_deep : RunError
  nested_failed : (step : Text) → RunError → RunError
  output_failed : (name : Text) → ExprError → RunError
  temp_dir_failed exec_failed : (step message : Text) → RunError
  command_files_failed : (step : Text) → CreateError → RunError
  bad_outputs bad_env_updates bad_state : (step : Text) → FileError → RunError
  post_if_failed : (step : Text) → ExprError → RunError
  no_workspace_dir : RunError
  bad_environment bad_container : ParseError → RunError
  bad_credentials : CredentialsError → RunError
  bad_service : (name : Text) → CredentialsError → RunError
  start_failed : Text → RunError
  event_read_failed event_parse_failed event_stage_failed : Text → RunError
