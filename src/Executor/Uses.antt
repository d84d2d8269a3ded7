-- ===== src/Executor/Uses.antt =====
-- `prepareUsesStep` of internal/engine/uses_step.go, with `ResolveDockerImage` of
-- internal/actions/docker.go.
use mirror_gha.Base.{
  if◌then◌else◌, Text, lit, text_eq, has_prefix, Map, lookup, insert, merge, Result, trim_prefix,
  fields, slash, join_paths, join_path, Option, none, some, List, [], ◌∷◌, ◌++◌, map, ok, err,
}
use mirror_gha.Workflow.{Step}
use mirror_gha.Expr.{Context, Library, substitute_expressions}
use mirror_gha.Actions.Resolve.{ActionRef, docker_scheme, resolve_uses_ref}
use mirror_gha.Actions.Metadata.{
  ActionStep, ActionRuns, ActionMetadata, parse_metadata, input_env, container_node_path,
  container_action_path,
}
use mirror_gha.Runner.Backend.{DockerActionSpec}
use mirror_gha.Executor.Types.{
  PostAction, UsesStepPlan, empty_plan, StepParams, UsesStepError, with_failed, bad_ref,
  docker_needs_linux, no_cache_root, fetch_failed, node_failed, copy_failed, image_failed,
  bad_metadata, unsupported_using,
}
use mirror_gha.Executor.Machine.{
  if_none, mark_node_ready, System, M, ◌>>=◌, ◌>>◌, give, raise, lift, call, get_machine,
}

-- The values of `with:`, with their expressions replaced.
unfoldable pub substitute_with : Library → Context → Map Text → Result UsesStepError (Map Text)
unfolding substitute_expressions
substitute_with lib c [] = ok []
substitute_with lib c ((k, v) ∷ rest) = elim (substitute_expressions lib c v) [
  | err e ↦ err (with_failed k e)
  | ok val ↦ elim (substitute_with lib c rest) [ err e ↦ err e | ok m ↦ ok ((k, val) ∷ m) ]
]

-- A step of a composite action as a step of a job.
abbrev nested_step : ActionStep → Step
nested_step a = record {
  id = a.id;
  name = a.name;
  run = a.run;
  uses = a.uses;
  «with» = a.«with»;
  shell = a.shell;
  env = a.env;
  if_expr = a.if_expr;
  continue_on_error = a.continue_on_error;
  working_directory = a.working_directory;
  timeout = 0;
}

abbrev docker_spec : Text → List Text → List Text → DockerActionSpec
docker_spec image entrypoint args = record {
  image = image;
  entrypoint = entrypoint;
  args = args;
  env = [];
  action_source_dir = [];
  action_path_in_container = [];
  files_dir = [];
  timeout = 0;
}

abbrev fields_of : Option Text → List Text
fields_of none = []
fields_of (some v) = fields v

abbrev map_option : {A B : Type 0} → (A → B) → Option A → Option B
map_option f none = none
map_option f (some a) = some (f a)

abbrev or_default {ℓ} : {A : Type ℓ} → A → Option A → A
or_default a none = a
or_default a (some b) = b

module _ {W : Type 0} (sys : System W) where
  -- `if p.RunnerJob.Platform() != "linux"`
  unfoldable pub require_linux : M W UsesStepError (Unit {0})
  unfolding text_eq
  require_linux =
      if text_eq sys.job.platform (lit "linux")
      then give tt
      else raise (docker_needs_linux sys.job.platform)

  -- A raw `docker://` reference.
  unfoldable pub prepare_image : Text → Map Text → M W UsesStepError UsesStepPlan
  unfolding require_linux lookup fields
  prepare_image image «with» = do
    require_linux
    give (record empty_plan {
      docker = some (
          docker_spec image (fields_of (lookup (lit "entrypoint") «with»))
            (fields_of (lookup (lit "args") «with»)));
    })

  unfoldable pub fetched_dir : Text → Text → Text
  unfolding text_eq join_paths
  fetched_dir dir subpath = if text_eq subpath [] then dir else join_path dir subpath

  -- Where the action's source is on the host.
  unfoldable pub source_dir : StepParams → ActionRef → Text → M W UsesStepError Text
  unfolding fetched_dir lookup join_paths
  source_dir p ref cache_root =
      if ref.local
      then give (join_path p.workspace_dir ref.local_path)
      else if_none (lookup (ref.owner ++ (slash ++ (ref.repo ++ (b'@' ∷ ref.ref)))) p.overrides) (do
        dir ← call fetch_failed (sys.fetch_remote ref.owner ref.repo ref.ref cache_root)
        give (fetched_dir dir ref.subpath))

  -- The node runtime is copied into the job once.
  unfoldable pub ready_node : Text → M W UsesStepError (Unit {0})
  ready_node cache_root = do
    s ← get_machine
    if s.node_ready then give tt else do
      dir ← call node_failed (sys.ensure_node cache_root sys.job.platform)
      call copy_failed (sys.job.copy_to_container dir container_node_path)
      mark_node_ready

  abbrev node_args : Text → Text → List Text
  node_args action_path script =
      (container_node_path ++ lit "/bin/node") ∷ (action_path ++ (slash ++ script)) ∷ []

  abbrev node_post : Text → Map Text → ActionRuns → Option PostAction
  node_post action_path env runs =
      if text_eq runs.post []
      then none
      else some
          (record { args = node_args action_path runs.post; env = env; post_if = runs.post_if })

  unfoldable pub prepare_node :
      Text → Text → Map Text → ActionMetadata → Text → M W UsesStepError UsesStepPlan
  unfolding ready_node input_env insert text_eq container_action_path
  prepare_node dir step_id «with» metadata cache_root = do
    ready_node cache_root
    let path = container_action_path step_id
    call copy_failed (sys.job.copy_to_container dir path)
    let env = insert (lit "GITHUB_ACTION_PATH") path (input_env metadata «with»)
    give (record empty_plan {
      args = node_args path metadata.runs.main;
      env = env;
      post = node_post path env metadata.runs;
    })

  -- `ResolveDockerImage`
  unfoldable pub resolve_docker_image : Text → Text → ActionRuns → M W UsesStepError Text
  unfolding has_prefix trim_prefix text_eq
  resolve_docker_image dir uses runs =
      if has_prefix runs.image docker_scheme
      then give (trim_prefix runs.image docker_scheme)
      else if text_eq runs.image []
      then raise (image_failed (lit "docker action has no runs.image set"))
      else call image_failed (sys.build_image dir runs.image uses)

  unfoldable pub prepare_docker :
      Text → Text → Text → Map Text → ActionMetadata → M W UsesStepError UsesStepPlan
  unfolding require_linux resolve_docker_image input_env merge lookup fields text_eq
      container_action_path
  prepare_docker dir step_id uses «with» metadata = do
    require_linux
    image ← resolve_docker_image dir uses metadata.runs
    let entrypoint = or_default metadata.runs.entrypoint (lookup (lit "entrypoint") «with»)
    let args = or_default metadata.runs.args (map_option fields (lookup (lit "args") «with»))
    give (record empty_plan {
      env = merge (input_env metadata «with») metadata.runs.env;
      docker = some (record (docker_spec image (fields entrypoint) args) {
        action_source_dir = dir;
        action_path_in_container = container_action_path step_id;
      });
    })

  unfoldable pub prepare_composite :
      Text → Text → Map Text → ActionMetadata → M W UsesStepError UsesStepPlan
  unfolding input_env insert container_action_path
  prepare_composite dir step_id «with» metadata = do
    let path = container_action_path step_id
    call copy_failed (sys.job.copy_to_container dir path)
    give (record empty_plan {
      composite = some (record {
        steps = map nested_step metadata.runs.steps;
        outputs = metadata.outputs;
        base_env = insert (lit "GITHUB_ACTION_PATH") path (input_env metadata «with»);
      });
    })

  -- From `CacheRoot` on: an action that has metadata.
  unfoldable pub prepare_action :
      StepParams → Text → Step → Map Text → ActionRef → M W UsesStepError UsesStepPlan
  unfolding source_dir parse_metadata prepare_node prepare_docker prepare_composite has_prefix
      text_eq
  prepare_action p step_id step «with» ref = do
    cache_root ← lift no_cache_root sys.cache_root
    dir ← source_dir p ref cache_root
    s ← get_machine
    metadata ←
        lift bad_metadata
          (parse_metadata sys.unmarshal_action (λ name. sys.read_action dir name s.world))
    let using = metadata.runs.using
    if has_prefix using (lit "node")
        then prepare_node dir step_id «with» metadata cache_root
        else if text_eq using (lit "docker")
        then prepare_docker dir step_id step.uses «with» metadata
        else if text_eq using (lit "composite")
        then prepare_composite dir step_id «with» metadata
        else raise (unsupported_using using)

  -- `prepareUsesStep`
  unfoldable pub prepare_uses_step : StepParams → Text → Step → M W UsesStepError UsesStepPlan
  unfolding substitute_with resolve_uses_ref prepare_image prepare_action
  prepare_uses_step p step_id step = do
    s ← get_machine
    «with» ← lift (λ e. e) (substitute_with sys.library s.context step.«with»)
    ref ← lift bad_ref (resolve_uses_ref step.uses)
    if ref.docker
        then prepare_image ref.docker_image «with»
        else prepare_action p step_id step «with» ref
