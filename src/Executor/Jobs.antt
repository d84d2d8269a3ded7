-- ===== src/Executor/Jobs.antt =====
-- `RunJob` of internal/engine/executor.go: the context, the containers and the start.
use mirror_gha.Base.{
  if◌then◌else◌, Text, lit, text_eq, Map, lookup, insert, merge, Result, false, Option, none, some,
  [], ◌∷◌, ok, err,
}
use mirror_gha.Workflow.{
  Value, str, Job, Workflow, Yaml, ContainerSpec, EnvironmentSpec, job_environment, job_container,
}
use mirror_gha.Expr.{Context, new_context}
use mirror_gha.Credentials.{CredentialsError, validate_credentials}
use mirror_gha.Runner.Backend
use mirror_gha.Runner.Backend.{StepResult, StepSpec}
use mirror_gha.Executor.Types.{
  JobRunOptions, JobResult, StepParams, RunError, no_workspace_dir, bad_environment, bad_container,
  bad_credentials, bad_service, start_failed,
}
use mirror_gha.Executor.Machine.{System, Machine, Host}
use mirror_gha.Executor.Started.{run_started}

abbrev with_credentials :
    ContainerSpec
    → Result CredentialsError (Text × Text)
    → Result CredentialsError Backend.ContainerSpec
with_credentials spec (err e) = err e
with_credentials spec (ok (username, password)) = ok (record {
  image = spec.image;
  env = spec.env;
  ports = spec.ports;
  volumes = spec.volumes;
  options = spec.options;
  username = username;
  password = password;
})

-- `toRunnerContainerSpec` of a spec that is there.
unfoldable pub to_runner_container_spec :
    ContainerSpec → Result CredentialsError Backend.ContainerSpec
unfolding validate_credentials
to_runner_container_spec spec = with_credentials spec (validate_credentials spec.credentials)

abbrev optional_spec : Option ContainerSpec → Result CredentialsError (Option Backend.ContainerSpec)
optional_spec none = ok none
optional_spec (some spec) = elim (to_runner_container_spec spec) [
  | ok r ↦ ok (some r)
  | err e ↦ err e
]

-- The services, each with its name.
unfoldable pub runner_services : Map ContainerSpec → Result RunError (Map Backend.ContainerSpec)
unfolding to_runner_container_spec
runner_services [] = ok []
runner_services ((name, spec) ∷ rest) = elim (to_runner_container_spec spec) [
  | err e ↦ err (bad_service name e)
  | ok r ↦ elim (runner_services rest) [ err e ↦ err e | ok m ↦ ok ((name, r) ∷ m) ]
]

module _ {W : Type 0} (host : Host W) (backend : Backend.Backend W) (yaml : Yaml) where
  open yaml use {Node}

  abbrev token_secret : Map Text → Map Text
  token_secret extra_env = elim (lookup (lit "GITHUB_TOKEN") extra_env) [
    | none ↦ []
    | some token ↦ (lit "GITHUB_TOKEN", token) ∷ []
  ]

  abbrev environment_github : Option EnvironmentSpec → Map Value → Map Value
  environment_github none github = github
  environment_github (some spec) github = insert (lit "environment") (str spec.name) github

  abbrev container_env : Option ContainerSpec → Map Text → Map Text
  container_env none env = env
  container_env (some spec) env = merge env spec.env

  -- The context that the steps start with.
  unfoldable pub job_context :
      Workflow Node
      → Job Node
      → JobRunOptions
      → Option EnvironmentSpec
      → Option ContainerSpec
      → Context
  unfolding new_context merge lookup insert
  job_context wf job opts environment container =
      let c = new_context wf job in
      record c {
        github = environment_github environment c.github;
        env = container_env container (merge c.env opts.extra_env);
        needs = opts.needs;
        matrix = opts.matrix;
        vars = opts.vars;
        secrets = token_secret opts.extra_env;
      }

  abbrev job_name : Text → Text
  job_name id = if text_eq id [] then lit "job" else id

  abbrev bind_result {ℓ} : {A B : Type ℓ} {E : Type 0} → Result E A → (A → Result E B) → Result E B
  bind_result (ok a) f = f a
  bind_result (err e) f = err e

  abbrev wrap_error {ℓ} : {A : Type ℓ} {E E' : Type 0} → (E → E') → Result E A → Result E' A
  wrap_error f (ok a) = ok a
  wrap_error f (err e) = err (f e)

  -- What has to hold before the environment starts: the context, the container and the services.
  unfoldable pub prepare_job :
      Workflow Node
      → Job Node
      → JobRunOptions
      → Result RunError (Context × Option Backend.ContainerSpec × Map Backend.ContainerSpec)
  unfolding job_environment job_container job_context runner_services to_runner_container_spec
      text_eq
  prepare_job wf job opts =
      if text_eq opts.workspace_dir []
      then err no_workspace_dir
      else bind_result (wrap_error bad_environment (job_environment yaml job)) λ environment.
        bind_result (wrap_error bad_container (job_container yaml job)) λ container.
          bind_result (wrap_error bad_credentials (optional_spec container)) λ spec.
            bind_result (runner_services job.services)
              λ services. ok (job_context wf job opts environment container, spec, services)

  abbrev job_params : Workflow Node → Job Node → JobRunOptions → StepParams
  job_params wf job opts = record {
    job_defaults = job.defaults;
    workflow_defaults = wf.defaults;
    workspace_dir = opts.workspace_dir;
    overrides = opts.overrides;
  }

  -- The environment is stopped on every path behind its start.
  unfoldable pub run_in_environment :
      Workflow Node
      → Job Node
      → JobRunOptions
      → Context × Option Backend.ContainerSpec × Map Backend.ContainerSpec
      → W
      → Result RunError JobResult × W
  unfolding run_started
  run_in_environment wf job opts (context, spec, services) w =
      let (started, w') =
        backend.start_job (job_name opts.job_id) opts.workspace_dir spec services w in
      elim started [
        | err e ↦ (err (start_failed e), w')
        | ok runner_job ↦
            let sys : System W = record { job = runner_job; host = host } in
            let machine : Machine W = record {
              context = context;
              masks = [];
              node_ready = false;
              world = w';
            } in
            let (result, s) = run_started sys (job_params wf job opts) job opts machine in
            (result, (runner_job.stop s.world).1)
      ]

  -- `RunJob`
  unfoldable pub run_job :
      Workflow Node → Job Node → JobRunOptions → W → Result RunError JobResult × W
  unfolding prepare_job run_in_environment
  run_job wf job opts w = elim (prepare_job wf job opts) [
    | err e ↦ (err e, w)
    | ok prepared ↦ run_in_environment wf job opts prepared w
  ]
