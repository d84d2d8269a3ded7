-- ===== src/Runner/Docker/Steps.antt =====
-- `dockerJob` of internal/runner/docker_backend.go: what runs in the container of a job, and its end.
use mirror_gha.Base.{
  if◌then◌else◌, drop, Text, lit, text_eq, has_prefix, Result, dot_dot, join_paths, join_path, List,
  [], ◌∷◌, ◌++◌, ok, err,
}
use mirror_gha.Runner.Backend.{StepResult, StepSpec, DockerActionSpec, RunnerJob}
use mirror_gha.Runner.HostJob.{step_result}
use mirror_gha.Os.{Output, Os, Io, ◌>>=◌, give, raise, checked, run_only, ignore_error}
use mirror_gha.Runner.Docker.Names.{
  container_files_mount, container_workspace_mount, docker, told, env_flags, each_flag,
  docker_registry_logout,
}

pub record DockerJob : Type 0 where
  pub container_id : Text
  pub host_files_root : Text
  pub host_workspace_dir : Text
  pub registry_logouts : List Text
  pub network_name : Text
  pub service_container_ids : List Text

-- The five files of a step, in a directory of the container.
unfoldable pub file_flags : Text → List Text
unfolding each_flag
file_flags dir = each_flag (lit "-e") (
    (lit "GITHUB_ENV=" ++ dir ++ lit "/github_env")
    ∷ (lit "GITHUB_PATH=" ++ dir ++ lit "/github_path")
    ∷ (lit "GITHUB_OUTPUT=" ++ dir ++ lit "/github_output")
    ∷ (lit "GITHUB_STEP_SUMMARY=" ++ dir ++ lit "/github_step_summary")
    ∷ (lit "GITHUB_STATE=" ++ dir ++ lit "/github_state")
    ∷ [])

abbrev flag_of : (flag value : Text) → List Text
flag_of flag value = if text_eq value [] then [] else flag ∷ value ∷ []

abbrev step_command : StepSpec → List Text
step_command spec = elim spec.args [
  | _ ∷ _ ↦ spec.args
  | [] ↦ (if text_eq spec.shell [] then lit "sh" else spec.shell) ∷ lit "-c" ∷ spec.command ∷ []
]

-- The arguments of `docker exec` for a step whose files are in a directory of the container.
unfoldable pub exec_args : (container_id files_dir : Text) → StepSpec → List Text
unfolding file_flags each_flag text_eq
exec_args container_id files_dir spec =
    lit "exec"
    ∷ (flag_of (lit "-w") spec.working_directory
        ++ env_flags spec.env
        ++ file_flags files_dir
        ++ (container_id ∷ [])
        ++ step_command spec)

abbrev source_flags : DockerActionSpec → List Text
source_flags spec =
    if text_eq spec.action_source_dir []
    then []
    else lit "-v"
      ∷ (spec.action_source_dir ++ b':' ∷ spec.action_path_in_container ++ lit ":ro")
      ∷ lit "-e"
      ∷ (lit "GITHUB_ACTION_PATH=" ++ spec.action_path_in_container)
      ∷ []

abbrev entrypoint_flags : List Text → List Text
entrypoint_flags [] = []
entrypoint_flags (e ∷ _) = lit "--entrypoint" ∷ e ∷ []

-- The arguments of `docker run` for a docker action.
unfoldable pub action_args : DockerJob → DockerActionSpec → List Text
unfolding file_flags each_flag text_eq
action_args j spec =
    (lit "run"
      ∷ lit "--rm"
      ∷ lit "-v"
      ∷ (j.host_workspace_dir ++ b':' ∷ container_workspace_mount)
      ∷ lit "-w"
      ∷ container_workspace_mount
      ∷ lit "-v"
      ∷ (spec.files_dir ++ b':' ∷ container_files_mount)
      ∷ lit "-e"
      ∷ (lit "GITHUB_WORKSPACE=" ++ container_workspace_mount)
      ∷ [])
    ++ file_flags container_files_mount
    ++ source_flags spec
    ++ env_flags spec.env
    ++ (lit "--network"
        ∷ (lit "container:" ++ j.container_id)
        ∷ lit "-v"
        ∷ lit "/var/run/docker.sock:/var/run/docker.sock"
        ∷ [])
    ++ entrypoint_flags spec.entrypoint
    ++ (spec.image ∷ [])
    ++ drop 1 spec.entrypoint
    ++ spec.args

abbrev remove_container : Text → List Text
remove_container id = lit "rm" ∷ lit "-f" ∷ id ∷ []

module _ {W : Type 0} (os : Os W) where
  unfoldable pub remove_services : List Text → W → W
  unfolding run_only
  remove_services [] w = w
  remove_services (id ∷ ids) w = remove_services ids (run_only os (docker (remove_container id)) w)

  unfoldable pub log_out : List Text → W → W
  unfolding docker_registry_logout
  log_out [] w = w
  log_out (registry ∷ rest) w = log_out rest (ignore_error (docker_registry_logout os registry) w)

module _ {W : Type 0} (os : Os W) (j : DockerJob) where
  unfoldable pub docker_copy : (host_path container_path : Text) → Io W (Unit {0})
  unfolding ◌>>=◌ give checked
  docker_copy host_path container_path =
      checked os (told (lit "mkdir -p " ++ container_path ++ lit " in container"))
        (docker (lit "exec" ∷ j.container_id ∷ lit "mkdir" ∷ lit "-p" ∷ container_path ∷ []))
      >>= λ _.
          checked os
            (told (
              lit "docker cp "
              ++ host_path
              ++ lit " -> "
              ++ j.container_id
              ++ b':' ∷ container_path))
            (docker
              (lit "cp" ∷ (host_path ++ lit "/.") ∷ (j.container_id ++ b':' ∷ container_path) ∷ []))
          >>= λ _. give tt

  abbrev outside : Text → Text
  outside files_dir =
      lit "FilesDir "
      ++ os.quote files_dir
      ++ lit " must be a subdirectory of the job's FilesRoot "
      ++ os.quote j.host_files_root

  unfoldable pub docker_exec : StepSpec → Io W StepResult
  unfolding exec_args raise has_prefix join_paths
  docker_exec spec w = elim (os.rel_path j.host_files_root spec.files_dir) [
    | err e ↦ (err (outside spec.files_dir), w)
    | ok rel ↦
        if has_prefix rel dot_dot
        then (err (outside spec.files_dir), w)
        else (let (r, w') =
              os.run (docker (exec_args j.container_id (join_path container_files_mount rel) spec))
                w in
            (step_result (lit "docker exec: ") r, w'))
  ]

  unfoldable pub docker_run_action : DockerActionSpec → Io W StepResult
  unfolding action_args
  docker_run_action spec w =
      let (r, w') = os.run (docker (action_args j spec)) w in
      (step_result (lit "docker run (docker action " ++ spec.image ++ lit "): ") r, w')

  unfoldable pub remove_network : W → W
  unfolding run_only text_eq
  remove_network w =
      if text_eq j.network_name []
      then w
      else run_only os (docker (lit "network" ∷ lit "rm" ∷ j.network_name ∷ [])) w

  abbrev stop_result : Result Text Output → Result Text (Unit {0}) → Result Text (Unit {0})
  stop_result (err e) removed = err e
  stop_result (ok o) (err e) =
      err (lit "remove job files root " ++ j.host_files_root ++ lit ": " ++ e)
  stop_result (ok o) (ok u) = ok u

  -- `dockerJob.Stop`
  unfoldable pub docker_stop : Io W (Unit {0})
  unfolding checked remove_services remove_network log_out
  docker_stop w =
      let (stopped, w1) =
        checked os (told (lit "stop job container " ++ j.container_id))
          (docker (remove_container j.container_id)) w in
      let (removed, w2) = os.remove_all j.host_files_root (
        log_out os j.registry_logouts
          (remove_network (remove_services os j.service_container_ids w1))) in
      (stop_result stopped removed, w2)

  unfoldable pub docker_job : RunnerJob W
  unfolding docker_copy docker_exec docker_run_action docker_stop
  docker_job = record {
    files_root = j.host_files_root;
    workspace_path = container_workspace_mount;
    copy_to_container = docker_copy;
    exec = docker_exec;
    run_docker_action = docker_run_action;
    stop = docker_stop;
    platform = lit "linux";
  }
