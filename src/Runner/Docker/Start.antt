-- ===== src/Runner/Docker/Start.antt =====
-- `LinuxDockerBackend.StartJob` of internal/runner/docker_backend.go.
use mirror_gha.Base.{
  if◌then◌else◌, Text, lit, text_eq, Map, keys, sort_strings, Result, trim_space, Option, none,
  some, List, [], ◌∷◌, ◌++◌, ok, err,
}
use mirror_gha.Runner.Backend.{ContainerSpec, RunnerJob, Backend}
use mirror_gha.Os.{lift, Os, Io, ◌>>=◌, ◌>>◌, give, raise, wrap, on_error, checked, ignore_error}
use mirror_gha.Runner.Docker.Names.{
  linux_runner_image, container_files_mount, container_workspace_mount, sanitize_docker_name,
  docker, told, spec_args,
}
use mirror_gha.Runner.Docker.Service.{Started, login_for, create_network, start_named}
use mirror_gha.Runner.Docker.Steps.{docker_job}

unfoldable pub job_image : Text → Option ContainerSpec → Text
unfolding text_eq
job_image image none = image
job_image image (some spec) = if text_eq spec.image [] then image else spec.image

-- `networkName`
unfoldable pub network_name_of : Text → Map ContainerSpec → Text
unfolding sanitize_docker_name
network_name_of job_id [] = []
network_name_of job_id (_ ∷ _) = sanitize_docker_name (lit "mirror-svc-" ++ job_id)

abbrev network_flags : Text → List Text
network_flags name = if text_eq name [] then [] else lit "--network" ∷ name ∷ []

module _ {W : Type 0} (os : Os W) where
  unfoldable pub login_container : Text → Option ContainerSpec → Io W (List Text)
  login_container image none = give []
  login_container image (some spec) = login_for os image spec.username spec.password

  -- The network and the services, where there are any.
  unfoldable pub start_services :
      (files_root network : Text) → Map ContainerSpec → Started → Io W Started
  start_services files_root network [] started = give started
  start_services files_root network (service ∷ services) started =
      on_error (ignore_error (os.remove_all files_root)) (create_network os network)
      >> start_named os network (service ∷ services) (sort_strings (keys (service ∷ services)))
          started

  abbrev container_args : Option ContainerSpec → Result Text (List Text)
  container_args none = ok []
  container_args (some spec) = spec_args os spec

  -- The arguments of `docker run` for the container of a job.
  unfoldable pub job_args :
      (files_root workspace_dir network image : Text)
      → Option ContainerSpec
      → Result Text (List Text)
  unfolding spec_args text_eq
  job_args files_root workspace_dir network image container = elim (container_args container) [
    | err e ↦ err e
    | ok args ↦ ok (
        (lit "run"
          ∷ lit "-d"
          ∷ lit "--rm"
          ∷ lit "-v"
          ∷ (files_root ++ b':' ∷ container_files_mount)
          ∷ lit "-v"
          ∷ (workspace_dir ++ b':' ∷ container_workspace_mount)
          ∷ [])
        ++ network_flags network
        ++ args
        ++ image ∷ lit "sleep" ∷ lit "infinity" ∷ [])
  ]

  -- `LinuxDockerBackend.StartJob`
  unfoldable pub start_docker :
      Text → Text → Text → Option ContainerSpec → Map ContainerSpec → Io W (RunnerJob W)
  start_docker base_image job_id host_workspace_dir container services =
      if text_eq host_workspace_dir []
      then raise (lit "hostWorkspaceDir must not be empty")
      else (do
        files_root ← wrap (lit "create job files root: ") (os.make_temp (lit "mirror-job-"))
        let image = job_image base_image container
        let network = network_name_of job_id services
        let tidy : W → W = ignore_error (os.remove_all files_root)
        logouts ← on_error tidy (login_container image container)
        started ←
            start_services files_root network services (record { logouts = logouts; ids = [] })
        args ← on_error tidy (lift (job_args files_root host_workspace_dir network image container))
        o ← on_error tidy (checked os (told (lit "start job container")) (docker args))
        give (
            docker_job os (record {
              container_id = trim_space o.stdout;
              host_files_root = files_root;
              host_workspace_dir = host_workspace_dir;
              registry_logouts = started.logouts;
              network_name = network;
              service_container_ids = started.ids;
            })))

  abbrev pub linux_docker_backend : Backend W
  linux_docker_backend = record { start_job = start_docker linux_runner_image }
