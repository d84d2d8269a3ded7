-- ===== src/Runner/Docker/Samples.antt =====
-- internal/runner/docker_backend.go on small inputs, and the theorems about it at them.
use mirror_gha.Base.{
  Text, lit, Result, ℕ, ◌+◌, ◌*◌, ◌≡◌, refl, false, not, none, List, [], ◌∷◌, arith, ok, err,
}
use mirror_gha.Os.{Os, completed}
use mirror_gha.Runner.Docker.Names.{sanitize_docker_name}
use mirror_gha.Runner.Docker.Health.{second, poll_health, wait_for_service_health}
use mirror_gha.Runner.Backend.{ContainerSpec, RunnerJob}
use mirror_gha.Os.Samples.{logging_os}
use mirror_gha.Runner.Docker.Steps.{docker_job}
use mirror_gha.Runner.Docker.Start.{start_docker}
use mirror_gha.Runner.Docker.Traced.{Traced, traced}
use mirror_gha.Runner.Docker.Waiting.{GoesOn, wait_for_service_health-enough}

-- The world is the time, a command takes no time, and a service never gets healthy.
abbrev starting_os : Os ℕ
starting_os = record {
  make_temp = λ pattern w. (ok pattern, w);
  make_dirs = λ dir w. (ok tt, w);
  remove_all = λ dir w. (ok tt, w);
  run = λ c w. (completed (record { stdout = []; stderr = []; combined = lit "starting" }), w);
  create_temp = λ pattern w. (ok pattern, w);
  remove = λ path w. (ok tt, w);
  exists = λ path w. false;
  user_cache_dir = ok [];
  arch = lit "amd64";
  environ = λ w. [];
  rel_path = λ root path. ok path;
  quote = λ t. t;
  show_duration = λ d. lit "2s";
  now = λ w. w;
  sleep = λ d w. w + d;
}

starting_os-GoesOn : GoesOn starting_os
starting_os-GoesOn = record { runs = λ c w. omega arith; sleeps = λ d w. omega arith }

-- Two seconds are waited, in three rounds.
three_rounds : wait_for_service_health starting_os (lit "db") (2 * second) 0 ≡ (
  err (lit "service container db did not become healthy within 2s (last status: starting)"),
  3 * second,
)
unfolding wait_for_service_health
three_rounds = refl

wait_for_service_health-enough_example :
    poll_health starting_os (lit "db") (2 * second) 10 (0 + 2 * second) 0
    ≡ wait_for_service_health starting_os (lit "db") (2 * second) 0
wait_for_service_health-enough_example =
    wait_for_service_health-enough starting_os starting_os-GoesOn (lit "db") (2 * second) 10 0
      (omega arith)

network : sanitize_docker_name (lit "mirror-svc-Build_1") ≡ lit "mirror-svc-build-1"
unfolding sanitize_docker_name
network = refl

abbrev database : ContainerSpec
database = record {
  image = lit "ghcr.io/db:1";
  env = [];
  ports = lit "5432:5432" ∷ [];
  volumes = [];
  options = lit "--health-retries 5";
  username = lit "me";
  password = lit "secret";
}

-- A job with one service from a private registry.
abbrev started_job : RunnerJob (Traced (List Text))
started_job = docker_job (traced logging_os) (record {
  container_id = lit "c1";
  host_files_root = lit "/tmp/mirror-job-";
  host_workspace_dir = lit "/work";
  registry_logouts = lit "ghcr.io" ∷ [];
  network_name = lit "mirror-svc-build";
  service_container_ids = lit "c1" ∷ [];
})

-- The start of it.
abbrev start_build : Result Text (RunnerJob (Traced (List Text))) × Traced (List Text)
start_build =
    start_docker (traced logging_os) (lit "ubuntu:22.04") (lit "build") (lit "/work") none
      ((lit "db", database) ∷ []) ([], [])
