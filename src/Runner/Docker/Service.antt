-- ===== src/Runner/Docker/Service.antt =====
-- The service containers of `LinuxDockerBackend.StartJob` in internal/runner/docker_backend.go.
use mirror_gha.Base.{
  if◌then◌else◌, Text, lit, text_eq, Map, lookup, Result, contains, trim_space, ◌*◌, none, some,
  List, [], ◌∷◌, ◌++◌, ok, err,
}
use mirror_gha.Runner.Backend.{ContainerSpec}
use mirror_gha.Os.{
  lift, Os, Io, Ran, completed, exit_error, run_error, ◌>>=◌, ◌>>◌, give, wrap, checked,
}
use mirror_gha.Runner.Docker.Names.{
  registry_host_for, docker, told, docker_registry_login, spec_args,
}
use mirror_gha.Runner.Docker.Health.{second, wait_for_service_health}

-- What the start of services leaves: `registryLogouts` and `serviceContainerIDs`.
pub record Started : Type 0 where
  pub logouts : List Text
  pub ids : List Text

module _ {W : Type 0} where
  module _ (os : Os W) where
    -- The login for an image, where there is a user name, and the registry to log out of.
    unfoldable pub login_for : (image username password : Text) → Io W (List Text)
    login_for image username password =
        if text_eq username []
        then give []
        else docker_registry_login os (registry_host_for image) username password >>= λ _.
            give (registry_host_for image ∷ [])

    abbrev network_result : Text → Ran → Result Text (Unit {0})
    network_result name (completed o) = ok tt
    network_result name (exit_error code e o) =
        if contains o.stderr (lit "already exists")
        then ok tt
        else err (told (lit "create network " ++ name) e o.stderr)
    network_result name (run_error e o) =
        if contains o.stderr (lit "already exists")
        then ok tt
        else err (told (lit "create network " ++ name) e o.stderr)

    unfoldable pub create_network : Text → Io W (Unit {0})
    unfolding contains
    create_network name w =
        let (r, w') = os.run (docker (lit "network" ∷ lit "create" ∷ name ∷ [])) w in
        (network_result name r, w')

    unfoldable pub service_args : (network name : Text) → ContainerSpec → Result Text (List Text)
    unfolding spec_args
    service_args network name spec = elim (spec_args os spec) [
      | err e ↦ err e
      | ok args ↦ ok (
          (lit "run"
            ∷ lit "-d"
            ∷ lit "--rm"
            ∷ lit "--network"
            ∷ network
            ∷ lit "--network-alias"
            ∷ name
            ∷ [])
          ++ args
          ++ spec.image ∷ [])
    ]

    -- One round of the loop over the services.
    unfoldable pub start_service : (network name : Text) → ContainerSpec → Started → Io W Started
    start_service network name spec started = do
      logouts ← login_for spec.image spec.username spec.password
      args ← lift (service_args network name spec)
      o ← checked os (told (lit "start service " ++ name)) (docker args)
      let id = trim_space o.stdout
      wrap (lit "service " ++ name ++ lit ": ") (wait_for_service_health os id (300 * second))
      give (record { logouts = started.logouts ++ logouts; ids = started.ids ++ id ∷ [] })

    -- The loop over the names. A name of the loop is a service.
    unfoldable pub start_named :
        (network : Text) → Map ContainerSpec → List Text → Started → Io W Started
    start_named network services [] started = give started
    start_named network services (name ∷ names) started = elim (lookup name services) [
      | none ↦ start_named network services names started
      | some spec ↦ start_service network name spec started >>= start_named network services names
    ]
