-- ===== src/Runner/Docker/Names.antt =====
-- The names and the calls of docker in internal/runner/docker_backend.go that its other functions use.
use mirror_gha.Base.{
  leb, ◌==◌, if◌then◌else◌, any, Text, lit, text_eq, Map, Result, cut, lower_byte, ℕ, Bool, ◌&&◌,
  ◌||◌, none, some, List, [], ◌∷◌, ◌++◌, map, ok, err,
}
use mirror_gha.Runner.Backend.{ContainerSpec}
use mirror_gha.Runner.Options.{OptionsError, unterminated_quote, split_docker_options}
use mirror_gha.Runner.HostJob.{env_line}
use mirror_gha.Os.{Command, Output, Os, Io, command, checked}

abbrev pub linux_runner_image : Text
linux_runner_image = lit "ubuntu:22.04"

abbrev pub container_files_mount : Text
container_files_mount = lit "/mirror-files"

abbrev pub container_workspace_mount : Text
container_workspace_mount = lit "/github/workspace"

-- `registryHostFor`
unfoldable pub registry_host_for : Text → Text
unfolding cut text_eq
registry_host_for image = elim (cut (lit "/") image) [
  | none ↦ lit "index.docker.io"
  | some (first, _) ↦
      if any (λ c. c == b'.' || c == b':') first || text_eq first (lit "localhost")
      then first
      else lit "index.docker.io"
]

abbrev is_name_byte : ℕ → Bool
is_name_byte c = leb b'a' c && leb c b'z' || leb b'0' c && leb c b'9' || c == b'-'

-- `sanitizeDockerName` of an ASCII text.
unfoldable pub sanitize_docker_name : Text → Text
sanitize_docker_name s = map (λ c. let l = lower_byte c in if is_name_byte l then l else b'-') s

abbrev pub docker : List Text → Command
docker args = command (lit "docker") args

-- `<before>: <error>: <standard error>`
abbrev pub told : Text → Text → Text → Text
told before e stderr = before ++ lit ": " ++ e ++ lit ": " ++ stderr

-- `-e`, `-p` or `-v` before each.
unfoldable pub each_flag : Text → List Text → List Text
each_flag flag [] = []
each_flag flag (a ∷ rest) = flag ∷ a ∷ each_flag flag rest

abbrev pub env_flags : Map Text → List Text
env_flags env = each_flag (lit "-e") (map env_line env)

module _ {W : Type 0} (os : Os W) where
  -- `dockerRegistryLogin`
  unfoldable pub docker_registry_login : (registry username password : Text) → Io W Output
  docker_registry_login registry username password =
      checked os (told (lit "docker login " ++ registry))
        (record (docker
          (lit "login" ∷ registry ∷ lit "-u" ∷ username ∷ lit "--password-stdin" ∷ [])) {
            stdin = password;
          })

  -- `dockerRegistryLogout`
  unfoldable pub docker_registry_logout : Text → Io W Output
  unfolding checked
  docker_registry_logout registry =
      checked os (told (lit "docker logout " ++ registry)) (docker (lit "logout" ∷ registry ∷ []))

  abbrev options_error : OptionsError → Text
  options_error (unterminated_quote s) = lit "unterminated quote in options: " ++ os.quote s

  -- The options of a container as arguments.
  unfoldable pub option_args : Text → Result Text (List Text)
  unfolding split_docker_options text_eq
  option_args options =
      if text_eq options []
      then ok []
      else elim (split_docker_options options) [ ok opts ↦ ok opts | err e ↦ err (options_error e) ]

  -- The arguments that a container's spec stands for.
  unfoldable pub spec_args : ContainerSpec → Result Text (List Text)
  unfolding each_flag option_args
  spec_args spec = elim (option_args spec.options) [
    | err e ↦ err e
    | ok opts ↦ ok (
        env_flags spec.env
        ++ each_flag (lit "-p") spec.ports
        ++ each_flag (lit "-v") spec.volumes
        ++ opts)
  ]
