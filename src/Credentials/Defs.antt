-- ===== src/Credentials/Defs.antt =====
-- internal/engine/credentials.go
use mirror_gha.Base.{
  ◌==◌, if◌then◌else◌, length, any, Text, lit, text_eq, has_prefix, Map, lookup, Result, ◌>>=◌, cut,
  not, ◌||◌, Option, none, some, [], ok, err,
}

pub data CredentialsError : Type 0 where
  not_exactly_two_keys : CredentialsError

unfoldable pub field_value : Option Text → Result CredentialsError Text
unfolding text_eq
field_value none = err not_exactly_two_keys
field_value (some v) = if text_eq v [] then err not_exactly_two_keys else ok v

-- `validateCredentials`; `none` is the nil map.
unfoldable pub validate_credentials : Option (Map Text) → Result CredentialsError (Text × Text)
unfolding lookup field_value
validate_credentials none = ok ([], [])
validate_credentials (some creds) =
    if not (length creds == 2)
    then err not_exactly_two_keys
    else field_value (lookup (lit "username") creds) >>= λ username.
        field_value (lookup (lit "password") creds) >>= λ password. ok (username, password)

abbrev pub docker_hub : Text
docker_hub = lit "index.docker.io"

-- `registryHostFor`
unfoldable pub registry_host_for : Text → Text
unfolding cut has_prefix text_eq
registry_host_for image = elim (cut (lit "/") image) [
  | none ↦ docker_hub
  | some (first, _) ↦
      if any (λ c. c == b'.' || c == b':') first || text_eq first (lit "localhost")
      then first
      else docker_hub
]
