-- ===== src/Credentials/Samples.antt =====
-- internal/engine/credentials.go on small inputs, and the theorems about it at them.
use mirror_gha.Base.{Text, lit, Map, ◌≡◌, refl, ◌↔◌, some, [], ◌∷◌, ok}
use mirror_gha.Credentials.{validate_credentials, registry_host_for}
use mirror_gha.Credentials.Registry.{Complete, validate_credentials_iff}

abbrev account : Map Text
account = (lit "password", lit "b") ∷ (lit "username", lit "a") ∷ []

validate_credentials_iff_example :
    (validate_credentials (some account) ≡ ok (lit "a", lit "b"))
    ↔ Complete account (lit "a") (lit "b")
validate_credentials_iff_example = validate_credentials_iff account (lit "a") (lit "b")

host_port : registry_host_for (lit "localhost:5000/team/app") ≡ lit "localhost:5000"
unfolding registry_host_for
host_port = refl

host_of_user : registry_host_for (lit "team/app:v1.2") ≡ lit "index.docker.io"
unfolding registry_host_for
host_of_user = refl
