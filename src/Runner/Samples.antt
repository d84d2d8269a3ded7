-- ===== src/Runner/Samples.antt =====
-- internal/runner on small inputs, and the theorems about it at them.
use mirror_gha.Base.{All, lit, not-In_of_any, ◌≡◌, refl, List, [], ◌∷◌, map, ok}
use mirror_gha.Runner.Options.{split_docker_options}
use mirror_gha.Runner.Options.Tokens.{
  Part, bare, quoted, IsToken, print_options, token_text, split_docker_options-print,
}

-- `-v "pg_isready -U postgres" `
abbrev health : List (List Part)
health = (bare (lit "-v") ∷ []) ∷ (quoted b'"' (lit "pg_isready -U postgres") ∷ []) ∷ []

health-IsToken : All IsToken health
health-IsToken = (
  ((λ e. cc e), (((λ e. cc e), refl), tt)),
  (((λ e. cc e), ((refl, not-In_of_any b'"' (lit "pg_isready -U postgres") refl), tt)), tt),
)

split_docker_options-print_example :
    split_docker_options (print_options health) ≡ ok (map token_text health)
split_docker_options-print_example = split_docker_options-print health health-IsToken
