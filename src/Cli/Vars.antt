-- ===== src/Cli/Vars.antt =====
-- The variables and overrides of the command line, and the placeholder tokens, of cmd/mirror/main.go.
use mirror_gha.Base.{
  if◌then◌else◌, Text, lit, text_eq, has_prefix, Map, insert, Result, split, cut, trim_space, ◌||◌,
  none, some, List, [], ◌∷◌, ◌++◌, ok, err,
}
use mirror_gha.Actions.Metadata.{FileRead, contents, not_exist, failed}

-- `name, value, _ := strings.Cut(v, "=")`
unfoldable pub name_value : Text → Text × Text
unfolding cut
name_value v = elim (cut (lit "=") v) [ none ↦ (v, []) | some (name, value) ↦ (name, value) ]

unfoldable pub set_var : Text → Map Text → Map Text
unfolding name_value insert
set_var v vars = let (name, value) = name_value v in insert name value vars

-- The loop of `parseVarFlags`
unfoldable pub add_vars : List Text → Map Text → Map Text
unfolding set_var
add_vars [] vars = vars
add_vars (v ∷ vs) vars = add_vars vs (set_var v vars)

-- `parseVarFlags`
unfoldable pub parse_var_flags : List Text → Map Text
unfolding add_vars
parse_var_flags values = add_vars values []

-- The loop of `parseVarFile`
unfoldable pub add_lines : List Text → Map Text → Map Text
unfolding set_var trim_space has_prefix text_eq
add_lines [] vars = vars
add_lines (line ∷ lines) vars =
    let entry = trim_space line in
    add_lines lines
      (if text_eq entry [] || has_prefix entry (lit "#") then vars else set_var entry vars)

-- `parseVarFile`, on what the file holds.
unfoldable pub parse_var_file : Text → FileRead → Result Text (Map Text)
unfolding add_lines split
parse_var_file path not_exist = ok []
parse_var_file path (failed e) = err (lit "read var file " ++ path ++ lit ": " ++ e)
parse_var_file path (contents text) = ok (add_lines (split 10 text) [])

-- `fakeRuntimeToken`; `base64` is `base64.RawURLEncoding.EncodeToString`.
unfoldable pub fake_runtime_token : (Text → Text) → Text
fake_runtime_token base64 =
    base64 (lit "{\"alg\":\"none\",\"typ\":\"JWT\"}")
    ++ b'.' ∷ base64 (lit "{\"scp\":\"Actions.Results:1:1\",\"exp\":9999999999}")
    ++ lit ".mirror-gha-local-signature"

-- `fakeGitHubToken`
unfoldable pub fake_git_hub_token : Text
fake_git_hub_token = lit "ghs_mirror_gha_local_placeholder_token"

-- The loop of `parseLocalRepositoryOverrides`; the error is the value without a `=`.
unfoldable pub add_overrides : List Text → Map Text → Result Text (Map Text)
unfolding cut insert
add_overrides [] overrides = ok overrides
add_overrides (v ∷ vs) overrides = elim (cut (lit "=") v) [
  | none ↦ err v
  | some (key, path) ↦ add_overrides vs (insert key path overrides)
]

-- `parseLocalRepositoryOverrides`
unfoldable pub parse_local_repository_overrides : List Text → Result Text (Map Text)
unfolding add_overrides
parse_local_repository_overrides values = add_overrides values []
