-- ===== src/Actions/Metadata.antt =====
-- internal/actions/metadata.go, internal/actions/input_env.go and the paths of
-- internal/actions/node.go.
use mirror_gha.Base.{
  if◌then◌else◌, Text, lit, text_eq, Map, insert, Result, Bool, List, [], ◌∷◌, ◌++◌, ok, err,
}
use mirror_gha.Expr.{input_env_key}

pub record ActionInput : Type 0 where
  pub description : Text
  pub required : Bool
  pub default : Text

pub record ActionStep : Type 0 where
  pub id : Text
  pub name : Text
  pub run : Text
  pub uses : Text
  pub «with» : Map Text
  pub shell : Text
  pub env : Map Text
  pub if_expr : Text
  pub continue_on_error : Bool
  pub working_directory : Text

pub record ActionOutput : Type 0 where
  pub description : Text
  pub value : Text

pub record ActionRuns : Type 0 where
  pub using : Text
  pub main : Text
  pub post : Text
  pub post_if : Text
  pub image : Text
  pub entrypoint : Text
  pub args : List Text
  pub env : Map Text
  pub steps : List ActionStep

pub record ActionMetadata : Type 0 where
  pub name : Text
  pub inputs : Map ActionInput
  pub outputs : Map ActionOutput
  pub runs : ActionRuns

-- What `os.ReadFile` answers.
pub data FileRead : Type 0 where
  contents : Text → FileRead
  not_exist : FileRead
  failed : Text → FileRead

pub data MetadataError : Type 0 where
  read_failed parse_failed : (name message : Text) → MetadataError
  no_metadata : MetadataError

abbrev unmarshalled : Text → Result Text ActionMetadata → Result MetadataError ActionMetadata
unmarshalled name (ok meta) = ok meta
unmarshalled name (err e) = err (parse_failed name e)

-- The loop over the names of the file, with what the directory holds under each.
unfoldable pub parse_first :
    (Text → Result Text ActionMetadata)
    → (Text → FileRead)
    → List Text
    → Result MetadataError ActionMetadata
parse_first unmarshal read [] = err no_metadata
parse_first unmarshal read (name ∷ names) = elim (read name) [
  | contents text ↦ unmarshalled name (unmarshal text)
  | not_exist ↦ parse_first unmarshal read names
  | failed e ↦ err (read_failed name e)
]

-- `ParseMetadata`
unfoldable pub parse_metadata :
    (Text → Result Text ActionMetadata) → (Text → FileRead) → Result MetadataError ActionMetadata
unfolding parse_first
parse_metadata unmarshal read =
    parse_first unmarshal read (lit "action.yml" ∷ lit "action.yaml" ∷ [])

-- The declared defaults that are not empty.
unfoldable pub default_env : Map ActionInput → Map Text → Map Text
unfolding insert text_eq input_env_key
default_env [] env = env
default_env ((name, input) ∷ inputs) env =
    default_env inputs
      (if text_eq input.default [] then env else insert (input_env_key name) input.default env)

unfoldable pub with_env : Map Text → Map Text → Map Text
unfolding insert input_env_key
with_env [] env = env
with_env ((name, val) ∷ «with») env = with_env «with» (insert (input_env_key name) val env)

-- `InputEnv`
unfoldable pub input_env : ActionMetadata → Map Text → Map Text
unfolding default_env with_env
input_env metadata «with» = with_env «with» (default_env metadata.inputs [])

abbrev pub container_node_path : Text
container_node_path = lit "/mirror-node"

-- `ContainerActionPath`
unfoldable pub container_action_path : Text → Text
container_action_path step_id = lit "/mirror-actions/" ++ step_id
