-- ===== src/Workflow/Types.antt =====
-- The types of internal/engine/workflow.go. yaml.v3 is vendored: its node type, and what its
-- `Decode` makes of a node, are the fields of `Yaml`.
use mirror_gha.Base.{Text, Map, Result, ℕ, Bool, Option, List}
use mirror_gha.Workflow.Dynamic.{Value, Fields}

-- `yaml.Kind`; `absent` is the zero kind of a node that the document does not have.
pub data Kind : Type 0 where
  absent document sequence mapping scalar alias : Kind

-- Errors, by the messages of the source.
pub data ParseError : Type 0 where
  yaml_error : Text → ParseError
  wrapped : Text → ParseError → ParseError
  not_text_or_list : ParseError
  not_text_or_mapping : Text → ParseError
  on_entry_not_text : ParseError
  on_bad_shape : ParseError
  no_jobs : ParseError

pub record ContainerSpec : Type 0 where
  pub image : Text
  pub env : Map Text
  pub ports : List Text
  pub volumes : List Text
  pub options : Text
  pub credentials : Option (Map Text)

pub record EnvironmentSpec : Type 0 where
  pub name : Text
  pub url : Text

pub record PermissionsSpec : Type 0 where
  pub all_scopes : Text
  pub scopes : Map Text

pub record ConcurrencySpec : Type 0 where
  pub group : Text
  pub cancel_in_progress : Bool

pub record RunDefaults : Type 0 where
  pub shell : Text
  pub working_directory : Text

-- `strategy:`; a `nil` map is `none`.
pub record Strategy : Type 0 where
  pub matrix : Option Fields
  pub fail_fast : Option Bool
  pub max_parallel : ℕ

-- A timeout is in nanoseconds; 0 stands for the values that set none.
pub record Step : Type 0 where
  pub id : Text
  pub name : Text
  pub run : Text
  pub uses : Text
  pub «with» : Map Text
  pub shell : Text
  pub env : Map Text
  pub if_expr : Text
  pub continue_on_error : Bool
  pub working_directory : Text
  pub timeout : ℕ

pub record Job (Node : Type 0) : Type 0 where
  pub name : Text
  pub runs_on : Text
  pub env : Map Text
  pub steps : List Step
  pub needs : List Text
  pub strategy : Option Strategy
  pub outputs : Map Text
  pub timeout : ℕ
  pub defaults : Option RunDefaults
  pub raw_container : Node
  pub services : Map ContainerSpec
  pub raw_environment : Node
  pub raw_permissions : Node
  pub raw_concurrency : Node

pub record Workflow (Node : Type 0) : Type 0 where
  pub name : Text
  pub on : Value
  pub env : Map Text
  pub defaults : Option RunDefaults
  pub jobs : Map (Job Node)
  pub raw_permissions : Node
  pub raw_concurrency : Node

-- What the engine uses of yaml.v3.
pub record Yaml : Type 1 where
  pub Node : Type 0
  pub kind : Node → Kind
  pub decode_text : Node → Result Text Text
  pub decode_texts : Node → Result Text (List Text)
  pub decode_map : Node → Result Text (Map Text)
  pub decode_concurrency : Node → Result Text ConcurrencySpec
  pub decode_environment : Node → Result Text EnvironmentSpec
  pub decode_container : Node → Result Text ContainerSpec
  pub unmarshal : Text → Result Text (Workflow Node)
