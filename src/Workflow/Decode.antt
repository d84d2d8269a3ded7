-- ===== src/Workflow/Decode.antt =====
-- The decoders of internal/engine/workflow.go: fields that a workflow may write in several shapes.
use mirror_gha.Base.{
  Text, lit, Map, keys, sort_strings, Result, ◌>>=◌, false, Option, none, some, List, [], ◌∷◌, ok,
  err,
}
use mirror_gha.Workflow.Dynamic.{Value, null, str, list, dict, items, entries}
use mirror_gha.Workflow.Types.{
  Kind, absent, sequence, mapping, scalar, ParseError, yaml_error, wrapped, not_text_or_list,
  not_text_or_mapping, on_entry_not_text, on_bad_shape, no_jobs, ContainerSpec, EnvironmentSpec,
  PermissionsSpec, ConcurrencySpec, Job, Workflow, Yaml,
}

-- `if err := node.Decode(&x); err != nil { return nil, fmt.Errorf("…: %w", err) }`
abbrev decoded {ℓ κ} :
    {A : Type ℓ} {B : Type κ} → Text → (A → B) → Result Text A → Result ParseError B
decoded label f (ok a) = ok (f a)
decoded label f (err e) = err (wrapped label (yaml_error e))

abbrev plain {ℓ} : {A : Type ℓ} → Result Text A → Result ParseError A
plain (ok a) = ok a
plain (err e) = err (yaml_error e)

-- The shape shared by the decoders of `permissions:`, `concurrency:`, `environment:` and
-- `container:`: nothing, a bare string, or a mapping.
abbrev by_kind {ℓ} :
    {A : Type ℓ}
    → Text
    → Kind
    → Result ParseError A
    → Result ParseError A
    → Result ParseError (Option A)
by_kind label absent one many = ok none
by_kind label scalar one many = one >>= λ a. ok (some a)
by_kind label mapping one many = many >>= λ a. ok (some a)
by_kind label _ one many = err (not_text_or_mapping label)

abbrev bare_container : Text → ContainerSpec
bare_container image = record {
  image = image;
  env = [];
  ports = [];
  volumes = [];
  options = [];
  credentials = none;
}

abbrev text_or_list :
    Kind → Result Text Text → Result Text (List Text) → Result ParseError (List Text)
text_or_list scalar one many = plain one >>= λ single. ok (single ∷ [])
text_or_list sequence one many = plain many
text_or_list _ one many = err not_text_or_list

module _ (y : Yaml) where
  open y use {Node, kind, decode_text, decode_texts, decode_map}

  -- `StringOrSlice.UnmarshalYAML`
  unfoldable pub string_or_slice : Node → Result ParseError (List Text)
  string_or_slice node = text_or_list (kind node) (decode_text node) (decode_texts node)

  unfoldable pub decode_permissions : Node → Result ParseError (Option PermissionsSpec)
  decode_permissions node =
      let label = lit "permissions" in
      by_kind label (kind node)
        (decoded label (λ all. record { all_scopes = all; scopes = [] }) (decode_text node))
        (decoded label (λ scopes. record { all_scopes = []; scopes = scopes }) (decode_map node))

  unfoldable pub decode_concurrency : Node → Result ParseError (Option ConcurrencySpec)
  decode_concurrency node =
      let label = lit "concurrency" in
      by_kind label (kind node)
        (decoded label (λ group. record { group = group; cancel_in_progress = false })
          (decode_text node))
        (decoded label (λ spec. spec) (y.decode_concurrency node))

  unfoldable pub job_environment : Job Node → Result ParseError (Option EnvironmentSpec)
  job_environment j =
      let label = lit "environment" in
      by_kind label (kind j.raw_environment)
        (decoded label (λ name. record { name = name; url = [] }) (decode_text j.raw_environment))
        (decoded label (λ spec. spec) (y.decode_environment j.raw_environment))

  unfoldable pub job_container : Job Node → Result ParseError (Option ContainerSpec)
  job_container j =
      let label = lit "container" in
      by_kind label (kind j.raw_container)
        (decoded label bare_container (decode_text j.raw_container))
        (decoded label (λ spec. spec) (y.decode_container j.raw_container))

  unfoldable pub job_permissions : Job Node → Result ParseError (Option PermissionsSpec)
  unfolding decode_permissions
  job_permissions j = decode_permissions j.raw_permissions

  unfoldable pub job_concurrency : Job Node → Result ParseError (Option ConcurrencySpec)
  unfolding decode_concurrency
  job_concurrency j = decode_concurrency j.raw_concurrency

  unfoldable pub workflow_permissions : Workflow Node → Result ParseError (Option PermissionsSpec)
  unfolding decode_permissions
  workflow_permissions wf = decode_permissions wf.raw_permissions

  unfoldable pub workflow_concurrency : Workflow Node → Result ParseError (Option ConcurrencySpec)
  unfolding decode_concurrency
  workflow_concurrency wf = decode_concurrency wf.raw_concurrency

  abbrev has_jobs : Workflow Node → Map (Job Node) → Result ParseError (Workflow Node)
  has_jobs wf [] = err no_jobs
  has_jobs wf (j ∷ js) = ok wf

  -- `Parse`
  unfoldable pub parse : Text → Result ParseError (Workflow Node)
  parse source = do
    wf ← decoded (lit "parse workflow") (λ w. w) (y.unmarshal source)
    has_jobs wf wf.jobs

-- The entries of an `on:` list.
entry_names : List Value → Result ParseError (List Text)
entry_names [] = ok []
entry_names (str s ∷ vs) = do names ← entry_names vs; ok (s ∷ names)
entry_names (_ ∷ vs) = err on_entry_not_text

-- `(wf *Workflow) OnEventNames`, on the value of the `on:` field.
unfoldable pub on_event_names : Value → Result ParseError (List Text)
unfolding entry_names items entries sort_strings
on_event_names null = ok []
on_event_names (str v) = ok (v ∷ [])
on_event_names (list v) = entry_names (items v)
on_event_names (dict v) = ok (sort_strings (keys (entries v)))
on_event_names _ = err on_bad_shape
