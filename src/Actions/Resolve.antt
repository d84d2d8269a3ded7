-- ===== src/Actions/Resolve.antt =====
-- internal/actions/resolve.go: the references of `uses:`.
pub mod Parts
use mirror_gha.Base.{
  if◌then◌else◌, Text, lit, text_eq, has_prefix, Result, split, join, cut_last, trim_prefix, ◌/◌,
  Bool, true, false, ◌||◌, Option, none, some, List, [], ◌∷◌, ok, err,
}

pub record ActionRef : Type 0 where
  pub local : Bool
  pub local_path : Text
  pub docker : Bool
  pub docker_image : Text
  pub owner : Text
  pub repo : Text
  pub subpath : Text
  pub ref : Text

pub data UsesError : Type 0 where
  missing_ref empty_ref not_owner_repo : Text → UsesError

abbrev pub docker_scheme : Text
docker_scheme = lit "docker://"

abbrev pub no_ref : ActionRef
no_ref = record {
  local = false;
  local_path = [];
  docker = false;
  docker_image = [];
  owner = [];
  repo = [];
  subpath = [];
  ref = [];
}

abbrev pub docker_ref : Text → ActionRef
docker_ref image = record no_ref { docker = true; docker_image = image }

abbrev pub local_ref : Text → ActionRef
local_ref path = record no_ref { local = true; local_path = path }

abbrev pub remote_ref : Text → Text → Text → Text → ActionRef
remote_ref owner repo subpath ref = record no_ref {
  owner = owner;
  repo = repo;
  subpath = subpath;
  ref = ref;
}

-- The check of `parts` and the reference that is made of them.
unfoldable pub of_parts : Text → Text → List Text → Result UsesError ActionRef
unfolding text_eq join
of_parts uses ref (owner ∷ repo ∷ sub) =
    if text_eq owner [] || text_eq repo []
    then err (not_owner_repo uses)
    else ok (remote_ref owner repo (join (b'/' ∷ []) sub) ref)
of_parts uses ref _ = err (not_owner_repo uses)

-- From `strings.LastIndex` on.
unfoldable pub resolve_remote : Text → Option (Text × Text) → Result UsesError ActionRef
unfolding of_parts split text_eq
resolve_remote uses none = err (missing_ref uses)
resolve_remote uses (some (repo_part, ref)) =
    if text_eq ref [] then err (empty_ref uses) else of_parts uses ref (split b'/' repo_part)

-- `ResolveUsesRef`
unfoldable pub resolve_uses_ref : Text → Result UsesError ActionRef
unfolding has_prefix trim_prefix resolve_remote cut_last
resolve_uses_ref uses =
    if has_prefix uses docker_scheme
    then ok (docker_ref (trim_prefix uses docker_scheme))
    else if has_prefix uses (lit "./") || has_prefix uses (lit "../")
    then ok (local_ref uses)
    else resolve_remote uses (cut_last b'@' uses)
