-- ===== src/Actions/Samples.antt =====
-- internal/actions on small inputs, and the theorems about it at them.
use mirror_gha.Base.{lit, refl}
use mirror_gha.Actions.Resolve.{remote_ref, resolve_uses_ref}
use mirror_gha.Actions.Resolve.Parts.{Spells, resolve_uses_ref-Spells}

resolve_uses_ref-Spells_example :
    Spells (lit "o/r/a/b@v1") (remote_ref (lit "o") (lit "r") (lit "a/b") (lit "v1"))
unfolding resolve_uses_ref
resolve_uses_ref-Spells_example = resolve_uses_ref-Spells (lit "o/r/a/b@v1") refl
