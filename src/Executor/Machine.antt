-- ===== src/Executor/Machine.antt =====
-- The state that a job's steps change, and what they call of the system, with the combinators that
-- the translation of internal/engine/executor.go is written in.
use mirror_gha.Base.{Text, Result, Bool, true, Option, none, some, List, ok, err}
use mirror_gha.Expr.{Context, Library}
use mirror_gha.Actions.Metadata.{ActionMetadata, FileRead}
use mirror_gha.Runner.Backend.{RunnerJob}

-- What is not decided by the code: the expression library, the file system,
-- and the fetching of actions, of the node runtime and of images.
pub record Host (W : Type 0) : Type 0 where
  pub library : Library
  pub make_temp : Text → Text → W → Result Text Text × W
  pub write_file : Text → Text → W → Result Text (Unit {0}) × W
  pub read_file : Text → W → Option Text
  pub cache_root : Result Text Text
  pub fetch_remote : (owner repo ref root : Text) → W → Result Text Text × W
  pub read_action : (dir name : Text) → W → FileRead
  pub unmarshal_action : Text → Result Text ActionMetadata
  pub ensure_node : (root platform : Text) → W → Result Text Text × W
  pub build_image : (dir dockerfile uses : Text) → W → Result Text Text × W

-- The same with the environment that the job runs in.
pub record System (W : Type 0) : Type 0 where
  pub job : RunnerJob W
  pub host : Host W
  pub open host use *

-- `actx`, `*p.Masks`, `*p.NodeReady` and the world.
pub record Machine (W : Type 0) : Type 0 where
  pub context : Context
  pub masks : List Text
  pub node_ready : Bool
  pub world : W

-- A computation on the machine: its result or error, and the machine after it.
abbrev pub M : Type 0 → Type 0 → Type 0 → Type 0
M W E A = Machine W → Result E A × Machine W

module _ {W E : Type 0} where
  infixl 5 ◌>>=◌ ◌>>◌
  unfoldable pub ◌>>=◌ : {A B : Type 0} → M W E A → (A → M W E B) → M W E B
  ◌>>=◌ m f s = let (r, s') = m s in elim r [ ok a ↦ f a s' | err e ↦ (err e, s') ]

  abbrev pub ◌>>◌ : {B : Type 0} → M W E (Unit {0}) → M W E B → M W E B
  ◌>>◌ m k = ◌>>=◌ m (λ _. k)

  unfoldable pub give : {A : Type 0} → A → M W E A
  give a s = (ok a, s)

  unfoldable pub raise : {A : Type 0} → E → M W E A
  raise e s = (err e, s)

  -- A value or an error, with the error wrapped: `return fmt.Errorf("…: %w", err)`.
  unfoldable pub lift : {E' A : Type 0} → (E' → E) → Result E' A → M W E A
  lift wrap (ok a) s = (ok a, s)
  lift wrap (err e) s = (err (wrap e), s)

  -- A call that changes the world.
  unfoldable pub call : {E' A : Type 0} → (E' → E) → (W → Result E' A × W) → M W E A
  unfolding lift
  call wrap f s = let (r, w) = f s.world in lift wrap r (record s { world = w })

  unfoldable pub rewrap : {E' A : Type 0} → (E' → E) → M W E' A → M W E A
  unfolding lift
  rewrap wrap m s = let (r, s') = m s in lift wrap r s'

  unfoldable pub change : (Machine W → Machine W) → M W E (Unit {0})
  change f s = (ok tt, f s)

  -- Runs with another context; the context before stays as it was.
  unfoldable pub with_context : {A : Type 0} → Context → M W E A → M W E A
  with_context c m s =
      let (r, s') = m (record s { context = c }) in (r, record s' { context = s.context })

  unfoldable pub get_machine : M W E (Machine W)
  get_machine s = (ok s, s)

  -- The value that is there, or else a computation.
  unfoldable pub if_none : {A : Type 0} → Option A → M W E A → M W E A
  unfolding give
  if_none none m = m
  if_none (some a) m = give a

  unfoldable pub mark_node_ready : M W E (Unit {0})
  unfolding change
  mark_node_ready = change (λ s. record s { node_ready = true })
