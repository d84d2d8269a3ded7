-- ===== src/Executor/Frame.antt =====
-- Which calls of the executor leave the context alone.
use mirror_gha.Base.{
  if◌then◌else◌, Text, Map, Result, Result-cases, ◌≡◌, refl, ap, ◌∙◌, ◌⊎◌, inl, inr, Bool, true,
  false, Option, none, some, ok, err,
}
use mirror_gha.Workflow.{Step}
use mirror_gha.Actions.Resolve.{ActionRef}
use mirror_gha.Actions.Metadata.{ActionMetadata, ActionRuns}
use mirror_gha.Executor.Types.{UsesStepPlan, StepParams}
use mirror_gha.Executor.Machine.{
  System, Machine, M, ◌>>=◌, give, raise, lift, call, rewrap, get_machine, if_none, mark_node_ready,
}
use mirror_gha.Executor.Uses.{
  require_linux, prepare_image, source_dir, ready_node, prepare_node, resolve_docker_image,
  prepare_docker, prepare_composite, prepare_action, prepare_uses_step,
}
use mirror_gha.Executor.Steps.{check_if, prepare, execute}

pub record Keeps {W E A : Type 0} (m : M W E A) : Type 0 where
  pub same : (s : Machine W) → (m s).1.context ≡ s.context

module _ {W E : Type 0} where
  -- The two ways in which a step of a chain goes on.
  pub bind-cases :
      {A B : Type 0} (m : M W E A) (f : A → M W E B) (s : Machine W)
      → ((a : A) × ((m s).0 ≡ ok a) × ((m >>= f) s ≡ f a (m s).1))
        ⊎ ((e : E) × ((m s).0 ≡ err e) × ((m >>= f) s ≡ (err e, (m s).1)))
  unfolding ◌>>=◌
  bind-cases m f s = elim (Result-cases ((m s).0)) [
    | inl (a, q) ↦ inl (a, q, rw (q, ◌>>=◌) refl)
    | inr (e, q) ↦ inr (e, q, rw (q, ◌>>=◌) refl)
  ]

  pub Keeps-bind :
      {A B : Type 0} (m : M W E A) (f : A → M W E B)
      → Keeps m
      → ((a : A) → Keeps (f a))
      → Keeps (m >>= f)
  Keeps-bind m f km kf = record {
    same = λ s. elim (bind-cases m f s) [
      | inl (a, q, same) ↦ ap (λ r. r.1.context) same ∙ (kf a).same (m s).1 ∙ km.same s
      | inr (e, q, same) ↦ ap (λ r. r.1.context) same ∙ km.same s
    ];
  }

  pub Keeps-lift : {E' A : Type 0} (wrap : E' → E) (r : Result E' A) → Keeps (lift {W = W} wrap r)
  unfolding lift
  Keeps-lift wrap (ok a) = record { same = λ s. refl }
  Keeps-lift wrap (err e) = record { same = λ s. refl }

  pub Keeps-call : {E' A : Type 0} (wrap : E' → E) (f : W → Result E' A × W) → Keeps (call wrap f)
  unfolding call
  Keeps-call wrap f = record {
    same = λ s. (Keeps-lift wrap (f s.world).0).same (record s { world = (f s.world).1 });
  }

  pub Keeps-rewrap :
      {E' A : Type 0} (wrap : E' → E) (m : M W E' A) → Keeps m → Keeps (rewrap wrap m)
  unfolding rewrap
  Keeps-rewrap wrap m km = record { same = λ s. (Keeps-lift wrap (m s).0).same (m s).1 ∙ km.same s }

  pub Keeps-give : {A : Type 0} (a : A) → Keeps {W = W} {E = E} (give a)
  unfolding give
  Keeps-give a = record { same = λ s. refl }

  pub Keeps-raise : {A : Type 0} (e : E) → Keeps {W = W} {A = A} (raise e)
  unfolding raise
  Keeps-raise e = record { same = λ s. refl }

  pub Keeps-get_machine : Keeps {W = W} {E = E} get_machine
  unfolding get_machine
  Keeps-get_machine = record { same = λ s. refl }

  pub Keeps-option :
      {A B : Type 0} (o : Option B) (m : M W E A) (f : B → M W E A)
      → Keeps m
      → ((b : B) → Keeps (f b))
      → Keeps (elim o [ none ↦ m | some b ↦ f b ])
  Keeps-option none m f km kf = km
  Keeps-option (some b) m f km kf = kf b

  pub Keeps-if :
      {A : Type 0} (b : Bool) (m n : M W E A) → Keeps m → Keeps n → Keeps (if b then m else n)
  Keeps-if true m n km kn = km
  Keeps-if false m n km kn = kn

module _ {W E : Type 0} where
  pub Keeps-if_none : {A : Type 0} (o : Option A) (m : M W E A) → Keeps m → Keeps (if_none o m)
  unfolding if_none
  Keeps-if_none none m km = km
  Keeps-if_none (some a) m km = Keeps-give a

  pub Keeps-mark_node_ready : Keeps {W = W} {E = E} mark_node_ready
  unfolding mark_node_ready
  Keeps-mark_node_ready = record { same = λ s. refl }

pub ruleset keeping = (
  Keeps-if_none, Keeps-mark_node_ready, Keeps-give, Keeps-raise, Keeps-get_machine, Keeps-call,
  Keeps-lift, Keeps-rewrap, Keeps-bind, Keeps-if, Keeps-option,
)

module _ {W : Type 0} (sys : System W) where
  Keeps-require_linux : Keeps (require_linux sys)
  unfolding require_linux
  Keeps-require_linux = search keeping

  Keeps-prepare_image : (image : Text) («with» : Map Text) → Keeps (prepare_image sys image «with»)
  unfolding prepare_image
  Keeps-prepare_image image «with» = search (keeping, Keeps-require_linux)

  Keeps-source_dir :
      (p : StepParams) (ref : ActionRef) (root : Text) → Keeps (source_dir sys p ref root)
  unfolding source_dir
  Keeps-source_dir p ref root = search keeping

  Keeps-ready_node : (root : Text) → Keeps (ready_node sys root)
  unfolding ready_node
  Keeps-ready_node root = search keeping

  Keeps-prepare_node :
      (dir id : Text) («with» : Map Text) (metadata : ActionMetadata) (root : Text)
      → Keeps (prepare_node sys dir id «with» metadata root)
  unfolding prepare_node
  Keeps-prepare_node dir id «with» metadata root = search (keeping, Keeps-ready_node)

  Keeps-resolve_docker_image :
      (dir uses : Text) (runs : ActionRuns) → Keeps (resolve_docker_image sys dir uses runs)
  unfolding resolve_docker_image
  Keeps-resolve_docker_image dir uses runs = search keeping

  Keeps-prepare_docker :
      (dir id uses : Text) («with» : Map Text) (metadata : ActionMetadata)
      → Keeps (prepare_docker sys dir id uses «with» metadata)
  unfolding prepare_docker
  Keeps-prepare_docker dir id uses «with» metadata =
      search (keeping, Keeps-require_linux, Keeps-resolve_docker_image)

  Keeps-prepare_composite :
      (dir id : Text) («with» : Map Text) (metadata : ActionMetadata)
      → Keeps (prepare_composite sys dir id «with» metadata)
  unfolding prepare_composite
  Keeps-prepare_composite dir id «with» metadata = search keeping

  Keeps-prepare_action :
      (p : StepParams) (id : Text) (step : Step) («with» : Map Text) (ref : ActionRef)
      → Keeps (prepare_action sys p id step «with» ref)
  unfolding prepare_action
  Keeps-prepare_action p id step «with» ref =
      search
        (
          keeping, Keeps-source_dir, Keeps-prepare_node, Keeps-prepare_docker,
          Keeps-prepare_composite,
        )
        depth 12

  Keeps-prepare_uses_step :
      (p : StepParams) (id : Text) (step : Step) → Keeps (prepare_uses_step sys p id step)
  unfolding prepare_uses_step
  Keeps-prepare_uses_step p id step = search (keeping, Keeps-prepare_image, Keeps-prepare_action)

  pub Keeps-check_if : (step : Step) (id : Text) → Keeps (check_if sys step id)
  unfolding check_if
  Keeps-check_if step id = search keeping

  pub Keeps-prepare : (p : StepParams) (step : Step) (id : Text) → Keeps (prepare sys p step id)
  unfolding prepare
  Keeps-prepare p step id = search (keeping, Keeps-prepare_uses_step)

  pub Keeps-execute :
      (p : StepParams) (step : Step) (id command : Text) (plan : UsesStepPlan)
      → Keeps (execute sys p step id command plan)
  unfolding execute
  Keeps-execute p step id command plan = search keeping
