-- ===== src/Topo/Defs.antt =====
-- `TopoSortJobs` of internal/engine/workflow_run.go. The closure `visit` and its loop over the
-- needs pass the captured variables `state` and `order` explicitly.
use mirror_gha.Base.{
  if◌then◌else◌, length, Text, text_eq, Map, lookup, keys, sort_strings, Result, ◌>>=◌, ℕ, zero,
  suc, ◌+◌, none, some, List, [], ◌∷◌, ◌++◌, ok, err,
}
use mirror_gha.Workflow.{Job}

pub data Mark : Type 0 where
  unvisited visiting done : Mark

pub data TopoError : Type 0 where
  circular : Text → TopoError
  unknown_job : Text → TopoError
  unknown_need : Text → Text → TopoError
  out_of_fuel : TopoError

-- The map `state`, read with its zero value `unvisited`, and the slice `order`.
pub record Walk : Type 0 where
  pub state : Text → Mark
  pub order : List Text

unfoldable pub set_mark : Text → Mark → Walk → Walk
set_mark name m w = record w { state = λ k. if text_eq name k then m else w.state k }

unfoldable pub finish : Text → Walk → Walk
unfolding set_mark
finish name w = let w' = set_mark name done w in record w' { order = w.order ++ name ∷ [] }

abbrev pub start : Walk
start = record { state = λ k. unvisited; order = [] }

module _ {Node : Type 0} (jobs : Map (Job Node)) where
  -- `for _, dep := range job.Needs`, with the recursive call as an argument.
  unfoldable pub visit_needs :
      (Text → Walk → Result TopoError Walk) → Text → List Text → Walk → Result TopoError Walk
  visit_needs visit name [] w = ok w
  visit_needs visit name (dep ∷ deps) w = elim (lookup dep jobs) [
    | none ↦ err (unknown_need name dep)
    | some _ ↦ visit dep w >>= visit_needs visit name deps
  ]

  -- The closure `visit`; the fuel bounds how deep it recurs.
  unfoldable pub visit : ℕ → Text → Walk → Result TopoError Walk
  unfolding visit_needs set_mark finish
  visit zero name w = err out_of_fuel
  visit (suc fuel) name w = elim (w.state name) [
    | done ↦ ok w
    | visiting ↦ err (circular name)
    | unvisited ↦ elim (lookup name jobs) [
      | none ↦ err (unknown_job name)
      | some job ↦ visit_needs (visit fuel) name job.needs (set_mark name visiting w) >>= λ w'.
          ok (finish name w')
    ]
  ]

  -- `for _, n := range names`
  unfoldable pub visit_all : ℕ → List Text → Walk → Result TopoError Walk
  unfolding visit
  visit_all fuel [] w = ok w
  visit_all fuel (n ∷ names) w = visit fuel n w >>= visit_all fuel names

  unfoldable pub topo_sort_jobs : Result TopoError (List Text)
  unfolding visit_all sort_strings
  topo_sort_jobs = visit_all (length jobs + 1) (sort_strings (keys jobs)) start >>= λ w. ok w.order
