-- ===== src/Flow/Fates.antt =====
-- What the result of a job says of the jobs that it needs, for `RunWorkflow` of
-- internal/engine/workflow_run.go.
use mirror_gha.Base.{All, All-map, In, Text, Map, lookup, ◌≡◌, ◌≢◌, ◌⊎◌, inl, inr, some, List}
use mirror_gha.Workflow.{Job}
use mirror_gha.Expr.{success, skipped}
use mirror_gha.Executor.{JobResult}
use mirror_gha.Flow.Defs.{skipped_job}

abbrev pub Results : Type 0
Results = Map JobResult

-- A job that came to a success, and one that came to something else.
pub record Won (results : Results) (name : Text) : Type 0 where
  pub result : JobResult
  pub found : lookup name results ≡ some result
  pub won : result.conclusion ≡ success

pub record Lost (results : Results) (name : Text) : Type 0 where
  pub result : JobResult
  pub found : lookup name results ≡ some result
  pub lost : result.conclusion ≢ success

pub record LostNeed (results : Results) (needs : List Text) : Type 0 where
  pub need : Text
  pub needed : In need needs
  pub loss : Lost results need

-- The job ran after all of its needs succeeded, or one of them did not, and it was skipped.
abbrev pub Fate : Results → List Text → JobResult → Type 0
Fate results needs r =
    (All (Won results) needs × (r.conclusion ≢ skipped))
    ⊎ (LostNeed results needs × (r ≡ skipped_job))

-- A job of the workflow with its result.
pub record Settled {Node : Type 0} (jobs : Map (Job Node)) (results : Results) (name : Text)
    : Type 0 where
  pub job : Job Node
  pub known : lookup name jobs ≡ some job
  pub result : JobResult
  pub found : lookup name results ≡ some result
  pub fate : Fate results job.needs result

-- No result is lost or changed.
pub record Extends (a b : Results) : Type 0 where
  pub kept : (name : Text) (r : JobResult) → lookup name a ≡ some r → lookup name b ≡ some r

pub Won-Extends : (a b : Results) → Extends a b → (name : Text) → Won a name → Won b name
Won-Extends a b e name w = record {
  result = w.result;
  found = e.kept name w.result w.found;
  won = w.won;
}

pub Lost-Extends : (a b : Results) → Extends a b → (name : Text) → Lost a name → Lost b name
Lost-Extends a b e name l = record {
  result = l.result;
  found = e.kept name l.result l.found;
  lost = l.lost;
}

pub Fate-Extends :
    (a b : Results)
    → Extends a b
    → (needs : List Text) (r : JobResult) → Fate a needs r
    → Fate b needs r
Fate-Extends a b e needs r (inl (won, ran)) = inl (All-map needs (Won-Extends a b e) won, ran)
Fate-Extends a b e needs r (inr (l, gone)) =
    inr (record { need = l.need; needed = l.needed; loss = Lost-Extends a b e l.need l.loss }, gone)

pub Settled-Extends :
    {Node : Type 0} (jobs : Map (Job Node)) (a b : Results)
    → Extends a b
    → (name : Text) → Settled jobs a name
    → Settled jobs b name
Settled-Extends jobs a b e name s = record {
  job = s.job;
  known = s.known;
  result = s.result;
  found = e.kept name s.result s.found;
  fate = Fate-Extends a b e s.job.needs s.result s.fate;
}
