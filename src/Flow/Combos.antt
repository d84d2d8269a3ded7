-- ===== src/Flow/Combos.antt =====
-- The goroutines of `RunWorkflow` in internal/engine/workflow_run.go that run the matrix
-- combinations of one job: what each does at the semaphore and under the lock.
use mirror_gha.Base.{
  ltb, ◌==◌, if◌then◌else◌, Text, Map, Result, ℕ, ◌+◌, ◌-◌, ◌≡◌, Bool, true, false, not, ◌&&◌,
  Option, none, some, List, [], ok, err,
}
use mirror_gha.Expr.{Conclusion, success, ExprError}
use mirror_gha.Executor.{StepReport, JobResult, RunError}

-- Before the semaphore, with a slot and before the first look at `stopStartingNew`, in the run, with
-- its entries written and its slot not yet given back, and without a slot again.
pub data Phase : Type 0 where
  waiting holding running returning over : Phase

pub data ComboError : Type 0 where
  bad_group : ExprError → ComboError
  no_backend : Text → ComboError
  job_error : RunError → ComboError

-- A combination's phase, with its entries of `comboSteps`, `comboFailed` and `comboSkipped`.
pub record Combo : Type 0 where
  pub phase : Phase
  pub steps : List StepReport
  pub failed : Bool
  pub skipped : Bool

-- What the goroutines share. The channels `starts` let them get a slot in the order of the
-- combinations alone: `started` of them have got theirs. `slots` counts the entries of `sem`, and
-- the error of `firstErr` has its combination's index.
pub record Group : Type 0 where
  pub combos : ℕ → Combo
  pub started : ℕ
  pub slots : ℕ
  pub stop : Bool
  pub first_err : Option (ℕ × ComboError)
  pub outputs : Map Text

abbrev pub new_group : Group
new_group = record {
  combos = λ i. record { phase = waiting; steps = []; failed = false; skipped = false };
  started = 0;
  slots = 0;
  stop = false;
  first_err = none;
  outputs = [];
}

unfoldable pub set_combo : ℕ → Combo → Group → Group
set_combo i c g = record g { combos = λ j. if j == i then c else g.combos j }

-- The next combination gets a slot, if there is a combination and a slot left.
unfoldable pub take_slot : (size max_parallel : ℕ) → Group → Option Group
unfolding set_combo
take_slot size max_parallel g =
    if ltb g.started size && ltb g.slots max_parallel
    then some (record (set_combo g.started (record (g.combos g.started) { phase = holding }) g) {
      started = g.started + 1;
      slots = g.slots + 1;
    })
    else none

-- The look at `stopStartingNew`.
unfoldable pub look : ℕ → Group → Option Group
unfolding set_combo
look i g = elim (g.combos i).phase [
  | holding ↦ some (
      if g.stop
      then set_combo i (record (g.combos i) { phase = returning; skipped = true }) g
      else set_combo i (record (g.combos i) { phase = running }) g)
  | _ ↦ none
]

abbrev pub is_success : Conclusion → Bool
is_success success = true
is_success _ = false

-- What the end of a combination's run changes: its entries, the error, `lastOutputs` and
-- `stopStartingNew`.
unfoldable pub store_result : Bool → ℕ → Result ComboError JobResult → Group → Group
unfolding set_combo
store_result fail_fast i (err e) g =
    set_combo i (record (g.combos i) { phase = returning })
      (record g { first_err = elim g.first_err [ none ↦ some (i, e) | some first ↦ some first ] })
store_result fail_fast i (ok r) g =
    let failed = not (is_success r.conclusion) in
    set_combo i (record (g.combos i) { phase = returning; steps = r.steps; failed = failed })
      (record g { outputs = r.outputs; stop = if failed && fail_fast then true else g.stop })

-- The end of the run.
unfoldable pub end_run : Bool → ℕ → Result ComboError JobResult → Group → Option Group
unfolding store_result
end_run fail_fast i r g = elim (g.combos i).phase [
  | running ↦ some (store_result fail_fast i r g)
  | _ ↦ none
]

-- The goroutine gives its slot back: the deferred receive from `sem`.
unfoldable pub give_slot : ℕ → Group → Option Group
unfolding set_combo
give_slot i g = elim (g.combos i).phase [
  | returning ↦
      some (record (set_combo i (record (g.combos i) { phase = over }) g) { slots = g.slots - 1 })
  | _ ↦ none
]

-- One step of some goroutine; the run of a job may come to any result.
pub data Step (size max_parallel : ℕ) (fail_fast : Bool) : Group → Group → Type 0 where
  takes :
      {g g' : Group}
      → take_slot size max_parallel g ≡ some g'
      → Step size max_parallel fail_fast g g'
  looks : {g g' : Group} (i : ℕ) → look i g ≡ some g' → Step size max_parallel fail_fast g g'
  ends :
      {g g' : Group} (i : ℕ) (r : Result ComboError JobResult)
      → end_run fail_fast i r g ≡ some g'
      → Step size max_parallel fail_fast g g'
  gives : {g g' : Group} (i : ℕ) → give_slot i g ≡ some g' → Step size max_parallel fail_fast g g'

-- The states that the goroutines of a job reach.
pub data Reachable (size max_parallel : ℕ) (fail_fast : Bool) : Group → Type 0 where
  begin : Reachable size max_parallel fail_fast new_group
  then_step :
      {g g' : Group}
      → Reachable size max_parallel fail_fast g
      → Step size max_parallel fail_fast g g'
      → Reachable size max_parallel fail_fast g'
