-- ===== src/Flow/Samples.antt =====
-- `RunWorkflow` of internal/engine/workflow_run.go on small workflows, and the theorems about it at
-- them.
use mirror_gha.Base.{
  leb, All, In, lit, text_eq, keys, ◌≡◌, refl, true, false, Option, none, some, [], ◌∷◌, ok,
}
use mirror_gha.Workflow.{Value}
use mirror_gha.Topo.Order.{IsOrdered}
use mirror_gha.Topo.Samples.{no_yaml, two_jobs}
use mirror_gha.Expr.{failure}
use mirror_gha.Executor.{JobResult}
use mirror_gha.Flow.Combos.{
  Group, Combo, over, new_group, set_combo, take_slot, give_slot, look, end_run, store_result,
  Reachable, begin, then_step, takes, looks, ends, gives,
}
use mirror_gha.Flow.Defs.{
  GroupSpec, WorkflowResult, run_workflow, skipped_job, group_conclusion, matrix_suffix,
}
use mirror_gha.Flow.Fates.{Settled}
use mirror_gha.Flow.Order.{run_workflow-Settled}
use mirror_gha.Flow.Slots.{active}
use mirror_gha.Flow.Parallel.{Reachable-active, skipped_fails}

abbrev of_some : Option Group → Group
of_some none = new_group
of_some (some g) = g

abbrev failed_job : JobResult
failed_job = record { conclusion = failure; steps = []; outputs = [] }

-- Two combinations and one slot: the first one fails.
abbrev g1 : Group
g1 = of_some (take_slot 2 1 new_group)

abbrev g2 : Group
g2 = of_some (look 0 g1)

abbrev g3 : Group
g3 = of_some (end_run true 0 (ok failed_job) g2)

abbrev g4 : Group
g4 = of_some (give_slot 0 g3)

abbrev g5 : Group
g5 = of_some (take_slot 2 1 g4)

abbrev g6 : Group
g6 = of_some (look 1 g5)

first_takes : take_slot 2 1 new_group ≡ some g1
unfolding take_slot
first_takes = refl

first_looks : look 0 g1 ≡ some g2
unfolding take_slot look set_combo
first_looks = refl

first_ends : end_run true 0 (ok failed_job) g2 ≡ some g3
unfolding take_slot look set_combo end_run
first_ends = refl

first_gives : give_slot 0 g3 ≡ some g4
unfolding take_slot look set_combo end_run store_result give_slot
first_gives = refl

second_takes : take_slot 2 1 g4 ≡ some g5
unfolding take_slot look set_combo end_run store_result give_slot
second_takes = refl

second_looks : look 1 g5 ≡ some g6
unfolding take_slot look set_combo end_run store_result give_slot
second_looks = refl

second_skipped : (g6.combos 1).skipped ≡ true
unfolding take_slot look set_combo end_run store_result give_slot
second_skipped = refl

reached : Reachable 2 1 true g5
reached =
    then_step
      (then_step
        (then_step (then_step (then_step begin (takes first_takes)) (looks 0 first_looks))
          (ends 0 (ok failed_job) first_ends))
        (gives 0 first_gives))
      (takes second_takes)

Reachable-active_example : leb (active 2 g5.combos) 1 ≡ true
Reachable-active_example = Reachable-active 2 1 true g5 reached

skipped_fails_example : (true ≡ true) × (group_conclusion g6 0 2 ≡ failure)
skipped_fails_example =
    skipped_fails 2 1 true g6 1 (then_step reached (looks 1 second_looks)) second_skipped

suffix_printed :
    matrix_suffix (λ v. lit "3") ((lit "os", Value.null) ∷ (lit "n", Value.null) ∷ [])
    ≡ lit " (n=3, os=3)"
unfolding matrix_suffix text_eq
suffix_printed = refl

-- The combinations of the job `test` fail.
abbrev run_group : GroupSpec → Unit {0} → Group × Unit {0}
run_group spec w =
    let failed = text_eq spec.job_name (lit "test") in
    let c : Combo = record { phase = over; steps = []; failed = failed; skipped = false } in
    (record new_group { combos = λ i. c; started = 1 }, w)

abbrev two_results : WorkflowResult
two_results = record {
  jobs = (lit "test", failed_job) ∷ (lit "build", skipped_job) ∷ [];
  order = lit "test" ∷ lit "build" ∷ [];
}

two_jobs_run :
    (run_workflow no_yaml (λ v. []) run_group two_jobs (lit "/work") tt).0 ≡ ok two_results
unfolding run_workflow
two_jobs_run = refl

run_workflow-Settled_example :
    All (Settled two_jobs two_results.jobs) (keys two_jobs)
    × All (λ n. In n two_results.order) (keys two_jobs)
    × IsOrdered two_jobs [] (lit "test" ∷ lit "build" ∷ [])
run_workflow-Settled_example =
    run_workflow-Settled no_yaml (λ v. []) run_group two_jobs (lit "/work") tt two_jobs_run
