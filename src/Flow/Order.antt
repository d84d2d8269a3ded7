-- ===== src/Flow/Order.antt =====
-- Which jobs `RunWorkflow` of internal/engine/workflow_run.go runs and which it skips.
use mirror_gha.Base.{
  Bool-cases, Option-cases, length, All, All-map, In, All-In, All-of_In, Text, text_eq, text_eq_iff,
  text_eq_refl, Map, lookup, keys, lookup-insert, Result, ok-injective, Result-cases, ℕ, zero, suc,
  ◌+◌, ◌≡◌, refl, ◌∙◌, subst, ◌≢◌, ◌↔◌, inl, inr, true, false, not, ◌&&◌, Option, none, some, List,
  [], ◌∷◌, ok,
}
use mirror_gha.Workflow.{Value, Job, Yaml}
use mirror_gha.Topo.{topo_sort_jobs}
use mirror_gha.Topo.Order.{IsOrdered, IsReady, topo_sort_jobs-IsOrdered}
use mirror_gha.Expr.{Conclusion, success, failure, skipped, JobOutcome}
use mirror_gha.Executor.{JobResult}
use mirror_gha.Flow.Combos.{Group, is_success}
use mirror_gha.Flow.Defs.{
  GroupSpec, Progress, WorkflowResult, FlowError, group_conclusion, group_result, group_spec,
  needs_met, succeeded, store_job, skipped_job, run_ready, run_name, run_names, run_workflow,
}
use mirror_gha.Flow.Fates.{
  Won, Lost, LostNeed, Fate, Settled, Extends, Fate-Extends, Settled-Extends,
}

is_success_iff : (c : Conclusion) → (is_success c ≡ true) ↔ (c ≡ success)
is_success_iff success = ((λ h. refl), (λ h. refl))
is_success_iff failure = ((λ h. cc h), (λ h. cc h))
is_success_iff skipped = ((λ h. cc h), (λ h. cc h))

group_conclusion-ran : (g : Group) (i left : ℕ) → group_conclusion g i left ≢ skipped
unfolding group_conclusion
group_conclusion-ran g i zero h = cc h
group_conclusion-ran g i (suc left) h =
    elim (Bool-cases (not (g.combos i).skipped && (g.combos i).failed)) [
      | inl q ↦ let h' = rw q at h in cc h'
      | inr q ↦ group_conclusion-ran g (i + 1) left (rw q at h)
    ]

abbrev outcome_of : Option JobResult → Option JobOutcome
outcome_of none = none
outcome_of (some r) = some (record { result = r.conclusion; outputs = r.outputs })

-- Between two jobs: what the outcomes say is what the results say.
record Inv {Node : Type 0} (jobs : Map (Job Node)) (seen : List Text) (s : Progress) : Type 0 where
  agrees : (name : Text) → lookup name s.outcomes ≡ outcome_of (lookup name s.jobs)
  fresh : (name : Text) → (¬ In name seen) → lookup name s.jobs ≡ none
  settled : All (Settled jobs s.jobs) seen

agrees-store_job :
    (s : Progress) (name : Text) (r : JobResult) (d : Text)
    → lookup d s.outcomes ≡ outcome_of (lookup d s.jobs)
    → lookup d (store_job name r s).outcomes ≡ outcome_of (lookup d (store_job name r s).jobs)
unfolding store_job
agrees-store_job s name r d h =
    let o : JobOutcome = record { result = r.conclusion; outputs = r.outputs } in
    elim (Bool-cases (text_eq name d)) [
      | inl q ↦ rw (lookup-insert name d o s.outcomes, lookup-insert name d r s.jobs, q) refl
      | inr q ↦ rw (lookup-insert name d o s.outcomes, lookup-insert name d r s.jobs, q) h
    ]

Extends-store_job :
    (s : Progress) (name : Text) (r : JobResult)
    → lookup name s.jobs ≡ none
    → Extends s.jobs (store_job name r s).jobs
unfolding store_job
Extends-store_job s name r fresh = record {
  kept = λ d q h. elim (Bool-cases (text_eq name d)) [
    | inl e ↦
        let same : name ≡ d = (text_eq_iff name d).0 e in
        let none_there : lookup d s.jobs ≡ none = subst (λ k. lookup k s.jobs ≡ none) same fresh in
        cc (none_there, h)
    | inr e ↦ rw (lookup-insert name d r s.jobs, e) h
  ];
}

Inv-store_job :
    {Node : Type 0} (jobs : Map (Job Node)) (seen : List Text) (s : Progress) (name : Text)
    (job : Job Node) (r : JobResult)
    → Inv jobs seen s
    → (¬ In name seen)
    → lookup name jobs ≡ some job
    → Fate s.jobs job.needs r
    → Inv jobs (name ∷ seen) (store_job name r s)
unfolding store_job
Inv-store_job jobs seen s name job r inv new known fate =
    let extends = Extends-store_job s name r (inv.fresh name new) in
    let after = (store_job name r s).jobs in
    record {
      agrees = λ d. agrees-store_job s name r d (inv.agrees d);
      fresh = λ d away.
          let apart : text_eq name d ≡ false = elim (Bool-cases (text_eq name d)) [
            | inl e ↦ absurd (away (inl ((text_eq_iff name d).0 e)))
            | inr e ↦ e
          ] in
          rw (lookup-insert name d r s.jobs, apart) (inv.fresh d (λ m. away (inr m)));
      settled = (
        record {
          job = job;
          known = known;
          result = r;
          found = lookup-insert name name r s.jobs ∙ rw (text_eq_refl name) refl;
          fate = Fate-Extends s.jobs after extends job.needs r fate;
        },
        All-map seen (Settled-Extends jobs s.jobs after extends) inv.settled,
      );
    }

-- A need that has succeeded, by the outcomes.
Won-of_succeeded :
    (s : Progress) (d : Text)
    → lookup d s.outcomes ≡ outcome_of (lookup d s.jobs)
    → succeeded (lookup d s.outcomes) ≡ true
    → Won s.jobs d
Won-of_succeeded s d agrees h = elim (Option-cases (lookup d s.jobs)) [
  | inl q ↦ let h' = rw (agrees, q) at h in cc h'
  | inr (r, q) ↦ record {
    result = r;
    found = q;
    won = (is_success_iff r.conclusion).0 (rw (agrees, q) at h);
  }
]

Lost-of_succeeded :
    (s : Progress) (d : Text) (r : JobResult)
    → lookup d s.outcomes ≡ outcome_of (lookup d s.jobs)
    → lookup d s.jobs ≡ some r
    → succeeded (lookup d s.outcomes) ≡ false
    → Lost s.jobs d
Lost-of_succeeded s d r agrees q h = record {
  result = r;
  found = q;
  lost = λ p.
      let yes = (is_success_iff r.conclusion).1 p in
      let h' : is_success r.conclusion ≡ false = rw (agrees, q) at h in cc (yes, h');
}

needs_met-Won :
    {Node : Type 0} (jobs : Map (Job Node)) (seen : List Text) (s : Progress) (needs : List Text)
    → Inv jobs seen s
    → needs_met s.outcomes needs ≡ true
    → All (Won s.jobs) needs
unfolding needs_met
needs_met-Won jobs seen s [] inv h = tt
needs_met-Won jobs seen s (d ∷ needs) inv h = elim (Bool-cases (succeeded (lookup d s.outcomes))) [
  | inl q ↦ (Won-of_succeeded s d (inv.agrees d) q, needs_met-Won jobs seen s needs inv (rw q at h))
  | inr q ↦ let h' = rw q at h in cc h'
]

needs_met-LostNeed :
    {Node : Type 0} (jobs : Map (Job Node)) (seen : List Text) (s : Progress) (needs : List Text)
    → Inv jobs seen s
    → All (λ d. In d seen) needs
    → needs_met s.outcomes needs ≡ false
    → LostNeed s.jobs needs
unfolding needs_met
needs_met-LostNeed jobs seen s [] inv known h = cc h
needs_met-LostNeed jobs seen s (d ∷ needs) inv known h =
    elim (Bool-cases (succeeded (lookup d s.outcomes))) [
      | inl q ↦
          let later = needs_met-LostNeed jobs seen s needs inv known.1 (rw q at h) in
          record { need = later.need; needed = inr later.needed; loss = later.loss }
      | inr q ↦
          let there = All-In (Settled jobs s.jobs) seen d inv.settled known.0 in
          record {
            need = d;
            needed = inl refl;
            loss = Lost-of_succeeded s d there.result (inv.agrees d) there.found q;
          }
    ]

module _ (yaml : Yaml) {W : Type 0} (show : Value → Text) (run_group : GroupSpec → W → Group × W)
    (jobs : Map (Job yaml.Node)) where
  abbrev outcome : Text → Progress → W → Result FlowError Progress × W
  outcome = run_name yaml show run_group jobs

  run_ready-Inv :
      (seen : List Text) (name : Text) (job : Job yaml.Node) (s s' : Progress) (w : W)
      → Inv jobs seen s
      → (¬ In name seen)
      → lookup name jobs ≡ some job
      → All (Won s.jobs) job.needs
      → (run_ready yaml show run_group jobs name job s w).0 ≡ ok s'
      → Inv jobs (name ∷ seen) s'
  unfolding run_ready group_result
  run_ready-Inv seen name job s s' w inv new known won h =
      elim (Result-cases (group_spec yaml name job s.outcomes)) [
        | inr (e, q) ↦ let h' = rw (q, run_ready) at h in cc h'
        | inl (spec, q) ↦
            let g = (run_group spec w).0 in
            elim (Option-cases g.first_err) [
              | inr (e, p) ↦ let h' = rw (q, p, run_ready) at h in cc h'
              | inl p ↦
                  let ran = group_conclusion-ran g 0 (length spec.combos) in
                  subst (Inv jobs (name ∷ seen)) (ok-injective (rw (q, p, run_ready) at h))
                    (Inv-store_job jobs seen s name job _ inv new known (inl (won, ran)))
            ]
      ]

  run_name-Inv :
      (seen : List Text) (name : Text) (s s' : Progress) (w : W)
      → Inv jobs seen s
      → (¬ In name seen)
      → IsReady jobs seen name
      → (outcome name s w).0 ≡ ok s'
      → Inv jobs (name ∷ seen) s'
  unfolding run_name
  run_name-Inv seen name s s' w inv new ready h =
      let job = ready.job in
      elim (Bool-cases (needs_met s.outcomes job.needs)) [
        | inl q ↦
            run_ready-Inv seen name job s s' w inv new ready.known
              (needs_met-Won jobs seen s job.needs inv q) (rw (ready.known, q, run_name) at h)
        | inr q ↦
            let lost = needs_met-LostNeed jobs seen s job.needs inv ready.needs_seen q in
            subst (Inv jobs (name ∷ seen)) (ok-injective (rw (ready.known, q, run_name) at h)) (
              Inv-store_job jobs seen s name job skipped_job inv new ready.known (inr (lost, refl)))
      ]

  -- What holds behind the loop.
  record Finished (seen names : List Text) (s : Progress) : Type 0 where
    all_seen : List Text
    inv : Inv jobs all_seen s
    before : All (λ n. In n all_seen) seen
    through : All (λ n. In n all_seen) names

  run_names-Finished :
      (seen names : List Text) (s s' : Progress) (w : W)
      → Inv jobs seen s
      → IsOrdered jobs seen names
      → (run_names yaml show run_group jobs names s w).0 ≡ ok s'
      → Finished seen names s'
  unfolding run_names
  run_names-Finished seen [] s s' w inv ordered h = record {
    all_seen = seen;
    inv = subst (Inv jobs seen) (ok-injective h) inv;
    before = All-of_In (λ n. In n seen) seen (λ n m. m);
    through = tt;
  }
  run_names-Finished seen (name ∷ names) s s' w inv ordered h =
      elim (Result-cases (outcome name s w).0) [
        | inr (e, q) ↦ let h' = rw (q, run_names) at h in cc h'
        | inl (s1, q) ↦
            let here = run_name-Inv seen name s s1 w inv ordered.0 ordered.1 q in
            let rest =
              run_names-Finished (name ∷ seen) names s1 s' (outcome name s w).1 here ordered.2
                (rw (q, run_names) at h) in
            record {
              all_seen = rest.all_seen;
              inv = rest.inv;
              before = rest.before.1;
              through = (rest.before.0, rest.through);
            }
      ]

  Inv-empty : Inv jobs [] (record { jobs = []; outcomes = [] })
  unfolding lookup
  Inv-empty = record { agrees = λ n. refl; fresh = λ n away. refl; settled = tt }

  -- If the workflow runs to its end, every job has a result: it ran, and was not skipped, after all
  -- of the jobs that it needs had succeeded, or it was skipped since one of these did not succeed.
  -- The order reported has all jobs, and in it each job stands behind its needs.
  pub run_workflow-Settled :
      (workspace_dir : Text) (w : W) {result : WorkflowResult}
      → (run_workflow yaml show run_group jobs workspace_dir w).0 ≡ ok result
      → All (Settled jobs result.jobs) (keys jobs)
        × All (λ n. In n result.order) (keys jobs)
        × IsOrdered jobs [] result.order
  unfolding run_workflow
  run_workflow-Settled workspace_dir w {result = result} h =
      elim (Bool-cases (text_eq workspace_dir [])) [
        | inl q ↦ let h' = rw (q, run_workflow) at h in cc h'
        | inr q ↦ elim (Result-cases (topo_sort_jobs jobs)) [
          | inr (e, p) ↦ let h' = rw (q, p, run_workflow) at h in cc h'
          | inl (order, p) ↦
              let begin : Progress = record { jobs = []; outcomes = [] } in
              let sorted = topo_sort_jobs-IsOrdered jobs order p in
              elim (Result-cases (run_names yaml show run_group jobs order begin w).0) [
                | inr (e, r) ↦ let h' = rw (q, p, r, run_workflow) at h in cc h'
                | inl (s, r) ↦
                    let done = run_names-Finished [] order begin s w Inv-empty sorted.0 r in
                    let all : All (Settled jobs s.jobs) (keys jobs) =
                      All-map (keys jobs)
                        (λ n m.
                          All-In (Settled jobs s.jobs) done.all_seen n done.inv.settled
                            (All-In (λ k. In k done.all_seen) order n done.through m))
                        sorted.1 in
                    subst
                      (λ (x : WorkflowResult).
                        All (Settled jobs x.jobs) (keys jobs)
                        × All (λ n. In n x.order) (keys jobs)
                        × IsOrdered jobs [] x.order)
                      (ok-injective (rw (q, p, r, run_workflow) at h)) (all, sorted.1, sorted.0)
              ]
        ]
      ]
