-- ===== src/Flow/Defs.antt =====
-- `RunWorkflow` and `MatrixSuffix` of internal/engine/workflow_run.go: the loop over the jobs. How
-- the goroutines of a job run is an argument.
use mirror_gha.Base.{
  ltb, if◌then◌else◌, length, Text, lit, text_eq, Map, lookup, insert, keys, sort_strings, Result,
  join, ℕ, zero, suc, ◌+◌, Bool, true, false, not, ◌&&◌, Option, none, some, List, [], ◌∷◌, ◌++◌,
  map, ok, err,
}
use mirror_gha.Workflow.{
  Value, Job, Workflow, Yaml, Strategy, ConcurrencySpec, ParseError, job_concurrency, pos,
}
use mirror_gha.Matrix.{Combination, MatrixError, expand_matrix}
use mirror_gha.Topo.{TopoError, topo_sort_jobs}
use mirror_gha.Expr.{
  Conclusion, success, failure, skipped, JobOutcome, new_context, substitute_expressions,
}
use mirror_gha.Executor.{Host, StepReport, JobResult, JobRunOptions, run_job}
use mirror_gha.Runner.Backend.{Backend}
use mirror_gha.Flow.Combos.{is_success, Group, ComboError, bad_group, no_backend, job_error}

pub data FlowError : Type 0 where
  no_workspace : FlowError
  bad_order : TopoError → FlowError
  bad_matrix : (job : Text) → MatrixError → FlowError
  bad_concurrency : (job : Text) → ParseError → FlowError
  combination_failed : (job suffix : Text) → ComboError → FlowError
  no_such_job : (job : Text) → FlowError

-- What the goroutines of a job are started with.
pub record GroupSpec : Type 0 where
  pub job_name : Text
  pub combos : List Combination
  pub fail_fast : Bool
  pub max_parallel : ℕ
  pub concurrency : Option ConcurrencySpec
  pub needs : Map JobOutcome

-- `result.Jobs` and `outcomes`
pub record Progress : Type 0 where
  pub jobs : Map JobResult
  pub outcomes : Map JobOutcome

pub record WorkflowResult : Type 0 where
  pub jobs : Map JobResult
  pub order : List Text

abbrev print_pair : (Value → Text) → Combination → Text → Text
print_pair show combo k = k ++ (b'=' ∷ elim (lookup k combo) [ none ↦ [] | some v ↦ show v ])

-- `MatrixSuffix`; `show` is the verb `%v`.
unfoldable pub matrix_suffix : (Value → Text) → Combination → Text
unfolding sort_strings join lookup
matrix_suffix show [] = []
matrix_suffix show (p ∷ combo) =
    let all = p ∷ combo in
    lit " (" ++ (join (lit ", ") (map (print_pair show all) (sort_strings (keys all))) ++ lit ")")

-- `failFast`
unfoldable pub fail_fast_of : Option Strategy → Bool
fail_fast_of none = true
fail_fast_of (some s) = elim s.fail_fast [ none ↦ true | some b ↦ b ]

abbrev wanted_parallel : Option Strategy → ℕ
wanted_parallel none = 4
wanted_parallel (some s) = if ltb 0 s.max_parallel then s.max_parallel else 4

-- `maxParallel`
unfoldable pub max_parallel_of : Option Strategy → ℕ → ℕ
max_parallel_of strategy size =
    let wanted = wanted_parallel strategy in
    let most = if ltb size wanted then size else wanted in if ltb most 1 then 1 else most

-- `allSteps`, from the `i`th combination on.
unfoldable pub all_steps : (Value → Text) → Text → Group → ℕ → List Combination → List StepReport
unfolding matrix_suffix
all_steps show name g i [] = []
all_steps show name g i (combo ∷ combos) =
    let rest = all_steps show name g (i + 1) combos in
    if (g.combos i).skipped
    then record {
      id = [];
      name = name ++ matrix_suffix show combo;
      conclusion = skipped;
      exit_code = pos 0;
      stdout = [];
      stderr = [];
    }
      ∷ rest
    else (g.combos i).steps ++ rest

-- `conclusion` after the loop over the combinations.
unfoldable pub group_conclusion : Group → ℕ → ℕ → Conclusion
group_conclusion g i zero = success
group_conclusion g i (suc left) =
    let rest = group_conclusion g (i + 1) left in
    if not (g.combos i).skipped && (g.combos i).failed then failure else rest

-- `outcomes[dep].Result` is the empty text for a job that is not there.
abbrev pub succeeded : Option JobOutcome → Bool
succeeded none = false
succeeded (some o) = is_success o.result

-- No need is missing: the loop over `job.Needs`.
unfoldable pub needs_met : Map JobOutcome → List Text → Bool
unfolding lookup
needs_met outcomes [] = true
needs_met outcomes (dep ∷ deps) =
    if succeeded (lookup dep outcomes) then needs_met outcomes deps else false

unfoldable pub store_job : Text → JobResult → Progress → Progress
unfolding insert
store_job name r s = record {
  jobs = insert name r s.jobs;
  outcomes = insert name (record { result = r.conclusion; outputs = r.outputs }) s.outcomes;
}

abbrev pub skipped_job : JobResult
skipped_job = record { conclusion = skipped; steps = []; outputs = [] }

-- The suffix of the `i`th combination.
abbrev suffix_at : (Value → Text) → List Combination → ℕ → Text
suffix_at show [] i = []
suffix_at show (combo ∷ combos) zero = matrix_suffix show combo
suffix_at show (combo ∷ combos) (suc i) = suffix_at show combos i

module _ (show : Value → Text) where
  -- What the end of a job's goroutines comes to.
  unfoldable pub group_result : GroupSpec → Group → Result FlowError JobResult
  unfolding all_steps group_conclusion
  group_result spec g = elim g.first_err [
    | some (i, e) ↦ err (combination_failed spec.job_name (suffix_at show spec.combos i) e)
    | none ↦ ok (record {
      conclusion = group_conclusion g 0 (length spec.combos);
      steps = all_steps show spec.job_name g 0 spec.combos;
      outputs = g.outputs;
    })
  ]

module _ (yaml : Yaml) where
  open yaml use {Node}

  -- From the matrix of a job to its goroutines.
  unfoldable pub group_spec : Text → Job Node → Map JobOutcome → Result FlowError GroupSpec
  unfolding expand_matrix job_concurrency fail_fast_of max_parallel_of
  group_spec name job outcomes = elim (expand_matrix job.strategy) [
    | err e ↦ err (bad_matrix name e)
    | ok combos ↦ elim (job_concurrency yaml job) [
      | err e ↦ err (bad_concurrency name e)
      | ok concurrency ↦ ok (record {
        job_name = name;
        combos = combos;
        fail_fast = fail_fast_of job.strategy;
        max_parallel = max_parallel_of job.strategy (length combos);
        concurrency = concurrency;
        needs = outcomes;
      })
    ]
  ]

  -- What a goroutine runs once it may: the concurrency group, the backend, the job.
  unfoldable pub run_combination :
      {W : Type 0}
      → Host W
      → (Text → Result Text (Backend W))
      → Workflow Node
      → Job Node
      → Option ConcurrencySpec
      → JobRunOptions
      → W
      → Result ComboError JobResult × W
  unfolding substitute_expressions new_context run_job
  run_combination host select wf job concurrency opts w =
      let context = record (new_context wf job) { matrix = opts.matrix; vars = opts.vars } in
      let group : Result ComboError Text = elim concurrency [
        | none ↦ ok []
        | some spec ↦ elim (substitute_expressions host.library context spec.group) [
          | err e ↦ err (bad_group e)
          | ok group ↦ ok group
        ]
      ] in
      elim group [
        | err e ↦ (err e, w)
        | ok _ ↦ elim (select job.runs_on) [
          | err e ↦ (err (no_backend e), w)
          | ok backend ↦
              (let (r, w') = run_job host backend yaml wf job opts w in
                (elim r [ err e ↦ err (job_error e) | ok result ↦ ok result ], w'))
        ]
      ]

  module _ {W : Type 0} (show : Value → Text) (run_group : GroupSpec → W → Group × W)
      (jobs : Map (Job Node)) where
    -- A job whose needs are met.
    unfoldable pub run_ready : Text → Job Node → Progress → W → Result FlowError Progress × W
    unfolding group_spec group_result store_job
    run_ready name job s w = elim (group_spec name job s.outcomes) [
      | err e ↦ (err e, w)
      | ok spec ↦
          (let (g, w') = run_group spec w in
            elim (group_result show spec g) [
              | err e ↦ (err e, w')
              | ok r ↦ (ok (store_job name r s), w')
            ])
    ]

    -- The body of the loop over the jobs. A name of the order is a job.
    unfoldable pub run_name : Text → Progress → W → Result FlowError Progress × W
    unfolding lookup needs_met run_ready store_job
    run_name name s w = elim (lookup name jobs) [
      | none ↦ (err (no_such_job name), w)
      | some job ↦
          if needs_met s.outcomes job.needs
          then run_ready name job s w
          else (ok (store_job name skipped_job s), w)
    ]

    unfoldable pub run_names : List Text → Progress → W → Result FlowError Progress × W
    unfolding run_name
    run_names [] s w = (ok s, w)
    run_names (name ∷ names) s w =
        let (r, w') = run_name name s w in
        elim r [ err e ↦ (err e, w') | ok s' ↦ run_names names s' w' ]

    -- `RunWorkflow`
    unfoldable pub run_workflow : Text → W → Result FlowError WorkflowResult × W
    unfolding text_eq topo_sort_jobs run_names
    run_workflow workspace_dir w =
        if text_eq workspace_dir [] then (err no_workspace, w) else elim (topo_sort_jobs jobs) [
          | err e ↦ (err (bad_order e), w)
          | ok order ↦
              (let (r, w') = run_names order (record { jobs = []; outcomes = [] }) w in
                elim r [
                  | err e ↦ (err e, w')
                  | ok s ↦ (ok (record { jobs = s.jobs; order = order }), w')
                ])
        ]
