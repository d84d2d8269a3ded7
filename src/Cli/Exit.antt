-- ===== src/Cli/Exit.antt =====
-- What the exit code of `runCommand` of cmd/mirror/main.go tells.
use mirror_gha.Base.{
  if◌then◌else◌, Bool-cases, Option-cases, All, All-map, In, All-In, Text, Map, lookup, keys,
  In-keys, Result, ok-injective, some-injective, Result-cases, ℕ, ◌≡◌, refl, sym, ap, ◌∙◌, subst,
  ◌≢◌, inl, inr, Bool, true, false, some, List, [], ◌∷◌, arith, ok, err,
}
use mirror_gha.Workflow.{Job, Workflow, Yaml, parse}
use mirror_gha.Expr.{is_failure, Conclusion, success, skipped}
use mirror_gha.Executor.{JobResult}
use mirror_gha.Topo.Order.{IsOrdered, IsReady}
use mirror_gha.Flow.{WorkflowResult, run_workflow}
use mirror_gha.Flow.Fates.{Won, Settled}
use mirror_gha.Flow.Order.{run_workflow-Settled}
use mirror_gha.Actions.Metadata.{FileRead, not_exist, failed, contents}
use mirror_gha.Os.{Call, ◌>>=◌, finally, raise}
use mirror_gha.Cli.Program.{
  read_result, RunMode, CliError, RunOptions, Program, tell, told, read, choose_backend,
  read_workflow, workflow_failed, parse_workflow,
}
use mirror_gha.Cli.Run.{
  print_steps, report_jobs, run_and_report, with_servers, run_mode, command_result, exit_code,
  run_command,
}

-- What follows from the exit code 0 of a part of `runCommand`.
record Leads {W : Type 0} (R : Type 0) (m : Call W CliError ℕ) : Type 0 where
  leads : (w : W) → (m w).0 ≡ ok 0 → R

module _ {W R : Type 0} where
  Leads-bind :
      {A : Type 0} (m : Call W CliError A) (f : A → Call W CliError ℕ)
      → ((a : A) → Leads R (f a))
      → Leads R (m >>= f)
  unfolding ◌>>=◌
  Leads-bind m f k = record {
    leads = λ w h. elim (Result-cases (m w).0) [
      | inl (a, q) ↦ (k a).leads (m w).1 (rw (q, ◌>>=◌) at h)
      | inr (e, q) ↦ let h' = rw (q, ◌>>=◌) at h in cc h'
    ];
  }

  Leads-finally : (tidy : W → W) (m : Call W CliError ℕ) → Leads R m → Leads R (finally tidy m)
  unfolding finally
  Leads-finally tidy m k = record { leads = λ w h. k.leads w h }

  Leads-if :
      (b : Bool) (m n : Call W CliError ℕ) → Leads R m → Leads R n → Leads R (if b then m else n)
  Leads-if true m n km kn = km
  Leads-if false m n km kn = kn

module _ {W : Type 0} where
  bind_ok :
      {A B : Type 0} (m : Call W CliError A) (f : A → Call W CliError B) (w : W) {b : B}
      → ((m >>= f) w).0 ≡ ok b
      → (a : A) × ((m w).0 ≡ ok a) × ((f a (m w).1).0 ≡ ok b)
  unfolding ◌>>=◌
  bind_ok m f w h = elim (Result-cases (m w).0) [
    | inl (a, q) ↦ (a, q, rw (q, ◌>>=◌) at h)
    | inr (e, q) ↦ let h' = rw (q, ◌>>=◌) at h in cc h'
  ]

  tell_ok :
      (p : Program W) {E A : Type 0} (error : E → CliError) (m : Call W E A) (w : W) {a : A}
      → (tell p error m w).0 ≡ ok a
      → (m w).0 ≡ ok a
  unfolding tell
  tell_ok p error m w h = elim (Result-cases (m w).0) [
    | inl (a, q) ↦ let same : a ≡ _ = ok-injective (rw (q, tell) at h) in q ∙ ap ok same
    | inr (e, q) ↦ let h' = rw (q, tell) at h in cc h'
  ]

-- A job that has a result which is no failure.
record Fine (results : Map JobResult) (name : Text) : Type 0 where
  result : JobResult
  found : lookup name results ≡ some result
  fine : is_failure result.conclusion ≡ false

module _ {W : Type 0} (p : Program W) where
  report_jobs-Fine :
      (jobs : Map JobResult) (names : List Text) (exit : ℕ) (w : W)
      → (report_jobs p jobs names exit w).0 ≡ ok 0
      → (exit ≡ 0) × All (Fine jobs) names
  unfolding report_jobs raise
  report_jobs-Fine jobs [] exit w h = (ok-injective h, tt)
  report_jobs-Fine jobs (name ∷ names) exit w h = elim (Option-cases (lookup name jobs)) [
    | inl q ↦ let h' = rw (q, report_jobs) at h in cc h'
    | inr (r, q) ↦
        let (none_before, rest) =
          report_jobs-Fine jobs names (if is_failure r.conclusion then 1 else exit)
            (print_steps p name r.steps w) (rw (q, report_jobs) at h) in
        elim (Bool-cases (is_failure r.conclusion)) [
          | inl f ↦ let one = rw f at none_before in absurd (omega (arith, one))
          | inr f ↦ (rw f at none_before, (record { result = r; found = q; fine = f }, rest))
        ]
  ]

won_by : (c : Conclusion) → is_failure c ≡ false → c ≢ skipped → c ≡ success
won_by Conclusion.success h n = refl
won_by Conclusion.failure h n = cc h
won_by Conclusion.skipped h n = absurd (n refl)

module _ {Node : Type 0} (jobs : Map (Job Node)) (results : Map JobResult) where
  Won-of_Fine :
      (seen : List Text) (name : Text)
      → All (Won results) seen
      → IsReady jobs seen name
      → Settled jobs results name
      → Fine results name
      → Won results name
  Won-of_Fine seen name won ready there fine =
      let same_job : there.job ≡ ready.job = some-injective (sym there.known ∙ ready.known) in
      let same : there.result ≡ fine.result = some-injective (sym there.found ∙ fine.found) in
      elim there.fate [
        | inl (_, ran) ↦ record {
          result = there.result;
          found = there.found;
          won =
              won_by there.result.conclusion
                (ap (λ (r : JobResult). is_failure r.conclusion) same ∙ fine.fine) ran;
        }
        | inr (lost, _) ↦
            let needed : In lost.need ready.job.needs =
              subst (λ (j : Job Node). In lost.need j.needs) same_job lost.needed in
            let seen_need =
              All-In (λ d. In d seen) ready.job.needs lost.need ready.needs_seen needed in
            let w = All-In (Won results) seen lost.need won seen_need in
            let one : w.result ≡ lost.loss.result =
              some-injective (sym w.found ∙ lost.loss.found) in
            absurd (lost.loss.lost (ap (λ (r : JobResult). r.conclusion) (sym one) ∙ w.won))
      ]

  Won-All :
      (seen names : List Text)
      → All (Settled jobs results) (keys jobs)
      → All (Won results) seen
      → IsOrdered jobs seen names
      → All (Fine results) names
      → All (Won results) names
  Won-All seen [] settled won ordered fine = tt
  Won-All seen (name ∷ names) settled won (new, ready, ordered) (f, fine) =
      let there =
        All-In (Settled jobs results) (keys jobs) name settled (In-keys name jobs ready.known) in
      let here = Won-of_Fine seen name won ready there f in
      (here, Won-All (name ∷ seen) names settled (here, won) ordered fine)

module _ {W : Type 0} (p : Program W) where
  Leads-with_servers :
      {R : Type 0} (env : Map Text) (run : Map Text → Call W CliError ℕ)
      → ((env' : Map Text) → Leads R (run env'))
      → Leads R (with_servers p env run)
  unfolding with_servers
  Leads-with_servers env run k = Leads-bind _ _ (λ root. Leads-bind _ _ (λ _.
      Leads-bind _ _ (λ port. Leads-finally _ _ (
        Leads-bind _ _
          (λ root'. Leads-bind _ _ (λ port'. Leads-finally _ _ (Leads-finally _ _ (k _))))))))

  module _ (yaml : Yaml) where
    -- A run of the workflow of the file in which every job succeeded.
    pub record Succeeded (path : Text) (mode : RunMode) (w : W) : Type 0 where
      pub source : Text
      pub holds : p.read_file path w ≡ contents source
      pub workflow : Workflow yaml.Node
      pub parsed : parse yaml source ≡ ok workflow
      pub options : RunOptions W
      pub backends : options.select ≡ choose_backend p mode.dry_run
      pub world : W
      pub result : WorkflowResult
      pub ran :
          (run_workflow yaml p.show_value
            (p.run_group options)
            workflow.jobs
            options.workspace_dir
            world).0
          ≡ ok result
      pub won : All (Won result.jobs) (keys workflow.jobs)

    -- A run of a workflow that comes to the exit code 0.
    record Reported (wf : Workflow yaml.Node) (mode : RunMode) : Type 0 where
      options : RunOptions W
      backends : options.select ≡ choose_backend p mode.dry_run
      world : W
      reported : (run_and_report p yaml wf options world).0 ≡ ok 0

    Leads-run_and_report :
        (mode : RunMode) (wf : Workflow yaml.Node) (options : RunOptions W)
        → options.select ≡ choose_backend p mode.dry_run
        → Leads (Reported wf mode) (run_and_report p yaml wf options)
    Leads-run_and_report mode wf options chosen = record {
      leads = λ w h. record { options = options; backends = chosen; world = w; reported = h };
    }

    Leads-run_mode :
        (mode : RunMode) (wf : Workflow yaml.Node)
        → Leads (Reported wf mode) (run_mode p yaml mode wf)
    unfolding run_mode
    Leads-run_mode mode wf = Leads-bind _ _ (λ event_name. Leads-bind _ _ (λ workspace_dir.
        Leads-bind _ _ (λ payload. Leads-bind _ _ (λ event_dir. Leads-finally _ _ (
          Leads-bind _ _ (λ _.
            Leads-if mode.dry_run _ _ (Leads-run_and_report mode wf _ refl)
              (Leads-with_servers _ _ (λ env. Leads-run_and_report mode wf _ refl))))))))

    Won-run_and_report :
        (wf : Workflow yaml.Node) (options : RunOptions W) (w : W)
        → (run_and_report p yaml wf options w).0 ≡ ok 0
        → (result : WorkflowResult) × ((run_workflow yaml p.show_value
              (p.run_group options)
              wf.jobs
              options.workspace_dir
              w).0
            ≡ ok result)
          × All (Won result.jobs) (keys wf.jobs)
    unfolding run_and_report
    Won-run_and_report wf options w h =
        let run =
          run_workflow yaml p.show_value (p.run_group options) wf.jobs options.workspace_dir in
        let (result, told_ok, reported) =
          bind_ok (tell p workflow_failed run) (λ r. report_jobs p r.jobs r.order 0) w h in
        let ran = tell_ok p workflow_failed run w told_ok in
        let (settled, covered, ordered) =
          run_workflow-Settled yaml p.show_value (p.run_group options) wf.jobs options.workspace_dir
            w ran in
        let (_, fine) = report_jobs-Fine p result.jobs result.order 0 _ reported in
        let won = Won-All wf.jobs result.jobs [] result.order settled tt ordered fine in
        let all =
          All-map (keys wf.jobs) (λ n m. All-In (Won result.jobs) result.order n won m) covered in
        (result, ran, all)

    exit_code-zero : (r : Result CliError ℕ) → exit_code r ≡ 0 → r ≡ ok 0
    exit_code-zero (ok n) h = ap ok h
    exit_code-zero (err e) h = absurd (omega (arith, h))

    read_result-contents :
        (path : Text) (r : FileRead) {source : Text}
        → read_result p path r ≡ ok source
        → r ≡ contents source
    read_result-contents path (contents c) h = ap contents (ok-injective h)
    read_result-contents path not_exist h = cc h
    read_result-contents path (failed e) h = cc h

    otherwise :
        (b : Bool) (m n : Call W CliError ℕ) (w : W)
        → b ≡ false
        → ((if b then m else n) w).0 ≡ ok 0
        → (n w).0 ≡ ok 0
    otherwise true m n w b h = cc b
    otherwise false m n w b h = h

    -- If a run that is asked neither to list the jobs nor to print their graph has the exit code 0,
    -- the file held a workflow, the workflow was run with the backends of the mode, and every one of
    -- its jobs succeeded.
    pub run_command-Succeeded :
        (path : Text) (mode : RunMode) (w : W)
        → mode.list ≡ false
        → mode.graph ≡ false
        → (run_command p yaml path mode w).0 ≡ 0
        → Succeeded path mode w
    unfolding run_command command_result
    run_command-Succeeded path mode w no_list no_graph h =
        let done = exit_code-zero (command_result p yaml path mode w).0 h in
        let (source, was_read, h1) = bind_ok (read p read_workflow path) _ w done in
        let (wf, was_parsed, h2) = bind_ok (told p parse_workflow (parse yaml source)) _ _ h1 in
        let run =
          (Leads-run_mode mode wf).leads _
            (otherwise mode.graph _ _ _ no_graph (otherwise mode.list _ _ _ no_list h2)) in
        let (result, ran, won) = Won-run_and_report wf run.options run.world run.reported in
        record {
          source = source;
          holds =
              read_result-contents path (p.read_file path w) (tell_ok p read_workflow _ w was_read);
          workflow = wf;
          parsed = tell_ok p parse_workflow _ _ was_parsed;
          options = run.options;
          backends = run.backends;
          world = run.world;
          result = result;
          ran = ran;
          won = won;
        }
