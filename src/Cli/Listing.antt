-- ===== src/Cli/Listing.antt =====
-- `listJobs` and `printGraph` of cmd/mirror/main.go.
use mirror_gha.Base.{
  Text, lit, Map, lookup, keys, sort_strings, join, ℕ, Option, none, some, List, [], ◌∷◌, ◌++◌, ok,
}
use mirror_gha.Workflow.{Job, Workflow}
use mirror_gha.Matrix.{Combination, expand_matrix}
use mirror_gha.Topo.{topo_sort_jobs}
use mirror_gha.Flow.{matrix_suffix}
use mirror_gha.Os.{Call, ◌>>=◌, ◌>>◌, give}
use mirror_gha.Cli.Program.{Program, CliError, job_matrix, bad_graph, tell, told}

abbrev needs_column : List Text → Text
needs_column [] = []
needs_column (n ∷ ns) = 9 ∷ lit "needs=" ++ join (lit ",") (n ∷ ns)

module _ {W : Type 0} (p : Program W) where
  unfoldable pub print_line : Text → Call W CliError (Unit {0})
  print_line line w = (ok tt, p.print (line ++ 10 ∷ []) w)

  unfoldable pub print_needs : List Text → Call W CliError (Unit {0})
  unfolding print_line ◌>>=◌ give
  print_needs [] = give tt
  print_needs (dep ∷ deps) = print_line (lit "  needs: " ++ dep) >> print_needs deps

  module _ {Node : Type 0} where
    -- The line of a combination of a job.
    unfoldable pub combo_line : Text → Job Node → Combination → Text
    unfolding matrix_suffix join
    combo_line name job combo =
        name
        ++ matrix_suffix p.show_value combo
        ++ 9 ∷ lit "runs-on="
        ++ job.runs_on
        ++ needs_column job.needs

    unfoldable pub print_combos : Text → Job Node → List Combination → Call W CliError (Unit {0})
    unfolding combo_line print_line ◌>>=◌ give
    print_combos name job [] = give tt
    print_combos name job (combo ∷ combos) =
        print_line (combo_line name job combo) >> print_combos name job combos

    -- The loop over the names. A name of the loop is a job.
    unfoldable pub list_names : Map (Job Node) → List Text → Call W CliError (Unit {0})
    unfolding print_combos expand_matrix tell lookup ◌>>=◌ give
    list_names jobs [] = give tt
    list_names jobs (name ∷ names) = elim (lookup name jobs) [
      | none ↦ list_names jobs names
      | some job ↦ do
        combos ← told p (job_matrix name) (expand_matrix job.strategy)
        print_combos name job combos
        list_names jobs names
    ]

    -- `listJobs`
    unfoldable pub list_jobs : Workflow Node → Call W CliError ℕ
    unfolding list_names sort_strings ◌>>=◌ give
    list_jobs wf = list_names wf.jobs (sort_strings (keys wf.jobs)) >> give 0

    abbrev needs_of : Option (Job Node) → List Text
    needs_of none = []
    needs_of (some job) = job.needs

    unfoldable pub graph_names : Map (Job Node) → List Text → Call W CliError (Unit {0})
    unfolding print_line print_needs lookup ◌>>=◌ give
    graph_names jobs [] = give tt
    graph_names jobs (name ∷ names) = do
      print_line name
      print_needs (needs_of (lookup name jobs))
      graph_names jobs names

    -- `printGraph`
    unfoldable pub print_graph : Workflow Node → Call W CliError ℕ
    unfolding graph_names topo_sort_jobs tell ◌>>=◌ give
    print_graph wf = do
      order ← told p bad_graph (topo_sort_jobs wf.jobs)
      graph_names wf.jobs order
      give 0
