-- ===== src/Cli/Main.antt =====
-- `runMain` and `main` of cmd/mirror/main.go.
use mirror_gha.Base.{
  if◌then◌else◌, Text, lit, text_eq, Map, merge, ℕ, none, some, List, [], ◌∷◌, ◌++◌, err,
}
use mirror_gha.Workflow.{Yaml}
use mirror_gha.Os.{Call, ◌>>=◌}
use mirror_gha.Cli.Vars.{parse_local_repository_overrides, parse_var_file, parse_var_flags}
use mirror_gha.Cli.Program.{
  RunMode, CliError, Flags, Program, bad_override, bad_var_file, no_path, tell, told,
}
use mirror_gha.Cli.Run.{command_result, exit_code}

module _ {W : Type 0} (p : Program W) (yaml : Yaml) where
  abbrev mode_of : Flags → Map Text → Map Text → RunMode
  mode_of flags overrides vars = record {
    list = flags.list;
    graph = flags.graph;
    dry_run = flags.dry_run;
    workdir = flags.workdir;
    overrides = overrides;
    vars = vars;
    debug = flags.debug;
    event_path = flags.event_path;
    event_name = flags.event_name;
  }

  -- `runMain` behind the parsing of the flags.
  unfoldable pub run_flags : Flags → Call W CliError ℕ
  unfolding parse_local_repository_overrides parse_var_file parse_var_flags merge tell ◌>>=◌
      command_result
  run_flags flags = do
    overrides ← told p bad_override (parse_local_repository_overrides flags.local_repos)
    vars ←
        tell p bad_var_file (λ w. (parse_var_file flags.var_file (p.read_file flags.var_file w), w))
    elim flags.rest [
      | [] ↦ (λ w. (err no_path, p.report no_path w))
      | path ∷ _ ↦
          command_result p yaml path
            (mode_of flags overrides (merge vars (parse_var_flags flags.var_flags)))
    ]

  -- `runMain`
  unfoldable pub run_main : List Text → W → ℕ × W
  unfolding run_flags
  run_main args w =
      let (parsed, w') = p.parse_flags args w in
      elim parsed [
        | none ↦ (1, w')
        | some flags ↦ (let (r, w'') = run_flags flags w' in (exit_code r, w''))
      ]

  abbrev usage : Text
  usage = lit "usage: mirror <version|run|dashboard>" ++ 10 ∷ []

  abbrev dashboard : Text
  dashboard = lit "mirror dashboard: dashboard server not implemented yet" ++ 10 ∷ []

  -- The line of `mirror version`, of the variables that a build sets.
  abbrev version_line : (version commit date built_by : Text) → Text
  version_line version commit date built_by =
      lit "mirror "
      ++ version
      ++ lit " (commit "
      ++ commit
      ++ lit ", built "
      ++ date
      ++ lit " by "
      ++ built_by
      ++ lit ")"
      ++ 10 ∷ []

  -- `main`, on the arguments behind the name of the program.
  unfoldable pub main : (version commit date built_by : Text) → List Text → W → ℕ × W
  unfolding run_main text_eq
  main version commit date built_by [] w = (1, p.print usage w)
  main version commit date built_by (sub ∷ args) w =
      if text_eq sub (lit "version")
      then (0, p.print (version_line version commit date built_by) w)
      else if text_eq sub (lit "run")
      then run_main args w
      else if text_eq sub (lit "dashboard")
      then (0, p.print dashboard w)
      else (1, p.print usage w)
