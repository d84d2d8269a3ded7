-- ===== src/Os/Samples.antt =====
-- A system on which every command ends well; the world is the list of the commands that were run,
-- the last one first.
use mirror_gha.Base.{length, drop, Text, lit, join, ◌+◌, false, List, [], ◌∷◌, ◌++◌, ok}
use mirror_gha.Os.{Os, Command, Output, completed}

abbrev pub words : Command → Text
words c = join (lit " ") (c.program ∷ c.args)

-- Each command prints the name of a container.
abbrev pub printed_id : Output
printed_id = record { stdout = lit "c1\n"; stderr = []; combined = lit "healthy\n" }

abbrev pub logging_os : Os (List Text)
logging_os = record {
  make_temp = λ pattern w. (ok (lit "/tmp/" ++ pattern), w);
  make_dirs = λ dir w. (ok tt, w);
  remove_all = λ dir w. (ok tt, (lit "rm " ++ dir) ∷ w);
  run = λ c w. (completed printed_id, words c ∷ w);
  create_temp = λ pattern w. (ok (lit "/tmp/" ++ pattern), w);
  remove = λ path w. (ok tt, (lit "rm " ++ path) ∷ w);
  exists = λ path w. false;
  user_cache_dir = ok (lit "/home/cache");
  arch = lit "amd64";
  environ = λ w. lit "PATH=/bin" ∷ [];
  rel_path = λ root path. ok (drop (length root + 1) path);
  quote = λ t. t;
  show_duration = λ d. lit "5m0s";
  now = λ w. 0;
  sleep = λ d w. w;
}
