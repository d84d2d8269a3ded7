-- ===== src/Runner/Docker/Traced.antt =====
-- What a start of a job in internal/runner/docker_backend.go takes, and what is given back, by the
-- calls that are made.
use mirror_gha.Base.{
  if◌then◌else◌, In, Text, lit, text_eq, Result, trim_space, ◌≡◌, ◌&&◌, Option, none, some, List,
  [], ◌∷◌, ok, err,
}
use mirror_gha.Os.{Os, Command, Ran, completed, exit_error, run_error}

pub data Event : Type 0 where
  made : (dir : Text) → Event
  removed : (dir : Text) → Event
  ran : Command → Ran → Event

-- The system, with a list of what it was asked for, the last call first.
abbrev pub Traced : Type 0 → Type 0
Traced W = W × List Event

abbrev made_event : Result Text Text → List Event → List Event
made_event (ok dir) log = made dir ∷ log
made_event (err _) log = log

abbrev pub traced : {W : Type 0} → Os W → Os (Traced W)
traced os = record {
  make_temp =
      λ pattern (w, log). let (r, w') = os.make_temp pattern w in (r, (w', made_event r log));
  make_dirs = λ dir (w, log). let (r, w') = os.make_dirs dir w in (r, (w', log));
  remove_all = λ dir (w, log). let (r, w') = os.remove_all dir w in (r, (w', removed dir ∷ log));
  run = λ c (w, log). let (r, w') = os.run c w in (r, (w', ran c r ∷ log));
  create_temp = λ pattern (w, log). let (r, w') = os.create_temp pattern w in (r, (w', log));
  remove = λ path (w, log). let (r, w') = os.remove path w in (r, (w', log));
  exists = λ path (w, log). os.exists path w;
  user_cache_dir = os.user_cache_dir;
  arch = os.arch;
  environ = λ (w, log). os.environ w;
  rel_path = os.rel_path;
  quote = os.quote;
  show_duration = os.show_duration;
  now = λ (w, log). os.now w;
  sleep = λ d (w, log). (os.sleep d w, log);
}

-- What has to be given back.
pub data Resource : Type 0 where
  directory : (path : Text) → Resource
  login : (registry : Text) → Resource
  network : (name : Text) → Resource
  container : (id : Text) → Resource

abbrev started_container : Ran → Option Resource
started_container (completed o) = some (container (trim_space o.stdout))
started_container (exit_error _ _ _) = none
started_container (run_error _ _) = none

abbrev first_network : List Text → Option Resource
first_network [] = none
first_network (name ∷ _) = some (network name)

-- What a command of docker takes, by the words that it begins with.
abbrev pub taken_by : List Text → Ran → Option Resource
taken_by [] r = none
taken_by (_ ∷ []) r = none
taken_by (verb ∷ word ∷ rest) r =
    if text_eq verb (lit "login")
    then some (login word)
    else if text_eq verb (lit "network") && text_eq word (lit "create")
    then first_network rest
    else if text_eq verb (lit "run") && text_eq word (lit "-d")
    then started_container r
    else none

abbrev pub taken : Event → Option Resource
taken (made dir) = some (directory dir)
taken (removed dir) = none
taken (ran c r) = taken_by c.args r

-- What a command gives back.
abbrev given_by : List Text → Option Resource
given_by (a ∷ b ∷ []) = if text_eq a (lit "logout") then some (login b) else none
given_by (a ∷ b ∷ c ∷ []) =
    if text_eq a (lit "network") && text_eq b (lit "rm")
    then some (network c)
    else if text_eq a (lit "rm") && text_eq b (lit "-f")
    then some (container c)
    else none
given_by _ = none

abbrev pub given_back : Event → Option Resource
given_back (made dir) = none
given_back (removed dir) = some (directory dir)
given_back (ran c r) = given_by c.args

-- The list has an event that takes, or that gives back, the resource.
abbrev pub Taken : Resource → List Event → Type 0
Taken x log = (e : Event) × (In e log × (taken e ≡ some x))

abbrev pub GivenBack : Resource → List Event → Type 0
GivenBack x log = (e : Event) × (In e log × (given_back e ≡ some x))
