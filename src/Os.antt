-- ===== src/Os.antt =====
-- What the program calls of the operating system, and the combinators that its calls are written in.
pub mod Samples
use mirror_gha.Workflow.{ℤ}
use mirror_gha.Base.{Text, lit, Result, ℕ, Bool, Option, none, List, [], ◌∷◌, ◌++◌, ok, err}

-- The bytes of the dash in messages.
abbrev pub em_dash : Text
em_dash = 226 ∷ 128 ∷ 148 ∷ []

-- `exec.Cmd`; `environ` is `none` where the command has the environment of the program itself.
pub record Command : Type 0 where
  pub program : Text
  pub args : List Text
  pub dir : Text
  pub environ : Option (List Text)
  pub stdin : Text

abbrev pub command : Text → List Text → Command
command program args = record {
  program = program;
  args = args;
  dir = [];
  environ = none;
  stdin = [];
}

-- `combined` is what `CombinedOutput` gives.
pub record Output : Type 0 where
  pub stdout : Text
  pub stderr : Text
  pub combined : Text

-- What `cmd.Run()` gives: no error, an `exec.ExitError`, or another error, with its message.
pub data Ran : Type 0 where
  completed : Output → Ran
  exit_error : ℤ → (message : Text) → Output → Ran
  run_error : (message : Text) → Output → Ran

-- A call that changes the world: its result or error, and the world after it.
abbrev pub Call : Type 0 → Type 0 → Type 0 → Type 0
Call W E A = W → Result E A × W

abbrev pub Io : Type 0 → Type 0 → Type 0
Io W A = Call W Text A

-- `exists` tells whether `os.Stat` has no error, `create_temp` creates a file and gives its path,
-- `quote` is the verb `%q`, a time is in nanoseconds, and `show_duration` is its verb `%s`.
pub record Os (W : Type 0) : Type 0 where
  pub make_temp : (pattern : Text) → Io W Text
  pub make_dirs : Text → Io W (Unit {0})
  pub remove_all : Text → Io W (Unit {0})
  pub run : Command → W → Ran × W
  pub create_temp : (pattern : Text) → Io W Text
  pub remove : Text → Io W (Unit {0})
  pub exists : Text → W → Bool
  pub user_cache_dir : Result Text Text
  pub arch : Text
  pub environ : W → List Text
  pub rel_path : Text → Text → Result Text Text
  pub quote : Text → Text
  pub show_duration : ℕ → Text
  pub now : W → ℕ
  pub sleep : ℕ → W → W

module _ {W E : Type 0} where
  infixl 5 ◌>>=◌ ◌>>◌
  unfoldable pub ◌>>=◌ : {A B : Type 0} → Call W E A → (A → Call W E B) → Call W E B
  ◌>>=◌ m f w = let (r, w') = m w in elim r [ ok a ↦ f a w' | err e ↦ (err e, w') ]

  abbrev pub ◌>>◌ : {B : Type 0} → Call W E (Unit {0}) → Call W E B → Call W E B
  ◌>>◌ m k = ◌>>=◌ m (λ _. k)

  unfoldable pub give : {A : Type 0} → A → Call W E A
  give a w = (ok a, w)

  unfoldable pub raise : {A : Type 0} → E → Call W E A
  raise e w = (err e, w)

  unfoldable pub lift : {A : Type 0} → Result E A → Call W E A
  lift r w = (r, w)

  -- `if err != nil { …; return nil, err }`, with what is done before the return.
  unfoldable pub on_error : {A : Type 0} → (W → W) → Call W E A → Call W E A
  on_error tidy m w = let (r, w') = m w in elim r [ ok a ↦ (ok a, w') | err e ↦ (err e, tidy w') ]

  -- `defer`
  unfoldable pub finally : {A : Type 0} → (W → W) → Call W E A → Call W E A
  finally tidy m w = let (r, w') = m w in (r, tidy w')

  -- A call whose error is not looked at.
  abbrev pub ignore_error : {A : Type 0} → Call W E A → W → W
  ignore_error m w = (m w).1

module _ {W : Type 0} where
  -- `fmt.Errorf("…%w", err)`
  unfoldable pub wrap : {A : Type 0} → Text → Io W A → Io W A
  wrap before m w =
      let (r, w') = m w in elim r [ ok a ↦ (ok a, w') | err e ↦ (err (before ++ e), w') ]

  module _ (os : Os W) where
    abbrev pub checked_result : (Text → Text → Text) → Ran → Result Text Output
    checked_result message (completed o) = ok o
    checked_result message (exit_error code e o) = err (message e o.stderr)
    checked_result message (run_error e o) = err (message e o.stderr)

    -- A command that has to end with the code 0; `message` makes the error of the command's own and
    -- of what it wrote to its standard error.
    unfoldable pub checked : (Text → Text → Text) → Command → Io W Output
    checked message c w = let (r, w') = os.run c w in (checked_result message r, w')

    -- The same, with the message made of both of the command's outputs.
    abbrev combined_result : Text → Ran → Result Text Output
    combined_result before (completed o) = ok o
    combined_result before (exit_error code e o) =
        err (before ++ lit ": " ++ e ++ lit ": " ++ o.combined)
    combined_result before (run_error e o) = err (before ++ lit ": " ++ e ++ lit ": " ++ o.combined)

    unfoldable pub checked_combined : Text → Command → Io W Output
    checked_combined before c w = let (r, w') = os.run c w in (combined_result before r, w')

    unfoldable pub run_only : Command → W → W
    run_only c w = (os.run c w).1
