-- ===== src/Runner/Docker/Health.antt =====
-- `waitForServiceHealth` of internal/runner/docker_backend.go.
use mirror_gha.Base.{
  ltb, if◌then◌else◌, Text, lit, text_eq, trim_space, ℕ, zero, suc, ◌+◌, ◌/◌, Bool, true, ◌||◌,
  Option, none, some, [], ◌∷◌, ◌++◌, ok, err,
}
use mirror_gha.Os.{Command, Os, Io, Ran, completed, exit_error, run_error}
use mirror_gha.Runner.Docker.Names.{docker}

abbrev pub second : ℕ
second = 1000000000

-- The status that `docker inspect` tells; `none` where it ended with an error.
unfoldable pub health_status : Ran → Option Text
unfolding trim_space
health_status (completed o) = some (trim_space o.combined)
health_status (exit_error code e o) = none
health_status (run_error e o) = none

-- Nothing is waited for any more.
unfoldable pub is_ready : Option Text → Bool
unfolding text_eq
is_ready none = true
is_ready (some status) =
    text_eq status (lit "<no value>") || text_eq status [] || text_eq status (lit "healthy")

abbrev status_text : Option Text → Text
status_text none = []
status_text (some status) = status

module _ {W : Type 0} (os : Os W) (container_id : Text) (timeout : ℕ) where
  unfoldable pub not_healthy : Option Text → Text
  not_healthy status =
      lit "service container "
      ++ container_id
      ++ lit " did not become healthy within "
      ++ os.show_duration timeout
      ++ lit " (last status: "
      ++ status_text status
      ++ lit ")"

  abbrev pub inspect : Command
  inspect =
      docker (lit "inspect" ∷ lit "--format" ∷ lit "{{.State.Health.Status}}" ∷ container_id ∷ [])

  -- The loop, for at most `rounds` rounds and one that gives up.
  unfoldable pub poll_health : (rounds deadline : ℕ) → Io W (Unit {0})
  unfolding health_status is_ready not_healthy
  poll_health zero deadline w =
      let (r, w') = os.run inspect w in
      if is_ready (health_status r) then (ok tt, w') else (err (not_healthy (health_status r)), w')
  poll_health (suc rounds) deadline w =
      let (r, w') = os.run inspect w in
      let rest = poll_health rounds deadline (os.sleep second w') in
      if is_ready (health_status r)
      then (ok tt, w')
      else if ltb deadline (os.now w')
      then (err (not_healthy (health_status r)), w')
      else rest

  -- `waitForServiceHealth`
  unfoldable pub wait_for_service_health : Io W (Unit {0})
  unfolding poll_health
  wait_for_service_health w = poll_health (timeout / second + 1) (os.now w + timeout) w
