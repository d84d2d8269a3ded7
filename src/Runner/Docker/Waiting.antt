-- ===== src/Runner/Docker/Waiting.antt =====
-- How long `waitForServiceHealth` of internal/runner/docker_backend.go waits.
use mirror_gha.Base.{ltb, Text, ℕ, zero, suc, ◌+◌, ◌*◌, ◌/◌, ◌≤◌, ◌<◌, ◌≡◌, refl, true, arith}
use mirror_gha.Os.{Os, Command, Io}
use mirror_gha.Runner.Docker.Health.{inspect, second, poll_health, wait_for_service_health}

-- The clock does not go back while a command runs, and goes on at least by what is slept.
pub record GoesOn {W : Type 0} (os : Os W) : Type 0 where
  pub runs : (c : Command) (w : W) → os.now w ≤ os.now (os.run c w).1
  pub sleeps : (d : ℕ) (w : W) → os.now w + d ≤ os.now (os.sleep d w)

module _ {W : Type 0} (os : Os W) (clock : GoesOn os) (container_id : Text) (timeout : ℕ) where
  abbrev poll : ℕ → ℕ → Io W (Unit {0})
  poll = poll_health os container_id timeout

  abbrev answered : W → W
  answered w = (os.run (inspect os container_id timeout) w).1

  -- Rounds behind the deadline are never reached.
  poll_health-enough :
      (rounds more deadline : ℕ) (w : W)
      → deadline < os.now w + rounds * second
      → rounds ≤ more
      → poll more deadline w ≡ poll rounds deadline w
  unfolding poll_health
  poll_health-enough zero zero deadline w late few = refl
  poll_health-enough zero (suc more) deadline w late few =
      let after : os.now w ≤ os.now (answered w) = clock.runs _ w in
      let passed : ltb deadline (os.now (answered w)) ≡ true = ground arith in rw passed refl
  poll_health-enough (suc rounds) zero deadline w late few = absurd (omega arith)
  poll_health-enough (suc rounds) (suc more) deadline w late few =
      let after : os.now w ≤ os.now (answered w) = clock.runs _ w in
      let slept : os.now (answered w) + second ≤ os.now (os.sleep second (answered w)) =
        clock.sleeps second (answered w) in
      let again : poll more deadline (os.sleep second (answered w))
          ≡ poll rounds deadline (os.sleep second (answered w)) =
        poll_health-enough rounds more deadline (os.sleep second (answered w)) (omega arith)
          (omega arith) in
      rw again refl

  -- The bound on the number of rounds leaves nothing out: if the clock goes on by what is slept and
  -- does not go back, more rounds come to the same.
  pub wait_for_service_health-enough :
      (more : ℕ) (w : W)
      → timeout / second + 1 ≤ more
      → poll_health os container_id timeout more (os.now w + timeout) w
        ≡ wait_for_service_health os container_id timeout w
  unfolding wait_for_service_health
  wait_for_service_health-enough more w enough =
      poll_health-enough (timeout / second + 1) more (os.now w + timeout) w (omega arith) enough
