-- ===== src/Runner/Docker/Release.antt =====
-- Whether `dockerJob.Stop` of internal/runner/docker_backend.go gives back all that `StartJob` takes.
use mirror_gha.Base.{Text, text_eq, ◌≡◌, ◌⊎◌, false, []}
use mirror_gha.Runner.Backend.{RunnerJob}
use mirror_gha.Os.{Os}
use mirror_gha.Runner.Docker.Steps.{DockerJob, docker_stop}
use mirror_gha.Runner.Docker.Traced.{Traced, traced, directory, network, GivenBack}
use mirror_gha.Runner.Docker.Covers.{Owned, Covers}

module _ {W : Type 0} (os : Os W) where
  -- The directory of a job, on top of something else.
  abbrev Made : Owned → Text → Owned
  Made known dir x = known x ⊎ (directory dir ≡ x)

  -- The network of a job too.
  abbrev Joined : Owned → Text → Text → Owned
  Joined known dir name x = Made known dir x ⊎ ((text_eq name [] ≡ false) × (network name ≡ x))

  -- What is known from a job: its stop gives it back, whatever has happened by then.
  abbrev Stops : RunnerJob (Traced W) → Owned
  Stops job x = (s : Traced W) → GivenBack x (job.stop s).1.1

  abbrev Left : DockerJob → Traced W → Owned
  Left j s x = GivenBack x (docker_stop (traced os) j s).1.1
