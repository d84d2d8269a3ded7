-- ===== src/Runner/Docker/Stopped.antt =====
-- What `dockerJob.Stop` of internal/runner/docker_backend.go gives back.
use mirror_gha.Base.{
  Bool-cases, In, Text, text_eq, ◌≡◌, refl, ap, inl, inr, false, some, List, [], ◌∷◌,
}
use mirror_gha.Os.{Os, checked, run_only}
use mirror_gha.Runner.Docker.Names.{docker_registry_logout}
use mirror_gha.Runner.Docker.Steps.{
  DockerJob, remove_services, log_out, remove_network, docker_stop,
}
use mirror_gha.Runner.Docker.Traced.{
  Event, Traced, traced, Resource, directory, login, network, container, given_back, GivenBack,
}

-- What is given back stays so.
record Grows {W : Type 0} (f : Traced W → Traced W) : Type 0 where
  grows : (s : Traced W) (x : Resource) → GivenBack x s.1 → GivenBack x (f s).1

GivenBack-first :
    (x : Resource) (e : Event) (log : List Event) → given_back e ≡ some x → GivenBack x (e ∷ log)
GivenBack-first x e log q = (e, (inl refl, q))

GivenBack-later :
    (x : Resource) (e : Event) (log : List Event) → GivenBack x log → GivenBack x (e ∷ log)
GivenBack-later x e log (d, (m, q)) = (d, (inr m, q))

module _ {W : Type 0} (os : Os W) where
  Grows-remove_services : (ids : List Text) → Grows (remove_services (traced os) ids)
  unfolding remove_services run_only
  Grows-remove_services [] = record { grows = λ s x g. g }
  Grows-remove_services (id ∷ ids) = record {
    grows = λ s x g. (Grows-remove_services ids).grows _ x (GivenBack-later x _ _ g);
  }

  Grows-log_out : (registries : List Text) → Grows (log_out (traced os) registries)
  unfolding log_out docker_registry_logout checked
  Grows-log_out [] = record { grows = λ s x g. g }
  Grows-log_out (r ∷ registries) = record {
    grows = λ s x g. (Grows-log_out registries).grows _ x (GivenBack-later x _ _ g);
  }

  Grows-remove_network : (j : DockerJob) → Grows (remove_network (traced os) j)
  unfolding remove_network run_only
  Grows-remove_network j = record {
    grows = λ s x g. elim (Bool-cases (text_eq j.network_name [])) [
      | inl q ↦ rw q g
      | inr q ↦ rw q (GivenBack-later x _ _ g)
    ];
  }

  remove_services-GivenBack :
      (ids : List Text) (id : Text) (s : Traced W)
      → In id ids
      → GivenBack (container id) (remove_services (traced os) ids s).1
  unfolding remove_services run_only text_eq
  remove_services-GivenBack [] id s h = absurd h
  remove_services-GivenBack (i ∷ ids) id s (inl q) =
      (Grows-remove_services ids).grows _ (container id)
        (GivenBack-first (container id) _ s.1 (ap (λ k. some (container k)) q))
  remove_services-GivenBack (i ∷ ids) id s (inr m) = remove_services-GivenBack ids id _ m

  log_out-GivenBack :
      (registries : List Text) (r : Text) (s : Traced W)
      → In r registries
      → GivenBack (login r) (log_out (traced os) registries s).1
  unfolding log_out docker_registry_logout checked text_eq
  log_out-GivenBack [] r s h = absurd h
  log_out-GivenBack (q ∷ registries) r s (inl e) =
      (Grows-log_out registries).grows _ (login r)
        (GivenBack-first (login r) _ s.1 (ap (λ k. some (login k)) e))
  log_out-GivenBack (q ∷ registries) r s (inr m) = log_out-GivenBack registries r _ m

  remove_network-GivenBack :
      (j : DockerJob) (s : Traced W)
      → text_eq j.network_name [] ≡ false
      → GivenBack (network j.network_name) (remove_network (traced os) j s).1
  unfolding remove_network run_only text_eq
  remove_network-GivenBack j s q = rw q (GivenBack-first (network j.network_name) _ s.1 refl)

  module _ (j : DockerJob) (s : Traced W) where
    abbrev after : Traced W
    after = (docker_stop (traced os) j s).1

    pub docker_stop-directory : GivenBack (directory j.host_files_root) after.1
    unfolding docker_stop
    docker_stop-directory = GivenBack-first (directory j.host_files_root) _ _ refl

    pub docker_stop-login : (r : Text) → In r j.registry_logouts → GivenBack (login r) after.1
    unfolding docker_stop
    docker_stop-login r m =
        GivenBack-later (login r) _ _ (log_out-GivenBack j.registry_logouts r _ m)

    pub docker_stop-network :
        text_eq j.network_name [] ≡ false → GivenBack (network j.network_name) after.1
    unfolding docker_stop
    docker_stop-network q =
        GivenBack-later (network j.network_name) _ _
          ((Grows-log_out j.registry_logouts).grows _ _ (remove_network-GivenBack j _ q))

    pub docker_stop-service :
        (id : Text) → In id j.service_container_ids → GivenBack (container id) after.1
    unfolding docker_stop
    docker_stop-service id m = GivenBack-later (container id) _ _ (
        (Grows-log_out j.registry_logouts).grows _ _ (
          (Grows-remove_network j).grows _ _
            (remove_services-GivenBack j.service_container_ids id _ m)))

    pub docker_stop-container : GivenBack (container j.container_id) after.1
    unfolding docker_stop checked
    docker_stop-container = GivenBack-later (container j.container_id) _ _ (
        (Grows-log_out j.registry_logouts).grows _ _ (
          (Grows-remove_network j).grows _ _ (
            (Grows-remove_services j.service_container_ids).grows _ _
              (GivenBack-first (container j.container_id) _ s.1 refl))))
