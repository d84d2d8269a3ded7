-- ===== src/Runner/Docker/Serving.antt =====
-- What the start of services in `StartJob` of internal/runner/docker_backend.go takes.
use mirror_gha.Base.{
  ltb, Bool-cases, Option-cases, In, In-append_left, In-append_right, Text, lit, text_eq, Map,
  lookup, ok-injective, some-injective, Result-cases, trim_space, ℕ, zero, suc, ◌*◌, ◌≡◌, refl, sym,
  ap, ◌∙◌, ◌⊎◌, inl, inr, some, List, [], ◌∷◌, ◌++◌, ok,
}
use mirror_gha.Runner.Backend.{ContainerSpec}
use mirror_gha.Os.{Os, Output, completed}
use mirror_gha.Runner.Docker.Names.{spec_args, registry_host_for, docker_registry_login}
use mirror_gha.Runner.Docker.Health.{
  second, inspect, is_ready, health_status, poll_health, wait_for_service_health,
}
use mirror_gha.Runner.Docker.Service.{
  Started, login_for, create_network, start_service, start_named, service_args,
}
use mirror_gha.Runner.Docker.Traced.{
  Traced, traced, Resource, login, network, container, Taken, taken_by, ran,
}
use mirror_gha.Runner.Docker.Covers.{
  Owned, Covers, Covers-bind, Covers-give, Covers-lift_bind, Covers-if, Covers-wrap, Covers-checked,
  Taken-ran, Taken-quiet,
}

-- What the services have, on top of something else.
abbrev pub Held : Owned → Started → Owned
Held base st x =
    base x
    ⊎ (((r : Text) × (In r st.logouts × (login r ≡ x)))
        ⊎ ((i : Text) × (In i st.ids × (container i ≡ x))))

-- The arguments of `docker run -d`.
abbrev pub Runs : List Text → Type 0
Runs args = (rest : List Text) × (args ≡ lit "run" ∷ lit "-d" ∷ rest)

-- A command that starts a container takes that container and nothing else.
pub Runs-taken :
    (args : List Text) (o : Output) (x : Resource)
    → Runs args
    → taken_by args (completed o) ≡ some x
    → container (trim_space o.stdout) ≡ x
unfolding text_eq
Runs-taken args o x (rest, q) h = some-injective (ap (λ a. taken_by a (completed o)) (sym q) ∙ h)

Held-more :
    (base : Owned) (st : Started) (l : List Text) (id : Text) (x : Resource)
    → (Held base st x ⊎ ((r : Text) × (In r l × (login r ≡ x)))) ⊎ (container id ≡ x)
    → Held base (record { logouts = st.logouts ++ l; ids = st.ids ++ id ∷ [] }) x
Held-more base st l id x (inl (inl (inl b))) = inl b
Held-more base st l id x (inl (inl (inr (inl (r, (m, q)))))) =
    inr (inl (r, (In-append_left r st.logouts l m, q)))
Held-more base st l id x (inl (inl (inr (inr (i, (m, q)))))) =
    inr (inr (i, (In-append_left i st.ids (id ∷ []) m, q)))
Held-more base st l id x (inl (inr (r, (m, q)))) =
    inr (inl (r, (In-append_right r st.logouts l m, q)))
Held-more base st l id x (inr q) =
    inr (inr (id, (In-append_right id st.ids (id ∷ []) (inl refl), q)))

module _ {W : Type 0} where
  module _ (os : Os W) where
    -- The loop that polls a service takes nothing.
    Taken-poll_health :
        (id : Text) (timeout rounds deadline : ℕ) (s : Traced W) (x : Resource)
        → Taken x (poll_health (traced os) id timeout rounds deadline s).1.1
        → Taken x s.1
    unfolding poll_health text_eq
    Taken-poll_health id timeout zero deadline s x t =
        let r = (os.run (inspect (traced os) id timeout) s.0).0 in
        let asked : Taken x (ran (inspect (traced os) id timeout) r ∷ s.1) =
          elim (Bool-cases (is_ready (health_status r))) [
            | inl q ↦ rw (q, poll_health) at t
            | inr q ↦ rw (q, poll_health) at t
          ] in
        Taken-quiet _ r s.1 x refl asked
    Taken-poll_health id timeout (suc rounds) deadline s x t =
        let (r, w) = os.run (inspect (traced os) id timeout) s.0 in
        let asked : Taken x (ran (inspect (traced os) id timeout) r ∷ s.1) =
          elim (Bool-cases (is_ready (health_status r))) [
            | inl q ↦ rw (q, poll_health) at t
            | inr q ↦ elim (Bool-cases (ltb deadline (os.now w))) [
              | inl l ↦ rw (q, l, poll_health) at t
              | inr l ↦
                  Taken-poll_health id timeout rounds deadline
                    (os.sleep second w, ran (inspect (traced os) id timeout) r ∷ s.1) x
                    (rw (q, l, poll_health) at t)
            ]
          ] in
        Taken-quiet _ r s.1 x refl asked

    Covers-wait_for_service_health :
        (known : Owned) (id : Text) (timeout : ℕ)
        → Covers known (λ _. known) (wait_for_service_health (traced os) id timeout)
    unfolding wait_for_service_health
    Covers-wait_for_service_health known id timeout = record {
      found = λ s a x h t. inl (Taken-poll_health id timeout _ _ s x t);
      kept = λ s a x h k. k;
    }

    pub Covers-login_for :
        (known : Owned) (image username password : Text)
        → Covers known
            (λ l x. known x ⊎ ((r : Text) × (In r l × (login r ≡ x))))
            (login_for (traced os) image username password)
    unfolding login_for docker_registry_login text_eq
    Covers-login_for known image username password =
        Covers-if _ _ _ (Covers-give _ (λ x k. inl k)) (
          Covers-bind (λ _ x. known x ⊎ (login (registry_host_for image) ≡ x)) _ _
            (Covers-checked os _ _
              (λ o x t. elim t [ inl q ↦ inr (some-injective q) | inr k ↦ inl k ]))
            (λ o. Covers-give _ (λ x t. elim t [
              | inl k ↦ inl k
              | inr q ↦ inr (registry_host_for image, (inl refl, q))
            ])))

    pub Covers-create_network :
        (known : Owned) (name : Text)
        → Covers known (λ _ x. known x ⊎ (network name ≡ x)) (create_network (traced os) name)
    unfolding create_network text_eq
    Covers-create_network known name = record {
      found = λ s a x h t. elim (Taken-ran _ _ s.1 x t) [
        | inl q ↦ inr (inr (some-injective q))
        | inr old ↦ inl old
      ];
      kept = λ s a x h k. inl k;
    }

    Runs-service_args :
        (net name : Text) (spec : ContainerSpec) (args : List Text)
        → service_args (traced os) net name spec ≡ ok args
        → Runs args
    unfolding service_args
    Runs-service_args net name spec args h = elim (Result-cases (spec_args (traced os) spec)) [
      | inl (a, q) ↦ (_, sym (ok-injective (rw (q, service_args) at h)))
      | inr (e, q) ↦ let h' = rw (q, service_args) at h in cc h'
    ]

    Covers-start_service :
        (base : Owned) (net name : Text) (spec : ContainerSpec) (st : Started)
        → Covers (Held base st) (Held base) (start_service (traced os) net name spec st)
    unfolding start_service
    Covers-start_service base net name spec st =
        Covers-bind _ _ _ (Covers-login_for (Held base st) spec.image spec.username spec.password)
          (λ l. Covers-lift_bind _ _ (λ args fits.
            Covers-bind
              (λ o x.
                (Held base st x ⊎ ((r : Text) × (In r l × (login r ≡ x))))
                ⊎ (container (trim_space o.stdout) ≡ x))
              _ _
              (Covers-checked os _ _ (λ o x t. elim t [
                | inl q ↦ inr (Runs-taken args o x (Runs-service_args net name spec args fits) q)
                | inr k ↦ inl k
              ]))
              (λ o.
                Covers-bind _ _ _
                  (Covers-wrap _ _
                    (Covers-wait_for_service_health _ (trim_space o.stdout) (300 * second)))
                  (λ _. Covers-give _ (λ x k. Held-more base st l (trim_space o.stdout) x k)))))

    pub Covers-start_named :
        (base : Owned) (net : Text) (services : Map ContainerSpec) (names : List Text)
        (st : Started)
        → Covers (Held base st) (Held base) (start_named (traced os) net services names st)
    unfolding start_named
    Covers-start_named base net services [] st = Covers-give _ (λ x k. k)
    Covers-start_named base net services (name ∷ names) st =
        elim (Option-cases (lookup name services)) [
          | inl q ↦ rw (q, start_named) (Covers-start_named base net services names st)
          | inr (spec, q) ↦
              rw (q, start_named)
                (Covers-bind _ _ _ (Covers-start_service base net name spec st)
                  (λ st'. Covers-start_named base net services names st'))
        ]
