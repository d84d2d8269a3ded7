-- ===== src/Topo/Errors.antt =====
-- The errors of `TopoSortJobs` (internal/engine/workflow_run.go), and that its recursion ends.
use mirror_gha.Base.{
  Bool-cases, Option-cases, length, All, All-map, In, Text, text_eq, text_eq_iff, Map, lookup, keys,
  In-keys, lookup-of_In, sort_strings, In-of_sort_strings, Result, ◌>>=◌, >>=-eq-err, err-injective,
  map-eq_err, Result-cases, ℕ, zero, suc, ◌+◌, ◌≤◌, ◌<◌, ◌≡◌, refl, sym, ap, subst, ◌≢◌, inl, inr,
  none, some, List, [], ◌∷◌, arith, ok, err,
}
use mirror_gha.Workflow.{Job}
use mirror_gha.Topo.Defs.{
  Mark, unvisited, visiting, done, TopoError, circular, unknown_job, unknown_need, out_of_fuel,
  Walk, set_mark, finish, visit_needs, visit, visit_all, start, topo_sort_jobs,
}
use mirror_gha.Topo.Walks.{Mark-cases, Advances}
use mirror_gha.Topo.Order.{Inv, Inv-visiting, Inv-start, visit-Sound}

abbrev bit : Mark → ℕ
bit unvisited = 1
bit visiting = 0
bit done = 0

-- How many of the names are unvisited.
count_open : (Text → Mark) → List Text → ℕ
count_open state [] = 0
count_open state (k ∷ ks) = bit (state k) + count_open state ks

count_open-le_length : (state : Text → Mark) (ks : List Text) → count_open state ks ≤ length ks
unfolding count_open
count_open-le_length state [] = omega arith
count_open-le_length state (k ∷ ks) = ground (arith, count_open-le_length state ks)

bit-Advances : (w w' : Walk) (n : Text) → Advances w w' → bit (w'.state n) ≤ bit (w.state n)
bit-Advances w w' n a = ground (arith, a.keeps_done n, a.keeps_visiting n)

count_open-Advances :
    (w w' : Walk) (ks : List Text) → Advances w w' → count_open w'.state ks ≤ count_open w.state ks
unfolding count_open
count_open-Advances w w' [] a = omega arith
count_open-Advances w w' (k ∷ ks) a =
    omega (arith, bit-Advances w w' k a, count_open-Advances w w' ks a)

bit-set_mark :
    (name k : Text) (w : Walk) → bit ((set_mark name visiting w).state k) ≤ bit (w.state k)
unfolding set_mark
bit-set_mark name k w = ground arith

count_open-set_mark_le :
    (name : Text) (w : Walk) (ks : List Text)
    → count_open (set_mark name visiting w).state ks ≤ count_open w.state ks
unfolding count_open
count_open-set_mark_le name w [] = omega arith
count_open-set_mark_le name w (k ∷ ks) =
    omega (arith, bit-set_mark name k w, count_open-set_mark_le name w ks)

bit-set_mark_self :
    (name k : Text) (w : Walk)
    → name ≡ k
    → w.state name ≡ unvisited
    → bit ((set_mark name visiting w).state k) < bit (w.state k)
unfolding set_mark
bit-set_mark_self name k w e h = ground (arith, text_eq_iff name k)

-- Opening an unvisited job leaves fewer of them.
count_open-set_mark :
    (name : Text) (w : Walk) (ks : List Text)
    → In name ks
    → w.state name ≡ unvisited
    → count_open (set_mark name visiting w).state ks < count_open w.state ks
unfolding count_open
count_open-set_mark name w [] m h = absurd m
count_open-set_mark name w (k ∷ ks) (inl e) h =
    omega (arith, bit-set_mark_self name k w (sym e) h, count_open-set_mark_le name w ks)
count_open-set_mark name w (k ∷ ks) (inr m) h =
    omega (arith, bit-set_mark name k w, count_open-set_mark name w ks m h)

module _ {Node : Type 0} (jobs : Map (Job Node)) where
  -- The job `name` lists `dep` under `needs:`.
  pub record Needs (name dep : Text) : Type 0 where
    pub job : Job Node
    pub known : lookup name jobs ≡ some job
    pub listed : In dep job.needs

  pub data DependsOn (name : Text) : Text → Type 0 where
    direct : {dep : Text} → Needs name dep → DependsOn name dep
    through : {mid dep : Text} → DependsOn name mid → Needs mid dep → DependsOn name dep

  -- What an error of the sort says of the workflow.
  abbrev pub Explains : TopoError → Type 0
  Explains (circular name) = DependsOn name name
  Explains (unknown_need name dep) = Needs name dep × (lookup dep jobs ≡ none)
  Explains (unknown_job name) = ⊥
  Explains out_of_fuel = ⊥

  -- Each name that is being visited depends on `name`.
  abbrev Above : Walk → Text → Type 0
  Above w name = (m : Text) → w.state m ≡ visiting → DependsOn m name

  abbrev open_jobs : Walk → ℕ
  open_jobs w = count_open w.state (keys jobs)

  abbrev Explained : ℕ → (Text → Walk → Result TopoError Walk) → Type 0
  Explained fuel v =
      (name : Text) (w : Walk) (job : Job Node) (e : TopoError)
      → v name w ≡ err e
      → open_jobs w < fuel
      → Inv jobs w
      → lookup name jobs ≡ some job
      → Above w name
      → Explains e

  Above-set_mark :
      (name dep : Text) (w : Walk)
      → Needs name dep
      → Above w name
      → Above (set_mark name visiting w) dep
  unfolding set_mark
  Above-set_mark name dep w need above m h = elim (Bool-cases (text_eq name m)) [
    | inl e ↦ subst (λ k. DependsOn k dep) ((text_eq_iff name m).0 e) (direct need)
    | inr e ↦ through (above m (ground arith)) need
  ]

  visit_needs-Explained :
      (fuel : ℕ) (name : Text) (deps : List Text) (w : Walk) (e : TopoError)
      → Explained fuel (visit jobs fuel)
      → visit_needs jobs (visit jobs fuel) name deps w ≡ err e
      → open_jobs w < fuel
      → Inv jobs w
      → All (λ d. Needs name d × Above w d) deps
      → Explains e
  unfolding visit_needs
  visit_needs-Explained fuel name [] w e ex h fits inv calls = cc
  visit_needs-Explained fuel name (dep ∷ deps) w e ex h fits inv calls =
      elim (Option-cases (lookup dep jobs)) [
        | inl missing ↦
            let h' : err (unknown_need name dep) ≡ err e = rw (missing, visit_needs) at h in
            subst Explains (err-injective h') (calls.0.0, missing)
        | inr (job, known) ↦
            let h' : (visit jobs fuel dep w >>= visit_needs jobs (visit jobs fuel) name deps)
                ≡ err e =
              rw (known, visit_needs) at h in
            elim (>>=-eq-err (visit jobs fuel dep w) (visit_needs jobs (visit jobs fuel) name deps)
              h') [
                | inl failed ↦ ex dep w job e failed fits inv known calls.0.1
                | inr (w1, e1, r) ↦
                    let (inv1, a1, _) = visit-Sound jobs fuel dep w w1 e1 inv in
                    visit_needs-Explained fuel name deps w1 e ex r
                      (omega (arith, count_open-Advances w w1 (keys jobs) a1)) inv1
                      (All-map deps (λ d p. (p.0, λ m hm. p.1 m (a1.no_new m hm))) calls.1)
              ]
      ]

  All-Needs :
      (name : Text) (job : Job Node) (deps : List Text)
      → lookup name jobs ≡ some job
      → ((d : Text) → In d deps → In d job.needs)
      → All (Needs name) deps
  All-Needs name job [] known sub = tt
  All-Needs name job (d ∷ deps) known sub = (
    record { job = job; known = known; listed = sub d (inl refl) },
    All-Needs name job deps known (λ x m. sub x (inr m)),
  )

  visit-Explained : (fuel : ℕ) → Explained fuel (visit jobs fuel)
  unfolding visit
  visit-Explained zero name w job e h fits inv known above = absurd (omega arith)
  visit-Explained (suc fuel) name w job e h fits inv known above =
      elim (Mark-cases (w.state name)) [
        | inl fresh ↦
            let h' : (visit_needs jobs (visit jobs fuel) name job.needs (set_mark name visiting w)
                  >>= λ w1. ok (finish name w1))
                ≡ err e =
              rw (fresh, known, visit) at h in
            let failed = map-eq_err _ (finish name) h' in
            visit_needs-Explained fuel name job.needs (set_mark name visiting w) e
              (visit-Explained fuel) failed
              (omega
                (arith, count_open-set_mark name w (keys jobs) (In-keys name jobs known) fresh))
              (Inv-visiting jobs name w fresh inv)
              (All-map job.needs (λ d need. (need, Above-set_mark name d w need above))
                (All-Needs name job job.needs known (λ d m. m)))
        | inr (inl busy) ↦
            let h' : err (circular name) ≡ err e = rw (busy, visit) at h in
            subst Explains (err-injective h') (above name busy)
        | inr (inr old) ↦ cc (rw (old, visit) at h)
      ]

  visit_all-Explained :
      (fuel : ℕ) (names : List Text) (w : Walk) (e : TopoError)
      → visit_all jobs fuel names w ≡ err e
      → open_jobs w < fuel
      → Inv jobs w
      → ((m : Text) → w.state m ≢ visiting)
      → All (λ n. (job : Job Node) × (lookup n jobs ≡ some job)) names
      → Explains e
  unfolding visit_all
  visit_all-Explained fuel [] w e h fits inv idle known = cc
  visit_all-Explained fuel (n ∷ names) w e h fits inv idle known =
      elim (>>=-eq-err (visit jobs fuel n w) (visit_all jobs fuel names) h) [
        | inl failed ↦
            visit-Explained fuel n w known.0.0 e failed fits inv known.0.1
              (λ m hm. absurd (idle m hm))
        | inr (w1, e1, r) ↦
            let (inv1, a1, _) = visit-Sound jobs fuel n w w1 e1 inv in
            visit_all-Explained fuel names w1 e r
              (omega (arith, count_open-Advances w w1 (keys jobs) a1)) inv1
              (λ m hm. idle m (a1.no_new m hm)) known.1
      ]

  known_keys :
      (ks : List Text)
      → ((k : Text) → In k ks → In k (keys jobs))
      → All (λ n. (job : Job Node) × (lookup n jobs ≡ some job)) ks
  known_keys [] sub = tt
  known_keys (k ∷ ks) sub =
      (lookup-of_In k jobs (sub k (inl refl)), known_keys ks (λ x m. sub x (inr m)))

  length-keys : (js : Map (Job Node)) → length (keys js) ≡ length js
  length-keys [] = refl
  length-keys (j ∷ js) = ap suc (length-keys js)

  -- Every error has its reason in the workflow: a job that is called circular depends on itself
  -- through one or more `needs:`, and a need that is called unknown is listed by a job and is no
  -- job. The other error of `visit` never comes up, and the recursion always ends within the fuel.
  pub topo_sort_jobs-Explains : (e : TopoError) → topo_sort_jobs jobs ≡ err e → Explains e
  unfolding topo_sort_jobs
  topo_sort_jobs-Explains e h =
      visit_all-Explained (length jobs + 1) (sort_strings (keys jobs)) start e
        (map-eq_err _ (λ (w : Walk). w.order) h)
        (omega (arith, count_open-le_length start.state (keys jobs), length-keys jobs))
        (Inv-start jobs) (λ m hm. cc hm)
        (known_keys (sort_strings (keys jobs)) (In-of_sort_strings (keys jobs)))

  -- If every need is a job and no job depends on itself, the sort succeeds.
  pub topo_sort_jobs_total :
      ((name dep : Text) → Needs name dep → lookup dep jobs ≢ none)
      → ((name : Text) → ¬ DependsOn name name)
      → (order : List Text) × (topo_sort_jobs jobs ≡ ok order)
  topo_sort_jobs_total known acyclic = elim (Result-cases (topo_sort_jobs jobs)) [
    | inl found ↦ found
    | inr (e, h) ↦ absurd (refute e (topo_sort_jobs-Explains e h))
  ]
    where
      refute : (e : TopoError) → Explains e → ⊥
      refute (circular name) d = acyclic name d
      refute (unknown_need name dep) (need, missing) = known name dep need missing
      refute (unknown_job name) b = b
      refute out_of_fuel b = b
