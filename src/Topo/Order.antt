-- ===== src/Topo/Order.antt =====
-- The order that `TopoSortJobs` (internal/engine/workflow_run.go) returns.

use mirror_gha.Base.{
  Bool-cases, Option-cases, length, All, All-map, In, In-append_left, In-append_right, In-append,
  All-In, All-of_In, Text, text_eq, text_eq_iff, text_eq_refl, Map, lookup, keys, sort_strings,
  In-sort_strings, Result, ◌>>=◌, >>=-eq-ok, ok-injective, ℕ, zero, suc, ◌+◌, ◌≡◌, sym, subst, ◌⊎◌,
  inl, inr, some, List, [], ◌∷◌, ◌++◌, arith, ok,
}
use mirror_gha.Workflow.{Job}
use mirror_gha.Topo.Defs.{
  Mark, unvisited, visiting, done, TopoError, Walk, set_mark, finish, visit_needs, visit, visit_all,
  start, topo_sort_jobs,
}
use mirror_gha.Topo.Walks.{Advances, Advances-refl, Advances-trans, Advances-finish, visit-cases}

pub set_mark_self : (name : Text) (m : Mark) (w : Walk) → (set_mark name m w).state name ≡ m
unfolding set_mark
set_mark_self name m w = rw text_eq_refl

finish_self : (name : Text) (w : Walk) → (finish name w).state name ≡ done
unfolding finish
finish_self name w = rw text_eq_refl

module _ {Node : Type 0} (jobs : Map (Job Node)) where
  -- `name` is a job of the workflow, and all of its needs stand in `seen`.
  pub record IsReady (seen : List Text) (name : Text) : Type 0 where
    pub job : Job Node
    pub known : lookup name jobs ≡ some job
    pub needs_seen : All (λ d. In d seen) job.needs

  -- Every name is new, and stands behind `seen` and the names before it on which it depends.
  abbrev pub IsOrdered : List Text → List Text → Type 0
  IsOrdered seen [] = Unit
  IsOrdered seen (n ∷ ns) = (¬ In n seen) × IsReady seen n × IsOrdered (n ∷ seen) ns

  IsOrdered-snoc :
      (seen ns : List Text) (n : Text) (job : Job Node)
      → IsOrdered seen ns
      → lookup n jobs ≡ some job
      → (¬ In n seen)
      → (¬ In n ns)
      → All (λ d. In d seen ⊎ In d ns) job.needs
      → IsOrdered seen (ns ++ n ∷ [])
  IsOrdered-snoc seen [] n job h known new _ deps = (
    new,
    record {
      job = job;
      known = known;
      needs_seen = All-map job.needs (λ d s. elim s [ inl m ↦ m | inr b ↦ absurd b ]) deps;
    },
    tt,
  )
  IsOrdered-snoc seen (x ∷ xs) n job h known new away deps = (
    h.0,
    h.1,
    IsOrdered-snoc (x ∷ seen) xs n job h.2 known
        (λ m. elim m [ inl e ↦ away (inl e) | inr s ↦ new s ]) (λ m. away (inr m))
        (All-map job.needs
          (λ d s. elim s [
            | inl seen_d ↦ inl (inr seen_d)
            | inr (inl e) ↦ inl (inl e)
            | inr (inr m) ↦ inr m
          ])
          deps),
  )

  pub record Inv (w : Walk) : Type 0 where
    listed : (n : Text) → In n w.order → w.state n ≡ done
    marked : (n : Text) → w.state n ≡ done → In n w.order
    ordered : IsOrdered [] w.order

  pub Inv-visiting :
      (name : Text) (w : Walk) → w.state name ≡ unvisited → Inv w → Inv (set_mark name visiting w)
  unfolding set_mark
  Inv-visiting name w fresh inv = record {
    listed = λ n m. ground (arith, text_eq_iff name n, inv.listed n m);
    marked = λ n h. inv.marked n (ground (arith, text_eq_iff name n));
    ordered = inv.ordered;
  }

  Inv-finish :
      (name : Text) (w : Walk) (job : Job Node)
      → w.state name ≡ visiting
      → lookup name jobs ≡ some job
      → All (λ d. w.state d ≡ done) job.needs
      → Inv w
      → Inv (finish name w)
  unfolding finish
  Inv-finish name w job busy known deps inv = record {
    listed = λ n m. elim (In-append n w.order (name ∷ []) m) [
      | inl old ↦ ground (arith, inv.listed n old)
      | inr (inl e) ↦ ground (arith, text_eq_iff name n)
      | inr (inr b) ↦ absurd b
    ];
    marked = λ n h. elim (Bool-cases (text_eq name n)) [
      | inl e ↦ In-append_right n w.order (name ∷ []) (inl ((text_eq_iff name n).0 e))
      | inr e ↦ In-append_left n w.order (name ∷ []) (inv.marked n (ground arith))
    ];
    ordered =
        IsOrdered-snoc [] w.order name job inv.ordered known (λ m. m) (λ m. cc (inv.listed name m))
          (All-map job.needs (λ d h. inr (inv.marked d h)) deps);
  }

  abbrev pub Sound : (Text → Walk → Result TopoError Walk) → Type 0
  Sound v =
      (name : Text) (w w' : Walk)
      → v name w ≡ ok w'
      → Inv w
      → Inv w' × Advances w w' × (w'.state name ≡ done)

  visit_needs-Sound :
      (v : Text → Walk → Result TopoError Walk) (name : Text) (deps : List Text) (w w' : Walk)
      → Sound v
      → visit_needs jobs v name deps w ≡ ok w'
      → Inv w
      → Inv w' × Advances w w' × All (λ d. w'.state d ≡ done) deps
  unfolding visit_needs
  visit_needs-Sound v name [] w w' sound h inv =
      subst (λ u. Inv u × Advances w u × Unit {0}) (ok-injective h) (inv, Advances-refl w, tt)
  visit_needs-Sound v name (dep ∷ deps) w w' sound h inv = elim (Option-cases (lookup dep jobs)) [
    | inl missing ↦ cc (rw (missing, visit_needs) at h)
    | inr (job, known) ↦
        let h' : (v dep w >>= visit_needs jobs v name deps) ≡ ok w' =
          rw (known, visit_needs) at h in
        let (w1, e, r) = >>=-eq-ok _ _ h' in
        let (inv1, a1, d1) = sound dep w w1 e inv in
        let (inv2, a2, ds) = visit_needs-Sound v name deps w1 w' sound r inv1 in
        (inv2, Advances-trans a1 a2, (a2.keeps_done dep d1, ds))
  ]

  pub visit-Sound : (fuel : ℕ) → Sound (visit jobs fuel)
  unfolding visit
  visit-Sound zero name w w' h inv = cc
  visit-Sound (suc fuel) name w w' h inv = elim (visit-cases jobs fuel name w h) [
    | inl (old, same) ↦
        subst (λ u. Inv u × Advances w u × (u.state name ≡ done)) (sym same)
          (inv, Advances-refl w, old)
    | inr o ↦
        let (inv1, a1, ds) =
          visit_needs-Sound (visit jobs fuel) name o.job.needs (set_mark name visiting w) o.inner
            (visit-Sound fuel) o.needs_done (Inv-visiting name w o.fresh inv) in
        let busy : o.inner.state name ≡ visiting =
          a1.keeps_visiting name (set_mark_self name visiting w) in
        subst (λ u. Inv u × Advances w u × (u.state name ≡ done)) (sym o.result)
          (
            Inv-finish name o.inner o.job busy o.known ds inv1,
            Advances-finish name w o.inner o.fresh a1,
            finish_self name o.inner,
          )
  ]

  pub Inv-start : Inv start
  Inv-start = record { listed = λ n m. absurd m; marked = λ n h. cc; ordered = tt }

  pub visit_all_sound :
      (fuel : ℕ) (names : List Text) (w w' : Walk)
      → visit_all jobs fuel names w ≡ ok w'
      → Inv w
      → Inv w' × Advances w w' × All (λ n. w'.state n ≡ done) names
  unfolding visit_all
  visit_all_sound fuel [] w w' h inv =
      subst (λ u. Inv u × Advances w u × Unit {0}) (ok-injective h) (inv, Advances-refl w, tt)
  visit_all_sound fuel (n ∷ names) w w' h inv =
      let (w1, e, r) = >>=-eq-ok (visit jobs fuel n w) (visit_all jobs fuel names) h in
      let (inv1, a1, d1) = visit-Sound fuel n w w1 e inv in
      let (inv2, a2, ds) = visit_all_sound fuel names w1 w' r inv1 in
      (inv2, Advances-trans a1 a2, (a2.keeps_done n d1, ds))

  -- When the sort succeeds, each name of the order is a job, is there once, and stands behind all of
  -- the jobs that it needs; and every job of the workflow is in the order.
  pub topo_sort_jobs-IsOrdered :
      (order : List Text)
      → topo_sort_jobs jobs ≡ ok order
      → IsOrdered [] order × All (λ n. In n order) (keys jobs)
  unfolding topo_sort_jobs
  topo_sort_jobs-IsOrdered order h =
      let names = sort_strings (keys jobs) in
      let (w, e, r) =
        >>=-eq-ok (visit_all jobs (length jobs + 1) names start) (λ w. ok w.order) h in
      let (inv, _, ds) = visit_all_sound (length jobs + 1) names start w e Inv-start in
      subst (λ l. IsOrdered [] l × All (λ n. In n l) (keys jobs)) (ok-injective r)
        (
          inv.ordered,
          All-of_In (λ n. In n w.order) (keys jobs)
              (λ n m.
                inv.marked n
                  (All-In (λ k. w.state k ≡ done) names n ds (In-sort_strings (keys jobs) n m))),
        )
