-- ===== src/Topo/Walks.antt =====
-- What one call of `visit` in `TopoSortJobs` (internal/engine/workflow_run.go) does to the marks and
-- to the order.
use mirror_gha.Base.{
  Option-cases, Text, text_eq_iff, Map, lookup, ◌>>=◌, >>=-eq-ok, ℕ, suc, ◌≡◌, refl, ◌⊎◌, inl, inr,
  some, arith, ok,
}
use mirror_gha.Workflow.{Job}
use mirror_gha.Topo.Defs.{
  Mark, unvisited, visiting, done, Walk, set_mark, finish, visit_needs, visit,
}

pub Mark-cases : (m : Mark) → (m ≡ unvisited) ⊎ ((m ≡ visiting) ⊎ (m ≡ done))
Mark-cases unvisited = inl refl
Mark-cases visiting = inr (inl refl)
Mark-cases done = inr (inr refl)

-- The marks only move forward, and a call leaves no name `visiting` that was not so before.
pub record Advances (w w' : Walk) : Type 0 where
  pub keeps_done : (n : Text) → w.state n ≡ done → w'.state n ≡ done
  pub keeps_visiting : (n : Text) → w.state n ≡ visiting → w'.state n ≡ visiting
  pub no_new : (n : Text) → w'.state n ≡ visiting → w.state n ≡ visiting

pub Advances-refl : (w : Walk) → Advances w w
Advances-refl w = record { keeps_done = λ n h. h; keeps_visiting = λ n h. h; no_new = λ n h. h }

pub Advances-trans : {u v w : Walk} → Advances u v → Advances v w → Advances u w
Advances-trans p q = record {
  keeps_done = λ n h. q.keeps_done n (p.keeps_done n h);
  keeps_visiting = λ n h. q.keeps_visiting n (p.keeps_visiting n h);
  no_new = λ n h. p.no_new n (q.no_new n h);
}

-- Marking `name` before its needs and after them.
pub Advances-finish :
    (name : Text) (w w' : Walk)
    → w.state name ≡ unvisited
    → Advances (set_mark name visiting w) w'
    → Advances w (finish name w')
unfolding set_mark finish
Advances-finish name w w' fresh a = record {
  keeps_done = λ n h. ground (arith, text_eq_iff name n, a.keeps_done n);
  keeps_visiting = λ n h. ground (arith, text_eq_iff name n, a.keeps_visiting n);
  no_new = λ n h. ground (arith, text_eq_iff name n, a.no_new n);
}

module _ {Node : Type 0} (jobs : Map (Job Node)) where
  -- The two ways in which a call of `visit` succeeds.
  pub record Opened (fuel : ℕ) (name : Text) (w w' : Walk) : Type 0 where
    pub fresh : w.state name ≡ unvisited
    pub job : Job Node
    pub known : lookup name jobs ≡ some job
    pub inner : Walk
    pub needs_done :
        visit_needs jobs (visit jobs fuel) name job.needs (set_mark name visiting w) ≡ ok inner
    pub result : w' ≡ finish name inner

  pub visit-cases :
      (fuel : ℕ) (name : Text) (w : Walk) {w' : Walk}
      → visit jobs (suc fuel) name w ≡ ok w'
      → (w.state name ≡ done) × (w' ≡ w) ⊎ Opened fuel name w w'
  unfolding visit
  visit-cases fuel name w {w'} h = elim (Mark-cases (w.state name)) [
    | inl fresh ↦ elim (Option-cases (lookup name jobs)) [
      | inl missing ↦ cc (rw (fresh, missing, visit) at h)
      | inr (job, known) ↦
          let h' : (visit_needs jobs (visit jobs fuel) name job.needs (set_mark name visiting w)
                >>= λ w1. ok (finish name w1))
              ≡ ok w' =
            rw (fresh, known, visit) at h in
          let (inner, e, r) = >>=-eq-ok _ _ h' in
          inr (record {
            fresh = fresh;
            job = job;
            known = known;
            inner = inner;
            needs_done = e;
            result = cc;
          })
    ]
    | inr (inl busy) ↦ cc (rw (busy, visit) at h)
    | inr (inr old) ↦ inl (old, cc (rw (old, visit) at h))
  ]
