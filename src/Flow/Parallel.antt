-- ===== src/Flow/Parallel.antt =====
-- How many combinations of a job run at once, and what a skipped one says: the goroutines of
-- `RunWorkflow` in internal/engine/workflow_run.go.

use mirror_gha.Base.{
  ltb, leb, ◌==◌, ==_iff, Bool-cases, ℕ, zero, suc, ◌+◌, ◌≡◌, refl, sym, subst, inl, inr, Bool,
  true, false, not, ◌&&◌, arith,
}
use mirror_gha.Flow.Slots.{active, Inv, Inv-new_group}
use mirror_gha.Flow.Defs.{group_conclusion}
use mirror_gha.Expr.{failure}
use mirror_gha.Flow.Combos.{Group, takes, looks, ends, gives, Reachable, begin, then_step}
use mirror_gha.Flow.Moves.{
  take_slot-Invariant, look-Invariant, end_run-Invariant, give_slot-Invariant,
}

module _ (size max_parallel : ℕ) (fail_fast : Bool) where
  Reachable-Invariant :
      (g : Group) → Reachable size max_parallel fail_fast g → Inv size max_parallel fail_fast g
  Reachable-Invariant g begin = Inv-new_group size max_parallel fail_fast
  Reachable-Invariant g (then_step {g = before} reached step) = elim step [
    | takes h ↦
        take_slot-Invariant size max_parallel fail_fast before g
          (Reachable-Invariant before reached) h
    | looks i h ↦
        look-Invariant size max_parallel fail_fast i before g (Reachable-Invariant before reached) h
    | ends i r h ↦
        end_run-Invariant size max_parallel fail_fast i r before g
          (Reachable-Invariant before reached) h
    | gives i h ↦
        give_slot-Invariant size max_parallel fail_fast i before g
          (Reachable-Invariant before reached) h
  ]

  -- However the goroutines of a job interleave, at most `maxParallel` of its combinations have a
  -- slot at once.
  pub Reachable-active :
      (g : Group)
      → Reachable size max_parallel fail_fast g
      → leb (active size g.combos) max_parallel ≡ true
  Reachable-active g reached =
      let inv = Reachable-Invariant g reached in
      subst (λ n. leb n max_parallel ≡ true) (sym inv.counted) inv.few

-- A combination that ran and failed makes the job a failure.
group_conclusion-failure :
    (g : Group) (j i left : ℕ)
    → leb i j ≡ true
    → ltb j (i + left) ≡ true
    → (g.combos j).failed ≡ true
    → (g.combos j).skipped ≡ false
    → group_conclusion g i left ≡ failure
unfolding group_conclusion
group_conclusion-failure g j i zero low high failed ran = absurd (ground arith)
group_conclusion-failure g j i (suc left) low high failed ran =
    elim (Bool-cases (not (g.combos i).skipped && (g.combos i).failed)) [
      | inl q ↦ rw q refl
      | inr q ↦
          let apart : (i == j) ≡ false = elim (Bool-cases (i == j)) [
            | inr p ↦ p
            | inl p ↦
                let same = (==_iff i j).0 p in
                let h' : (not (g.combos j).skipped && (g.combos j).failed) ≡ false =
                  subst (λ k. (not (g.combos k).skipped && (g.combos k).failed) ≡ false) same q in
                absurd (ground arith)
          ] in
          rw q (group_conclusion-failure g j (i + 1) left (ground arith) (ground arith) failed ran)
    ]

-- However the goroutines of a job interleave: if a combination was skipped, the job is one that
-- fails fast, and its conclusion is failure.
pub skipped_fails :
    (size max_parallel : ℕ) (fail_fast : Bool) (g : Group) (i : ℕ)
    → Reachable size max_parallel fail_fast g
    → (g.combos i).skipped ≡ true
    → (fail_fast ≡ true) × (group_conclusion g 0 size ≡ failure)
skipped_fails size max_parallel fail_fast g i reached skip =
    let inv = Reachable-Invariant size max_parallel fail_fast g reached in
    elim inv.stopped [
      | inl off ↦ absurd (cc (off, inv.skips i skip))
      | inr (fast, f) ↦ (
        fast,
        let within = f.within in
            group_conclusion-failure g f.index 0 size (ground arith) (ground arith) f.failed f.ran,
      )
    ]
