-- ===== src/Flow/Moves.antt =====
-- What each move of a goroutine keeps: the goroutines of
-- `RunWorkflow` in internal/engine/workflow_run.go.
use mirror_gha.Executor.{JobResult}
use mirror_gha.Base.{
  ltb, leb, ◌==◌, if◌then◌else◌, ==_iff, Bool-cases, &&-eq_true, Result, some-injective, ℕ, ◌+◌,
  ◌≡◌, refl, sym, ap, ◌∙◌, subst, ◌⊎◌, inl, inr, Bool, true, false, not, ◌&&◌, some, arith, ok, err,
}
use mirror_gha.Flow.Slots.{
  weight, active, updated, is_settled, Untouched, Failure, Inv, active-updated, updated_all,
  Failure-updated, Failure-over, busy_entries,
}
use mirror_gha.Flow.Combos.{
  is_success, Phase, waiting, holding, running, returning, over, Combo, Group, set_combo, take_slot,
  end_run, look, ComboError, give_slot, store_result,
}

Phase-cases :
    (p : Phase) → (p ≡ waiting) ⊎ ((p ≡ holding) ⊎ ((p ≡ running) ⊎ ((p ≡ returning) ⊎ (p ≡ over))))
Phase-cases waiting = inl refl
Phase-cases holding = inr (inl refl)
Phase-cases running = inr (inr (inl refl))
Phase-cases returning = inr (inr (inr (inl refl)))
Phase-cases over = inr (inr (inr (inr refl)))

look-is_holding : (i : ℕ) (g g' : Group) → look i g ≡ some g' → (g.combos i).phase ≡ holding
unfolding look
look-is_holding i g g' h = elim (Phase-cases (g.combos i).phase) [
  | inl q ↦ let h' = rw (q, look) at h in cc h'
  | inr (inl q) ↦ q
  | inr (inr (inl q)) ↦ let h' = rw (q, look) at h in cc h'
  | inr (inr (inr (inl q))) ↦ let h' = rw (q, look) at h in cc h'
  | inr (inr (inr (inr q))) ↦ let h' = rw (q, look) at h in cc h'
]

end_run-is_running :
    (fail_fast : Bool) (i : ℕ) (r : Result ComboError JobResult) (g g' : Group)
    → end_run fail_fast i r g ≡ some g'
    → (g.combos i).phase ≡ running
unfolding end_run
end_run-is_running fail_fast i r g g' h = elim (Phase-cases (g.combos i).phase) [
  | inl q ↦ let h' = rw (q, end_run) at h in cc h'
  | inr (inl q) ↦ let h' = rw (q, end_run) at h in cc h'
  | inr (inr (inl q)) ↦ q
  | inr (inr (inr (inl q))) ↦ let h' = rw (q, end_run) at h in cc h'
  | inr (inr (inr (inr q))) ↦ let h' = rw (q, end_run) at h in cc h'
]

give_slot-is_returning :
    (i : ℕ) (g g' : Group) → give_slot i g ≡ some g' → (g.combos i).phase ≡ returning
unfolding give_slot
give_slot-is_returning i g g' h = elim (Phase-cases (g.combos i).phase) [
  | inl q ↦ let h' = rw (q, give_slot) at h in cc h'
  | inr (inl q) ↦ let h' = rw (q, give_slot) at h in cc h'
  | inr (inr (inl q)) ↦ let h' = rw (q, give_slot) at h in cc h'
  | inr (inr (inr (inl q))) ↦ q
  | inr (inr (inr (inr q))) ↦ let h' = rw (q, give_slot) at h in cc h'
]

if_true : (b stop : Bool) → stop ≡ true → (if b then true else stop) ≡ true
if_true true stop h = refl
if_true false stop h = h

module _ (size max_parallel : ℕ) (fail_fast : Bool) where
  abbrev pub Invariant : Group → Type 0
  Invariant = Inv size max_parallel fail_fast

  -- One combination becomes another.
  Inv-updated :
      (g g' : Group) (i : ℕ) (c : Combo)
      → Invariant g
      → (λ j. updated i c g.combos j) ≡ g'.combos
      → leb g.started g'.started ≡ true
      → ltb i g'.started ≡ true
      → leb g'.started size ≡ true
      → g'.slots + weight (g.combos i).phase ≡ g.slots + weight c.phase
      → leb g'.slots max_parallel ≡ true
      → Untouched c
      → (g'.stop ≡ false) ⊎ ((fail_fast ≡ true) × Failure size g'.combos)
      → (c.skipped ≡ true → g'.stop ≡ true)
      → (g.stop ≡ true → g'.stop ≡ true)
      → Invariant g'
  Inv-updated g g' i c inv same later within no_more balance few touched stopped skip goes =
      record {
        counted =
            subst (λ f. active size f ≡ g'.slots) same
              (let e = active-updated size i c g.combos (ground arith) in
                let counted = inv.counted in ground arith);
        few = few;
        no_more = no_more;
        unstarted = λ j h.
            subst (λ (f : ℕ → Combo). (f j).phase ≡ waiting) same
              (let apart : (j == i) ≡ false = ground arith in
                rw apart (inv.unstarted j (ground arith)));
        untouched = λ j.
            subst (λ (f : ℕ → Combo). Untouched (f j)) same
              (updated_all Untouched i c g.combos touched j (inv.untouched j));
        stopped = stopped;
        skips = λ j.
            subst (λ (f : ℕ → Combo). (f j).skipped ≡ true → g'.stop ≡ true) same
              (updated_all (λ d. d.skipped ≡ true → g'.stop ≡ true) i c g.combos skip j
                (λ h. goes (inv.skips j h)));
      }

  -- A goroutine with a slot has started.
  started_slot :
      (g : Group) (i : ℕ) → Invariant g → weight (g.combos i).phase ≡ 1 → ltb i g.started ≡ true
  started_slot g i inv h = elim (Bool-cases (leb g.started i)) [
    | inl q ↦ let idle = ap weight (inv.unstarted i q) in absurd (ground arith)
    | inr q ↦ ground arith
  ]

  -- A Failure stays, whatever a goroutine does that has not returned.
  stopped-updated :
      (g : Group) (i : ℕ) (c : Combo)
      → Invariant g
      → is_settled (g.combos i).phase ≡ false
      → (g.stop ≡ false) ⊎ ((fail_fast ≡ true) × Failure size (updated i c g.combos))
  stopped-updated g i c inv busy = elim inv.stopped [
    | inl off ↦ inl off
    | inr (ff, f) ↦ inr (ff, Failure-updated size i c g.combos busy f)
  ]

  pub take_slot-Invariant :
      (g g' : Group) → Invariant g → take_slot size max_parallel g ≡ some g' → Invariant g'
  unfolding take_slot set_combo
  take_slot-Invariant g g' inv h =
      let i = g.started in
      let c : Combo = record (g.combos i) { phase = holding } in
      let idle = inv.unstarted i (ground arith) in
      let busy : is_settled (g.combos i).phase ≡ false = ap is_settled idle in
      let free = ap weight idle in
      elim (Bool-cases (ltb g.started size && ltb g.slots max_parallel)) [
        | inr q ↦ let h' = rw (q, take_slot) at h in cc h'
        | inl q ↦ subst Invariant (some-injective (rw (q, take_slot) at h)) (
            Inv-updated g _ i c inv refl (ground arith) (ground arith) (ground arith) (ground arith)
              (ground arith) (inr (busy_entries (g.combos i) (inv.untouched i) busy))
              (stopped-updated g i c inv busy) (inv.skips i) (λ s. s))
      ]

  -- The slot of a goroutine is one of those in use.
  has_slot :
      (g : Group) (i : ℕ)
      → Invariant g
      → weight (g.combos i).phase ≡ 1
      → (leb 1 g.slots ≡ true) × (ltb i g.started ≡ true)
  has_slot g i inv h =
      let started = started_slot g i inv h in
      let no_more = inv.no_more in
      let c : Combo = record (g.combos i) { phase = over } in
      let e = active-updated size i c g.combos (ground arith) in
      let counted = inv.counted in (ground arith, started)

  -- A goroutine has written its entries.
  returning-Invariant :
      (g : Group) (i : ℕ) (c : Combo) (g' : Group)
      → Invariant g
      → weight (g.combos i).phase ≡ 1
      → g'.combos ≡ g.combos
      → g'.started ≡ g.started
      → g'.slots ≡ g.slots
      → (g'.stop ≡ false)
        ⊎ ((fail_fast ≡ true) × Failure size (updated i (record c { phase = returning }) g.combos))
      → (c.skipped ≡ true → g'.stop ≡ true)
      → (g.stop ≡ true → g'.stop ≡ true)
      → Invariant (set_combo i (record c { phase = returning }) g')
  unfolding set_combo
  returning-Invariant g i c g' inv slot same starts slots stopped skip goes =
      let (some_slot, started) = has_slot g i inv slot in
      let returned : Combo = record c { phase = returning } in
      let few = inv.few in
      let no_more = inv.no_more in
      Inv-updated g (set_combo i returned g') i returned inv (ap (updated i returned) (sym same))
        (ground arith) (ground arith) (ground arith) (ground arith) (ground arith) (inl refl)
        (subst (λ f. (g'.stop ≡ false) ⊎ ((fail_fast ≡ true) × Failure size (updated i returned f)))
          (sym same) stopped)
        skip goes

  -- A goroutine gives its slot back.
  pub give_slot-Invariant :
      (i : ℕ) (g g' : Group) → Invariant g → give_slot i g ≡ some g' → Invariant g'
  unfolding give_slot set_combo
  give_slot-Invariant i g g' inv h =
      let q = give_slot-is_returning i g g' h in
      let (some_slot, started) = has_slot g i inv (ap weight q) in
      let slot = ap weight q in
      let c : Combo = record (g.combos i) { phase = over } in
      let few = inv.few in
      let no_more = inv.no_more in
      let stopped : (g.stop ≡ false) ⊎ ((fail_fast ≡ true) × Failure size (updated i c g.combos)) =
        elim inv.stopped [
          | inl off ↦ inl off
          | inr (ff, f) ↦ inr (ff, Failure-over size i g.combos f)
        ] in
      subst Invariant (some-injective (rw (q, give_slot) at h)) (
        Inv-updated g _ i c inv refl (ground arith) started no_more (ground arith) (ground arith)
          (inl refl) stopped (inv.skips i) (λ k. k))

  pub look-Invariant : (i : ℕ) (g g' : Group) → Invariant g → look i g ≡ some g' → Invariant g'
  unfolding look set_combo
  look-Invariant i g g' inv h =
      let q = look-is_holding i g g' h in
      let busy : is_settled (g.combos i).phase ≡ false = ap is_settled q in
      let slot : weight (g.combos i).phase ≡ 1 = ap weight q in
      let (some_slot, started) = has_slot g i inv slot in
      let entries = busy_entries (g.combos i) (inv.untouched i) busy in
      let few = inv.few in
      elim (Bool-cases g.stop) [
        | inl s ↦
            let c : Combo = record (g.combos i) { phase = returning; skipped = true } in
            let same : look i g ≡ some (set_combo i c g) = rw (q, s, look) refl in
            subst Invariant (some-injective (sym same ∙ h)) (
              returning-Invariant g i c g inv slot refl refl refl (stopped-updated g i c inv busy)
                (λ k. s) (λ k. k))
        | inr s ↦
            let c : Combo = record (g.combos i) { phase = running } in
            let same : look i g ≡ some (set_combo i c g) = rw (q, s, look) refl in
            subst Invariant (some-injective (sym same ∙ h)) (
              Inv-updated g (set_combo i c g) i c inv refl (ground arith) started inv.no_more
                (ground arith) few (inr entries) (stopped-updated g i c inv busy) (inv.skips i)
                (λ k. k))
      ]

  -- What a combination that has just failed does to the others.
  stopped_by :
      (g : Group) (i : ℕ) (c : Combo)
      → Invariant g
      → is_settled (g.combos i).phase ≡ false
      → ltb i size ≡ true
      → is_settled c.phase ≡ true
      → c.skipped ≡ false
      → ((if c.failed && fail_fast then true else g.stop) ≡ false)
        ⊎ ((fail_fast ≡ true) × Failure size (updated i c g.combos))
  stopped_by g i c inv busy within ended ran = elim (Bool-cases (c.failed && fail_fast)) [
    | inr p ↦ rw p (stopped-updated g i c inv busy)
    | inl p ↦
        let (failed, fast) = &&-eq_true c.failed fail_fast p in
        let here : (i == i) ≡ true = (==_iff i i).1 refl in
        inr (
          fast,
          record {
            index = i;
            within = within;
            ended = rw here ended;
            failed = rw here failed;
            ran = rw here ran;
          },
        )
  ]

  pub end_run-Invariant :
      (i : ℕ) (r : Result ComboError JobResult) (g g' : Group)
      → Invariant g
      → end_run fail_fast i r g ≡ some g'
      → Invariant g'
  unfolding end_run store_result
  end_run-Invariant i (err e) g g' inv h =
      let q = end_run-is_running fail_fast i (err e) g g' h in
      let busy : is_settled (g.combos i).phase ≡ false = ap is_settled q in
      subst Invariant (some-injective (rw (q, end_run) at h)) (
        returning-Invariant g i (g.combos i) _ inv (ap weight q) refl refl refl
          (stopped-updated g i (record (g.combos i) { phase = returning }) inv busy) (inv.skips i)
          (λ k. k))
  end_run-Invariant i (ok r) g g' inv h =
      let q = end_run-is_running fail_fast i (ok r) g g' h in
      let busy : is_settled (g.combos i).phase ≡ false = ap is_settled q in
      let entries = busy_entries (g.combos i) (inv.untouched i) busy in
      let failed = not (is_success r.conclusion) in
      let c : Combo = record (g.combos i) { steps = r.steps; failed = failed } in
      let (some_slot, started) = has_slot g i inv (ap weight q) in
      let no_more = inv.no_more in
      let stopped =
        stopped_by g i (record c { phase = returning }) inv busy (ground arith) refl entries.1 in
      subst Invariant (some-injective (rw (q, end_run) at h)) (
        returning-Invariant g i c _ inv (ap weight q) refl refl refl stopped
          (λ k. absurd (cc (k, entries.1))) (if_true (failed && fail_fast) g.stop))
