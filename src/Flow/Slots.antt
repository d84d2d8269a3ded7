-- ===== src/Flow/Slots.antt =====
-- The slots that the goroutines of `RunWorkflow` in internal/engine/workflow_run.go have, and what
-- holds in every state that they reach.

use mirror_gha.Base.{
  ltb, leb, ◌==◌, if◌then◌else◌, ==_iff, Bool-cases, ℕ, zero, suc, ◌+◌, ◌≡◌, refl, sym, ap, subst,
  ◌⊎◌, inl, inr, Bool, true, false, arith,
}
use mirror_gha.Flow.Combos.{
  Phase, waiting, holding, running, returning, over, Combo, Group, new_group,
}

-- Whether a goroutine has a slot.
abbrev pub weight : Phase → ℕ
weight holding = 1
weight running = 1
weight returning = 1
weight _ = 0

-- How many of the first `n` combinations have a slot.
unfoldable pub active : ℕ → (ℕ → Combo) → ℕ
active zero combos = 0
active (suc n) combos = active n combos + weight (combos n).phase

abbrev pub updated : ℕ → Combo → (ℕ → Combo) → ℕ → Combo
updated i c combos j = if j == i then c else combos j

active_beyond :
    (n i : ℕ) (c : Combo) (combos : ℕ → Combo)
    → leb n i ≡ true
    → active n (updated i c combos) ≡ active n combos
unfolding active
active_beyond zero i c combos h = refl
active_beyond (suc n) i c combos h = ground (arith, active_beyond n i c combos)

pub active-updated :
    (n i : ℕ) (c : Combo) (combos : ℕ → Combo)
    → ltb i n ≡ true
    → active n (updated i c combos) + weight (combos i).phase ≡ active n combos + weight c.phase
unfolding active
active-updated zero i c combos h = ground arith
active-updated (suc n) i c combos h = elim (Bool-cases (n == i)) [
  | inl q ↦
      let same : n ≡ i = (==_iff n i).0 q in
      let old : weight (combos i).phase ≡ weight (combos n).phase =
        ap (λ k. weight (combos k).phase) (sym same) in
      let before = active_beyond n i c combos (ground arith) in rw (q, before) (ground arith)
  | inr q ↦ let before = active-updated n i c combos (ground arith) in rw q (ground arith)
]

abbrev pub is_settled : Phase → Bool
is_settled returning = true
is_settled over = true
is_settled _ = false

-- A combination that is not settled has its entries as they were made.
abbrev pub Untouched : Combo → Type 0
Untouched c = (is_settled c.phase ≡ true) ⊎ ((c.failed ≡ false) × (c.skipped ≡ false))

-- A combination that ran and failed.
pub record Failure (size : ℕ) (combos : ℕ → Combo) : Type 0 where
  pub index : ℕ
  pub within : ltb index size ≡ true
  pub ended : is_settled (combos index).phase ≡ true
  pub failed : (combos index).failed ≡ true
  pub ran : (combos index).skipped ≡ false

pub record Inv (size max_parallel : ℕ) (fail_fast : Bool) (g : Group) : Type 0 where
  pub counted : active size g.combos ≡ g.slots
  pub few : leb g.slots max_parallel ≡ true
  pub no_more : leb g.started size ≡ true
  pub unstarted : (i : ℕ) → leb g.started i ≡ true → (g.combos i).phase ≡ waiting
  pub untouched : (i : ℕ) → Untouched (g.combos i)
  pub stopped : (g.stop ≡ false) ⊎ ((fail_fast ≡ true) × Failure size g.combos)
  pub skips : (i : ℕ) → (g.combos i).skipped ≡ true → g.stop ≡ true

pub active-new_group : (n : ℕ) → active n new_group.combos ≡ 0
unfolding active
active-new_group zero = refl
active-new_group (suc n) = rw (active-new_group n) refl

pub Inv-new_group :
    (size max_parallel : ℕ) (fail_fast : Bool) → Inv size max_parallel fail_fast new_group
Inv-new_group size max_parallel fail_fast = record {
  counted = active-new_group size;
  few = ground arith;
  no_more = ground arith;
  unstarted = λ i h. refl;
  untouched = λ i. inr (refl, refl);
  stopped = inl refl;
  skips = λ i h. cc h;
}

-- Facts about all combinations, when one is another.
pub updated_all :
    (P : Combo → Type 0) (i : ℕ) (c : Combo) (combos : ℕ → Combo)
    → P c
    → (j : ℕ) → P (combos j)
    → P (updated i c combos j)
updated_all P i c combos new j old = elim (Bool-cases (j == i)) [
  | inl q ↦ rw q new
  | inr q ↦ rw q old
]

pub Failure-updated :
    (size i : ℕ) (c : Combo) (combos : ℕ → Combo)
    → is_settled (combos i).phase ≡ false
    → Failure size combos
    → Failure size (updated i c combos)
Failure-updated size i c combos busy f =
    let apart : (f.index == i) ≡ false = elim (Bool-cases (f.index == i)) [
      | inr q ↦ q
      | inl q ↦
          let same = ap (λ k. is_settled (combos k).phase) ((==_iff f.index i).0 q) in
          absurd (cc (busy, f.ended, same))
    ] in
    record {
      index = f.index;
      within = f.within;
      ended = rw apart f.ended;
      failed = rw apart f.failed;
      ran = rw apart f.ran;
    }

-- A combination keeps its entries as it gives its slot back.
pub Failure-over :
    (size i : ℕ) (combos : ℕ → Combo)
    → Failure size combos
    → Failure size (updated i (record (combos i) { phase = over }) combos)
Failure-over size i combos f = elim (Bool-cases (f.index == i)) [
  | inr q ↦ record {
    index = f.index;
    within = f.within;
    ended = rw q f.ended;
    failed = rw q f.failed;
    ran = rw q f.ran;
  }
  | inl q ↦
      let same = (==_iff f.index i).0 q in
      record {
        index = f.index;
        within = f.within;
        ended = rw q refl;
        failed = rw q (subst (λ k. (combos k).failed ≡ true) same f.failed);
        ran = rw q (subst (λ k. (combos k).skipped ≡ false) same f.ran);
      }
]

-- A combination that is not settled, with its entries.
pub busy_entries :
    (c : Combo)
    → Untouched c
    → is_settled c.phase ≡ false
    → (c.failed ≡ false) × (c.skipped ≡ false)
busy_entries c (inl o) busy = absurd (cc (o, busy))
busy_entries c (inr e) busy = e
