-- ===== src/Concurrency/Queue.antt =====
-- Groups without `cancel-in-progress` (internal/engine/concurrency_scheduler.go): at most one holder.
use mirror_gha.Base.{
  if◌then◌else◌, Text, text_eq, text_eq_iff, text_eq_refl, lookup-insert, split, ℕ, suc, ◌+◌, ◌≤◌,
  ◌≡◌, refl, sym, ap, subst, ◌≢◌, Bool, true, false, none, some, List, [], ◌∷◌, ◌++◌, arith,
}
use mirror_gha.Concurrency.Defs.{
  RunContext, outside, with_cancel, Scheduler, Release, noop, receive, clear, Held, Select, send,
  done, new_scheduler, end_context, is_full, make_channel, set_full, queue, preempt, acquire,
  release,
}

-- The scheduler and the holders that have not yet called their release function.
pub record System : Type 0 where
  pub scheduler : Scheduler
  pub holders : List Held

-- What can happen, in any order: a call of `acquire` returns, a holder calls its release function,
-- or a context ends.
pub data Step (y z : System) : Type 0 where
  acquires :
      (ctx : RunContext) (group : Text) (cancel_in_progress : Bool) (choice : Select)
      (s : Scheduler) (h : Held)
      → acquire ctx group cancel_in_progress choice y.scheduler ≡ some (s, h)
      → z ≡ record { scheduler = s; holders = h ∷ y.holders }
      → Step y z
  releases :
      (before : List Held) (h : Held) (after : List Held) (s : Scheduler)
      → y.holders ≡ before ++ h ∷ after
      → release h.release y.scheduler ≡ some s
      → z ≡ record { scheduler = s; holders = before ++ after }
      → Step y z
  ends : (ctx : RunContext) → z ≡ record y { scheduler = end_context ctx y.scheduler } → Step y z

abbrev pub initial : System
initial = record { scheduler = new_scheduler; holders = [] }

pub data Reachable : System → Type 0 where
  here : Reachable initial
  next : {y z : System} → Reachable y → Step y z → Reachable z

-- The holder is in the queue of `group`.
abbrev pub in_queue : Text → Held → Bool
in_queue group h = elim h.release [ receive g ↦ text_eq g group | _ ↦ false ]

unfoldable pub queue_holders : Text → List Held → ℕ
queue_holders group [] = 0
queue_holders group (h ∷ hs) =
    let rest = queue_holders group hs in if in_queue group h then suc rest else rest

abbrev full_count : Bool → ℕ
full_count true = 1
full_count false = 0

-- The holders of a group are as many as its channel holds values.
abbrev Counted : System → Type 0
Counted y = (group : Text) → queue_holders group y.holders ≡ full_count (is_full group y.scheduler)

queue_holders-append :
    (group : Text) (before : List Held) (h : Held) (after : List Held)
    → queue_holders group (before ++ h ∷ after)
      ≡ queue_holders group (h ∷ []) + queue_holders group (before ++ after)
unfolding queue_holders
queue_holders-append group [] h after = ground arith
queue_holders-append group (x ∷ before) h after =
    ground (arith, queue_holders-append group before h after)

is_full-make_channel :
    (group j : Text) (s : Scheduler) → is_full j (make_channel group s) ≡ is_full j s
unfolding is_full make_channel
is_full-make_channel group j s =
    ground (arith, lookup-insert group j false s.slots, text_eq_iff group j)

is_full-set_full :
    (group j : Text) (b : Bool) (s : Scheduler)
    → is_full j (set_full group b s) ≡ (if text_eq group j then b else is_full j s)
unfolding is_full set_full
is_full-set_full group j b s = ground (arith, lookup-insert group j b s.slots)

-- One more holder in the queue of `j` fills its channel.
abbrev Balanced : Text → Scheduler → Scheduler → Held → Type 0
Balanced j before after h =
    queue_holders j (h ∷ []) + full_count (is_full j before) ≡ full_count (is_full j after)

queue-Balanced :
    (ctx : RunContext) (group j : Text) (choice : Select) (y s : Scheduler) (h : Held)
    → queue ctx group choice y ≡ some (s, h)
    → Balanced j y s h
unfolding queue queue_holders
queue-Balanced ctx group j send y s h e = ground (
  arith,
  is_full-make_channel group j y,
  is_full-make_channel group group y,
  is_full-set_full group j true (make_channel group y),
  text_eq_iff group j,
)
queue-Balanced ctx group j done y s h e = ground (arith, is_full-make_channel group j y)

preempt-Balanced :
    (ctx : RunContext) (group j : Text) (y : Scheduler)
    → Balanced j y (preempt ctx group y).0 (preempt ctx group y).1
unfolding preempt queue_holders is_full
preempt-Balanced ctx group j y = ground arith

acquire-Balanced :
    (ctx : RunContext) (group j : Text) (cip : Bool) (choice : Select) (y s : Scheduler) (h : Held)
    → acquire ctx group cip choice y ≡ some (s, h)
    → Balanced j y s h
unfolding acquire queue_holders
acquire-Balanced ctx group j cip choice y s h e =
    ground (arith, queue-Balanced ctx group j choice y s h, preempt-Balanced ctx group j y)

release-Balanced_at :
    (j : Text) (ctx : RunContext) (r : Release) (y s : Scheduler)
    → release r y ≡ some s
    → Balanced j s y (record { ctx = ctx; release = r })
unfolding release queue_holders
release-Balanced_at j ctx noop y s e = ground arith
release-Balanced_at j ctx (receive group) y s e =
    ground (arith, is_full-set_full group j false y, text_eq_iff group j)
release-Balanced_at j ctx (clear group my_gen c) y s e = unfold is_full in ground arith

release-Balanced :
    (j : Text) (h : Held) (y s : Scheduler) → release h.release y ≡ some s → Balanced j s y h
release-Balanced j h y s e = release-Balanced_at j h.ctx h.release y s e

Step-Counted : {y z : System} → Step y z → Counted y → Counted z
unfolding end_context is_full
Step-Counted {y} {z} (acquires ctx group cip choice s h e q) inv = subst Counted (sym q) λ j.
    omega (
      arith,
      acquire-Balanced ctx group j cip choice y.scheduler s h e,
      queue_holders-append j [] h y.holders,
      inv j,
    )
Step-Counted {y} {z} (releases before h after s split e q) inv = subst Counted (sym q) λ j. omega (
  arith,
  release-Balanced j h y.scheduler s e,
  queue_holders-append j before h after,
  ap (queue_holders j) split,
  inv j,
)
Step-Counted {y} {z} (ends (outside id) q) inv = subst Counted (sym q) inv
Step-Counted {y} {z} (ends (with_cancel id parent) q) inv = subst Counted (sym q) inv

Reachable-Counted : {y : System} → Reachable y → Counted y
unfolding queue_holders is_full new_scheduler
Reachable-Counted here = λ j. refl
Reachable-Counted (next r st) = Step-Counted st (Reachable-Counted r)

full_count-le : (b : Bool) → full_count b ≤ 1
full_count-le b = ground arith

-- However calls of `acquire`, releases and cancellations interleave, at most one holder is in the
-- queue of a group.
pub queue_exclusive : (y : System) (group : Text) → Reachable y → queue_holders group y.holders ≤ 1
queue_exclusive y group r =
    omega (arith, Reachable-Counted r group, full_count-le (is_full group y.scheduler))

release_waits :
    (h : Held) (s : Scheduler)
    → release h.release s ≡ none
    → (group : Text) × (h.release ≡ receive group) × (is_full group s ≡ false)
release_waits h s e = at h.release refl e
  where
    at :
        (r : Release)
        → h.release ≡ r
        → release r s ≡ none
        → (group : Text) × (h.release ≡ receive group) × (is_full group s ≡ false)
    at noop p e = unfold release in cc
    at (receive group) p e = (group, p, unfold release in ground arith)
    at (clear group my_gen c) p e = unfold release in cc

-- The release function of a holder never waits.
pub release_ready :
    (y : System) (before after : List Held) (h : Held)
    → Reachable y
    → y.holders ≡ before ++ h ∷ after
    → release h.release y.scheduler ≢ none
unfolding queue_holders
release_ready y before after h r split e =
    let (group, is_receive, empty) = release_waits h y.scheduler e in
    let one : queue_holders group (h ∷ []) ≡ 1 = ground (arith, text_eq_refl group) in
    absurd (
      omega (
        arith,
        Reachable-Counted r group,
        ap full_count empty,
        ap (queue_holders group) split,
        queue_holders-append group before h after,
        one,
      ))

-- A call of `acquire` for a group without `cancel-in-progress` waits to send only while the queue
-- of that group has its holder.
pub acquire_waits :
    (y : System) (ctx : RunContext) (group : Text)
    → Reachable y
    → acquire ctx group false send y.scheduler ≡ none
    → queue_holders group y.holders ≡ 1
unfolding acquire queue
acquire_waits y ctx group r e =
    ground (arith, Reachable-Counted r group, is_full-make_channel group group y.scheduler)
