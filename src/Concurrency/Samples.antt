-- ===== src/Concurrency/Samples.antt =====
-- internal/engine/concurrency_scheduler.go on short runs, and the theorems about it at them.
use mirror_gha.Base.{
  Text, lit, text_eq, lookup, ◌≤◌, ◌≡◌, refl, ◌≢◌, true, false, none, some, [], ◌∷◌,
}
use mirror_gha.Concurrency.Defs.{
  outside, with_cancel, Scheduler, receive, Held, send, new_scheduler, acquire, preempt, release,
  is_done,
}
use mirror_gha.Concurrency.Queue.{
  System, acquires, Reachable, here, next, queue_holders, queue_exclusive, release_ready,
  acquire_waits,
}
use mirror_gha.Concurrency.Preempt.{preempt_takes_over, late_release, late_release_shares}

abbrev group : Text
group = lit "deploy"

abbrev holder : Held
holder = record { ctx = outside 0; release = receive group }

abbrev queued : Scheduler
queued = record {
  slots = (group, true) ∷ [];
  gen = [];
  cancel = [];
  cancelled = [];
  ended = [];
  fresh = 0;
}

abbrev one_holder : System
one_holder = record { scheduler = queued; holders = holder ∷ [] }

first_acquires : acquire (outside 0) group false send new_scheduler ≡ some (queued, holder)
unfolding acquire new_scheduler lookup text_eq
first_acquires = refl

one_holder-Reachable : Reachable one_holder
one_holder-Reachable =
    next here (acquires (outside 0) group false send queued holder first_acquires refl)

queue_exclusive_example : queue_holders group (holder ∷ []) ≤ 1
queue_exclusive_example = queue_exclusive one_holder group one_holder-Reachable

release_ready_example : release (receive group) queued ≢ none
release_ready_example = release_ready one_holder [] [] holder one_holder-Reachable refl

second_waits : acquire (outside 0) group false send queued ≡ none
unfolding acquire lookup text_eq
second_waits = refl

acquire_waits_example : queue_holders group (holder ∷ []) ≡ 1
acquire_waits_example = acquire_waits one_holder (outside 0) group one_holder-Reachable second_waits

abbrev started : Scheduler
started = record { slots = []; gen = []; cancel = []; cancelled = []; ended = []; fresh = 0 }

preempt_takes_over_example :
    let (s1, first) = preempt (outside 0) group started in
    let (s2, second) = preempt (outside 0) group s1 in
    (is_done first.ctx s2 ≡ true)
    × ((s3 : Scheduler) × (release first.release s2 ≡ some s3)
        × (second.ctx ≡ with_cancel s1.fresh (outside 0))
        × (lookup group s3.cancel ≡ some s1.fresh)
        × (is_done second.ctx (preempt (outside 1) group s3).0 ≡ true))
preempt_takes_over_example = preempt_takes_over group (outside 0) (outside 0) (outside 1) started

late_release_shares_example :
    (third fourth : Held) × (end : Scheduler) × (late_release group
        (outside 0)
        (outside 0)
        (outside 0)
        (outside 1)
        started
      ≡ some (third, fourth, end))
    × (third.ctx ≢ fourth.ctx)
    × (is_done third.ctx end ≡ is_done (outside 0) started)
    × (is_done fourth.ctx end ≡ is_done (outside 1) started)
unfolding lookup
late_release_shares_example = late_release_shares group 0 0 0 1 started refl tt refl
