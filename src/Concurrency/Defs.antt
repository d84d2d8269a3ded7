-- ===== src/Concurrency/Defs.antt =====
-- internal/engine/concurrency_scheduler.go. The closure that `acquire` returns is a value of `Release`.
use mirror_gha.Base.{
  ◌==◌, if◌then◌else◌, any, Text, text_eq, Map, lookup, insert, delete, ℕ, ◌+◌, Bool, true, false,
  ◌||◌, Option, none, some, List, [], ◌∷◌,
}

-- A context of a caller, or one that `context.WithCancel` has made from another.
pub data RunContext : Type 0 where
  outside : (id : ℕ) → RunContext
  with_cancel : (id : ℕ) → (parent : RunContext) → RunContext

pub record Scheduler : Type 0 where
  pub slots : Map Bool  -- the 1-buffered channels: is the buffer full?
  pub gen : Map ℕ
  pub cancel : Map ℕ  -- the `with_cancel` that the cancel function ends
  pub cancelled : List ℕ  -- those whose cancel function was called
  pub ended : List ℕ  -- the contexts from outside that are done
  pub fresh : ℕ  -- the next `with_cancel`

pub data Release : Type 0 where
  noop : Release
  receive : Text → Release
  clear : Text → ℕ → ℕ → Release

-- What a caller of `acquire` holds.
pub record Held : Type 0 where
  pub ctx : RunContext
  pub release : Release

-- The case that the `select` takes, where it has the choice.
pub data Select : Type 0 where
  send done : Select

unfoldable pub new_scheduler : Scheduler
new_scheduler = record { slots = []; gen = []; cancel = []; cancelled = []; ended = []; fresh = 0 }

-- `ctx.Done()` is closed: the context was ended itself, or the one that it was made from.
unfoldable pub is_done : RunContext → Scheduler → Bool
is_done (outside id) s = any (λ c. c == id) s.ended
is_done (with_cancel id parent) s = any (λ c. c == id) s.cancelled || is_done parent s

-- A call of a cancel function.
unfoldable pub cancel_context : ℕ → Scheduler → Scheduler
cancel_context id s = record s { cancelled = id ∷ s.cancelled }

-- The end of a context, by whatever cause.
unfoldable pub end_context : RunContext → Scheduler → Scheduler
unfolding cancel_context
end_context (outside id) s = record s { ended = id ∷ s.ended }
end_context (with_cancel id parent) s = cancel_context id s

unfoldable pub is_full : Text → Scheduler → Bool
unfolding lookup
is_full group s = elim (lookup group s.slots) [ none ↦ false | some b ↦ b ]

-- `ch, ok := s.slots[group]; if !ok { … }`
unfoldable pub make_channel : Text → Scheduler → Scheduler
unfolding insert lookup
make_channel group s = elim (lookup group s.slots) [
  | none ↦ record s { slots = insert group false s.slots }
  | some _ ↦ s
]

unfoldable pub set_full : Text → Bool → Scheduler → Scheduler
unfolding insert
set_full group b s = record s { slots = insert group b s.slots }

-- The path of `cancelInProgress == false`; `none` is a `select` that waits.
unfoldable pub queue : RunContext → Text → Select → Scheduler → Option (Scheduler × Held)
unfolding make_channel is_full set_full is_done
queue ctx group send s =
    let s' = make_channel group s in
    if is_full group s'
    then none
    else some (set_full group true s', record { ctx = ctx; release = receive group })
queue ctx group done s =
    let s' = make_channel group s in
    if is_done ctx s' then some (s', record { ctx = ctx; release = noop }) else none

-- `if prevCancel, ok := s.cancel[group]; ok { prevCancel() }`
unfoldable pub cancel_previous : Text → Scheduler → Scheduler
unfolding lookup cancel_context
cancel_previous group s = elim (lookup group s.cancel) [
  | none ↦ s
  | some previous ↦ cancel_context previous s
]

abbrev pub generation : Text → Map ℕ → ℕ
generation group gen = elim (lookup group gen) [ none ↦ 0 | some n ↦ n ]

-- The path of `cancelInProgress == true`.
unfoldable pub preempt : RunContext → Text → Scheduler → Scheduler × Held
unfolding cancel_previous insert lookup
preempt ctx group s =
    let s' = cancel_previous group s in
    let my_gen = generation group s'.gen + 1 in
    (
      record s' {
        gen = insert group my_gen s'.gen;
        cancel = insert group s'.fresh s'.cancel;
        fresh = s'.fresh + 1;
      },
      record { ctx = with_cancel s'.fresh ctx; release = clear group my_gen s'.fresh },
    )

unfoldable pub acquire : RunContext → Text → Bool → Select → Scheduler → Option (Scheduler × Held)
unfolding queue preempt text_eq
acquire ctx group cancel_in_progress choice s =
    if text_eq group []
    then some (s, record { ctx = ctx; release = noop })
    else if cancel_in_progress
    then some (preempt ctx group s)
    else queue ctx group choice s

-- Under the lock: the entries of the group go if they are still this holder's.
unfoldable pub forget : Text → ℕ → Scheduler → Scheduler
unfolding delete lookup
forget group my_gen s =
    if generation group s.gen == my_gen
    then record s { cancel = delete group s.cancel; gen = delete group s.gen }
    else s

-- The call of the closure; `none` is a receive that waits.
unfoldable pub release : Release → Scheduler → Option Scheduler
unfolding is_full set_full forget cancel_context
release noop s = some s
release (receive group) s = if is_full group s then some (set_full group false s) else none
release (clear group my_gen id) s = some (cancel_context id (forget group my_gen s))
