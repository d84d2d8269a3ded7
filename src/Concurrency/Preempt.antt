-- ===== src/Concurrency/Preempt.antt =====
-- Groups with `cancel-in-progress` (internal/engine/concurrency_scheduler.go): who cancels whom.
use mirror_gha.Base.{
  ◌==◌, ==_iff, any, All, Text, text_eq_refl, lookup, lookup-insert, lookup-delete, ℕ, ◌+◌, ◌≤◌,
  ◌<◌, ◌≡◌, refl, ap, ◌≢◌, true, false, Option, none, some, List, [], ◌∷◌, arith,
}
use mirror_gha.Concurrency.Defs.{
  RunContext, outside, with_cancel, cancel_context, Scheduler, clear, Held, is_done,
  cancel_previous, generation, preempt, forget, release,
}

-- What one group sees of the scheduler.
record View (s : Scheduler) (group : Text) (gen fresh : ℕ) (holder : Option ℕ)
    (cancelled ended : List ℕ) : Type 0 where
  gen_is : generation group s.gen ≡ gen
  fresh_is : s.fresh ≡ fresh
  holder_is : lookup group s.cancel ≡ holder
  cancelled_is : s.cancelled ≡ cancelled
  ended_is : s.ended ≡ ended

abbrev with_previous : Option ℕ → List ℕ → List ℕ
with_previous none cancelled = cancelled
with_previous (some c) cancelled = c ∷ cancelled

cancel_previous_lem :
    (group : Text) (s : Scheduler)
    → cancel_previous group s
      ≡ record s { cancelled = with_previous (lookup group s.cancel) s.cancelled }
unfolding cancel_previous
cancel_previous_lem group s = ground arith

any-below : (l : List ℕ) (n m : ℕ) → All (λ c. c < n) l → n ≤ m → any (λ c. c == m) l ≡ false
any-below [] n m h le = refl
any-below (c ∷ l) n m h le = ground (arith, any-below l n m h.1 le)

with_cancel-injective : {n m : ℕ} {p q : RunContext} → with_cancel n p ≡ with_cancel m q → n ≡ m
with_cancel-injective h = cc h

module _ (group : Text) where
  preempt-View :
      (ctx : RunContext) (s : Scheduler) {gen fresh : ℕ} {holder : Option ℕ}
      {cancelled ended : List ℕ}
      → View s group gen fresh holder cancelled ended
      → View
          (preempt ctx group s).0
          group
          (gen + 1)
          (fresh + 1)
          (some fresh)
          (with_previous holder cancelled)
          ended
        × ((preempt ctx group s).1
            ≡ record { ctx = with_cancel fresh ctx; release = clear group (gen + 1) fresh })
  unfolding preempt
  preempt-View ctx s v = rw cancel_previous_lem (
    record {
      gen_is = ground (
        arith,
        lookup-insert group group (generation group s.gen + 1) s.gen,
        text_eq_refl group,
        v.gen_is,
      );
      fresh_is = ap (λ n. n + 1) v.fresh_is;
      holder_is =
          ground
            (arith, lookup-insert group group s.fresh s.cancel, text_eq_refl group, v.fresh_is);
      cancelled_is = cc (v.holder_is, v.cancelled_is);
      ended_is = v.ended_is;
    },
    cc (v.gen_is, v.fresh_is),
  )

  forget-View_own :
      (s : Scheduler) {gen fresh : ℕ} {holder : Option ℕ} {cancelled ended : List ℕ}
      → View s group gen fresh holder cancelled ended
      → View (forget group gen s) group 0 fresh none cancelled ended
  unfolding forget
  forget-View_own s {gen} v = rw ((==_iff (generation group s.gen) gen).1 v.gen_is) (record {
    gen_is = ground (arith, lookup-delete group group s.gen, text_eq_refl group);
    fresh_is = v.fresh_is;
    holder_is = ground (arith, lookup-delete group group s.cancel, text_eq_refl group);
    cancelled_is = v.cancelled_is;
    ended_is = v.ended_is;
  })

  forget_other : (s : Scheduler) (n : ℕ) → n ≢ generation group s.gen → forget group n s ≡ s
  unfolding forget
  forget_other s n h = ground arith

  View-here :
      (s : Scheduler)
      → View s group (generation group s.gen) s.fresh (lookup group s.cancel) s.cancelled s.ended
  View-here s = record {
    gen_is = refl;
    fresh_is = refl;
    holder_is = refl;
    cancelled_is = refl;
    ended_is = refl;
  }

  View-cancel_context :
      (s : Scheduler) {gen fresh : ℕ} {holder : Option ℕ} {cancelled ended : List ℕ} (id : ℕ)
      → View s group gen fresh holder cancelled ended
      → View (cancel_context id s) group gen fresh holder (id ∷ cancelled) ended
  unfolding cancel_context
  View-cancel_context s id v = record {
    gen_is = v.gen_is;
    fresh_is = v.fresh_is;
    holder_is = v.holder_is;
    cancelled_is = ap (λ l. id ∷ l) v.cancelled_is;
    ended_is = v.ended_is;
  }

  -- A context whose cancel function was called.
  is_done-View :
      (s : Scheduler) {gen fresh : ℕ} {holder : Option ℕ} {cancelled ended : List ℕ} (id : ℕ)
      (parent : RunContext)
      → View s group gen fresh holder cancelled ended
      → any (λ c. c == id) cancelled ≡ true
      → is_done (with_cancel id parent) s ≡ true
  unfolding is_done
  is_done-View s id parent v h = let q = v.cancelled_is in rw (q, h) refl

  -- A context that is done only where that of its caller is.
  is_done-View_caller :
      (s start : Scheduler) {gen fresh : ℕ} {holder : Option ℕ} {cancelled : List ℕ} (id c : ℕ)
      → View s group gen fresh holder cancelled start.ended
      → any (λ k. k == id) cancelled ≡ false
      → is_done (with_cancel id (outside c)) s ≡ is_done (outside c) start
  unfolding is_done
  is_done-View_caller s start id c v h =
      let q = v.cancelled_is in let e = v.ended_is in rw (q, e, h) refl

  -- A new holder cancels the one before it. When the older one then calls its release function, the
  -- new one stays registered, so that a third holder will cancel it.
  pub preempt_takes_over :
      (a b c : RunContext) (s : Scheduler)
      → let (s1, first) = preempt a group s in
        let (s2, second) = preempt b group s1 in
        (is_done first.ctx s2 ≡ true)
        × ((s3 : Scheduler) × (release first.release s2 ≡ some s3)
            × (second.ctx ≡ with_cancel s1.fresh b)
            × (lookup group s3.cancel ≡ some s1.fresh)
            × (is_done second.ctx (preempt c group s3).0 ≡ true))
  unfolding release
  preempt_takes_over a b c s =
      let (v1, e1) = preempt-View a s (View-here s) in
      let s1 = (preempt a group s).0 in
      let s2 = (preempt b group s1).0 in
      let (v2, e2) = preempt-View b s1 v1 in
      let s3 = cancel_context s.fresh s2 in
      let v3 = View-cancel_context s2 s.fresh v2 in
      let (v4, _) = preempt-View c s3 v3 in
      let new = v1.fresh_is in
      rw (e1, e2, new)
        (
          is_done-View s2 s.fresh a v2 (ground arith),
          (
            s3,
            ap (λ r. some (cancel_context s.fresh r))
                (forget_other s2 (generation group s.gen + 1) (omega (arith, v2.gen_is))),
            refl,
            v3.holder_is,
            is_done-View (preempt c group s3).0 (s.fresh + 1) b v4 (ground arith),
          ),
        )

  abbrev pub after_late_release :
      RunContext → Held → Option Scheduler → Option (Held × Held × Scheduler)
  after_late_release d third none = none
  after_late_release d third (some s5) =
      let (s6, fourth) = preempt d group s5 in some (third, fourth, s6)

  abbrev pub after_second_release :
      (c d : RunContext) → Held → Option Scheduler → Option (Held × Held × Scheduler)
  after_second_release c d first none = none
  after_second_release c d first (some s3) =
      let (s4, third) = preempt c group s3 in after_late_release d third (release first.release s4)

  -- The calls, by callers with the contexts `a` to `d`: two holders take over from each other and the
  -- second one is done; a third takes over; then the first calls its release function late, and a
  -- fourth takes over.
  abbrev pub late_release : (a b c d : RunContext) → Scheduler → Option (Held × Held × Scheduler)
  late_release a b c d s =
      let (s1, first) = preempt a group s in
      let (s2, second) = preempt b group s1 in
      after_second_release c d first (release second.release s2)

  -- A release that comes late clears the entry of a newer holder, where the group has no holder and
  -- its generations stand at 0 before the first of four holders: once the second has released, the
  -- generations start again, and the first one's release takes the third one's entry for its own. The
  -- fourth holder then does not cancel the third: the contexts of both are done only if those of their
  -- callers are. (Contexts cancelled before are ones that were made before.)
  pub late_release_shares :
      (a b c d : ℕ) (s : Scheduler)
      → generation group s.gen ≡ 0
      → All (λ id. id < s.fresh) s.cancelled
      → lookup group s.cancel ≡ none
      → (third fourth : Held) × (end : Scheduler) × (late_release
            (outside a)
            (outside b)
            (outside c)
            (outside d)
            s
          ≡ some (third, fourth, end))
        × (third.ctx ≢ fourth.ctx)
        × (is_done third.ctx end ≡ is_done (outside c) s)
        × (is_done fourth.ctx end ≡ is_done (outside d) s)
  unfolding release
  late_release_shares a b c d s none_yet older idle =
      let f = s.fresh in
      let v0 : View s group 0 f none s.cancelled s.ended = record {
        gen_is = none_yet;
        fresh_is = refl;
        holder_is = idle;
        cancelled_is = refl;
        ended_is = refl;
      } in
      let s1 = (preempt (outside a) group s).0 in
      let (v1, e1) = preempt-View (outside a) s v0 in
      let s2 = (preempt (outside b) group s1).0 in
      let (v2, e2) = preempt-View (outside b) s1 v1 in
      let s3 = cancel_context (f + 1) (forget group 2 s2) in
      let v3 = View-cancel_context (forget group 2 s2) (f + 1) (forget-View_own s2 v2) in
      let s4 = (preempt (outside c) group s3).0 in
      let (v4, e4) = preempt-View (outside c) s3 v3 in
      let s5 = cancel_context f (forget group 1 s4) in
      let v5 = View-cancel_context (forget group 1 s4) f (forget-View_own s4 v4) in
      let s6 = (preempt (outside d) group s5).0 in
      let (v6, e6) = preempt-View (outside d) s5 v5 in
      (
        record { ctx = with_cancel (f + 1 + 1) (outside c); release = clear group 1 (f + 1 + 1) },
        record {
          ctx = with_cancel (f + 1 + 1 + 1) (outside d);
          release = clear group 1 (f + 1 + 1 + 1);
        },
        s6,
        rw (e1, e2, e4, e6) refl,
        λ same. absurd (omega (arith, with_cancel-injective same)),
        is_done-View_caller s6 s (f + 1 + 1) c v6
            (ground (arith, any-below s.cancelled f (f + 1 + 1) older (omega arith))),
        is_done-View_caller s6 s (f + 1 + 1 + 1) d v6
            (ground (arith, any-below s.cancelled f (f + 1 + 1 + 1) older (omega arith))),
      )
