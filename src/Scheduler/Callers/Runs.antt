-- ===== src/Scheduler/Callers/Runs.antt =====
-- Every step, and every run, keeps the mutex and the measurements guarded.
use stabsight.Base.{
  ◌≡◌, sym, subst, Bool, true, false, some, List, [], ◌∷◌, update, >>=-eq-some, arith,
  if◌then◌else◌,
}
use stabsight.Scheduler.Exclusive.{
  System, Action, stop_scheduler, work, call, advance, abort, timeout, cancel_call, cancel_run,
  stop, work_step, step, run,
}
use stabsight.Scheduler.Callers.{
  outside, Program, Move, loop, lock, go_on, abandon, cut_off, unlock, end_run, stop_all,
  step_program, run_program, allowed, actions_of, calls_after,
}
use stabsight.Scheduler.Callers.Kept.{
  Kept, Kept-trans, advance-Kept, abort-Kept, timeout-Kept, advance-under_way, abort-under_way,
  timeout-under_way, call-Kept, cancel_call-Kept, cancel_run-Kept, stop-Kept,
}
use stabsight.Scheduler.Callers.Refinement.{after_event, step_program_lem, some_program}
use stabsight.Scheduler.Callers.Invariant.{Guarded, system_step, call_step, lock_step, unlock_step}
use stabsight.Scheduler.Callers.Loops.{loop_step}

-- The actions of an event.
module _ (s s' : System) where
  one_action : (a : Action) → run (a ∷ []) s ≡ some s' → step a s ≡ some s'
  unfolding run
  one_action a e = ground arith

  two_actions :
      (a b : Action)
      → run (a ∷ b ∷ []) s ≡ some s'
      → (t : System) × (step a s ≡ some t) × (step b t ≡ some s')
  unfolding run
  two_actions a b e =
      let first = >>=-eq-some (step a s) (run (b ∷ [])) e in
      (first.0, first.1, ground (arith, first.2))

  -- A context ends, or the scheduler is stopped: ExecuteExclusive stays where it is.
  Settles : Type 0
  Settles = Kept s s' × (s'.pc ≡ s.pc)

  lock-Kept : (b : Bool) → run (call ∷ (if b then cancel_call ∷ [] else [])) s ≡ some s' → Kept s s'
  lock-Kept true e =
      let (t, x, y) = two_actions call cancel_call e in
      Kept-trans s t s' (call-Kept s t x) (cancel_call-Kept t s' y)
  lock-Kept false e = call-Kept s s' (one_action call e)

  end_run-Settles : run (cancel_run ∷ cancel_call ∷ []) s ≡ some s' → Settles
  unfolding step Settles
  end_run-Settles e =
      let (t, x, y) = two_actions cancel_run cancel_call e in
      (Kept-trans s t s' (cancel_run-Kept s t x) (cancel_call-Kept t s' y), ground (arith, x, y))

  stop-Settles : (b : Bool) → run (if b then stop ∷ cancel_call ∷ [] else []) s ≡ some s' → Settles
  unfolding step stop_scheduler run Settles
  stop-Settles true e =
      let (t, x, y) = two_actions stop cancel_call e in
      (Kept-trans s t s' (stop-Kept s t x) (cancel_call-Kept t s' y), ground (arith, x, y))
  stop-Settles false e = (
    record { phases = λ i. ground arith; count = ground arith; exclusive = ground arith },
    ground arith,
  )

event-Guarded :
    (e : Move) (p : Program) (s : System)
    → Guarded p
    → allowed e p ≡ true
    → run (actions_of e p.system) p.system ≡ some s
    → Guarded (after_event e p s)
unfolding allowed actions_of calls_after work_step step Settles run
event-Guarded (loop i c) p s g a r = loop_step i c p s g (one_action p.system s (work i c) r) a
event-Guarded (lock i) p s g a r =
    lock_step p g i s (lock-Kept p.system s p.system.run_cancelled r) (ground arith) (ground arith)
event-Guarded go_on p s g a r =
    let r' = one_action p.system s advance r in
    call_step p g s (advance-Kept p.system s r') (advance-under_way p.system s r')
event-Guarded abandon p s g a r =
    let r' = one_action p.system s abort r in
    call_step p g s (abort-Kept p.system s r') (abort-under_way p.system s r')
event-Guarded cut_off p s g a r =
    let r' = one_action p.system s timeout r in
    call_step p g s (timeout-Kept p.system s r') (timeout-under_way p.system s r')
event-Guarded (unlock i) p s g a r =
    subst Guarded {x = record p { locked = false; calls = update p.calls i outside }} (ground arith)
      (unlock_step p g i (ground arith) (ground arith))
event-Guarded end_run p s g a r =
    let (k, same) = end_run-Settles p.system s r in system_step p g s k (λ u. rw same (g.over u))
event-Guarded stop_all p s g a r =
    let (k, same) = stop-Settles p.system s p.system.running r in
    system_step p g s k (λ u. rw same (g.over u))

pub step_program-Guarded :
    (e : Move) (p p' : Program) → step_program e p ≡ some p' → Guarded p → Guarded p'
step_program-Guarded e p p' q g =
    let (a, s, r, eq) = step_program_lem e p p' q in
    subst Guarded (sym eq) (event-Guarded e p s g a r)

pub run_program-Guarded :
    (events : List Move) (p p' : Program) → run_program events p ≡ some p' → Guarded p → Guarded p'
unfolding run_program
run_program-Guarded [] p p' e g = subst Guarded (some_program e) g
run_program-Guarded (e ∷ events) p p' q g =
    let first = >>=-eq-some (step_program e p) (run_program events) q in
    run_program-Guarded events first.0 p' first.2 (step_program-Guarded e p first.0 first.1 g)
