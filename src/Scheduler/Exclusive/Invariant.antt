-- ===== src/Scheduler/Exclusive/Invariant.antt =====
-- What holds between two steps of a run in which no resume is cut off: the protocol of the command
-- and acknowledgement channels, for every handle of a worker that is not exclusive.
use stabsight.Base.{
  ℕ, ◌≡◌, refl, sym, subst, inl, inr, Bool, true, false, some, List, [], ◌∷◌, >>=-eq-some,
  Bool-cases, arith,
}
use stabsight.Scheduler.Exclusive.{
  Pc, idle, entering, broadcasting, awaiting, pause_failed, executing, resume_entry, resuming,
  finished, System, Action, work, call, advance, abort, timeout, cancel_call, cancel_run, stop,
  start, step, run, InTime, stop_scheduler, execute_exclusive, resume_guards, pause_entry,
  begin_call, abort_call,
}
use stabsight.Scheduler.Exclusive.Handles.{is_held, is_released}
use stabsight.Scheduler.Exclusive.Stages.{
  Between, Unpaused, Stage, AllFree, Inv, work_step_lem, work-Inv,
}
use stabsight.Scheduler.Exclusive.Loops.{pause_broadcast-Inv, pause_await-Inv, resume_broadcast-Inv}

pub start-Inv : (n : ℕ) (x : ℕ → Bool) → Inv (start n x)
unfolding start
start-Inv n x = (λ i e. refl, λ r. refl)

finished-Stage' :
    (b : Bool) (t : System)
    → Unpaused t
    → (b ≡ true → t.running ≡ true → Between is_released 0 t.count t)
    → Stage (finished b) t
finished-Stage' true t u r = (u, r refl)
finished-Stage' false t u r = u

some_inj : {x y : System} → some x ≡ some y → x ≡ y
some_inj e = cc

-- The steps of ExecuteExclusive keep the invariant.
module _ (s s' : System) (free : AllFree s) where
  resume_guards-Inv :
      (bounded executed : Bool)
      → (s.running ≡ true → s.paused ≡ true → Between is_held 0 s.count s)
      → (executed ≡ true → s.running ≡ true → s.paused ≡ true)
      → Inv (resume_guards bounded executed s)
  resume_guards-Inv bounded executed held settled = elim (Bool-cases s.running) [
    | inr x ↦
        subst Inv {x = record s { pc = finished executed }} (ground arith)
          (free, finished-Stage' executed _ (λ r. cc) (λ q r. cc))
    | inl x ↦ elim (Bool-cases s.paused) [
      | inr y ↦
          subst Inv {x = record s { pc = finished executed }} (ground arith)
            (free, finished-Stage' executed _ (λ r. y) (λ q r. cc (settled q r)))
      | inl y ↦
          subst Inv {x = record s { pc = resuming bounded 0 }} (ground arith)
            (free, (held x y, λ i lo hi. absurd (omega arith)))
    ]
  ]

  pause_entry-Inv : Unpaused s → Inv (pause_entry s)
  pause_entry-Inv u = elim (Bool-cases s.running) [
    | inr x ↦ subst Inv {x = record s { pc = pause_failed }} (ground arith) (free, u)
    | inl x ↦ subst Inv {x = record s { pc = broadcasting 0 }} (ground (arith, u x)) (free, u)
  ]

  execute-Inv : (p : Pc) → Stage p s → execute_exclusive p s ≡ some s' → Inv s'
  execute-Inv idle g e = cc
  execute-Inv entering g e = subst Inv (some_inj e) (pause_entry-Inv g)
  execute-Inv (broadcasting k) g e = pause_broadcast-Inv s s' free k g e
  execute-Inv (awaiting k) g e = pause_await-Inv s s' free k g.0 g.1 e
  execute-Inv pause_failed g e =
      subst Inv (some_inj e) (resume_guards-Inv false false (λ r q. cc (g r)) (λ q. cc))
  execute-Inv executing g e =
      subst Inv {x = record s { pc = resume_entry }} (ground arith) (free, g)
  execute-Inv resume_entry g e =
      subst Inv (some_inj e) (resume_guards-Inv true true (λ r q. g.1) (λ q. g.0))
  execute-Inv (resuming b k) g e = resume_broadcast-Inv s s' free b k g.0 g.1 e
  execute-Inv (finished b) g e = cc

  begin_call-Inv : (p : Pc) → Stage p s → begin_call p s ≡ some s' → Inv s'
  begin_call-Inv idle g e =
      subst Inv {x = record s { pc = entering; call_cancelled = false }} (ground arith) (free, g)
  begin_call-Inv (finished true) g e =
      subst Inv {x = record s { pc = entering; call_cancelled = false }} (ground arith) (free, g.0)
  begin_call-Inv (finished false) g e =
      subst Inv {x = record s { pc = entering; call_cancelled = false }} (ground arith) (free, g)
  begin_call-Inv _ g e = cc

  abort_call-Inv : (p : Pc) → Stage p s → abort_call p s ≡ some s' → Inv s'
  abort_call-Inv (broadcasting k) g e =
      subst Inv {x = record s { pc = pause_failed }} (ground arith) (free, g)
  abort_call-Inv (awaiting k) g e =
      subst Inv {x = record s { pc = pause_failed }} (ground arith) (free, g.0)
  abort_call-Inv _ g e = cc

-- The stage does not depend on the contexts, and Stop keeps it.
module _ (s : System) where
  cancel_call-Stage : (p : Pc) → Stage p s → Stage p (record s { call_cancelled = true })
  cancel_call-Stage (finished true) g = g
  cancel_call-Stage _ g = g

  cancel_run-Stage : (p : Pc) → Stage p s → Stage p (record s { run_cancelled = true })
  cancel_run-Stage (finished true) g = g
  cancel_run-Stage _ g = g

  abbrev stopped : System
  stopped = record s { run_cancelled = true; running = false; paused = false }

  stopped-Stage : (p : Pc) → Stage p s → Stage p stopped
  stopped-Stage (awaiting k) g = (λ r. refl, g.1)
  stopped-Stage executing g = (λ r. cc, g.1)
  stopped-Stage resume_entry g = (λ r. cc, g.1)
  stopped-Stage (resuming b k) g = g
  stopped-Stage (finished true) g = (λ r. refl, λ r. cc)
  stopped-Stage _ g = λ r. refl

  stop-Inv : Inv s → Inv (stop_scheduler s)
  unfolding stop_scheduler
  stop-Inv v = elim (Bool-cases s.running) [
    | inl r ↦ subst Inv {x = stopped} (ground arith) (v.0, stopped-Stage s.pc v.1)
    | inr r ↦ subst Inv {x = s} (ground arith) v
  ]

-- Every step but a cut-off resume keeps the invariant.
pub step-Inv : (a : Action) (s s' : System) → InTime (a ∷ []) → step a s ≡ some s' → Inv s → Inv s'
unfolding step
step-Inv (work i c) s s' t e v =
    let w = work_step_lem i c s s' e in subst Inv (sym w.2) (work-Inv s i c w.0 w.1 v)
step-Inv call s s' t e v = begin_call-Inv s s' v.0 s.pc v.1 e
step-Inv advance s s' t e v = execute-Inv s s' v.0 s.pc v.1 e
step-Inv abort s s' t e v = abort_call-Inv s s' v.0 s.pc v.1 e
step-Inv timeout s s' t e v = absurd t
step-Inv cancel_call s s' t e v = subst Inv (some_inj e) (v.0, cancel_call-Stage s s.pc v.1)
step-Inv cancel_run s s' t e v = subst Inv (some_inj e) (v.0, cancel_run-Stage s s.pc v.1)
step-Inv stop s s' t e v = subst Inv (some_inj e) (stop-Inv s v)

InTime-cons :
    (a : Action) (actions : List Action) → InTime (a ∷ actions) → InTime (a ∷ []) × InTime actions
InTime-cons timeout actions t = absurd t
InTime-cons _ actions t = (tt, t)

-- The invariant holds throughout a run.
pub run-Inv :
    (actions : List Action) (s s' : System)
    → InTime actions
    → run actions s ≡ some s'
    → Inv s
    → Inv s'
unfolding run
run-Inv [] s s' t e v = subst Inv (some_inj e) v
run-Inv (a ∷ actions) s s' t e v =
    let split = InTime-cons a actions t in
    let first = >>=-eq-some (step a s) (run actions) e in
    run-Inv actions first.0 s' split.1 first.2 (step-Inv a s first.0 split.0 first.1 v)
