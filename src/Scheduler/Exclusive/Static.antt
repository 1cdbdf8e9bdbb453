-- ===== src/Scheduler/Exclusive/Static.antt =====
-- What no step changes: the number of the workers, and which of them are exclusive.
use stabsight.Base.{ℕ, ◌≡◌, refl, ◌∙◌, subst, sym, some, List, [], ◌∷◌, >>=-eq-some, arith}
use stabsight.Scheduler.Worker.{Choice}
use stabsight.Scheduler.Exclusive.{
  Pc, broadcasting, awaiting, resuming, System, Action, work, advance, work_step, pause_broadcast,
  pause_await, resume_broadcast, stop_scheduler, execute_exclusive, step, run,
}
use stabsight.Scheduler.Exclusive.Stages.{work_step_lem}

pub record Static (s s' : System) : Type 0 where
  pub count : s'.count ≡ s.count
  pub exclusive : s'.exclusive ≡ s.exclusive

Static-trans : (s t u : System) → Static s t → Static t u → Static s u
Static-trans s t u a b = record { count = b.count ∙ a.count; exclusive = b.exclusive ∙ a.exclusive }

module _ (s s' : System) where
  work-Static : (i : ℕ) (c : Choice) → work_step i c s ≡ some s' → Static s s'
  work-Static i c e =
      let w = work_step_lem i c s s' e in
      subst (Static s) (sym w.2) (record { count = refl; exclusive = refl })

  execute-Static : (p : Pc) → execute_exclusive p s ≡ some s' → Static s s'
  unfolding pause_broadcast pause_await resume_broadcast
  execute-Static (broadcasting k) e = record { count = ground arith; exclusive = ground arith }
  execute-Static (awaiting k) e = record { count = ground arith; exclusive = ground arith }
  execute-Static (resuming b k) e = record { count = ground arith; exclusive = ground arith }
  execute-Static p e = record { count = ground arith; exclusive = ground arith }

  step-Static : (a : Action) → step a s ≡ some s' → Static s s'
  unfolding step stop_scheduler
  step-Static (work i c) e = work-Static i c e
  step-Static advance e = execute-Static s.pc e
  step-Static _ e = record { count = ground arith; exclusive = ground arith }

pub run-Static : (actions : List Action) (s s' : System) → run actions s ≡ some s' → Static s s'
unfolding run
run-Static [] s s' e = record { count = ground arith; exclusive = ground arith }
run-Static (a ∷ actions) s s' e =
    let first = >>=-eq-some (step a s) (run actions) e in
    Static-trans s first.0 s' (step-Static s first.0 a first.1)
      (run-Static actions first.0 s' first.2)
