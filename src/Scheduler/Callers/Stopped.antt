-- ===== src/Scheduler/Callers/Stopped.antt =====
-- A scheduler that is stopped begins no further task.
use stabsight.Base.{ℕ, ◌≡◌, ◌≢◌, Bool, true, false, some, List, [], ◌∷◌, >>=-eq-some, arith}
use stabsight.Scheduler.Exclusive.{
  Pc, idle, entering, pause_failed, executing, finished, System, Action, work, advance,
  stop_scheduler, execute_exclusive, step, run,
}
use stabsight.Scheduler.Exclusive.Stages.{work_step_lem}
use stabsight.Scheduler.Callers.{Program, Move, launch, is_over, run_program}
use stabsight.Scheduler.Callers.Refinement.{run_program-run}
use stabsight.Scheduler.Callers.Invariant.{launch-Guarded}
use stabsight.Scheduler.Callers.Runs.{run_program-Guarded}

-- No call is past the first section of its PauseAll.
abbrev refused : Pc → Bool
refused idle = true
refused entering = true
refused pause_failed = true
refused (finished _) = true
refused _ = false

abbrev Refused : System → Type 0
Refused s = (s.running ≡ false) × (refused s.pc ≡ true)

module _ (s s' : System) where
  execute-Refused :
      (p : Pc)
      → execute_exclusive p s ≡ some s'
      → (s.running ≡ false) × (refused p ≡ true)
      → Refused s'
  execute-Refused entering e v = (ground (arith, v.0), ground (arith, v.0))
  execute-Refused pause_failed e v = (ground (arith, v.0), ground (arith, v.0))
  execute-Refused idle e v = cc
  execute-Refused (finished b) e v = cc
  execute-Refused _ e v = cc (v.1)

  step-Refused : (a : Action) → step a s ≡ some s' → Refused s → Refused s'
  unfolding step stop_scheduler
  step-Refused (work i c) e v = let w = work_step_lem i c s s' e in rw w.2 v
  step-Refused advance e v = execute-Refused s.pc e v
  step-Refused _ e v = (ground (arith, v.0), ground (arith, v.0, v.1))

run-Refused :
    (actions : List Action) (s s' : System) → run actions s ≡ some s' → Refused s → Refused s'
unfolding run
run-Refused [] s s' e v = (ground (arith, v.0), ground (arith, v.1))
run-Refused (a ∷ actions) s s' e v =
    let first = >>=-eq-some (step a s) (run actions) e in
    run-Refused actions first.0 s' first.2 (step-Refused s first.0 a first.1 v)

over-refused : (q : Pc) → is_over q ≡ true → refused q ≡ true
over-refused q o = ground (arith, o)

-- No task begins once the scheduler is stopped and no speedtest holds the mutex: whatever the program
-- did before, and whatever happens after that, a second Start apart, no task is executed; the
-- speedtests that get the mutex later are refused.
pub stopped_refuses :
    (n : ℕ) (exclusive : ℕ → Bool) (before events : List Move) (p p' : Program)
    → run_program before (launch n exclusive) ≡ some p
    → p.system.running ≡ false
    → p.locked ≡ false
    → run_program events p ≡ some p'
    → p'.system.pc ≢ executing
stopped_refuses n exclusive before events p p' e off u r x =
    let g = run_program-Guarded before (launch n exclusive) p e (launch-Guarded n exclusive) in
    let (actions, a, c, d) = run_program-run events p p' r in
    let v = run-Refused actions p.system p'.system a (off, over-refused p.system.pc (g.over u)) in
    cc (v.1, x)
