-- ===== src/Scheduler/Exclusive/Attempts.antt =====
-- The ResumeAll of the error path of ExecuteExclusive, in every run, cut-off resumes included.
use stabsight.Base.{
  ℕ, inl, inr, Bool-cases, ◌≡◌, refl, subst, Bool, true, false, not, ◌&&◌, some, List, [], ◌∷◌,
  >>=-eq-some, arith,
}
use stabsight.Scheduler.Exclusive.{
  Pc, idle, entering, broadcasting, awaiting, pause_failed, executing, resume_entry, resuming,
  finished, System, Action, work, advance, stop, start, pause_broadcast, pause_await,
  resume_broadcast, stop_scheduler, execute_exclusive, step, run,
}
use stabsight.Scheduler.Exclusive.Stages.{work_step_lem}

-- While a pause is under way or has failed, a running scheduler is not marked as paused.
abbrev pub attempt : Pc → Bool → Bool → Bool
attempt (broadcasting _) running paused = not (running && paused)
attempt (awaiting _) running paused = not (running && paused)
attempt pause_failed running paused = not (running && paused)
attempt (resuming false _) running paused = false
attempt _ running paused = true

abbrev pub Attempt : System → Type 0
Attempt s = attempt s.pc s.running s.paused ≡ true

module _ (s s' : System) where
  execute-Attempt :
      (p : Pc) → attempt p s.running s.paused ≡ true → execute_exclusive p s ≡ some s' → Attempt s'
  unfolding pause_broadcast pause_await resume_broadcast
  execute-Attempt idle v e = cc
  execute-Attempt entering v e = ground arith
  execute-Attempt (broadcasting k) v e = ground arith
  execute-Attempt (awaiting k) v e = ground arith
  execute-Attempt pause_failed v e = ground arith
  execute-Attempt executing v e = ground arith
  execute-Attempt resume_entry v e = ground arith
  execute-Attempt (resuming b k) v e = ground arith
  execute-Attempt (finished b) v e = cc

  pub stopped-attempt :
      (p : Pc) → attempt p s.running s.paused ≡ true → attempt p false false ≡ true
  stopped-attempt p v = ground arith

  step-Attempt : (a : Action) → step a s ≡ some s' → Attempt s → Attempt s'
  unfolding step stop_scheduler
  step-Attempt (work i c) e v = let w = work_step_lem i c s s' e in rw w.2 v
  step-Attempt advance e v = execute-Attempt s.pc v e
  step-Attempt stop e v = elim (Bool-cases s.running) [
    | inl r ↦
        subst Attempt {x = record s { run_cancelled = true; running = false; paused = false }}
          {y = s'} (ground arith) (stopped-attempt s.pc v)
    | inr r ↦ subst Attempt {x = s} {y = s'} (ground arith) v
  ]
  step-Attempt _ e v = ground arith

pub run-Attempt :
    (actions : List Action) (s s' : System) → run actions s ≡ some s' → Attempt s → Attempt s'
unfolding run
run-Attempt [] s s' e v = ground arith
run-Attempt (a ∷ actions) s s' e v =
    let first = >>=-eq-some (step a s) (run actions) e in
    run-Attempt actions first.0 s' first.2 (step-Attempt s first.0 a first.1 v)

pub start-Attempt : (n : ℕ) (exclusive : ℕ → Bool) → Attempt (start n exclusive)
unfolding start
start-Attempt n exclusive = refl
