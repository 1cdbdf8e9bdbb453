-- ===== src/Scheduler/Callers/Shutdown.antt =====
-- What Stop waits for: every worker's goroutine, those of the speedtests that hold or wait for the
-- mutex included.
use stabsight.Base.{
  ℕ, ◌<◌, ◌≡◌, refl, ◌∙◌, subst, inl, inr, Bool, true, false, some, List, [], ◌∷◌, >>=-eq-some,
  Bool-cases, arith,
}
use stabsight.Scheduler.Worker.{Choice, finish, ctx_done}
use stabsight.Scheduler.Exclusive.{System, Action, work, step, run}
use stabsight.Scheduler.Exclusive.Phases.{Loops}
use stabsight.Scheduler.Callers.Invariant.{Guarded, is_outside}
use stabsight.Scheduler.Exclusive.Phases.{run-Loops, start-Loops}
use stabsight.Scheduler.Exclusive.{stop_scheduler, start}
use stabsight.Scheduler.Exclusive.Attempts.{run-Attempt, start-Attempt, stopped-attempt}
use stabsight.Scheduler.Callers.Refinement.{run_program-run}
use stabsight.Scheduler.Callers.Runs.{run_program-Guarded, step_program-Guarded}
use stabsight.Scheduler.Callers.Invariant.{launch-Guarded}
use stabsight.Scheduler.Callers.Drain.{OutsideBelow, serve_from}
use stabsight.Scheduler.Callers.{
  launch, may_loop, is_tick, Program, Move, loop, stop_all, CallStage, allowed, actions_of,
  calls_after, step_program, run_program,
}
use stabsight.Scheduler.Exclusive.Drain.{Leaving, ReturnedBelow, run_from, is_returned}
use stabsight.Scheduler.Callers.Reach.{Own, Reaches}
use stabsight.Scheduler.Callers.Endings.{Stopped, Settled, release}

-- The steps of the loops alone, as events.
abbrev events_of : List Action → List Move
events_of [] = []
events_of (work i c ∷ actions) = loop i c ∷ events_of actions
events_of (_ ∷ actions) = events_of actions

events_of-Own : (actions : List Action) → Own (events_of actions)
events_of-Own [] = tt
events_of-Own (work i c ∷ actions) = events_of-Own actions
events_of-Own (_ ∷ actions) = events_of-Own actions

-- A worker that leaves its measurement or its loop.
leave_step :
    (i : ℕ) (c : Choice) (p : Program) (s : System)
    → may_loop (p.system.exclusive i) c (p.calls i) ≡ true
    → is_tick c ≡ false
    → step (work i c) p.system ≡ some s
    → step_program (loop i c) p ≡ some (record p { system = s })
unfolding step_program run actions_of allowed calls_after
leave_step i c p s m t e = ground (arith, m, t, e)

may_finish : (x : Bool) (c : CallStage) → is_outside c ≡ true → may_loop x finish c ≡ true
may_finish x c o = ground (arith, o)

may_leave : (x : Bool) (c : CallStage) → may_loop x ctx_done c ≡ true
may_leave x c = ground arith

Leaving-run_program :
    (actions : List Action) (p : Program) (s : System)
    → Leaving actions
    → ((i : ℕ) → is_outside (p.calls i) ≡ true)
    → run actions p.system ≡ some s
    → run_program (events_of actions) p ≡ some (record p { system = s })
unfolding run_program run
Leaving-run_program [] p s l o e = ground (arith, e)
Leaving-run_program (work i finish ∷ actions) p s l o e =
    let first = >>=-eq-some (step (work i finish) p.system) (run actions) e in
    rw
      (leave_step i finish p first.0 (may_finish (p.system.exclusive i) (p.calls i) (o i)) refl
        first.1)
      (Leaving-run_program actions (record p { system = first.0 }) s l o first.2)
Leaving-run_program (work i ctx_done ∷ actions) p s l o e =
    let first = >>=-eq-some (step (work i ctx_done) p.system) (run actions) e in
    rw (leave_step i ctx_done p first.0 (may_leave (p.system.exclusive i) (p.calls i)) refl first.1)
      (Leaving-run_program actions (record p { system = first.0 }) s l o first.2)
Leaving-run_program (_ ∷ actions) p s l o e = absurd l

-- The mutex is free, and the workers below n have returned.
Drained : ℕ → Program → Type 0
Drained n p = (p.locked ≡ false) × ReturnedBelow n p.system

all_outside :
    (p : Program)
    → Settled p
    → OutsideBelow p.system.count p
    → (i : ℕ) → is_outside (p.calls i) ≡ true
unfolding OutsideBelow
all_outside p s below i = elim (Bool-cases (is_outside (p.calls i))) [
  | inl o ↦ o
  | inr o ↦ below i (s.guarded.blocked i o).2
]

loops_return :
    (p : Program) → Settled p → OutsideBelow p.system.count p → Reaches p (Drained p.system.count)
unfolding Drained
loops_return p s below =
    let (steps, l, t, e, all) =
      run_from p.system.count p.system 0 s.loops s.stopped.ended (omega arith)
        (λ i m. absurd (omega (arith, m))) in
    (
      events_of steps,
      events_of-Own steps,
      record p { system = t },
      Leaving-run_program steps p t l (all_outside p s below) e,
      (s.unlocked, all),
    )

stopped_drains :
    (p : Program) → Guarded p → Loops p.system → Stopped p → Reaches p (Drained p.system.count)
unfolding OutsideBelow
stopped_drains p g v st = release p g v st (Drained p.system.count) (λ q s c.
    serve_from q.system.count q 0 (Drained p.system.count) s (omega arith)
      (λ i m. absurd (omega (arith, m)))
      (λ r s' c' below. subst (λ n. Reaches r (Drained n)) (c' ∙ c) (loops_return r s' below)))

-- The wait of Stop can end: whatever the program has done since Start, speedtests that hold the
-- mutex or wait for it, cut-off resumes and probes that nobody resumes included, once it is stopped
-- there are steps of its own after which the mutex is free and the loop of every worker has
-- returned. The only context that ends in them is that of a deferred resume, after its five seconds.
pub shutdown_completes :
    (n : ℕ) (exclusive : ℕ → Bool) (events : List Move) (p : Program)
    → run_program events (launch n exclusive) ≡ some p
    → p.system.running ≡ true
    → (steps : List Move) × Own steps
      × (p' : Program) × (run_program (stop_all ∷ steps) p ≡ some p')
      × (p'.locked ≡ false)
      × ((i : ℕ) → i < p.system.count → is_returned (p'.system.handles i).phase ≡ true)
unfolding launch Drained run_program step_program run step actions_of allowed calls_after
    stop_scheduler
shutdown_completes n exclusive events p e on =
    let g = run_program-Guarded events (launch n exclusive) p e (launch-Guarded n exclusive) in
    let (actions, r, t, d) = run_program-run events (launch n exclusive) p e in
    let v = run-Loops actions (start n exclusive) p.system r (start-Loops n exclusive) in
    let a = run-Attempt actions (start n exclusive) p.system r (start-Attempt n exclusive) in
    let p1 : Program = record p {
      system = record p.system {
        running = false;
        paused = false;
        run_cancelled = true;
        call_cancelled = true;
      };
    } in
    let stops : step_program stop_all p ≡ some p1 = rw on refl in
    let g1 = step_program-Guarded stop_all p p1 stops g in
    let (steps, o, p', e', d) = stopped_drains p1 g1 v (record {
      off = refl;
      ended = refl;
      call_ended = refl;
      attempted = stopped-attempt p.system p.system p.system.pc a;
    }) in
    (steps, o, p', rw stops e', d.0, d.1)
