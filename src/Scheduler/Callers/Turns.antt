-- ===== src/Scheduler/Callers/Turns.antt =====
-- A speedtest that waits for the mutex gets its turn: its task can run.
use stabsight.Base.{
  ℕ, ◌≡◌, ◌≢◌, refl, ◌∙◌, subst, inl, inr, Bool, true, false, some, List, [], ◌∷◌, ◌++◌, update,
  >>=-eq-some, Bool-cases, arith, if◌then◌else◌,
}
use stabsight.Scheduler.Worker.{Choice}
use stabsight.Scheduler.Exclusive.{
  Pc, idle, entering, executing, finished, System, Action, work, call, cancel_call, advance, start,
  step, run,
}
use stabsight.Scheduler.Exclusive.Stages.{update_own, update_other}
use stabsight.Scheduler.Exclusive.Orderly.{Orderly}
use stabsight.Scheduler.Exclusive.Orderly.Steps.{run-Orderly, start-Orderly}
use stabsight.Scheduler.Exclusive.Leads.{Carried, Carried-Undisturbed}
use stabsight.Scheduler.Exclusive.Static.{run-Static}
use stabsight.Scheduler.Exclusive.Progress.{Over, Orderly→over, call_step, call_carried}
use stabsight.Scheduler.Callers.{
  CallStage, outside, waiting, inside, is_inside, is_waiting, is_over, Program, Move, loop, lock,
  go_on, unlock, launch, allowed, actions_of, calls_after, step_program, run_program,
}
use stabsight.Scheduler.Callers.Refinement.{run_program-run, Steady}
use stabsight.Scheduler.Callers.Reach.{run_program-append}
use stabsight.Scheduler.Callers.Invariant.{launch-Guarded}
use stabsight.Scheduler.Callers.Runs.{run_program-Guarded}

-- Steps of the workers that are not exclusive, and of the call that is under way, as events.
abbrev carried_events : List Action → List Move
carried_events [] = []
carried_events (work i c ∷ actions) = loop i c ∷ carried_events actions
carried_events (advance ∷ actions) = go_on ∷ carried_events actions
carried_events (_ ∷ actions) = carried_events actions

carried_events-Steady : (actions : List Action) → Steady (carried_events actions)
carried_events-Steady [] = tt
carried_events-Steady (work i c ∷ actions) = carried_events-Steady actions
carried_events-Steady (advance ∷ actions) = carried_events-Steady actions
carried_events-Steady (_ ∷ actions) = carried_events-Steady actions

pub light_step :
    (i : ℕ) (c : Choice) (p : Program) (s : System)
    → p.system.exclusive i ≡ false
    → step (work i c) p.system ≡ some s
    → step_program (loop i c) p ≡ some (record p { system = s })
unfolding step_program run actions_of allowed calls_after
light_step i c p s x e = ground (arith, x, e)

go_on_step :
    (p : Program) (s : System)
    → step advance p.system ≡ some s
    → step_program go_on p ≡ some (record p { system = s })
unfolding step_program run actions_of allowed calls_after
go_on_step p s e = rw e refl

Carried-run_program :
    (actions : List Action) (p : Program) (s : System)
    → Carried p.system.exclusive actions
    → run actions p.system ≡ some s
    → run_program (carried_events actions) p ≡ some (record p { system = s })
unfolding run_program run
Carried-run_program [] p s t e = ground (arith, e)
Carried-run_program (work i c ∷ actions) p s t e =
    let first = >>=-eq-some (step (work i c) p.system) (run actions) e in
    let same = run-Static (work i c ∷ []) p.system first.0 (rw first.1) in
    rw (light_step i c p first.0 t.0 first.1) (
      Carried-run_program actions (record p { system = first.0 }) s (rw same.exclusive t.1) first.2)
Carried-run_program (advance ∷ actions) p s t e =
    let first = >>=-eq-some (step advance p.system) (run actions) e in
    let same = run-Static (advance ∷ []) p.system first.0 (rw first.1) in
    rw (go_on_step p first.0 first.1)
      (Carried-run_program actions (record p { system = first.0 }) s (rw same.exclusive t) first.2)
Carried-run_program (_ ∷ actions) p s t e = absurd t

-- Steps of the workers and of the callers alone after which speedtest i runs its task.
abbrev pub Turn : ℕ → Program → Type 0
Turn i p =
    (steps : List Move) × Steady steps
    × (p' : Program) × (run_program steps p ≡ some p')
    × (is_inside (p'.calls i) ≡ true)
    × (p'.system.pc ≡ executing)

Steady-append : (xs ys : List Move) → Steady xs → Steady ys → Steady (xs ++ ys)
Steady-append [] ys o w = w
Steady-append (loop i c ∷ xs) ys o w = Steady-append xs ys o w
Steady-append (lock i ∷ xs) ys o w = Steady-append xs ys o w
Steady-append (go_on ∷ xs) ys o w = Steady-append xs ys o w
Steady-append (unlock i ∷ xs) ys o w = Steady-append xs ys o w
Steady-append (_ ∷ xs) ys o w = absurd o

Turn-later :
    (i : ℕ) (p q : Program) (xs : List Move)
    → Steady xs
    → run_program xs p ≡ some q
    → Turn i q
    → Turn i p
Turn-later i p q xs t e (ys, u, r, f, y, x) =
    (xs ++ ys, Steady-append xs ys t u, r, run_program-append xs ys p q e ∙ f, y, x)

Over-is_over : (s : System) → Over s → is_over s.pc ≡ true
Over-is_over s (inl p) = rw p refl
Over-is_over s (inr (b, p)) = rw p refl

is_over-Over : (s : System) → (q : Pc) → s.pc ≡ q → is_over q ≡ true → Over s
is_over-Over s idle p o = inl p
is_over-Over s (finished b) p o = inr (b, p)
is_over-Over s _ p o = cc

call_run :
    (s : System) (b : Bool)
    → b ≡ false
    → Over s
    → run (call ∷ (if b then cancel_call ∷ [] else [])) s
      ≡ some (record s { pc = entering; call_cancelled = false })
unfolding run
call_run s false e v = rw (call_step s v) refl
call_run s true e v = cc

-- The mutex is free.
free_mutex :
    (i : ℕ) (p : Program)
    → Orderly p.system
    → Over p.system
    → p.locked ≡ false
    → is_waiting (p.calls i) ≡ true
    → Turn i p
unfolding step_program run_program actions_of allowed calls_after
free_mutex i p o v u w =
    let p1 : Program = record {
      system = record p.system { pc = entering; call_cancelled = false };
      locked = true;
      calls = update p.calls i inside;
    } in
    let locks : step_program (lock i) p ≡ some p1 =
      rw (u, w, call_run p.system p.system.run_cancelled o.alive v) refl in
    let (xs, t, s, e, x) = call_carried p.system o v in
    (
      lock i ∷ carried_events xs,
      carried_events-Steady xs,
      record p1 { system = s },
      rw locks (Carried-run_program xs p1 s t e),
      rw (update_own p.calls i inside) refl,
      x,
    )

-- Another speedtest holds it.
held_mutex :
    (i j : ℕ) (p : Program)
    → Orderly p.system
    → is_inside (p.calls j) ≡ true
    → is_waiting (p.calls i) ≡ true
    → Turn i p
unfolding step_program run_program run actions_of allowed calls_after
held_mutex i j p o y w =
    let (xs, t, s, e, v) = Orderly→over p.system o in
    let p1 : Program = record p { system = s } in
    let p2 : Program = record p1 { locked = false; calls = update p.calls j outside } in
    let unlocks : step_program (unlock j) p1 ≡ some p2 = rw (y, Over-is_over s v) refl in
    let os = run-Orderly xs p.system s (Carried-Undisturbed p.system.exclusive xs t) e o in
    let apart : j ≢ i =
      λ q. waits_outside (p.calls i) (subst (λ k. is_inside (p.calls k) ≡ true) q y) w in
    Turn-later i p p1 (carried_events xs) (carried_events-Steady xs)
      (Carried-run_program xs p s t e)
      (Turn-later i p1 p2 (unlock j ∷ []) tt (rw unlocks refl)
        (free_mutex i p2 os v refl (rw (update_other p.calls j i outside apart) w)))
  where
    waits_outside : (c : CallStage) → is_inside c ≡ true → ¬ (is_waiting c ≡ true)
    waits_outside c a b = ground (arith, a, b)

-- No speedtest is locked out: in whatever state a freshly started scheduler has come to while no
-- PauseAll was aborted, no ResumeAll timed out, the context of the run did not end and nobody called
-- Stop, a speedtest that waits for the mutex can get it and run its task, by steps of the workers
-- and of the callers alone.
pub waiting-Turn :
    (n : ℕ) (exclusive : ℕ → Bool) (events : List Move) (p : Program)
    → Steady events
    → run_program events (launch n exclusive) ≡ some p
    → (i : ℕ) → p.calls i ≡ waiting
    → Turn i p
unfolding launch
waiting-Turn n exclusive events p t e i w =
    let g = run_program-Guarded events (launch n exclusive) p e (launch-Guarded n exclusive) in
    let (actions, r, c, d) = run_program-run events (launch n exclusive) p e in
    let o = run-Orderly actions (start n exclusive) p.system (d t) r (start-Orderly n exclusive) in
    elim (Bool-cases p.locked) [
      | inl l ↦ let (j, y) = g.owner l in held_mutex i j p o y (rw w refl)
      | inr u ↦ free_mutex i p o (is_over-Over p.system p.system.pc refl (g.over u)) u (rw w refl)
    ]
