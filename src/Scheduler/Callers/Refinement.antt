-- ===== src/Scheduler/Callers/Refinement.antt =====
-- Every run of the program with its callers is a run of the scheduler.
use stabsight.Base.{
  ◌≡◌, refl, sym, ◌∙◌, subst, inl, inr, Bool, true, false, some, List, [], ◌∷◌, ◌++◌, >>=-eq-some,
  Bool-cases, arith, if◌then◌else◌,
}
use stabsight.Scheduler.Exclusive.{
  System, Action, work, call, advance, abort, timeout, cancel_call, cancel_run, stop, run, InTime,
}
use stabsight.Scheduler.Exclusive.Leads.{run-append, Undisturbed-append}
use stabsight.Scheduler.Exclusive.Orderly.{Undisturbed}
use stabsight.Scheduler.Callers.{
  Program, Move, loop, lock, go_on, abandon, cut_off, unlock, end_run, stop_all, allowed,
  actions_of, calls_after, locked_after, step_program, run_program, Uncut,
}

pub some_program : {x y : Program} → some x ≡ some y → x ≡ y
some_program e = cc

abbrev pub after_event : Move → Program → System → Program
after_event e p s = record { system = s; locked = locked_after e p.locked; calls = calls_after e p }

-- What a step is made of.
pub step_program_lem :
    (e : Move) (p p' : Program)
    → step_program e p ≡ some p'
    → (allowed e p ≡ true)
      × (s : System) × (run (actions_of e p.system) p.system ≡ some s)
      × (p' ≡ after_event e p s)
unfolding step_program
step_program_lem e p p' q = elim (Bool-cases (allowed e p)) [
  | inl a ↦
      let first =
        >>=-eq-some (run (actions_of e p.system) p.system) (λ s. some (after_event e p s))
          (rw a at q) in
      (a, first.0, first.1, sym (some_program first.2))
  | inr a ↦ absurd (ground arith)
]

InTime-append : (xs ys : List Action) → InTime xs → InTime ys → InTime (xs ++ ys)
InTime-append [] ys t u = u
InTime-append (timeout ∷ xs) ys t u = absurd t
InTime-append (work _ _ ∷ xs) ys t u = InTime-append xs ys t u
InTime-append (call ∷ xs) ys t u = InTime-append xs ys t u
InTime-append (advance ∷ xs) ys t u = InTime-append xs ys t u
InTime-append (abort ∷ xs) ys t u = InTime-append xs ys t u
InTime-append (cancel_call ∷ xs) ys t u = InTime-append xs ys t u
InTime-append (cancel_run ∷ xs) ys t u = InTime-append xs ys t u
InTime-append (stop ∷ xs) ys t u = InTime-append xs ys t u

Uncut-cons : (e : Move) (events : List Move) → Uncut (e ∷ events) → Uncut (e ∷ []) × Uncut events
Uncut-cons cut_off events u = absurd u
Uncut-cons _ events u = (tt, u)

lock_actions : (b : Bool) → InTime (call ∷ (if b then cancel_call ∷ [] else []))
lock_actions true = tt
lock_actions false = tt

stop_actions : (b : Bool) → InTime (if b then stop ∷ cancel_call ∷ [] else [])
stop_actions true = tt
stop_actions false = tt

actions_of-InTime : (e : Move) (s : System) → Uncut (e ∷ []) → InTime (actions_of e s)
unfolding actions_of
actions_of-InTime cut_off s u = absurd u
actions_of-InTime (lock i) s u = lock_actions s.run_cancelled
actions_of-InTime stop_all s u = stop_actions s.running
actions_of-InTime (loop i c) s u = tt
actions_of-InTime go_on s u = tt
actions_of-InTime abandon s u = tt
actions_of-InTime (unlock i) s u = tt
actions_of-InTime end_run s u = tt

-- The schedules of the workers and the callers alone.
abbrev pub Steady : List Move → Type 0
Steady [] = Unit
Steady (loop _ _ ∷ events) = Steady events
Steady (lock _ ∷ events) = Steady events
Steady (go_on ∷ events) = Steady events
Steady (unlock _ ∷ events) = Steady events
Steady (_ ∷ events) = ⊥

Steady-cons :
    (e : Move) (events : List Move) → Steady (e ∷ events) → Steady (e ∷ []) × Steady events
Steady-cons (loop _ _) events t = (tt, t)
Steady-cons (lock _) events t = (tt, t)
Steady-cons go_on events t = (tt, t)
Steady-cons (unlock _) events t = (tt, t)
Steady-cons _ events t = absurd t

lock-Undisturbed : (b : Bool) → Undisturbed (call ∷ (if b then cancel_call ∷ [] else []))
lock-Undisturbed true = tt
lock-Undisturbed false = tt

actions_of-Undisturbed : (e : Move) (s : System) → Steady (e ∷ []) → Undisturbed (actions_of e s)
unfolding actions_of
actions_of-Undisturbed (loop i c) s u = tt
actions_of-Undisturbed (lock i) s u = lock-Undisturbed s.run_cancelled
actions_of-Undisturbed go_on s u = tt
actions_of-Undisturbed (unlock i) s u = tt
actions_of-Undisturbed _ s u = absurd u

pub run_program-run :
    (events : List Move) (p p' : Program)
    → run_program events p ≡ some p'
    → (actions : List Action) × (run actions p.system ≡ some p'.system)
      × (Uncut events → InTime actions)
      × (Steady events → Undisturbed actions)
unfolding run_program run
run_program-run [] p p' e = ([], rw (some_program e) refl, λ u. tt, λ u. tt)
run_program-run (e ∷ events) p p' q =
    let first = >>=-eq-some (step_program e p) (run_program events) q in
    let (a, s, r, eq) = step_program_lem e p first.0 first.1 in
    let (actions, r', t, d) = run_program-run events first.0 p' first.2 in
    let same : first.0.system ≡ s = rw eq refl in
    (
      actions_of e p.system ++ actions,
      run-append (actions_of e p.system) actions p.system s r
          ∙ subst (λ u. run actions u ≡ some p'.system) same r',
      λ u.
          let split = Uncut-cons e events u in
          InTime-append (actions_of e p.system) actions (actions_of-InTime e p.system split.0)
            (t split.1),
      λ u.
          let split = Steady-cons e events u in
          Undisturbed-append (actions_of e p.system) actions
            (actions_of-Undisturbed e p.system split.0) (d split.1),
    )
