-- ===== src/Scheduler/Exclusive/Progress.antt =====
-- PauseAll and ResumeAll never deadlock: whatever stage an undisturbed run has reached, steps of the
-- workers and of the caller lead on to the exclusive task.
use stabsight.Base.{
  ℕ, zero, suc, ◌+◌, ◌≤◌, ◌≡◌, ◌⊎◌, ◌∙◌, ◌++◌, refl, inl, inr, Bool, true, false, some, List, [],
  ◌∷◌, arith,
}
use stabsight.Scheduler.Exclusive.{
  Pc, idle, entering, broadcasting, awaiting, pause_failed, executing, resume_entry, resuming,
  finished, System, Action, call, advance, start, pause_broadcast, pause_await, resume_broadcast,
  step, run,
}
use stabsight.Scheduler.Exclusive.Orderly.{Undisturbed, Orderly}
use stabsight.Scheduler.Exclusive.Orderly.Steps.{run-Orderly, start-Orderly}
use stabsight.Scheduler.Exclusive.Leads.{
  Leads, Carried-Undisturbed, Undisturbed-append, run-append, Leads-step, Leads-now, Leads-trans,
}
use stabsight.Scheduler.Exclusive.Rounds.{
  Next, broadcasting-Leads, awaiting-Leads, resume_step, loop-Leads,
}

-- The last rounds, and the steps between the loops.
module _ (s : System) (o : Orderly s) where
  advance-Leads :
      (s' : System) (q : Pc) → step advance s ≡ some s' → Next s q s' → Leads s (Next s q)
  advance-Leads s' q e n = Leads-step _ advance s s' tt e n

  broadcast_end : (k : ℕ) → s.count ≤ k → s.pc ≡ broadcasting k → Leads s (Next s (awaiting 0))
  unfolding step pause_broadcast
  broadcast_end k l p = advance-Leads (record s { pc = awaiting 0 }) _ (ground arith) (refl, refl)

  await_end : (k : ℕ) → s.count ≤ k → s.pc ≡ awaiting k → Leads s (Next s executing)
  unfolding step pause_await
  await_end k l p =
      advance-Leads (record s { paused = true; pc = executing }) _ (ground arith) (refl, refl)

  resume_end :
      (b : Bool) (k : ℕ)
      → s.count ≤ k
      → s.pc ≡ resuming b k
      → (s' : System) × (step advance s ≡ some s') × Next s (finished b) s'
  unfolding step resume_broadcast
  resume_end b k l p = (record s { paused = false; pc = finished b }, ground arith, (refl, refl))

  enter : s.pc ≡ entering → Leads s (Next s (broadcasting 0))
  unfolding step
  enter p =
      let r = o.running in
      let u : s.paused ≡ false = rw (o.marked, p) in
      advance-Leads (record s { pc = broadcasting 0 }) _ (ground arith) (refl, refl)

  to_resume : s.pc ≡ executing → (s' : System) × (step advance s ≡ some s') × Next s resume_entry s'
  unfolding step
  to_resume p = (record s { pc = resume_entry }, ground arith, (refl, refl))

  resume_enter :
      s.pc ≡ resume_entry → (s' : System) × (step advance s ≡ some s') × Next s (resuming true 0) s'
  unfolding step
  resume_enter p =
      let r = o.running in
      let u : s.paused ≡ true = rw (o.marked, p) in
      (record s { pc = resuming true 0 }, ground arith, (refl, refl))

abbrev Executing : System → Type 0
Executing s = s.pc ≡ executing

single :
    (s : System) (q : Pc)
    → ((s' : System) × (step advance s ≡ some s') × Next s q s')
    → Leads s (Next s q)
single s q (s', e, n) = Leads-step _ advance s s' tt e n

awaiting→executing : (s : System) → Orderly s → (k : ℕ) → s.pc ≡ awaiting k → Leads s Executing
awaiting→executing s o k p =
    Leads-trans _ (Next s executing) s o
      (loop-Leads awaiting executing (λ t j u l q. awaiting-Leads t j u l q)
        (λ t j u l q. await_end t u j l q) s.count s k o (omega arith) p)
      (λ t ot n. Leads-now _ t n.0)

broadcasting→executing :
    (s : System) → Orderly s → (k : ℕ) → s.pc ≡ broadcasting k → Leads s Executing
broadcasting→executing s o k p =
    Leads-trans _ (Next s (awaiting 0)) s o
      (loop-Leads broadcasting (awaiting 0) (λ t j u l q. broadcasting-Leads t j u l q)
        (λ t j u l q. broadcast_end t u j l q) s.count s k o (omega arith) p)
      (λ t ot n. awaiting→executing t ot 0 n.0)

entering→executing : (s : System) → Orderly s → s.pc ≡ entering → Leads s Executing
entering→executing s o p =
    Leads-trans _ (Next s (broadcasting 0)) s o (enter s o p)
      (λ t ot n. broadcasting→executing t ot 0 n.0)

-- No call is under way.
abbrev pub Over : System → Type 0
Over s = (s.pc ≡ idle) ⊎ ((b : Bool) × (s.pc ≡ finished b))

resuming→over : (s : System) → Orderly s → (b : Bool) (k : ℕ) → s.pc ≡ resuming b k → Leads s Over
resuming→over s o b k p =
    Leads-trans _ (Next s (finished b)) s o
      (loop-Leads (resuming b) (finished b) (λ t j u l q. single t _ (resume_step t j u l b q))
        (λ t j u l q. single t _ (resume_end t u b j l q)) s.count s k o (omega arith) p)
      (λ t ot n. Leads-now _ t (inr (b, n.0)))

resume_entry→over : (s : System) → Orderly s → s.pc ≡ resume_entry → Leads s Over
resume_entry→over s o p =
    Leads-trans _ (Next s (resuming true 0)) s o (single s _ (resume_enter s o p))
      (λ t ot n. resuming→over t ot true 0 n.0)

executing→over : (s : System) → Orderly s → s.pc ≡ executing → Leads s Over
executing→over s o p =
    Leads-trans _ (Next s resume_entry) s o (single s _ (to_resume s o p))
      (λ t ot n. resume_entry→over t ot n.0)

-- A call that is under way comes to its task, or is past it; and it comes to its end.
under_way : (s : System) → Orderly s → (p : Pc) → s.pc ≡ p → Leads s Executing ⊎ Leads s Over
under_way s o idle p = inr (Leads-now _ s (inl p))
under_way s o entering p = inl (entering→executing s o p)
under_way s o (broadcasting k) p = inl (broadcasting→executing s o k p)
under_way s o (awaiting k) p = inl (awaiting→executing s o k p)
under_way s o pause_failed p = absurd (ground (arith, o.succeeds))
under_way s o executing p = inl (Leads-now _ s p)
under_way s o resume_entry p = inr (resume_entry→over s o p)
under_way s o (resuming b k) p = inr (resuming→over s o b k p)
under_way s o (finished b) p = inr (Leads-now _ s (inr (b, p)))

pub Orderly→over : (s : System) → Orderly s → Leads s Over
Orderly→over s o = elim (under_way s o s.pc refl) [
  | inl l ↦ Leads-trans _ Executing s o l (λ t ot p. executing→over t ot p)
  | inr l ↦ l
]

-- Undisturbed steps lead to the task of a call.
abbrev pub Continues : System → Type 0
Continues s =
    (actions : List Action) × Undisturbed actions
    × (s' : System) × (run actions s ≡ some s')
    × (s'.pc ≡ executing)

Leads→Continues : (s : System) → Leads s Executing → Continues s
Leads→Continues s (xs, t, s', e, p) = (xs, Carried-Undisturbed s.exclusive xs t, s', e, p)

-- A new call of ExecuteExclusive.
pub call_step :
    (s : System) → Over s → step call s ≡ some (record s { pc = entering; call_cancelled = false })
unfolding step
call_step s (inl p) = ground arith
call_step s (inr (b, p)) = ground arith

pub call_carried :
    (s : System)
    → Orderly s
    → Over s
    → Leads (record s { pc = entering; call_cancelled = false }) Executing
unfolding run
call_carried s o v =
    let s1 : System = record s { pc = entering; call_cancelled = false } in
    entering→executing s1 (run-Orderly (call ∷ []) s s1 tt (rw (call_step s v)) o) refl

over→Continues : (s : System) → Orderly s → Over s → Continues s
unfolding run
over→Continues s o v =
    let (xs, t, s', e, p) = Leads→Continues _ (call_carried s o v) in
    (call ∷ xs, t, s', rw (call_step s v) e, p)

Orderly→Continues : (s : System) → Orderly s → Continues s
Orderly→Continues s o = elim (under_way s o s.pc refl) [
  | inl l ↦ Leads→Continues s l
  | inr (xs, t, s', e, v) ↦
      let t' = Carried-Undisturbed s.exclusive xs t in
      let (ys, u, s'', f, p) = over→Continues s' (run-Orderly xs s s' t' e o) v in
      (xs ++ ys, Undisturbed-append xs ys t' u, s'', run-append xs ys s s' e ∙ f, p)
]

-- PauseAll and ResumeAll never deadlock: from whatever state a freshly started scheduler has reached
-- while no PauseAll was aborted, no ResumeAll timed out, the context of the run did not end and
-- nobody called Stop, there are steps of the workers and of the caller alone that lead to an
-- execution of an exclusive task.
task_reachable :
    (n : ℕ) (exclusive : ℕ → Bool) (actions : List Action) (s : System)
    → Undisturbed actions
    → run actions (start n exclusive) ≡ some s
    → Continues s
task_reachable n exclusive actions s t e =
    Orderly→Continues s (run-Orderly actions (start n exclusive) s t e (start-Orderly n exclusive))

-- Steps of the caller only.
abbrev pub advances : ℕ → List Action
advances zero = []
advances (suc n) = advance ∷ advances n

Undisturbed-advances : (n : ℕ) → Undisturbed (advances n)
Undisturbed-advances zero = tt
Undisturbed-advances (suc n) = Undisturbed-advances n

module _ (b : Bool) where
  resumes :
      (left : ℕ) (s : System) (k : ℕ)
      → Orderly s
      → k + left ≡ s.count
      → s.pc ≡ resuming b k
      → (s' : System) × (run (advances (suc left)) s ≡ some s') × (s'.pc ≡ finished b)
  unfolding run
  resumes zero s k o l p = let (s', e, n) = resume_end s o b k (omega arith) p in (s', rw e, n.0)
  resumes (suc left) s k o l p =
      let (t, e, n) = resume_step s k o (omega arith) b p in
      let ot = run-Orderly (advance ∷ []) s t tt (rw e) o in
      let (s', f, m) = resumes left t (suc k) ot (omega (arith, n.1)) n.0 in (s', rw e f, m)

three_more :
    (c : ℕ) (s s1 s2 s' : System)
    → step advance s ≡ some s1
    → step advance s1 ≡ some s2
    → run (advances (suc c)) s2 ≡ some s'
    → run (advances (c + 3)) s ≡ some s'
unfolding run
three_more c s s1 s2 s' e1 e2 f =
    let n : c + 3 ≡ suc (suc (suc c)) = omega arith in rw n (rw e1 (rw e2 f))

-- The deferred ResumeAll never waits: from a state in which the exclusive task runs, reached by a
-- freshly started scheduler while no PauseAll was aborted, no ResumeAll timed out, the context of
-- the run did not end and nobody called Stop, the caller's own steps, one for each worker and three
-- more, end ExecuteExclusive without a step of any worker.
pub resume_alone :
    (n : ℕ) (exclusive : ℕ → Bool) (actions : List Action) (s : System)
    → Undisturbed actions
    → run actions (start n exclusive) ≡ some s
    → s.pc ≡ executing
    → (s' : System) × (run (advances (s.count + 3)) s ≡ some s') × (s'.pc ≡ finished true)
unfolding run
resume_alone n exclusive actions s t e p =
    let o = run-Orderly actions (start n exclusive) s t e (start-Orderly n exclusive) in
    let (s1, e1, n1) = to_resume s o p in
    let o1 = run-Orderly (advance ∷ []) s s1 tt (rw e1) o in
    let (s2, e2, n2) = resume_enter s1 o1 n1.0 in
    let o2 = run-Orderly (advance ∷ []) s1 s2 tt (rw e2) o1 in
    let (s', f, m) = resumes true s.count s2 0 o2 (omega (arith, n2.1, n1.1)) n2.0 in
    (s', three_more s.count s s1 s2 s' e1 e2 f, m)
