-- ===== src/Scheduler/Exclusive/Stranded.antt =====
-- What a PauseAll that is cancelled half way leaves behind: ResumeAll does nothing, since `paused`
-- was not set yet, and a worker whose acknowledgement was taken waits in its pause loop for good.
use stabsight.Base.{
  ℕ, ◌<◌, ◌≡◌, ◌≢◌, refl, sym, subst, Bool, true, false, not, ◌&&◌, Option, none, some, List, [],
  ◌∷◌, leb, update, >>=-eq-some, arith,
}
use stabsight.Scheduler.Command.{Command, cmd_pause}
use stabsight.Scheduler.Worker.{Handle, Choice, Phase, pausing, light_start}
use stabsight.Scheduler.Exclusive.{
  System, Action, work, call, advance, abort, timeout, cancel_call, cancel_run, stop, step, run, Pc,
  idle, entering, broadcasting, awaiting, pause_failed, executing, resume_entry, resuming, finished,
  pause_broadcast, pause_await, execute_exclusive, abort_call,
}
use stabsight.Scheduler.Exclusive.Stages.{work_step_lem, work-Keeps}

-- The schedules in which neither the run is cancelled nor the scheduler stopped.
abbrev pub KeepsRunning : List Action → Type 0
KeepsRunning [] = Unit
KeepsRunning (cancel_run ∷ actions) = ⊥
KeepsRunning (stop ∷ actions) = ⊥
KeepsRunning (_ ∷ actions) = KeepsRunning actions

abbrev only_pause : Option Command → Bool
only_pause none = true
only_pause (some cmd_pause) = true
only_pause _ = false

abbrev in_pause_loop : Phase → Bool
in_pause_loop pausing = true
in_pause_loop _ = false

-- In the pause loop, with nothing acknowledged and nothing but CmdPause to receive.
abbrev is_stranded : Handle → Bool
is_stranded h = in_pause_loop h.phase && (not h.ack_chan && only_pause h.cmd_chan)

-- ExecuteExclusive has not passed the acknowledgement of worker i.
abbrev behind : ℕ → Pc → Bool
behind i executing = false
behind i resume_entry = false
behind i (resuming _ _) = false
behind i (awaiting k) = leb k i
behind i _ = true

record Stuck (i : ℕ) (s : System) : Type 0 where
  registered : i < s.count
  light : s.exclusive i ≡ false
  unpaused : s.paused ≡ false
  alive : s.run_cancelled ≡ false
  stranded : is_stranded (s.handles i) ≡ true
  blocked : behind i s.pc ≡ true

light_start-is_stranded :
    (c : Choice) (h h' : Handle)
    → light_start false c h ≡ some h'
    → is_stranded h ≡ true
    → is_stranded h' ≡ true
unfolding light_start
light_start-is_stranded c h h' e f = ground arith

abbrev StuckWith : ℕ → Pc → (ℕ → Handle) → System → Type 0
StuckWith i p f s = Stuck i (record s { pc = p; handles = f })

module _ (i : ℕ) (s : System) (v : Stuck i s) where
  work-Stuck : (j : ℕ) (c : Choice) (s' : System) → step (work j c) s ≡ some s' → Stuck i s'
  unfolding step
  work-Stuck j c s' e =
      let w = work_step_lem j c s s' e in
      let kept : is_stranded (update s.handles j w.0 i) ≡ true =
        work-Keeps is_stranded j c s w.0 (rw v.alive light_start-is_stranded) w.1 i v.light
          v.stranded in
      subst (Stuck i) (sym w.2) (record {
        registered = v.registered;
        light = v.light;
        unpaused = v.unpaused;
        alive = v.alive;
        stranded = kept;
        blocked = v.blocked;
      })

  pause_broadcast-Stuck : (k : ℕ) (s' : System) → pause_broadcast k s ≡ some s' → Stuck i s'
  unfolding pause_broadcast
  pause_broadcast-Stuck k s' e = ground arith

  pause_await-Stuck :
      (k : ℕ) (s' : System) → leb k i ≡ true → pause_await k s ≡ some s' → Stuck i s'
  unfolding pause_await
  pause_await-Stuck k s' b e = ground arith

  execute-Stuck :
      (p : Pc) (s' : System) → behind i p ≡ true → execute_exclusive p s ≡ some s' → Stuck i s'
  execute-Stuck idle s' b e = cc
  execute-Stuck entering s' b e = ground arith
  execute-Stuck (broadcasting k) s' b e = pause_broadcast-Stuck k s' e
  execute-Stuck (awaiting k) s' b e = pause_await-Stuck k s' b e
  execute-Stuck pause_failed s' b e = ground arith
  execute-Stuck executing s' b e = cc
  execute-Stuck resume_entry s' b e = cc
  execute-Stuck (resuming _ _) s' b e = cc
  execute-Stuck (finished _) s' b e = cc

  step-Stuck : (a : Action) (s' : System) → KeepsRunning (a ∷ []) → step a s ≡ some s' → Stuck i s'
  unfolding step
  step-Stuck (work j c) s' t e = work-Stuck j c s' e
  step-Stuck call s' t e = ground arith
  step-Stuck advance s' t e = execute-Stuck s.pc s' v.blocked e
  step-Stuck abort s' t e = ground arith
  step-Stuck timeout s' t e = ground arith
  step-Stuck cancel_call s' t e = ground arith
  step-Stuck cancel_run s' t e = absurd t
  step-Stuck stop s' t e = absurd t

KeepsRunning-cons :
    (a : Action) (actions : List Action)
    → KeepsRunning (a ∷ actions)
    → KeepsRunning (a ∷ []) × KeepsRunning actions
KeepsRunning-cons cancel_run actions t = absurd t
KeepsRunning-cons stop actions t = absurd t
KeepsRunning-cons _ actions t = (tt, t)

run-Stuck :
    (i : ℕ) (actions : List Action) (s s' : System)
    → KeepsRunning actions
    → run actions s ≡ some s'
    → Stuck i s
    → Stuck i s'
unfolding run
run-Stuck i [] s s' t e v = subst (Stuck i) (ground arith) v
run-Stuck i (a ∷ actions) s s' t e v =
    let split = KeepsRunning-cons a actions t in
    let first = >>=-eq-some (step a s) (run actions) e in
    run-Stuck i actions first.0 s' split.1 first.2 (step-Stuck i s v a first.0 split.0 first.1)

lost_pc : (i : ℕ) (p : Pc) → behind i p ≡ true → p ≡ executing → ⊥
lost_pc i p b e = cc (rw e at b)

lost_phase : (h : Handle) → is_stranded h ≡ true → h.phase ≡ pausing
lost_phase h e = ground arith

Stuck-lost : (i : ℕ) (s : System) → Stuck i s → (s.pc ≢ executing) × ((s.handles i).phase ≡ pausing)
Stuck-lost i s v = (λ p. lost_pc i s.pc v.blocked p, lost_phase (s.handles i) v.stranded)

abort-Stuck :
    (i : ℕ) (s s' : System)
    → is_stranded (s.handles i) ≡ true
    → i < s.count
    → s.exclusive i ≡ false
    → s.paused ≡ false
    → s.run_cancelled ≡ false
    → abort_call s.pc s ≡ some s'
    → Stuck i s'
abort-Stuck i s s' h l x u r e = ground arith

-- A PauseAll whose context is cancelled while a registered, non-exclusive worker i stands in its
-- pause loop with its acknowledgement taken, the scheduler not being marked as paused, leaves that
-- worker there for good: whatever happens next, short of a shutdown, the worker stays in its pause
-- loop and no exclusive task ever runs again.
pub stranded_forever :
    (s : System) (i : ℕ) (actions : List Action) (s' : System)
    → i < s.count
    → s.exclusive i ≡ false
    → s.paused ≡ false
    → s.run_cancelled ≡ false
    → s.handles i ≡ record { phase = pausing; cmd_chan = none; ack_chan = false }
    → KeepsRunning actions
    → run (abort ∷ actions) s ≡ some s'
    → (s'.pc ≢ executing) × ((s'.handles i).phase ≡ pausing)
unfolding run step
stranded_forever s i actions s' l x u r h t e =
    let aborted = >>=-eq-some (step abort s) (run actions) e in
    let stuck = abort-Stuck i s aborted.0 (rw h refl) l x u r aborted.1 in
    Stuck-lost i s' (run-Stuck i actions aborted.0 s' t aborted.2 stuck)
