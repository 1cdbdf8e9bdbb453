-- ===== src/Scheduler/Exclusive/Restart.antt =====
-- internal/scheduler/scheduler.go: Start on a scheduler that has been stopped. The workers have the
-- channels that RegisterWorker made, with what the run before has left in them.
mod Tests
use stabsight.Base.{
  ℕ, ◌<◌, ◌≡◌, ◌⊎◌, sym, refl, subst, inl, inr, Bool, true, false, Option, none, some, List,
  Bool-cases, arith, if◌then◌else◌,
}
use stabsight.Scheduler.Worker.{Handle, measuring, is_quiet}
use stabsight.Scheduler.Exclusive.{
  Pc, idle, executing, finished, System, Action, start, run, InTime,
}
use stabsight.Scheduler.Exclusive.Handles.{is_held}
use stabsight.Scheduler.Exclusive.Safety.{held-quiet}
use stabsight.Scheduler.Exclusive.Stages.{Between, Stage, Inv}
use stabsight.Scheduler.Exclusive.Invariant.{run-Inv}

-- Start: `none` is its error, the scheduler being at work.
unfoldable pub restart : System → Option System
restart s =
    if s.running
    then none
    else some (record s {
      handles = λ i. record (s.handles i) { phase = measuring };
      running = true;
      paused = false;
      run_cancelled = false;
    })

-- No call is under way, and both channels of every light worker are empty.
pub record Clean (s : System) : Type 0 where
  pub over : (s.pc ≡ idle) ⊎ ((b : Bool) × (s.pc ≡ finished b))
  pub no_command : (i : ℕ) → s.exclusive i ≡ false → (s.handles i).cmd_chan ≡ none
  pub no_ack : (i : ℕ) → s.exclusive i ≡ false → (s.handles i).ack_chan ≡ false

abbrev restarted : System → System
restarted s = record s {
  handles = λ i. record (s.handles i) { phase = measuring };
  running = true;
  paused = false;
  run_cancelled = false;
}

finished-restarted : (b : Bool) (s : System) → Clean s → Stage (finished b) (restarted s)
finished-restarted false s c = λ r. refl
finished-restarted true s c = (λ r. refl, λ r i lo hi x. rw (c.no_command i x, c.no_ack i x) refl)

restarted-Inv : (s t : System) → Clean s → restart s ≡ some t → Inv t
unfolding restart
restarted-Inv s t c e =
    let same : restarted s ≡ t = ground arith in
    subst Inv same (
      λ i x. rw (c.no_command i x, c.no_ack i x) refl,
      elim c.over [
        | inl p ↦ subst (λ q. Stage q (restarted s)) (sym p) (λ r. refl)
        | inr (b, p) ↦ subst (λ q. Stage q (restarted s)) (sym p) (finished-restarted b s c)
      ],
    )

-- A scheduler that was stopped can be started again, if its channels are empty: after that, too, no
-- light worker measures or is about to while the exclusive task runs, in every run in which no
-- resume is cut off after five seconds.
pub restart_exclusion :
    (s t : System) (actions : List Action) (s' : System)
    → s.running ≡ false
    → Clean s
    → restart s ≡ some t
    → InTime actions
    → run actions t ≡ some s'
    → s'.pc ≡ executing
    → (i : ℕ) → i < s'.count
    → s'.exclusive i ≡ false
    → (is_quiet (s'.handles i).phase ≡ true) × ((s'.handles i).ack_chan ≡ false)
restart_exclusion s t actions s' off c e u r p i l x =
    let stage : Stage executing s' =
      subst (λ q. Stage q s') p (run-Inv actions t s' u r (restarted-Inv s t c e)).1 in
    held-quiet (s'.handles i) (stage.1 i (omega arith) l x)
