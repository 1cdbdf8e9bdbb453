-- ===== src/Scheduler/Exclusive/Safety.antt =====
-- What ExecuteExclusive guarantees in every run of a started scheduler.
use stabsight.Base.{ℕ, ◌<◌, ◌≡◌, ◌≢◌, ◌⊎◌, subst, Bool, true, false, some, List, arith}
use stabsight.Scheduler.Command.{cmd_resume}
use stabsight.Scheduler.Worker.{Handle, pausing, is_quiet}
use stabsight.Scheduler.Exclusive.{System, Action, start, run, InTime, executing, finished}
use stabsight.Scheduler.Exclusive.Handles.{is_held, is_released}
use stabsight.Scheduler.Exclusive.Stages.{Stage}
use stabsight.Scheduler.Exclusive.Invariant.{start-Inv, run-Inv}

pub held-quiet : (h : Handle) → is_held h ≡ true → (is_quiet h.phase ≡ true) × (h.ack_chan ≡ false)
held-quiet h e = ground arith

-- While the exclusive task runs, no worker that is not exclusive measures or is about to: each is
-- in its pause loop or has returned, and its acknowledgement has been taken. This holds in every
-- run of a freshly started scheduler in which no resume is cut off after five seconds.
pub mutual_exclusion :
    (n : ℕ) (exclusive : ℕ → Bool) (actions : List Action) (s : System)
    → InTime actions
    → run actions (start n exclusive) ≡ some s
    → s.pc ≡ executing
    → (i : ℕ) → i < s.count
    → s.exclusive i ≡ false
    → (is_quiet (s.handles i).phase ≡ true) × ((s.handles i).ack_chan ≡ false)
mutual_exclusion n exclusive actions s t e p i l x =
    let stage : Stage executing s =
      subst (λ q. Stage q s) p
        (run-Inv actions (start n exclusive) s t e (start-Inv n exclusive)).1 in
    held-quiet (s.handles i) (stage.1 i (omega arith) l x)

released-resumes :
    (h : Handle) → is_released h ≡ true → (h.phase ≢ pausing) ⊎ (h.cmd_chan ≡ some cmd_resume)
released-resumes h r = ground arith

-- When ExecuteExclusive has returned from a task, and the scheduler still runs, the scheduler is no
-- longer marked as paused, and every worker that is not exclusive has left its pause loop or has
-- CmdResume in its channel. This holds in every run of a freshly started scheduler in which no
-- resume is cut off after five seconds.
pub resumes_all :
    (n : ℕ) (exclusive : ℕ → Bool) (actions : List Action) (s : System)
    → InTime actions
    → run actions (start n exclusive) ≡ some s
    → s.pc ≡ finished true
    → s.running ≡ true
    → (i : ℕ) → i < s.count
    → s.exclusive i ≡ false
    → (s.paused ≡ false)
      × (((s.handles i).phase ≢ pausing) ⊎ ((s.handles i).cmd_chan ≡ some cmd_resume))
resumes_all n exclusive actions s t e p r i l x =
    let stage : Stage (finished true) s =
      subst (λ q. Stage q s) p
        (run-Inv actions (start n exclusive) s t e (start-Inv n exclusive)).1 in
    (stage.0 r, released-resumes (s.handles i) (stage.1 r i (omega arith) l x))
