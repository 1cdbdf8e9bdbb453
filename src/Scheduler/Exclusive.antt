-- ===== src/Scheduler/Exclusive.antt =====
-- internal/scheduler/scheduler.go: Start, PauseAll, ResumeAll, ExecuteExclusive and Stop, run beside
-- the goroutines of the workers. A step is one channel operation or one section under `mu`; a run is
-- the list of the steps that the Go scheduler and the contexts choose.
-- `exclusiveMu` admits one ExecuteExclusive at a time, so one program counter is enough: the callers
-- that wait for the mutex do nothing.
pub mod Handles
pub mod Stages
pub mod Loops
pub mod Invariant
pub mod Orderly
pub mod Leads
pub mod Rounds
pub mod Progress
pub mod Static
pub mod Phases
pub mod Attempts
pub mod Drain
pub mod Safety
pub mod Stranded
pub mod Restart
mod Tests
use stabsight.Base.{
  ℕ, zero, suc, ◌+◌, Bool, true, false, not, ◌&&◌, Option, none, some, List, [], ◌∷◌, ltb, update,
  ◌>>=◌, if◌then◌else◌,
}
use stabsight.Scheduler.Command.{Command, cmd_pause, cmd_resume, is_empty}
use stabsight.Scheduler.Worker.{Handle, Choice, selecting, measuring, light_start, speedtest_start}

-- Where ExecuteExclusive stands. An index is the next handle of `s.workers` that a loop looks at;
-- the loops over `nonExclusiveHandles` are the loops over all handles that skip the exclusive ones,
-- since no worker is registered while the scheduler runs.
pub data Pc : Type 0 where
  idle : Pc
  entering : Pc  -- PauseAll, the first section under mu
  broadcasting : (next : ℕ) → Pc  -- PauseAll, the loop that sends CmdPause
  awaiting : (next : ℕ) → Pc  -- PauseAll, the loop that receives the acknowledgements
  pause_failed : Pc  -- PauseAll has returned an error, ResumeAll is called
  executing : Pc  -- fn runs
  resume_entry : Pc  -- the deferred ResumeAll, the first section under mu
  resuming : (bounded : Bool) (next : ℕ) → Pc  -- ResumeAll, the loop that sends CmdResume
  finished : (executed : Bool) → Pc  -- ExecuteExclusive has returned

pub record System : Type 0 where
  pub count : ℕ  -- len(s.workers)
  pub exclusive : ℕ → Bool  -- IsExclusive of each worker
  pub handles : ℕ → Handle
  pub running : Bool
  pub paused : Bool
  pub run_cancelled : Bool  -- runCtx is done
  pub call_cancelled : Bool  -- the context given to ExecuteExclusive is done
  pub pc : Pc

pub data Action : Type 0 where
  work : (i : ℕ) → Choice → Action  -- worker i takes a step
  call : Action  -- a caller obtains exclusiveMu, with a context that is not done yet
  advance : Action  -- ExecuteExclusive goes on, its select taking the channel
  abort : Action  -- ExecuteExclusive's select takes ctx.Done()
  timeout : Action  -- the five seconds of resumeCtx are over
  cancel_call cancel_run stop : Action

-- Start: every worker begins with its initial measurement. Its channels are fresh, as in the
-- program, which starts a scheduler once.
abbrev pub started_handle : Handle
started_handle = record { phase = measuring; cmd_chan = none; ack_chan = false }

unfoldable pub start : ℕ → (ℕ → Bool) → System
start n exclusive = record {
  count = n;
  exclusive = exclusive;
  handles = λ _. started_handle;
  running = true;
  paused = false;
  run_cancelled = false;
  call_cancelled = false;
  pc = idle;
}

-- The goroutine of one worker.
abbrev pub start_loop : Bool → Bool → Choice → Handle → Option Handle
start_loop true cancelled c h = speedtest_start cancelled c h
start_loop false cancelled c h = light_start cancelled c h

unfoldable pub work_step : ℕ → Choice → System → Option System
work_step i c s =
    if ltb i s.count
    then (start_loop (s.exclusive i) s.run_cancelled c (s.handles i) >>= λ h.
        some (record s { handles = update s.handles i h }))
    else none

-- A send to the command channel of handle i, ready if the channel is empty.
abbrev pub send : Command → ℕ → Pc → System → Option System
send m i next s =
    let h = s.handles i in
    if is_empty h.cmd_chan
    then some
        (record s { handles = update s.handles i (record h { cmd_chan = some m }); pc = next })
    else none

-- A receive from the acknowledgement channel of handle i.
abbrev pub receive_ack : ℕ → Pc → System → Option System
receive_ack i next s =
    let h = s.handles i in
    if h.ack_chan
    then some (record s { handles = update s.handles i (record h { ack_chan = false }); pc = next })
    else none

-- PauseAll, from its guards on
abbrev pub pause_entry : System → System
pause_entry s =
    if not s.running
    then record s { pc = pause_failed }
    else if s.paused
    then record s { pc = executing }
    else record s { pc = broadcasting 0 }

unfoldable pub pause_broadcast : ℕ → System → Option System
pause_broadcast k s =
    if ltb k s.count
    then (if s.exclusive k
        then some (record s { pc = broadcasting (suc k) })
        else send cmd_pause k (broadcasting (suc k)) s)
    else some (record s { pc = awaiting 0 })

unfoldable pub pause_await : ℕ → System → Option System
pause_await k s =
    if ltb k s.count
    then (if s.exclusive k
        then some (record s { pc = awaiting (suc k) })
        else receive_ack k (awaiting (suc k)) s)
    else some (record s { paused = true; pc = executing })

-- ResumeAll, from its guards on; `bounded` is whether its context ends after five seconds.
abbrev pub resume_guards : Bool → Bool → System → System
resume_guards bounded executed s =
    if not s.running
    then record s { pc = finished executed }
    else if not s.paused
    then record s { pc = finished executed }
    else record s { pc = resuming bounded 0 }

unfoldable pub resume_broadcast : Bool → ℕ → System → Option System
resume_broadcast bounded k s =
    if ltb k s.count
    then (if s.exclusive k
        then some (record s { pc = resuming bounded (suc k) })
        else send cmd_resume k (resuming bounded (suc k)) s)
    else some (record s { paused = false; pc = finished bounded })

-- ExecuteExclusive. Its error path resumes with context.Background(), its deferred call with a
-- context of five seconds.
abbrev pub execute_exclusive : Pc → System → Option System
execute_exclusive idle s = none
execute_exclusive entering s = some (pause_entry s)
execute_exclusive (broadcasting k) s = pause_broadcast k s
execute_exclusive (awaiting k) s = pause_await k s
execute_exclusive pause_failed s = some (resume_guards false false s)
execute_exclusive executing s = some (record s { pc = resume_entry })
execute_exclusive resume_entry s = some (resume_guards true true s)
execute_exclusive (resuming bounded k) s = resume_broadcast bounded k s
execute_exclusive (finished executed) s = none

abbrev pub begin_call : Pc → System → Option System
begin_call idle s = some (record s { pc = entering; call_cancelled = false })
begin_call (finished _) s = some (record s { pc = entering; call_cancelled = false })
begin_call _ s = none

-- The two selects of PauseAll; the resume of the error path has a context that is never done.
abbrev pub abort_call : Pc → System → Option System
abort_call (broadcasting _) s =
    if s.call_cancelled then some (record s { pc = pause_failed }) else none
abort_call (awaiting _) s = if s.call_cancelled then some (record s { pc = pause_failed }) else none
abort_call _ s = none

abbrev pub resume_timeout : Pc → System → Option System
resume_timeout (resuming true _) s = some (record s { pc = finished true })
resume_timeout _ s = none

-- Stop, up to its wait for the goroutines
unfoldable pub stop_scheduler : System → System
stop_scheduler s =
    if not s.running then s else record s { run_cancelled = true; running = false; paused = false }

unfoldable pub step : Action → System → Option System
unfolding work_step pause_broadcast pause_await resume_broadcast stop_scheduler
step (work i c) s = work_step i c s
step call s = begin_call s.pc s
step advance s = execute_exclusive s.pc s
step abort s = abort_call s.pc s
step timeout s = resume_timeout s.pc s
step cancel_call s = some (record s { call_cancelled = true })
step cancel_run s = some (record s { run_cancelled = true })
step stop s = some (stop_scheduler s)

unfoldable pub run : List Action → System → Option System
run [] s = some s
run (a ∷ actions) s = step a s >>= run actions

-- The schedules in which no resume is cut off after five seconds.
abbrev pub InTime : List Action → Type 0
InTime [] = Unit
InTime (timeout ∷ actions) = ⊥
InTime (_ ∷ actions) = InTime actions
