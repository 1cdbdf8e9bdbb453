-- ===== src/Scheduler/Callers.antt =====
-- internal/probes/speedtest.go with internal/scheduler/scheduler.go: the speedtests as the callers
-- of ExecuteExclusive. A speedtest's measurement is one call, which first waits for `exclusiveMu`
-- and then runs with the context of the run; its loop goes on when the call has returned. RunApp
-- gives every speedtest the scheduler as its coordinator, so this is the branch of triggerMeasurement
-- that runs. The steps are those of Exclusive.antt, with the mutex and the place of every caller.
pub mod Refinement
pub mod Kept
pub mod Invariant
pub mod Loops
pub mod Runs
pub mod Reach
pub mod Endings
pub mod Drain
pub mod Shutdown
pub mod Turns
pub mod Recovery
pub mod Stopped
mod Tests
pub mod Exclusion
use stabsight.Base.{
  ℕ, Bool, true, false, not, ◌&&◌, Option, none, some, List, [], ◌∷◌, ltb, update, ◌>>=◌,
  if◌then◌else◌,
}
use stabsight.Scheduler.Worker.{Choice, finish, tick, is_quiet}
use stabsight.Scheduler.Exclusive.{
  Pc, idle, executing, finished, System, Action, work, call, advance, abort, timeout, cancel_call,
  cancel_run, stop, start, run,
}

-- Where a speedtest stands with its measurement.
pub data CallStage : Type 0 where
  outside : CallStage  -- not in ExecuteExclusive
  waiting : CallStage  -- at s.exclusiveMu.Lock()
  inside : CallStage  -- it holds the mutex

pub record Program : Type 0 where
  pub system : System
  pub locked : Bool  -- exclusiveMu
  pub calls : ℕ → CallStage

pub data Move : Type 0 where
  loop : (i : ℕ) → Choice → Move  -- worker i takes a step of its Start loop
  lock : (i : ℕ) → Move  -- speedtest i obtains exclusiveMu
  go_on : Move  -- the call that holds the mutex goes on
  abandon : Move  -- its select takes ctx.Done()
  cut_off : Move  -- the five seconds of its resume are over
  unlock : (i : ℕ) → Move  -- the call of speedtest i has returned
  end_run : Move  -- the context given to Start ends
  stop_all : Move  -- Stop, up to its wait

abbrev pub is_inside : CallStage → Bool
is_inside inside = true
is_inside _ = false

abbrev pub is_waiting : CallStage → Bool
is_waiting waiting = true
is_waiting _ = false

-- No ExecuteExclusive is between its Lock and its Unlock.
abbrev pub is_over : Pc → Bool
is_over idle = true
is_over (finished _) = true
is_over _ = false

-- Start: every speedtest begins with its initial measurement.
unfoldable pub launch : ℕ → (ℕ → Bool) → Program
launch n exclusive = record {
  system = start n exclusive;
  locked = false;
  calls = λ i. if ltb i n && exclusive i then waiting else outside;
}

-- A speedtest leaves its measurement when its call has returned.
abbrev pub may_loop : Bool → Choice → CallStage → Bool
may_loop true finish outside = true
may_loop true finish _ = false
may_loop _ _ _ = true

unfoldable pub allowed : Move → Program → Bool
allowed (loop i c) p = may_loop (p.system.exclusive i) c (p.calls i)
allowed (lock i) p = not p.locked && is_waiting (p.calls i)
allowed (unlock i) p = is_inside (p.calls i) && is_over p.system.pc
allowed _ p = true

-- The context of a call is the context of the run.
unfoldable pub actions_of : Move → System → List Action
actions_of (loop i c) s = work i c ∷ []
actions_of (lock i) s = call ∷ (if s.run_cancelled then cancel_call ∷ [] else [])
actions_of go_on s = advance ∷ []
actions_of abandon s = abort ∷ []
actions_of cut_off s = timeout ∷ []
actions_of (unlock i) s = []
actions_of end_run s = cancel_run ∷ cancel_call ∷ []
actions_of stop_all s = if s.running then stop ∷ cancel_call ∷ [] else []

abbrev pub is_tick : Choice → Bool
is_tick tick = true
is_tick _ = false

-- A tick of a speedtest begins its next measurement.
unfoldable pub calls_after : Move → Program → ℕ → CallStage
calls_after (loop i c) p =
    if p.system.exclusive i && is_tick c then update p.calls i waiting else p.calls
calls_after (lock i) p = update p.calls i inside
calls_after (unlock i) p = update p.calls i outside
calls_after _ p = p.calls

abbrev pub locked_after : Move → Bool → Bool
locked_after (lock _) b = true
locked_after (unlock _) b = false
locked_after _ b = b

unfoldable pub step_program : Move → Program → Option Program
step_program e p =
    if allowed e p
    then (run (actions_of e p.system) p.system >>= λ s.
        some (record { system = s; locked = locked_after e p.locked; calls = calls_after e p }))
    else none

unfoldable pub run_program : List Move → Program → Option Program
run_program [] p = some p
run_program (e ∷ events) p = step_program e p >>= run_program events

-- The schedules in which no resume is cut off after five seconds.
abbrev pub Uncut : List Move → Type 0
Uncut [] = Unit
Uncut (cut_off ∷ events) = ⊥
Uncut (_ ∷ events) = Uncut events

abbrev pub is_executing : Pc → Bool
is_executing executing = true
is_executing _ = false

-- Worker i sends traffic, or may start to without a command: a speedtest whose call runs its task,
-- and any other probe that is neither in its pause loop nor has returned.
abbrev pub is_probing : Program → ℕ → Bool
is_probing p i =
    if p.system.exclusive i
    then is_inside (p.calls i) && is_executing p.system.pc
    else not (is_quiet (p.system.handles i).phase)
