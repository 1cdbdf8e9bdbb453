-- ===== src/Scheduler/Callers/Tests.antt =====
-- Two speedtests (workers 1 and 2) beside one light probe, and the theorems at this run.
use stabsight.Base.{
  ℕ, ◌<◌, ◌==◌, ◌≡◌, ◌≢◌, refl, Bool, true, false, not, Option, none, some, List, [], ◌∷◌, ◌++◌,
  arith, ℕ_discrete,
}
use stabsight.Scheduler.Worker.{Choice, measuring, finish, receive, send_ack, light_start}
use stabsight.Scheduler.Exclusive.{stop_scheduler, executing, start, step, run}
use stabsight.Scheduler.Exclusive.Drain.{is_returned}
use stabsight.Scheduler.Callers.{
  unlock, Program, Move, loop, lock, go_on, stop_all, launch, step_program, run_program, actions_of,
  allowed, calls_after, is_probing,
}
use stabsight.Scheduler.Callers.Exclusion.{task_alone}
use stabsight.Scheduler.Callers.Reach.{Own}
use stabsight.Scheduler.Callers.Shutdown.{shutdown_completes}
use stabsight.Scheduler.Callers.Recovery.{loops, probe_measures}
use stabsight.Scheduler.Callers.Stopped.{stopped_refuses}
use stabsight.Scheduler.Callers.Turns.{Turn, waiting-Turn}

abbrev not_first : ℕ → Bool
not_first i = not (i == 0)

abbrev launched : Program
launched = launch 3 not_first

abbrev after : Option Program → Program
after none = launched
after (some p) = p

-- The first speedtest pauses the light probe and runs its task; the second one waits.
abbrev to_first_task : List Move
to_first_task =
    loop 0 finish
    ∷ lock 1
    ∷ go_on
    ∷ go_on
    ∷ go_on
    ∷ go_on
    ∷ go_on
    ∷ loop 0 receive
    ∷ loop 0 send_ack
    ∷ go_on
    ∷ go_on
    ∷ go_on
    ∷ go_on
    ∷ []

abbrev in_task : Program
in_task = after (run_program to_first_task launched)

first_runs : (is_probing in_task 1 ≡ true) × (is_probing in_task 2 ≡ false)
unfolding run_program step_program run step launch start light_start ℕ_discrete allowed actions_of
    calls_after
first_runs = (refl, refl)

-- A speedtest whose call has not returned stays in its measurement.
second_waits : run_program (loop 2 finish ∷ []) in_task ≡ none
unfolding run_program step_program run step launch start light_start ℕ_discrete allowed actions_of
    calls_after
second_waits = refl

task_alone_example :
    (i : ℕ) × (i < in_task.system.count)
    × (in_task.system.exclusive i ≡ true)
    × (is_probing in_task i ≡ true)
    × ((j : ℕ) → j < in_task.system.count → i ≢ j → is_probing in_task j ≡ false)
unfolding run_program step_program run step launch start light_start ℕ_discrete allowed actions_of
    calls_after
task_alone_example = task_alone 3 not_first to_first_task in_task tt refl refl

shutdown_completes_example :
    (steps : List Move) × Own steps
    × (p' : Program) × (run_program (stop_all ∷ steps) in_task ≡ some p')
    × (p'.locked ≡ false)
    × ((i : ℕ) → i < in_task.system.count → is_returned (p'.system.handles i).phase ≡ true)
unfolding run_program step_program run step launch start light_start ℕ_discrete allowed actions_of
    calls_after
shutdown_completes_example = shutdown_completes 3 not_first to_first_task in_task refl refl

waiting-Turn_example : Turn 2 in_task
unfolding run_program step_program run step launch start light_start ℕ_discrete allowed actions_of
    calls_after
waiting-Turn_example = waiting-Turn 3 not_first to_first_task in_task tt refl 2 refl

-- The first speedtest has ended, and the light probe has its resume pending.
abbrev behind_first : List Move
behind_first = to_first_task ++ go_on ∷ go_on ∷ go_on ∷ go_on ∷ go_on ∷ go_on ∷ unlock 1 ∷ []

abbrev between_two : Program
between_two = after (run_program behind_first launched)

probe_measures_example :
    (cs : List Choice) × (p' : Program) × (run_program (loops 0 cs) between_two ≡ some p')
    × ((p'.system.handles 0).phase ≡ measuring)
unfolding run_program step_program run step launch start light_start ℕ_discrete allowed actions_of
    calls_after
probe_measures_example =
    probe_measures 3 not_first behind_first between_two tt refl refl 0 (omega arith) refl

-- The scheduler is stopped between the two, and the second speedtest gets the mutex.
abbrev stopped_between : Program
stopped_between = after (run_program (behind_first ++ stop_all ∷ []) launched)

abbrev second_call : List Move
second_call = lock 2 ∷ go_on ∷ go_on ∷ []

stopped_refuses_example : (after (run_program second_call stopped_between)).system.pc ≢ executing
unfolding run_program step_program run step launch start light_start ℕ_discrete allowed actions_of
    calls_after stop_scheduler
stopped_refuses_example =
    stopped_refuses 3 not_first (behind_first ++ stop_all ∷ []) second_call stopped_between
      (after (run_program second_call stopped_between)) refl refl refl refl
