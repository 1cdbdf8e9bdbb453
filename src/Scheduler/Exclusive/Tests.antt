-- ===== src/Scheduler/Exclusive/Tests.antt =====
-- Runs of two light probes and a speedtest (worker 2), and the theorems at these runs.
use stabsight.Base.{
  ℕ, ◌==◌, ◌≡◌, ◌≢◌, ◌⊎◌, refl, Bool, true, false, Option, none, some, List, [], ◌∷◌, ◌++◌, arith,
  ℕ_discrete,
}
use stabsight.Scheduler.Command.{cmd_resume}
use stabsight.Scheduler.Worker.{finish, receive, send_ack, tick, measuring, pausing, light_start}
use stabsight.Scheduler.Exclusive.{
  System, Action, work, call, advance, abort, timeout, cancel_call, start, step, run, executing,
  finished,
}
use stabsight.Scheduler.Exclusive.Safety.{resumes_all}
use stabsight.Scheduler.Exclusive.Progress.{advances, resume_alone}
use stabsight.Scheduler.Exclusive.Stranded.{stranded_forever}

abbrev third : ℕ → Bool
third i = i == 2

abbrev fresh : System
fresh = unfold start in start 3 third

abbrev final : Option System → System
final none = fresh
final (some s) = s

-- The workers end their first measurements, and a speedtest pauses the first two.
abbrev pausing_two : List Action
pausing_two =
    work 0 finish
    ∷ work 1 finish
    ∷ call
    ∷ advance
    ∷ advance
    ∷ advance
    ∷ advance
    ∷ advance
    ∷ work 0 receive
    ∷ work 1 receive
    ∷ work 0 send_ack
    ∷ work 1 send_ack
    ∷ advance
    ∷ []

abbrev to_task : List Action
to_task = pausing_two ++ advance ∷ advance ∷ advance ∷ []

abbrev to_end : List Action
to_end = to_task ++ advance ∷ advance ∷ advance ∷ work 0 receive ∷ advance ∷ advance ∷ advance ∷ []

task_runs : (final (run to_task (start 3 third))).pc ≡ executing
unfolding run step start light_start ℕ_discrete
task_runs = refl

resumes_all_example :
    ((final (run to_end (start 3 third))).paused ≡ false)
    × ((((final (run to_end (start 3 third))).handles 1).phase ≢ pausing)
        ⊎ (((final (run to_end (start 3 third))).handles 1).cmd_chan ≡ some cmd_resume))
unfolding run step start light_start ℕ_discrete
resumes_all_example =
    resumes_all 3 third to_end (final (run to_end (start 3 third))) tt refl refl refl 1
      (omega arith) refl

-- The acknowledgement of worker 0 is taken, and the context of the call ends.
abbrev half_paused : List Action
half_paused = pausing_two ++ cancel_call ∷ []

abbrev later : List Action
later = abort ∷ advance ∷ call ∷ advance ∷ advance ∷ work 0 receive ∷ []

stranded_forever_example :
    ((final (run later (final (run half_paused (start 3 third))))).pc ≢ executing)
    × (((final (run later (final (run half_paused (start 3 third))))).handles 0).phase ≡ pausing)
unfolding run step start light_start ℕ_discrete
stranded_forever_example =
    stranded_forever (final (run half_paused (start 3 third))) 0
      (advance ∷ call ∷ advance ∷ advance ∷ work 0 receive ∷ [])
      (final (run later (final (run half_paused (start 3 third))))) (omega arith) refl refl refl
      refl tt refl

-- A resume that is cut off leaves `paused` set: the next call of ExecuteExclusive pauses nothing,
-- and its task runs beside a probe that measures.
abbrev cut_off : List Action
cut_off =
    to_task
    ++ advance ∷ advance ∷ advance ∷ timeout ∷ work 0 receive ∷ work 0 tick ∷ call ∷ advance ∷ []

exclusion_lost :
    ((final (run cut_off (start 3 third))).pc ≡ executing)
    × (((final (run cut_off (start 3 third))).handles 0).phase ≡ measuring)
unfolding run step start light_start ℕ_discrete
exclusion_lost = (refl, refl)

resume_alone_example :
    (s' : System) × (run (advances 6) (final (run to_task (start 3 third))) ≡ some s')
    × (s'.pc ≡ finished true)
unfolding run step start light_start ℕ_discrete
resume_alone_example =
    resume_alone 3 third to_task (final (run to_task (start 3 third))) tt refl refl
