-- ===== src/Scheduler/Exclusive/Restart/Tests.antt =====
-- A second start, with empty channels and with a stale acknowledgement.
use stabsight.Base.{
  ℕ, zero, suc, ◌==◌, ◌≡◌, refl, inl, Bool, true, false, Option, none, some, List, [], ◌∷◌, arith,
  ℕ_discrete,
}
use stabsight.Scheduler.Worker.{
  finish, receive, send_ack, ctx_done, measuring, is_quiet, light_start, speedtest_start,
}
use stabsight.Scheduler.Exclusive.{
  System, Action, work, call, advance, abort, cancel_call, stop, start, step, run, executing,
  stop_scheduler,
}
use stabsight.Scheduler.Exclusive.Restart.{restart, Clean, restart_exclusion}

abbrev second : ℕ → Bool
second i = i == 1

abbrev fresh : System
fresh = start 2 second

abbrev final : Option System → System
final none = fresh
final (some s) = s

-- Worker 0 is a light probe, worker 1 a speedtest; both return.
abbrev stopped : System
stopped =
    final
      (run (work 0 finish ∷ work 1 finish ∷ stop ∷ work 0 ctx_done ∷ work 1 ctx_done ∷ []) fresh)

abbrev task : List Action
task =
    work 0 finish
    ∷ call
    ∷ advance
    ∷ advance
    ∷ advance
    ∷ advance
    ∷ work 0 receive
    ∷ work 0 send_ack
    ∷ advance
    ∷ advance
    ∷ advance
    ∷ []

both_empty :
    (i : ℕ) → ((stopped.handles i).cmd_chan ≡ none) × ((stopped.handles i).ack_chan ≡ false)
unfolding run step start light_start speedtest_start ℕ_discrete stop_scheduler
both_empty zero = (refl, refl)
both_empty (suc zero) = (refl, refl)
both_empty (suc (suc i)) = (ground arith, ground arith)

stopped-Clean : Clean stopped
unfolding run step start light_start speedtest_start ℕ_discrete stop_scheduler
stopped-Clean = record {
  over = inl refl;
  no_command = λ i x. (both_empty i).0;
  no_ack = λ i x. (both_empty i).1;
}

restart_exclusion_example :
    (is_quiet ((final (run task (final (restart stopped)))).handles 0).phase ≡ true)
    × (((final (run task (final (restart stopped)))).handles 0).ack_chan ≡ false)
unfolding run step start light_start speedtest_start ℕ_discrete stop_scheduler restart
restart_exclusion_example =
    restart_exclusion stopped (final (restart stopped)) task
      (final (run task (final (restart stopped)))) refl stopped-Clean refl tt refl refl 0
      (omega arith) refl

-- The context of a call ends before it takes the acknowledgement; the scheduler is stopped, and
-- started again.
abbrev abandoned : List Action
abandoned =
    work 0 finish
    ∷ work 1 finish
    ∷ call
    ∷ advance
    ∷ advance
    ∷ work 0 receive
    ∷ work 0 send_ack
    ∷ cancel_call
    ∷ abort
    ∷ advance
    ∷ stop
    ∷ work 0 ctx_done
    ∷ work 1 ctx_done
    ∷ []

-- The next call takes the stale acknowledgement, and its task runs beside the first measurement.
abbrev next_call : List Action
next_call = call ∷ advance ∷ advance ∷ advance ∷ advance ∷ advance ∷ advance ∷ advance ∷ []

stale_ack :
    ((final (run next_call (final (restart (final (run abandoned fresh)))))).pc ≡ executing)
    × (((final (run next_call (final (restart (final (run abandoned fresh)))))).handles 0).phase
        ≡ measuring)
unfolding run step start light_start speedtest_start ℕ_discrete stop_scheduler restart
stale_ack = (refl, refl)
