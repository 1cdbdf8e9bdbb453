-- ===== src/Cli/Exclusion/Tests.antt =====
-- A speedtest beside the ICMP probe of its target.
use stabsight.Base.{
  ℕ, ◌≡◌, ◌≢◌, get_elem?, refl, true, false, pos, second, none, some, List, [], ◌∷◌, codes, text_eq,
  ℕ_discrete,
}
use stabsight.Config.Types.{Target}
use stabsight.Scheduler.Registry.{ProbeWorker, Scheduler, new_scheduler, has_name, register_worker}
use stabsight.Scheduler.Worker.{finish, receive, send_ack, light_start}
use stabsight.Scheduler.Exclusive.{start, step, run}
use stabsight.Scheduler.Callers.{
  Program, Move, loop, lock, go_on, launch, run_program, step_program, allowed, actions_of,
  calls_after, is_probing,
}
use stabsight.Probes.Icmp.{new_icmp_probe, icmp_worker}
use stabsight.Probes.Speedtest.{new_speedtest_probe, speedtest_worker}
use stabsight.Cli.Registration.{target_workers, register_all, register_targets}
use stabsight.Cli.Exclusion.{launch_registered, speedtest_alone}

abbrev uplink : Target
uplink = record {
  name = codes "uplink";
  host = codes "192.0.2.1";
  ip_version = [];
  probes = record {
    icmp = some (record { interval = pos second; timeout = pos second; count = pos 1 });
    dns = none;
    http = none;
    tcp = none;
    mtr = none;
    speedtest = some (record { interval = pos second; timeout = pos second; server_id = [] });
  };
}

abbrev registered : Scheduler
registered = register_targets (uplink ∷ []) new_scheduler

-- The speedtest pauses the ICMP probe.
abbrev to_task : List Move
to_task =
    loop 0 finish
    ∷ lock 1
    ∷ go_on
    ∷ go_on
    ∷ go_on
    ∷ go_on
    ∷ loop 0 receive
    ∷ loop 0 send_ack
    ∷ go_on
    ∷ go_on
    ∷ go_on
    ∷ []

abbrev in_task : Program
in_task = elim (run_program to_task (launch_registered registered)) [
  | none ↦ launch_registered registered
  | some p ↦ p
]

speedtest_alone_example :
    (i : ℕ) × (w : ProbeWorker) × (get_elem? registered.workers i ≡ some w)
    × (w.probe_type ≡ codes "speedtest")
    × (is_probing in_task i ≡ true)
    × ((j : ℕ) (v : ProbeWorker)
        → get_elem? registered.workers j ≡ some v
        → i ≢ j
        → is_probing in_task j ≡ false)
unfolding run step start light_start ℕ_discrete register_targets register_all register_worker
    has_name target_workers new_scheduler icmp_worker new_icmp_probe speedtest_worker
    new_speedtest_probe text_eq launch run_program step_program allowed actions_of calls_after
speedtest_alone_example = speedtest_alone (uplink ∷ []) to_task in_task tt refl refl
