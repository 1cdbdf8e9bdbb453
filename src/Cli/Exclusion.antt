-- ===== src/Cli/Exclusion.antt =====
-- internal/cli/run.go with internal/scheduler/scheduler.go: the scheduler that RunApp starts, with
-- the workers that it has registered.
mod Tests
use stabsight.Base.{
  ℕ, zero, suc, ◌<◌, ◌≡◌, ◌≢◌, refl, subst, ◌∙◌, sym, Bool, true, false, Option, none, some, List,
  [], ◌∷◌, codes, All, length, get_elem?, arith,
}
use stabsight.Config.Types.{Target}
use stabsight.Scheduler.Registry.{ProbeWorker, Scheduler, new_scheduler}
use stabsight.Scheduler.Exclusive.{start, executing}
use stabsight.Scheduler.Callers.{Program, Move, launch, run_program, Uncut, is_probing}
use stabsight.Scheduler.Callers.Refinement.{run_program-run}
use stabsight.Scheduler.Callers.Exclusion.{task_alone}
use stabsight.Scheduler.Exclusive.Static.{run-Static}
use stabsight.Probes.Icmp.{new_icmp_probe, icmp_worker}
use stabsight.Probes.Dns.{new_dns_probe, dns_worker}
use stabsight.Probes.Http.{new_http_probe, http_worker}
use stabsight.Probes.Tcp.{new_tcp_probe, tcp_worker}
use stabsight.Probes.Mtr.{new_mtr_probe, mtr_worker}
use stabsight.Probes.Speedtest.{new_speedtest_probe, speedtest_worker}
use stabsight.Cli.Registration.{register_targets}
use stabsight.Cli.Registration.Each.{target_workers-All, register_targets-All}

abbrev pub exclusive_at : List ProbeWorker → ℕ → Bool
exclusive_at ws i = elim (get_elem? ws i) [ none ↦ false | some w ↦ w.is_exclusive ]

-- Start of a scheduler with its registered workers, each with its own goroutine.
abbrev pub launch_registered : Scheduler → Program
launch_registered s = launch (length s.workers) (exclusive_at s.workers)

OnlySpeedtest : ProbeWorker → Type 0
OnlySpeedtest w = w.is_exclusive ≡ true → w.probe_type ≡ codes "speedtest"

made-OnlySpeedtest :
    (ts : List Target) → All OnlySpeedtest (register_targets ts new_scheduler).workers
unfolding OnlySpeedtest icmp_worker dns_worker http_worker tcp_worker mtr_worker speedtest_worker
    new_scheduler new_icmp_probe new_dns_probe new_http_probe new_tcp_probe new_mtr_probe
    new_speedtest_probe
made-OnlySpeedtest ts =
    register_targets-All OnlySpeedtest
      (λ t.
        target_workers-All OnlySpeedtest t (λ c n. cc) (λ c n. cc) (λ c n. cc) (λ c n. cc)
          (λ c n. cc) (λ c n. refl))
      ts new_scheduler tt

some_worker : {v w : ProbeWorker} → some v ≡ some w → v ≡ w
some_worker e = cc

-- An exclusive position is that of a registered worker.
exclusive_worker :
    (ws : List ProbeWorker) (i : ℕ)
    → exclusive_at ws i ≡ true
    → (w : ProbeWorker) × (get_elem? ws i ≡ some w) × (w.is_exclusive ≡ true)
exclusive_worker [] i e = cc
exclusive_worker (w ∷ ws) zero e = (w, refl, e)
exclusive_worker (w ∷ ws) (suc i) e = exclusive_worker ws i e

All-get_elem? :
    (P : ProbeWorker → Type 0) (ws : List ProbeWorker) (i : ℕ) (w : ProbeWorker)
    → All P ws
    → get_elem? ws i ≡ some w
    → (i < length ws) × P w
All-get_elem? P [] i w all e = cc
All-get_elem? P (v ∷ ws) zero w all e = (omega arith, subst P (some_worker e) all.0)
All-get_elem? P (v ∷ ws) (suc i) w all e =
    let (l, p) = All-get_elem? P ws i w all.1 e in (omega (arith, l), p)

-- Whatever the targets are, while a task runs under the scheduler that RunApp starts with them, one
-- of the speedtests that it has registered runs it, and no other probe that it has registered,
-- another speedtest included, sends traffic or may start to. This holds in every run in which no
-- resume is cut off after five seconds.
pub speedtest_alone :
    (ts : List Target) (events : List Move) (p : Program)
    → Uncut events
    → run_program events (launch_registered (register_targets ts new_scheduler)) ≡ some p
    → p.system.pc ≡ executing
    → (i : ℕ) × (w : ProbeWorker) × (get_elem? (register_targets ts new_scheduler).workers i
        ≡ some w)
      × (w.probe_type ≡ codes "speedtest")
      × (is_probing p i ≡ true)
      × ((j : ℕ) (v : ProbeWorker)
          → get_elem? (register_targets ts new_scheduler).workers j ≡ some v
          → i ≢ j
          → is_probing p j ≡ false)
unfolding OnlySpeedtest launch start
speedtest_alone ts events p u e x =
    let ws = (register_targets ts new_scheduler).workers in
    let (actions, r, t, d) = run_program-run events (launch (length ws) (exclusive_at ws)) p e in
    let same = run-Static actions (start (length ws) (exclusive_at ws)) p.system r in
    let (i, l, y, b, others) = task_alone (length ws) (exclusive_at ws) events p u e x in
    let y' : exclusive_at ws i ≡ true = rw same.exclusive at y in
    let (w, g, z) = exclusive_worker ws i y' in
    let (l', own) = All-get_elem? OnlySpeedtest ws i w (made-OnlySpeedtest ts) g in
    (
      i,
      w,
      g,
      own z,
      b,
      λ j v gj d.
          let (lj, any) = All-get_elem? OnlySpeedtest ws j v (made-OnlySpeedtest ts) gj in
          others j (rw same.count lj) d,
    )
