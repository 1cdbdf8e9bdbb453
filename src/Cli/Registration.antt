-- ===== src/Cli/Registration.antt =====
-- internal/cli/run.go: the registration of the probes of every target (step 7 of RunApp).
-- A registration that is refused is logged and skipped.
pub mod Keys
pub mod Each
pub mod Workers
pub mod Whole
use stabsight.Base.{ℕ, Bool, true, false, Option, none, some, List, [], ◌∷◌, ◌++◌, Text, length}
use stabsight.Config.Types.{
  Target, ProbesConfig, IcmpProbeConfig, DnsProbeConfig, HttpProbeConfig, TcpProbeConfig,
  MtrProbeConfig, SpeedtestProbeConfig,
}
use stabsight.Scheduler.Registry.{ProbeWorker, Scheduler, new_scheduler, register_worker}
use stabsight.Probes.Icmp.{new_icmp_probe, icmp_worker}
use stabsight.Probes.Dns.{new_dns_probe, dns_worker}
use stabsight.Probes.Http.{new_http_probe, http_worker}
use stabsight.Probes.Tcp.{new_tcp_probe, tcp_worker}
use stabsight.Probes.Mtr.{new_mtr_probe, mtr_worker}
use stabsight.Probes.Speedtest.{new_speedtest_probe, speedtest_worker}

-- One `if target.Probes.X != nil { probe := probes.NewXProbe(…) … }`.
abbrev pub worker_if {ℓ} : {A : Type ℓ} → (Option A → ProbeWorker) → Option A → List ProbeWorker
worker_if make none = []
worker_if make (some cfg) = make (some cfg) ∷ []

abbrev pub make_icmp : Target → Option IcmpProbeConfig → ProbeWorker
make_icmp t c = icmp_worker (new_icmp_probe t.name t.host c t.ip_version true)

abbrev pub make_dns : Target → Option DnsProbeConfig → ProbeWorker
make_dns t c = dns_worker (new_dns_probe t.name t.host c t.ip_version true)

abbrev pub make_http : Target → Option HttpProbeConfig → ProbeWorker
make_http t c = http_worker (new_http_probe t.name t.host c t.ip_version true)

abbrev pub make_tcp : Target → Option TcpProbeConfig → ProbeWorker
make_tcp t c = tcp_worker (new_tcp_probe t.name t.host c t.ip_version true)

abbrev pub make_mtr : Target → Option MtrProbeConfig → ProbeWorker
make_mtr t c = mtr_worker (new_mtr_probe t.name t.host c true)

abbrev pub make_speedtest : Target → Option SpeedtestProbeConfig → ProbeWorker
make_speedtest t c = speedtest_worker (new_speedtest_probe t.name c true)

-- The workers that RunApp makes for a target, in its order.
unfoldable pub target_workers : Target → List ProbeWorker
target_workers t =
    worker_if (make_icmp t) t.probes.icmp
    ++ (worker_if (make_dns t) t.probes.dns
        ++ (worker_if (make_http t) t.probes.http
            ++ (worker_if (make_tcp t) t.probes.tcp
                ++ (worker_if (make_mtr t) t.probes.mtr
                    ++ worker_if (make_speedtest t) t.probes.speedtest))))

-- `if err := sched.RegisterWorker(probe); err != nil { logger.Warn() … }`, over the workers.
unfoldable pub register_all : List ProbeWorker → Scheduler → Scheduler
register_all [] s = s
register_all (w ∷ ws) s = register_all ws (register_worker (some w) s).0

-- The loop over the targets.
unfoldable pub register_targets : List Target → Scheduler → Scheduler
unfolding register_all target_workers
register_targets [] s = s
register_targets (t ∷ ts) s = register_targets ts (register_all (target_workers t) s)
