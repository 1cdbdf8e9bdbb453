-- ===== src/Cli/Registration/Each.antt =====
-- What holds of each worker that RunApp makes, and of each that is registered.
use stabsight.Base.{Option, none, some, List, [], ◌∷◌, ◌++◌, All, All-append, arith}
use stabsight.Config.Types.{
  Target, IcmpProbeConfig, DnsProbeConfig, HttpProbeConfig, TcpProbeConfig, MtrProbeConfig,
  SpeedtestProbeConfig,
}
use stabsight.Scheduler.Registry.{ProbeWorker, Scheduler, register_worker}
use stabsight.Cli.Registration.{
  worker_if, make_icmp, make_dns, make_http, make_tcp, make_mtr, make_speedtest, target_workers,
  register_all, register_targets,
}

worker_if-All {ℓ} :
    {A : Type ℓ} (P : ProbeWorker → Type 0) (make : Option A → ProbeWorker) (o : Option A)
    → ((a : A) → P (make (some a)))
    → All P (worker_if make o)
worker_if-All P make none h = tt
worker_if-All P make (some a) h = (h a, tt)

module _ (P : ProbeWorker → Type 0) where
  pub target_workers-All :
      (t : Target)
      → ((c : IcmpProbeConfig) → P (make_icmp t (some c)))
      → ((c : DnsProbeConfig) → P (make_dns t (some c)))
      → ((c : HttpProbeConfig) → P (make_http t (some c)))
      → ((c : TcpProbeConfig) → P (make_tcp t (some c)))
      → ((c : MtrProbeConfig) → P (make_mtr t (some c)))
      → ((c : SpeedtestProbeConfig) → P (make_speedtest t (some c)))
      → All P (target_workers t)
  unfolding target_workers
  target_workers-All t icmp dns http tcp mtr speedtest =
      All-append P (worker_if (make_icmp t) t.probes.icmp) _
        (worker_if-All P (make_icmp t) t.probes.icmp icmp)
        (All-append P (worker_if (make_dns t) t.probes.dns) _
          (worker_if-All P (make_dns t) t.probes.dns dns)
          (All-append P (worker_if (make_http t) t.probes.http) _
            (worker_if-All P (make_http t) t.probes.http http)
            (All-append P (worker_if (make_tcp t) t.probes.tcp) _
              (worker_if-All P (make_tcp t) t.probes.tcp tcp)
              (All-append P (worker_if (make_mtr t) t.probes.mtr) _
                (worker_if-All P (make_mtr t) t.probes.mtr mtr)
                (worker_if-All P (make_speedtest t) t.probes.speedtest speedtest)))))

  register_worker-All :
      (w : ProbeWorker) (s : Scheduler)
      → P w
      → All P s.workers
      → All P (register_worker (some w) s).0.workers
  unfolding register_worker
  register_worker-All w s p all =
      let more : All P (s.workers ++ w ∷ []) = All-append P s.workers (w ∷ []) all (p, tt) in
      ground (arith, all, more)

  register_all-All :
      (ws : List ProbeWorker) (s : Scheduler)
      → All P ws
      → All P s.workers
      → All P (register_all ws s).workers
  unfolding register_all
  register_all-All [] s p all = all
  register_all-All (w ∷ ws) s p all =
      register_all-All ws (register_worker (some w) s).0 p.1 (register_worker-All w s p.0 all)

  -- Whatever is refused.
  pub register_targets-All :
      ((t : Target) → All P (target_workers t))
      → (ts : List Target) (s : Scheduler) → All P s.workers
      → All P (register_targets ts s).workers
  unfolding register_targets
  register_targets-All each [] s all = all
  register_targets-All each (t ∷ ts) s all =
      register_targets-All each ts (register_all (target_workers t) s)
        (register_all-All (target_workers t) s (each t) all)
