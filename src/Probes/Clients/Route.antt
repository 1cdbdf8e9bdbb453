-- ===== src/Probes/Clients/Route.antt =====
-- A check of an MTR probe from the resolution of its host to the samples of its hops.
use stabsight.Base.{ℕ, ◌≡◌, pos, leb_ℤ, Bool, true, none, some, [], map, length, Float64}
use stabsight.Telemetry.Metrics.{packet_loss_gauge, rtt_histogram}
use stabsight.Probes.Trace.{MtrResult}
use stabsight.Probes.Trace.Path.{Consecutive}
use stabsight.Probes.Check.Samples.{values_of}
use stabsight.Probes.Mtr.{MtrProbe, TraceEffect}
use stabsight.Probes.Hops.{hop_loss, hop_rtts}

-- A trace that fails has seen its context done.
Interrupted : (ℕ → Bool) → Type 0
Interrupted done = (ttl : ℕ) × (done ttl ≡ true)

-- The hops that a check reports, with their samples.
pub record Reported (f64 : Float64) (p : MtrProbe) (e : TraceEffect f64) (r : MtrResult)
    : Type 0 where
  pub reported : e.reported ≡ some r
  pub kept : e.probe.last_result ≡ some r
  pub target : r.target ≡ p.target_name
  pub numbered : Consecutive 1 r.hops
  pub bounded : leb_ℤ (pos (length r.hops)) p.max_hops ≡ true
  pub losses : values_of f64 packet_loss_gauge e.samples ≡ map (hop_loss f64) r.hops
  pub rtts : values_of f64 rtt_histogram e.samples ≡ hop_rtts f64 r.hops

-- A check that reports nothing, and leaves the probe as it is.
pub record Silent (f64 : Float64) (p : MtrProbe) (e : TraceEffect f64) : Type 0 where
  pub same_probe : e.probe ≡ p
  pub no_samples : e.samples ≡ []
  pub no_report : e.reported ≡ none
