-- ===== src/Probes/Hops.antt =====
-- internal/probes/mtr.go: what executeTrace records of a traceroute, and hands on.
use stabsight.Base.{◌≡◌, refl, true, some, List, [], ◌∷◌, map, Text, Float64, arith, if◌then◌else◌}
use stabsight.Telemetry.Metrics.{packet_loss_gauge, rtt_histogram, record_rtt, record_packet_loss}
use stabsight.Probes.Trace.{MtrHop, MtrResult}
use stabsight.Probes.Check.Samples.{values_of}
use stabsight.Probes.Mtr.{MtrProbe, hop_samples, all_hop_samples, execute_trace}

module _ (f64 : Float64) where
  open f64 use {F, zero_f, one_f, seconds}

  -- 0 for a hop that answered, 1 for one that did not.
  abbrev pub hop_loss : MtrHop → F
  hop_loss h = if h.success then zero_f else one_f

  -- The round trips of the hops that answered.
  abbrev pub hop_rtts : List MtrHop → List F
  hop_rtts [] = []
  hop_rtts (h ∷ hs) = if h.success then seconds h.rtt ∷ hop_rtts hs else hop_rtts hs

  all_hop_samples-losses :
      (target : Text) (hs : List MtrHop)
      → values_of f64 packet_loss_gauge (all_hop_samples f64 target hs) ≡ map hop_loss hs
  unfolding all_hop_samples hop_samples record_rtt record_packet_loss
  all_hop_samples-losses target [] = refl
  all_hop_samples-losses target (h ∷ hs) = ground (arith, all_hop_samples-losses target hs)

  all_hop_samples-rtts :
      (target : Text) (hs : List MtrHop)
      → values_of f64 rtt_histogram (all_hop_samples f64 target hs) ≡ hop_rtts hs
  unfolding all_hop_samples hop_samples record_rtt record_packet_loss
  all_hop_samples-rtts target [] = refl
  all_hop_samples-rtts target (h ∷ hs) = ground (arith, all_hop_samples-rtts target hs)

  -- A traceroute that ends without an error, of a probe with metrics, leaves a loss of 0 or 1 for
  -- each of its hops in order, and the round trip of each hop that answered; it is kept as the last
  -- result under the name of the target, and the same result is handed to the callback.
  pub execute_trace-hops :
      (p : MtrProbe) (r : MtrResult)
      → p.enabled ≡ true
      → let e = execute_trace f64 (some r) true p in
        (values_of f64 packet_loss_gauge e.samples ≡ map hop_loss r.hops)
        × (values_of f64 rtt_histogram e.samples ≡ hop_rtts r.hops)
        × (e.reported ≡ some (record r { target = p.target_name }))
        × (e.probe.last_result ≡ e.reported)
  unfolding execute_trace
  execute_trace-hops p r on = (
    rw on (all_hop_samples-losses p.target_name r.hops),
    rw on (all_hop_samples-rtts p.target_name r.hops),
    refl,
    refl,
  )
