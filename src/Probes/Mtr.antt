-- ===== src/Probes/Mtr.antt =====
-- internal/probes/mtr.go: MTRProbe. The tracer is a parameter: executeTrace is given what Trace
-- returned.
use stabsight.Base.{
  ℤ, mul_ℤ, wrap64, pos, is_pos, second, Bool, true, false, Option, none, some, List, [], ◌∷◌, ◌++◌,
  Text, codes, itoa, minute, Float64, if◌then◌else◌,
}
use stabsight.Config.Types.{MtrProbeConfig}
use stabsight.Scheduler.Registry.{ProbeWorker}
use stabsight.Scheduler.Worker.{Handle, Choice, light_start}
use stabsight.Telemetry.Metrics.{Attribute, Sample, text_attr, record_rtt, record_packet_loss}
use stabsight.Probes.Trace.{MtrHop, MtrResult}

-- MTRProbe, less its tracer and its callback
pub record MtrProbe : Type 0 where
  pub name : Text
  pub target_name : Text
  pub host : Text
  pub max_hops : ℤ
  pub interval : ℤ
  pub timeout : ℤ
  pub enabled : Bool
  pub last_result : Option MtrResult

abbrev pub mtr_interval : Option MtrProbeConfig → ℤ
mtr_interval none = pos minute
mtr_interval (some c) = if is_pos c.interval then c.interval else pos minute

abbrev pub mtr_timeout : Option MtrProbeConfig → ℤ
mtr_timeout none = pos second
mtr_timeout (some c) = if is_pos c.timeout then c.timeout else pos second

abbrev pub mtr_max_hops : Option MtrProbeConfig → ℤ
mtr_max_hops none = pos 30
mtr_max_hops (some c) = if is_pos c.max_hops then c.max_hops else pos 30

-- NewMTRProbe
unfoldable pub new_mtr_probe : Text → Text → Option MtrProbeConfig → Bool → MtrProbe
new_mtr_probe target_name host cfg enabled = record {
  name = target_name ++ codes "/mtr";
  target_name = target_name;
  host = host;
  max_hops = mtr_max_hops cfg;
  interval = mtr_interval cfg;
  timeout = mtr_timeout cfg;
  enabled = enabled;
  last_result = none;
}

unfoldable pub mtr_worker : MtrProbe → ProbeWorker
mtr_worker p = record {
  name = p.name;
  target_name = p.target_name;
  probe_type = codes "mtr";
  is_exclusive = false;
}

-- `time.Duration(p.maxHops)*p.timeout`, after which executeTrace cancels the trace
unfoldable pub trace_deadline : MtrProbe → ℤ
trace_deadline p = wrap64 (mul_ℤ p.max_hops p.timeout)

-- Start
unfoldable pub mtr_start : Bool → Choice → Handle → Option Handle
mtr_start cancelled c h = light_start cancelled c h

abbrev pub hop_attrs : MtrHop → List Attribute
hop_attrs h = text_attr (codes "hop") (itoa h.hop) ∷ text_attr (codes "hop_ip") h.ip ∷ []

module _ (f64 : Float64) where
  open f64 use {zero_f, one_f, seconds}

  -- The samples of one hop.
  unfoldable pub hop_samples : Text → MtrHop → List (Sample f64)
  hop_samples target h =
      if h.success
      then record_rtt f64 (seconds h.rtt) target (codes "mtr") (codes "ipv4") (hop_attrs h)
        ∷ record_packet_loss f64 zero_f target (codes "mtr") (codes "ipv4") (hop_attrs h)
        ∷ []
      else record_packet_loss f64 one_f target (codes "mtr") (codes "ipv4") (hop_attrs h) ∷ []

  unfoldable pub all_hop_samples : Text → List MtrHop → List (Sample f64)
  all_hop_samples target [] = []
  all_hop_samples target (h ∷ hs) = hop_samples target h ++ all_hop_samples target hs

  -- What executeTrace does: the probe's last result, the samples, and the argument of onResult.
  pub record TraceEffect : Type 0 where
    pub probe : MtrProbe
    pub samples : List (Sample f64)
    pub reported : Option MtrResult

  -- executeTrace; the tracer returned a result, `none` for nil, and whether its error is nil.
  unfoldable pub execute_trace : Option MtrResult → Bool → MtrProbe → TraceEffect
  execute_trace none ok p = record { probe = p; samples = []; reported = none }
  execute_trace (some r) false p = record { probe = p; samples = []; reported = none }
  execute_trace (some r) true p =
      let r' : MtrResult = record r { target = p.target_name } in
      record {
        probe = record p { last_result = some r' };
        samples = if p.enabled then all_hop_samples p.target_name r.hops else [];
        reported = some r';
      }
