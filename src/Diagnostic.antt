-- ===== src/Diagnostic.antt =====
-- internal/diagnostic/analyzer.go: the engine that correlates an anomaly with a traceroute.
-- The timestamp of a report and the text of its messages are left out; a message is named by a
-- constructor. Analyze returns its report and the warning that it logs.
pub mod Findings
pub mod Classification
mod Tests
use stabsight.Base.{
  ℕ, ◌*◌, ◌≡◌, ℤ, pos, ltb_ℤ, leb_ℤ, same_ℤ, Bool, true, false, not, ◌&&◌, ◌||◌, Option, none, some,
  List, [], ◌∷◌, Text, codes, Float64, millisecond, if◌then◌else◌,
}
use stabsight.Probes.Trace.{MtrHop, MtrResult}

-- DiagnosisType
pub data Diagnosis : Type 0 where
  ok local_network isp_gateway transit_loss target_unreachable high_latency : Diagnosis

unfoldable pub to_string : Diagnosis → Text
to_string ok = codes "normal"
to_string local_network = codes "local_network_issue"
to_string isp_gateway = codes "isp_gateway_loss"
to_string transit_loss = codes "transit_route_loss"
to_string target_unreachable = codes "target_unreachable"
to_string high_latency = codes "high_latency_detected"

pub data Message : Type 0 where
  operating_normally degradation_detected local_gateway isp_gateway_node transit_network : Message
  host_unreachable all_packets_lost latency_detected : Message

-- Report
pub record Report (f64 : Float64) : Type 0 where
  pub target : Text
  pub diagnosis : Diagnosis
  pub loss_ratio : f64.F
  pub rtt : ℤ
  pub faulty_hop : ℤ
  pub faulty_hop_ip : Text
  pub message : Message

-- The fields of the logged warning; the hop is there if its number is positive.
pub record Warning (f64 : Float64) : Type 0 where
  pub target : Text
  pub diagnosis : Diagnosis
  pub loss_ratio : f64.F
  pub rtt : ℤ
  pub faulty : Option (ℤ × Text)
  pub message : Message

-- Engine, less its logger
pub record Engine (f64 : Float64) : Type 0 where
  pub loss_threshold : f64.F
  pub latency_threshold : ℤ

-- The local variables of Analyze.
pub record Finding : Type 0 where
  pub diagnosis : Diagnosis
  pub faulty_hop : ℤ
  pub faulty_hop_ip : Text
  pub message : Message

-- `!hop.Success || (hop.RTT > e.latencyThreshold && hop.RTT > 0)`
unfoldable pub is_faulty : ℤ → MtrHop → Bool
is_faulty threshold h = not h.success || (ltb_ℤ threshold h.rtt && ltb_ℤ (pos 0) h.rtt)

-- The switch on the number of the faulty hop.
unfoldable pub blame : MtrHop → Finding
blame h =
    if same_ℤ h.hop (pos 1)
    then record {
      diagnosis = local_network;
      faulty_hop = h.hop;
      faulty_hop_ip = h.ip;
      message = local_gateway;
    }
    else if leb_ℤ h.hop (pos 3)
    then record {
      diagnosis = isp_gateway;
      faulty_hop = h.hop;
      faulty_hop_ip = h.ip;
      message = isp_gateway_node;
    }
    else record {
      diagnosis = transit_loss;
      faulty_hop = h.hop;
      faulty_hop_ip = h.ip;
      message = transit_network;
    }

-- The loop over the hops, which ends at the first faulty one.
unfoldable pub scan_hops : ℤ → List MtrHop → Finding → Finding
scan_hops threshold [] f = f
scan_hops threshold (h ∷ hs) f = if is_faulty threshold h then blame h else scan_hops threshold hs f

abbrev pub degraded : Finding
degraded = record {
  diagnosis = transit_loss;
  faulty_hop = pos 0;
  faulty_hop_ip = [];
  message = degradation_detected;
}

abbrev pub normal : Finding
normal = record {
  diagnosis = ok;
  faulty_hop = pos 0;
  faulty_hop_ip = [];
  message = operating_normally;
}

-- The branch of a traceroute with hops.
unfoldable pub correlate : ℤ → MtrResult → Finding
unfolding scan_hops
correlate threshold m =
    let f = scan_hops threshold m.hops degraded in
    if same_ℤ f.faulty_hop (pos 0) && not m.reached_target
    then record f { diagnosis = target_unreachable; message = host_unreachable }
    else f

-- The branches without a traceroute: `all_lost` is `lossRatio >= 1.0`.
unfoldable pub uncorrelated : Bool → Bool → Bool → Finding
uncorrelated has_loss has_latency all_lost =
    if has_loss && all_lost
    then record degraded { diagnosis = target_unreachable; message = all_packets_lost }
    else if has_latency
    then record degraded { diagnosis = high_latency; message = latency_detected }
    else degraded

module _ (f64 : Float64) where
  open f64 use {F, zero_f, one_f, five_percent, le}

  -- NewEngine
  unfoldable pub new_engine : F → ℤ → Engine f64
  new_engine loss latency = record {
    loss_threshold = if le loss zero_f then five_percent else loss;
    latency_threshold = if leb_ℤ latency (pos 0) then pos (250 * millisecond) else latency;
  }

  unfoldable pub diagnose : Engine f64 → F → ℤ → Option MtrResult → Finding
  diagnose e loss rtt none =
      uncorrelated (le e.loss_threshold loss) (leb_ℤ e.latency_threshold rtt) (le one_f loss)
  diagnose e loss rtt (some m) = elim m.hops [
    | [] ↦ uncorrelated (le e.loss_threshold loss) (leb_ℤ e.latency_threshold rtt) (le one_f loss)
    | h ∷ hs ↦ correlate e.latency_threshold m
  ]

  -- The report and the warning made from the local variables.
  abbrev pub report_of : Text → F → ℤ → Finding → Report f64
  report_of target loss rtt f = record {
    target = target;
    diagnosis = f.diagnosis;
    loss_ratio = loss;
    rtt = rtt;
    faulty_hop = f.faulty_hop;
    faulty_hop_ip = f.faulty_hop_ip;
    message = f.message;
  }

  abbrev pub warning_of : Text → F → ℤ → Finding → Warning f64
  warning_of target loss rtt f = record {
    target = target;
    diagnosis = f.diagnosis;
    loss_ratio = loss;
    rtt = rtt;
    faulty = if ltb_ℤ (pos 0) f.faulty_hop then some (f.faulty_hop, f.faulty_hop_ip) else none;
    message = f.message;
  }

  -- Analyze
  unfoldable pub analyze :
      Engine f64 → Text → F → ℤ → Option MtrResult → Report f64 × Option (Warning f64)
  analyze e target loss rtt mtr =
      if not (le e.loss_threshold loss) && not (leb_ℤ e.latency_threshold rtt)
      then (report_of target loss rtt normal, none)
      else let f = diagnose e loss rtt mtr in
        (report_of target loss rtt f, some (warning_of target loss rtt f))
