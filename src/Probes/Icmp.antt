-- ===== src/Probes/Icmp.antt =====
-- internal/probes/icmp.go: ICMPProbe, and the receive loop of RealPinger.Ping.
-- The pinger is outside the model: a check is given what Ping returned, `none` for an error.
use stabsight.Base.{
  ℤ, pos, is_pos, second, Bool, false, ◌||◌, Option, none, some, List, [], ◌∷◌, ◌++◌, Text, codes,
  same_ℤ, Float64, if◌then◌else◌,
}
use stabsight.Config.Types.{IcmpProbeConfig}
use stabsight.Scheduler.Registry.{ProbeWorker}
use stabsight.Scheduler.Worker.{Handle, Choice, light_start}
use stabsight.Probes.Jitter.{JitterCalculator}
use stabsight.Probes.Check.{Labels, Effect, report_check}

-- ICMPProbe, less its pinger and its jitter calculator; `enabled` is whether `metrics` is not nil.
pub record IcmpProbe : Type 0 where
  pub name : Text
  pub target_name : Text
  pub host : Text
  pub ip_version : Text
  pub interval : ℤ
  pub timeout : ℤ
  pub count : ℤ
  pub enabled : Bool

abbrev pub icmp_interval : Option IcmpProbeConfig → ℤ
icmp_interval none = pos second
icmp_interval (some c) = if is_pos c.interval then c.interval else pos second

abbrev pub icmp_timeout : Option IcmpProbeConfig → ℤ
icmp_timeout none = pos second
icmp_timeout (some c) = if is_pos c.timeout then c.timeout else pos second

abbrev pub icmp_count : Option IcmpProbeConfig → ℤ
icmp_count none = pos 1
icmp_count (some c) = if is_pos c.count then c.count else pos 1

-- NewICMPProbe
unfoldable pub new_icmp_probe : Text → Text → Option IcmpProbeConfig → Text → Bool → IcmpProbe
new_icmp_probe target_name host cfg ip_version enabled = record {
  name = target_name ++ codes "/icmp";
  target_name = target_name;
  host = host;
  ip_version = ip_version;
  interval = icmp_interval cfg;
  timeout = icmp_timeout cfg;
  count = icmp_count cfg;
  enabled = enabled;
}

-- Name, TargetName, ProbeType and IsExclusive
unfoldable pub icmp_worker : IcmpProbe → ProbeWorker
icmp_worker p = record {
  name = p.name;
  target_name = p.target_name;
  probe_type = codes "icmp";
  is_exclusive = false;
}

abbrev pub icmp_labels : IcmpProbe → Labels
icmp_labels p = record {
  target_name = p.target_name;
  probe_type = codes "icmp";
  ip_version = p.ip_version;
  enabled = p.enabled;
}

-- Start
unfoldable pub icmp_start : Bool → Choice → Handle → Option Handle
icmp_start cancelled c h = light_start cancelled c h

-- executeCheck
unfoldable pub icmp_execute_check :
    (f64 : Float64) → IcmpProbe → Option ℤ → JitterCalculator f64 → Effect f64
icmp_execute_check f64 p outcome j = report_check f64 (icmp_labels p) [] outcome j

-- What the loop of Ping reads: a packet that arrived `rtt` after the start, as ParseMessage and the
-- type switch see it.
pub data Reply : Type 0 where
  unparsable : Reply
  other_message : Reply
  echo_reply : (id seq : ℤ) (rtt : ℤ) → Reply

-- The receive loop of Ping; the list ends where the context or the deadline ends the reads.
unfoldable pub ping_replies : (id seq : ℤ) → List Reply → Option ℤ
ping_replies id seq [] = none
ping_replies id seq (unparsable ∷ rs) = ping_replies id seq rs
ping_replies id seq (other_message ∷ rs) = ping_replies id seq rs
ping_replies id seq (echo_reply i s rtt ∷ rs) =
    if same_ℤ s seq || same_ℤ i id then some rtt else ping_replies id seq rs
