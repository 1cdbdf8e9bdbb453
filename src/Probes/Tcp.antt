-- ===== src/Probes/Tcp.antt =====
-- internal/probes/tcp.go: TCPProbe. The dialer is outside the model: a check is given what Dial
-- returned, `none` for an error.
use stabsight.Base.{
  ℤ, pos, is_pos, second, Bool, false, ◌*◌, Option, none, some, List, [], ◌∷◌, ◌++◌, Text, codes,
  text_eq, Float64, if◌then◌else◌,
}
use stabsight.Config.Types.{TcpProbeConfig}
use stabsight.Scheduler.Registry.{ProbeWorker}
use stabsight.Scheduler.Worker.{Handle, Choice, light_start}
use stabsight.Telemetry.Metrics.{Attribute, int}
use stabsight.Probes.Jitter.{JitterCalculator}
use stabsight.Probes.Check.{Labels, Effect, report_check}

-- TCPProbe, less its dialer and its jitter calculator
pub record TcpProbe : Type 0 where
  pub name : Text
  pub target_name : Text
  pub host : Text
  pub port : ℤ
  pub ip_version : Text
  pub interval : ℤ
  pub timeout : ℤ
  pub enabled : Bool

abbrev pub tcp_interval : Option TcpProbeConfig → ℤ
tcp_interval none = pos (5 * second)
tcp_interval (some c) = if is_pos c.interval then c.interval else pos (5 * second)

abbrev pub tcp_timeout : Option TcpProbeConfig → ℤ
tcp_timeout none = pos (2 * second)
tcp_timeout (some c) = if is_pos c.timeout then c.timeout else pos (2 * second)

abbrev pub tcp_port : Option TcpProbeConfig → ℤ
tcp_port none = pos 80
tcp_port (some c) = if is_pos c.port then c.port else pos 80

-- NewTCPProbe
unfoldable pub new_tcp_probe : Text → Text → Option TcpProbeConfig → Text → Bool → TcpProbe
new_tcp_probe target_name host cfg ip_version enabled = record {
  name = target_name ++ codes "/tcp";
  target_name = target_name;
  host = host;
  port = tcp_port cfg;
  ip_version = ip_version;
  interval = tcp_interval cfg;
  timeout = tcp_timeout cfg;
  enabled = enabled;
}

unfoldable pub tcp_worker : TcpProbe → ProbeWorker
tcp_worker p = record {
  name = p.name;
  target_name = p.target_name;
  probe_type = codes "tcp";
  is_exclusive = false;
}

abbrev pub tcp_labels : TcpProbe → Labels
tcp_labels p = record {
  target_name = p.target_name;
  probe_type = codes "tcp";
  ip_version = p.ip_version;
  enabled = p.enabled;
}

-- Start
unfoldable pub tcp_start : Bool → Choice → Handle → Option Handle
tcp_start cancelled c h = light_start cancelled c h

-- The network that executeCheck dials.
unfoldable pub tcp_network : Text → Text
tcp_network v =
    if text_eq v (codes "ipv4")
    then codes "tcp4"
    else if text_eq v (codes "ipv6")
    then codes "tcp6"
    else codes "tcp"

abbrev pub tcp_extra : TcpProbe → List Attribute
tcp_extra p = record { key = codes "port"; value = int p.port } ∷ []

-- executeCheck
unfoldable pub tcp_execute_check :
    (f64 : Float64) → TcpProbe → Option ℤ → JitterCalculator f64 → Effect f64
tcp_execute_check f64 p outcome j = report_check f64 (tcp_labels p) (tcp_extra p) outcome j
