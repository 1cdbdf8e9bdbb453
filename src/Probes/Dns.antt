-- ===== src/Probes/Dns.antt =====
-- internal/probes/dns.go: DNSProbe, and what RealDNSResolver.Resolve makes of a response.
-- The resolver is outside the model: a check is given what Resolve returned, `none` for an error.
use stabsight.Base.{
  ℕ, ℤ, pos, is_pos, second, Bool, false, not, ◌*◌, ◌&&◌, Option, none, some, List, [], ◌∷◌, ◌++◌,
  Text, codes, text_eq, to_upper, leb_ℤ, ◌==◌, Float64, if◌then◌else◌,
}
use stabsight.Config.Types.{DnsProbeConfig}
use stabsight.Scheduler.Registry.{ProbeWorker}
use stabsight.Scheduler.Worker.{Handle, Choice, light_start}
use stabsight.Telemetry.Metrics.{Attribute, text_attr}
use stabsight.Probes.Jitter.{JitterCalculator}
use stabsight.Probes.Check.{Labels, Effect, report_check}

-- DNSProbe, less its resolver and its jitter calculator
pub record DnsProbe : Type 0 where
  pub name : Text
  pub target_name : Text
  pub host : Text
  pub ip_version : Text
  pub interval : ℤ
  pub timeout : ℤ
  pub server : Text
  pub record_type : Text
  pub enabled : Bool

abbrev pub dns_interval : Option DnsProbeConfig → ℤ
dns_interval none = pos (5 * second)
dns_interval (some c) = if is_pos c.interval then c.interval else pos (5 * second)

abbrev pub dns_timeout : Option DnsProbeConfig → ℤ
dns_timeout none = pos (2 * second)
dns_timeout (some c) = if is_pos c.timeout then c.timeout else pos (2 * second)

abbrev pub dns_server : Option DnsProbeConfig → Text
dns_server none = codes "8.8.8.8:53"
dns_server (some c) = if text_eq c.server [] then codes "8.8.8.8:53" else c.server

abbrev pub dns_record_type : Option DnsProbeConfig → Text
dns_record_type none = codes "A"
dns_record_type (some c) = if text_eq c.record_type [] then codes "A" else to_upper c.record_type

-- NewDNSProbe
unfoldable pub new_dns_probe : Text → Text → Option DnsProbeConfig → Text → Bool → DnsProbe
new_dns_probe target_name host cfg ip_version enabled = record {
  name = target_name ++ codes "/dns";
  target_name = target_name;
  host = host;
  ip_version = ip_version;
  interval = dns_interval cfg;
  timeout = dns_timeout cfg;
  server = dns_server cfg;
  record_type = dns_record_type cfg;
  enabled = enabled;
}

unfoldable pub dns_worker : DnsProbe → ProbeWorker
dns_worker p = record {
  name = p.name;
  target_name = p.target_name;
  probe_type = codes "dns";
  is_exclusive = false;
}

abbrev pub dns_labels : DnsProbe → Labels
dns_labels p = record {
  target_name = p.target_name;
  probe_type = codes "dns";
  ip_version = p.ip_version;
  enabled = p.enabled;
}

-- Start
unfoldable pub dns_start : Bool → Choice → Handle → Option Handle
dns_start cancelled c h = light_start cancelled c h

abbrev pub dns_extra : DnsProbe → List Attribute
dns_extra p = text_attr (codes "record_type") p.record_type ∷ []

-- executeCheck
unfoldable pub dns_execute_check :
    (f64 : Float64) → DnsProbe → Option ℤ → JitterCalculator f64 → Effect f64
dns_execute_check f64 p outcome j = report_check f64 (dns_labels p) (dns_extra p) outcome j

pub data QueryType : Type 0 where
  type_a type_aaaa type_cname type_txt type_mx type_ns type_ptr type_soa : QueryType

-- The switch on the record type.
unfoldable pub query_type : Text → QueryType
query_type r =
    let t = to_upper r in
    if text_eq t (codes "AAAA")
    then type_aaaa
    else if text_eq t (codes "CNAME")
    then type_cname
    else if text_eq t (codes "TXT")
    then type_txt
    else if text_eq t (codes "MX")
    then type_mx
    else if text_eq t (codes "NS")
    then type_ns
    else if text_eq t (codes "PTR")
    then type_ptr
    else if text_eq t (codes "SOA")
    then type_soa
    else type_a

-- What ExchangeContext of github.com/miekg/dns returned: an error, or a response code (`none` is
-- a nil response) with the round trip that it measured.
pub data Exchange : Type 0 where
  failed : Exchange
  answered : (rcode : Option ℕ) (rtt : ℤ) → Exchange

-- Resolve after the exchange; `elapsed` is time.Since(start). RcodeSuccess is 0, RcodeNameError 3.
unfoldable pub resolve_exchange : Exchange → ℤ → Option ℤ
resolve_exchange failed elapsed = none
resolve_exchange (answered none rtt) elapsed = none
resolve_exchange (answered (some rcode) rtt) elapsed =
    if not (rcode == 0) && not (rcode == 3)
    then none
    else if leb_ℤ rtt (pos 0) && leb_ℤ (pos 0) rtt
    then some elapsed
    else some rtt
