-- ===== src/Probes/Clients.antt =====
-- internal/probes: the checks over the clients that the program gives them: RealTCPDialer.Dial
-- (tcp.go), RealDNSResolver.Resolve (dns.go), RealHTTPClient.Do (http.go), RealPinger.Ping (icmp.go)
-- and RealMTRTracer.Trace (mtr.go). What these call in the libraries is a parameter.
pub mod Outcomes
pub mod Settings
pub mod Losses
pub mod Route
mod Tests
use stabsight.Base.{ℕ, ℤ, Bool, true, false, Option, none, some, List, Text, Float64, if◌then◌else◌}
use stabsight.Probes.Address.{dns_address, tcp_address}
use stabsight.Probes.Jitter.{JitterCalculator}
use stabsight.Probes.Check.{Effect}
use stabsight.Probes.Icmp
use stabsight.Probes.Icmp.{IcmpProbe, icmp_execute_check}
use stabsight.Probes.Dns.{
  DnsProbe, QueryType, query_type, Exchange, resolve_exchange, dns_execute_check,
}
use stabsight.Probes.Tcp.{TcpProbe, tcp_network, tcp_execute_check}
use stabsight.Probes.Http.{HttpProbe, Response, Trace, do_exchange, http_execute_check}
use stabsight.Probes.Trace.{MtrResult, HopResult, TraceResult, trace}
use stabsight.Probes.Mtr.{MtrProbe, TraceEffect, execute_trace}
use stabsight.Probes.Socket.{Network, PingResult, replied, ping_failed, ping}

-- What net.Dialer.DialContext returned, and the time that it took.
pub record Dialled : Type 0 where
  pub connected : Bool
  pub elapsed : ℤ

-- The result of Dial, and whether it has closed a connection.
pub record DialResult : Type 0 where
  pub rtt : Option ℤ
  pub closed : Bool

abbrev pub end_dial : Dialled → DialResult
end_dial d =
    if d.connected
    then record { rtt = some d.elapsed; closed = true }
    else record { rtt = none; closed = false }

-- RealTCPDialer.Dial
unfoldable pub dial :
    ((network address : Text) (timeout : ℤ) → Dialled)
    → (network address : Text) (timeout : ℤ) → DialResult
dial connect network address timeout = end_dial (connect network address timeout)

-- Resolve: one exchange for the host and its query type, and the time since the start.
unfoldable pub resolve :
    (QueryType → (host server : Text) (timeout : ℤ) → Exchange × ℤ)
    → (host record_type server : Text) (timeout : ℤ) → Option ℤ
resolve exchange host record_type server timeout =
    let (answer, elapsed) = exchange (query_type record_type) host (dns_address server) timeout in
    resolve_exchange answer elapsed

-- What http.NewRequestWithContext and the client's Do returned: `none` if there is no request, or
-- the status, which is `none` for an error, the total duration and the traced times.
abbrev pub Sent : Type 0
Sent = Option (Option ℤ × ℤ × Trace)

abbrev pub end_request : ℤ → Sent → Response
end_request expected none = record { result = none; is_error = true }
end_request expected (some (status, total, times)) = do_exchange expected status total times

-- RealHTTPClient.Do
unfoldable pub do_request :
    ((method url : Text) (skip_verify : Bool) (timeout : ℤ) → Sent)
    → (method url : Text) (expected : ℤ) (skip_verify : Bool) (timeout : ℤ) → Response
do_request send method url expected skip_verify timeout =
    end_request expected (send method url skip_verify timeout)

abbrev pub rtt_of : PingResult → Option ℤ
rtt_of (replied rtt) = some rtt
rtt_of (ping_failed e) = none

-- The result of Trace, `none` for nil, and whether its error is nil; `none` as a whole is a panic.
abbrev pub Traced : Type 0
Traced = Option (Option MtrResult × Bool)

abbrev pub result_of : TraceResult → Traced
result_of none = none
result_of (some (r, ok)) = some (some r, ok)

abbrev pub trace_from :
    (limit : ℕ) (done : ℕ → Bool)
    → (Text × Bool → ℕ → HopResult)
    → Text
    → ℤ
    → Option (Text × Bool)
    → Traced
trace_from limit done ping host max_hops none = some (none, false)
trace_from limit done ping host max_hops (some target) =
    result_of (trace limit done (ping target) host max_hops)

-- Trace: the host resolves to the text of an address and whether it is an IPv6 one; `ping` is
-- pingHop for that address and a ttl.
unfoldable pub trace_host :
    (Text → Option (Text × Bool))
    → (limit : ℕ) (done : ℕ → Bool) → (Text × Bool → ℕ → HopResult)
    → Text
    → ℤ
    → Traced
trace_host resolve_ip limit done ping host max_hops =
    trace_from limit done ping host max_hops (resolve_ip host)

abbrev pub end_trace : (f64 : Float64) → Traced → MtrProbe → Option (TraceEffect f64)
end_trace f64 none p = none
end_trace f64 (some (r, ok)) p = some (execute_trace f64 r ok p)

-- executeCheck and executeTrace with their clients.
module _ (f64 : Float64) where
  unfoldable pub icmp_check :
      Network → (id seq : ℤ) → List Icmp.Reply → IcmpProbe → JitterCalculator f64 → Effect f64
  icmp_check w id seq replies p j =
      icmp_execute_check f64 p (rtt_of (ping w p.host p.ip_version id seq replies)) j

  unfoldable pub dns_check :
      (QueryType → (host server : Text) (timeout : ℤ) → Exchange × ℤ)
      → DnsProbe
      → JitterCalculator f64
      → Effect f64
  dns_check exchange p j =
      dns_execute_check f64 p (resolve exchange p.host p.record_type p.server p.timeout) j

  unfoldable pub tcp_check :
      ((network address : Text) (timeout : ℤ) → Dialled)
      → TcpProbe
      → JitterCalculator f64
      → Effect f64
  tcp_check connect p j =
      tcp_execute_check f64 p
        (dial connect (tcp_network p.ip_version) (tcp_address p.host p.port) p.timeout).rtt j

  unfoldable pub http_check :
      ((method url : Text) (skip_verify : Bool) (timeout : ℤ) → Sent)
      → HttpProbe
      → JitterCalculator f64
      → Option (Effect f64)
  http_check send p j =
      http_execute_check f64 p
        (do_request send p.method p.url p.expected_code p.tls_skip_verify p.timeout) j

  unfoldable pub mtr_check :
      (Text → Option (Text × Bool))
      → (limit : ℕ) (done : ℕ → Bool) → (Text × Bool → ℕ → HopResult)
      → MtrProbe
      → Option (TraceEffect f64)
  mtr_check resolve_ip limit done ping p =
      end_trace f64 (trace_host resolve_ip limit done ping p.host p.max_hops) p
