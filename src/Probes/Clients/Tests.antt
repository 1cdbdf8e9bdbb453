-- ===== src/Probes/Clients/Tests.antt =====
-- Checks over concrete networks.
use stabsight.Base.{
  ℕ, ℤ, pos, ◌≡◌, millisecond, ◌*◌, ◌==◌, Bool, true, false, Option, none, some, List, [], ◌∷◌,
  Text, codes, text_eq, to_upper, join_host_port, decimal, if◌then◌else◌,
}
use stabsight.Config.Types.{DnsProbeConfig}
use stabsight.Telemetry.Metrics.{packet_loss_gauge}
use stabsight.Probes.Jitter.{new_jitter}
use stabsight.Probes.Check.Samples.{values_of}
use stabsight.Probes.Recorded.{losses_in}
use stabsight.Probes.Icmp.{new_icmp_probe}
use stabsight.Probes.Dns.{
  QueryType, query_type, type_aaaa, Exchange, failed, answered, new_dns_probe,
}
use stabsight.Probes.Address.{dns_address}
use stabsight.Probes.Tcp.{new_tcp_probe, tcp_network}
use stabsight.Probes.Http.{new_http_probe}
use stabsight.Probes.Trace.{Echo, Reply, echo_reply}
use stabsight.Probes.Socket.{Network, ping}
use stabsight.Probes.Clients.{Dialled, Sent, icmp_check, dns_check, tcp_check, http_check}
use stabsight.Probes.Clients.Losses.{checks_loss}

-- No host resolves for a ping.
abbrev unresolved : Network
unresolved = record {
  resolve = λ network host. none;
  listen = λ network address. none;
  marshal_ok = true;
  deadline_ok = true;
  write_ok = λ to_udp. true;
}

abbrev is_aaaa : QueryType → Bool
is_aaaa type_aaaa = true
is_aaaa _ = false

-- A server that knows no such name, asked for IPv6 addresses at its port.
abbrev name_server : QueryType → (host server : Text) (timeout : ℤ) → Exchange × ℤ
name_server t host server timeout =
    if is_aaaa t
    then (if text_eq server (codes "192.0.2.53:53")
        then (answered (some 3) (pos (4 * millisecond)), pos (5 * millisecond))
        else (failed, pos millisecond))
    else (failed, pos millisecond)

abbrev asks_ipv6 : Option DnsProbeConfig
asks_ipv6 = some (record {
  interval = pos 0;
  timeout = pos 0;
  server = codes "192.0.2.53";
  record_type = codes "aaaa";
})

-- Only IPv4 connections are refused.
abbrev connect : (network address : Text) (timeout : ℤ) → Dialled
connect network address timeout =
    if text_eq network (codes "tcp4")
    then record { connected = false; elapsed = pos millisecond }
    else record { connected = true; elapsed = pos millisecond }

-- No request can be made.
abbrev no_request : (method url : Text) (skip_verify : Bool) (timeout : ℤ) → Sent
no_request method url skip_verify timeout = none

checks_loss_example :
    (values_of decimal packet_loss_gauge
        (icmp_check decimal unresolved
          (pos 1)
          (pos 2)
          []
          (new_icmp_probe (codes "web") (codes "example.org") none (codes "ipv4") true)
          (new_jitter decimal)).1
      ≡ pos 1000000000 ∷ [])
    × (values_of decimal packet_loss_gauge
          (dns_check decimal name_server
            (new_dns_probe (codes "web") (codes "example.org") asks_ipv6 (codes "ipv4") true)
            (new_jitter decimal)).1
        ≡ pos 0 ∷ [])
    × (values_of decimal packet_loss_gauge
          (tcp_check decimal connect
            (new_tcp_probe (codes "web") (codes "example.org") none (codes "ipv4") true)
            (new_jitter decimal)).1
        ≡ pos 1000000000 ∷ [])
    × (losses_in decimal (
          http_check decimal no_request
            (new_http_probe (codes "web") (codes "example.org") none (codes "ipv4") true)
            (new_jitter decimal))
        ≡ some (pos 1000000000 ∷ []))
unfolding query_type dns_address tcp_network text_eq ping to_upper join_host_port
checks_loss_example =
    checks_loss decimal (codes "web") (codes "example.org") (codes "ipv4") none asks_ipv6 none none
      unresolved (pos 1) (pos 2) [] name_server connect no_request (new_jitter decimal)

abbrev host_echo : Text × Bool → ℕ → Echo
host_echo a ttl = record {
  ttl = pos ttl;
  id = 513;
  seq = 3;
  is_ipv6 = a.1;
  udp = false;
  target_ip = a.0;
}

abbrev target_replies : ℕ → List Reply
target_replies ttl =
    if ttl == 2 then echo_reply 513 3 (codes "192.0.2.1") (pos (9 * millisecond)) ∷ [] else []

abbrev found : Text → Option (Text × Bool)
found host = some (codes "192.0.2.1", false)

abbrev never : ℕ → Bool
never ttl = false
