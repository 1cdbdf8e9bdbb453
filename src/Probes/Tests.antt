-- ===== src/Probes/Tests.antt =====
-- Traces, quoted packets and checks at concrete inputs.
use stabsight.Base.{
  ◌<◌, ◌^◌, ℕ, ◌≤◌, ◌≡◌, ◌↔◌, refl, ℤ, pos, ◌*◌, millisecond, Bool, true, false, Option, none, some,
  List, [], ◌∷◌, ◌++◌, codes, length, decimal, ◌==◌, arith, if◌then◌else◌,
}
use stabsight.Config.Types.{HttpProbeConfig}
use stabsight.Probes.Jitter.{new_jitter}
use stabsight.Probes.Check.Samples.{Recorded, run_checks}
use stabsight.Probes.Icmp.{new_icmp_probe, icmp_execute_check}
use stabsight.Probes.Icmp
use stabsight.Probes.Replies.{FirstAccepted, ping_replies_iff}
use stabsight.Probes.Mtr.{MtrProbe, new_mtr_probe, trace_deadline}
use stabsight.Probes.Deadline.{trace_deadline_iff}
use stabsight.Probes.Dns.{new_dns_probe, dns_execute_check}
use stabsight.Probes.Tcp.{new_tcp_probe, tcp_execute_check}
use stabsight.Probes.Recorded.{probes-Recorded}
use stabsight.Probes.Trace.{
  MtrResult, reply_hop, lost_hop, Reply, time_exceeded, echo_reply, Echo, match_time_exceeded,
  ping_hop, trace,
}
use stabsight.Probes.Trace.Matching.{
  match_time_exceeded-Defined, match_time_exceeded-ipv4, match_time_exceeded-ipv6, echo_header,
}
use stabsight.Probes.Trace.Path.{Consecutive, EndsWell, trace-Consecutive}

abbrev outcomes : List (Option ℤ)
outcomes =
    some (pos (10 * millisecond))
    ∷ none
    ∷ some (pos (14 * millisecond))
    ∷ some (pos (9 * millisecond))
    ∷ []

probes-Recorded_example :
    Recorded decimal outcomes (
      run_checks decimal
        (icmp_execute_check decimal
          (new_icmp_probe (codes "web") (codes "example.org") none [] true))
        outcomes
        (new_jitter decimal))
    × (Recorded decimal outcomes (
          run_checks decimal
            (dns_execute_check decimal
              (new_dns_probe (codes "web") (codes "example.org") none [] true))
            outcomes
            (new_jitter decimal))
        × Recorded decimal outcomes (
            run_checks decimal
              (tcp_execute_check decimal
                (new_tcp_probe (codes "web") (codes "example.org") none [] true))
              outcomes
              (new_jitter decimal)))
probes-Recorded_example =
    probes-Recorded decimal (codes "web") (codes "example.org") [] none none none outcomes

-- A probe that expects 204.
abbrev no_content : Option HttpProbeConfig
no_content = some (record {
  interval = pos 0;
  timeout = pos 0;
  url = [];
  method = [];
  expected_code = pos 204;
  tls_skip_verify = false;
})

-- The IPv4 header of a quoted packet, without options.
abbrev header_tail : List ℕ
header_tail = 0 ∷ 0 ∷ 28 ∷ 0 ∷ 0 ∷ 0 ∷ 0 ∷ 1 ∷ 1 ∷ 0 ∷ 0 ∷ 10 ∷ 0 ∷ 0 ∷ 2 ∷ 192 ∷ 0 ∷ 2 ∷ 1 ∷ []

abbrev quoted : List ℕ
quoted = (69 ∷ header_tail) ++ (echo_header 8 0 246 253 513 3 ++ [])

match_time_exceeded-Defined_example :
    (b : Bool) × (match_time_exceeded (69 ∷ header_tail) 513 3 false ≡ some b)
match_time_exceeded-Defined_example = match_time_exceeded-Defined (69 ∷ header_tail) 513 3 false

match_time_exceeded-ipv4_example : match_time_exceeded quoted 513 3 false ≡ some true
match_time_exceeded-ipv4_example =
    match_time_exceeded-ipv4 69 header_tail [] 0 246 253 513 3 513 3 (omega arith) refl

abbrev header6 : List ℕ
header6 = (69 ∷ header_tail) ++ (69 ∷ header_tail)

match_time_exceeded-ipv6_example :
    match_time_exceeded (header6 ++ (echo_header 128 0 31 9 0 4 ++ [])) 513 3 true ≡ some false
match_time_exceeded-ipv6_example = match_time_exceeded-ipv6 header6 [] 0 31 9 0 4 513 3 refl

-- The first hop answers with the quoted packet, the second is silent, the third is the target.
abbrev echo : ℕ → Echo
echo ttl = record {
  ttl = pos ttl;
  id = 513;
  seq = 3;
  is_ipv6 = false;
  udp = false;
  target_ip = codes "192.0.2.1";
}

abbrev replies : ℕ → List Reply
replies ttl =
    if ttl == 1
    then time_exceeded quoted (codes "10.0.0.1") (pos millisecond) ∷ []
    else if ttl == 3
    then echo_reply 513 3 (codes "192.0.2.1") (pos (9 * millisecond)) ∷ []
    else []

trace-Consecutive_example :
    (out : MtrResult) × (ok : Bool) × (trace 1000
        (λ _. false)
        (λ ttl. ping_hop (echo ttl) (replies ttl))
        (codes "example.org")
        (pos 30)
      ≡ some (out, ok))
    × Consecutive 1 out.hops
    × (length out.hops ≤ 30)
    × EndsWell (λ ttl. ping_hop (echo ttl) (replies ttl)) 30 out ok
trace-Consecutive_example =
    trace-Consecutive 1000 (λ _. false) echo replies (codes "example.org") 30 (omega arith)
      (λ ttl. refl)

-- The reply of another process, then one with the right sequence number.
abbrev mixed : List Icmp.Reply
mixed =
    Icmp.other_message
    ∷ Icmp.echo_reply (pos 7) (pos 9) (pos 100)
    ∷ Icmp.echo_reply (pos 7) (pos 3) (pos 200)
    ∷ []

ping_replies_iff_example :
    (Icmp.ping_replies (pos 513) (pos 3) mixed ≡ some (pos 200))
    ↔ FirstAccepted (pos 513) (pos 3) mixed (pos 200)
ping_replies_iff_example = ping_replies_iff (pos 513) (pos 3) mixed (pos 200)

abbrev tracer : MtrProbe
tracer = record {
  name = codes "web/mtr";
  target_name = codes "web";
  host = codes "example.org";
  max_hops = pos 30;
  interval = pos 1;
  timeout = pos 1;
  enabled = true;
  last_result = none;
}

abbrev traced : MtrResult
traced = record {
  target = codes "example.org";
  hops = reply_hop (pos 1) (codes "10.0.0.1") (pos 5) ∷ lost_hop (pos 2) ∷ [];
  reached_target = false;
}

-- The traceroute of 30 hops of a second each.
trace_deadline_iff_example :
    (trace_deadline (
        new_mtr_probe
          (codes "web")
          (codes "example.org")
          (some
            (record { interval = pos 60000000000; timeout = pos 1000000000; max_hops = pos 30 }))
          true)
      ≡ pos (30 * 1000000000))
    ↔ (30 * 1000000000 < 2 ^ 63)
trace_deadline_iff_example =
    trace_deadline_iff (codes "web") (codes "example.org")
      (record { interval = pos 60000000000; timeout = pos 1000000000; max_hops = pos 30 }) true 30
      1000000000 refl refl (omega arith) (omega arith)
