-- ===== src/Probes/Recorded.antt =====
-- internal/probes: what the checks of the ICMP, DNS, TCP and HTTP probes record.
use stabsight.Base.{
  ◌≡◌, refl, ℤ, same_ℤ, true, Option, none, some, List, [], ◌∷◌, Text, Float64, if◌then◌else◌,
  arith, is_pos,
}
use stabsight.Config.Types.{IcmpProbeConfig, DnsProbeConfig, TcpProbeConfig, HttpProbeConfig}
use stabsight.Telemetry.Metrics.{packet_loss_gauge, record_rtt, record_jitter, record_packet_loss}
use stabsight.Probes.Jitter.{JitterCalculator, new_jitter, compute}
use stabsight.Probes.Check.{Effect, check_failed, check_succeeded}
use stabsight.Probes.Check.Samples.{Recorded, run_checks, checks-Recorded, values_of}
use stabsight.Probes.Icmp.{new_icmp_probe, icmp_labels, icmp_execute_check}
use stabsight.Probes.Dns.{new_dns_probe, dns_labels, dns_extra, dns_execute_check}
use stabsight.Probes.Tcp.{new_tcp_probe, tcp_labels, tcp_extra, tcp_execute_check}
use stabsight.Probes.Http.{
  Trace, new_http_probe, http_expected_code, http_failed, http_execute_check, is_expected,
  do_exchange,
}

-- A probe that NewICMPProbe, NewDNSProbe or NewTCPProbe makes with metrics, run over any outcomes
-- from its start, records a loss of 1 per failure and 0 per success, the round trip of each success
-- in seconds, and as jitter the distance of each successful round trip from the one before.
pub probes-Recorded :
    (f64 : Float64) (target host ip_version : Text) (icmp : Option IcmpProbeConfig)
    (dns : Option DnsProbeConfig) (tcp : Option TcpProbeConfig) (rs : List (Option ℤ))
    → Recorded f64 rs (
        run_checks f64
          (icmp_execute_check f64 (new_icmp_probe target host icmp ip_version true))
          rs
          (new_jitter f64))
      × (Recorded f64 rs (
            run_checks f64
              (dns_execute_check f64 (new_dns_probe target host dns ip_version true))
              rs
              (new_jitter f64))
          × Recorded f64 rs (
              run_checks f64
                (tcp_execute_check f64 (new_tcp_probe target host tcp ip_version true))
                rs
                (new_jitter f64)))
unfolding icmp_execute_check dns_execute_check tcp_execute_check new_icmp_probe new_dns_probe
    new_tcp_probe
probes-Recorded f64 target host ip_version icmp dns tcp rs =
    let i = new_icmp_probe target host icmp ip_version true in
    let d = new_dns_probe target host dns ip_version true in
    let t = new_tcp_probe target host tcp ip_version true in
    (
      checks-Recorded f64 (icmp_labels i) [] refl rs,
      (
        checks-Recorded f64 (dns_labels d) (dns_extra d) refl rs,
        checks-Recorded f64 (tcp_labels t) (tcp_extra t) refl rs,
      ),
    )

http_expected_code-pos : (cfg : Option HttpProbeConfig) → is_pos (http_expected_code cfg) ≡ true
http_expected_code-pos none = refl
http_expected_code-pos (some c) = ground arith

is_expected-pos :
    (expected status : ℤ)
    → is_pos expected ≡ true
    → is_expected expected status ≡ same_ℤ status expected
unfolding is_expected
is_expected-pos expected status h = ground arith

-- The loss that a probe should record for an exchange: 0 exactly for the expected status.
abbrev pub http_loss : (f64 : Float64) → ℤ → Option ℤ → f64.F
http_loss f64 expected none = f64.one_f
http_loss f64 expected (some status) = if same_ℤ status expected then f64.zero_f else f64.one_f

abbrev pub losses_in : (f64 : Float64) → Option (Effect f64) → Option (List f64.F)
losses_in f64 none = none
losses_in f64 (some e) = some (values_of f64 packet_loss_gauge e.1)

-- A check of a probe that NewHTTPProbe makes with metrics, on what Do returns, does not panic and
-- records one packet loss: 0 if the request gave the expected status, and 1 otherwise. The range
-- of 200 to 399 that Do has for an expected status of 0 or less is never used.
pub http_check-do_exchange :
    (f64 : Float64) (target host ip_version : Text) (cfg : Option HttpProbeConfig)
    (status : Option ℤ) (total : ℤ) (t : Trace) (j : JitterCalculator f64)
    → losses_in f64 (
        http_execute_check f64
          (new_http_probe target host cfg ip_version true)
          (do_exchange
            (new_http_probe target host cfg ip_version true).expected_code
            status
            total
            t)
          j)
      ≡ some (http_loss f64 (http_expected_code cfg) status ∷ [])
unfolding http_execute_check http_failed do_exchange new_http_probe check_failed check_succeeded
    compute record_rtt record_jitter record_packet_loss
http_check-do_exchange f64 target host ip_version cfg none total t j = refl
http_check-do_exchange f64 target host ip_version cfg (some status) total t j =
    ground (arith, is_expected-pos (http_expected_code cfg) status (http_expected_code-pos cfg))
