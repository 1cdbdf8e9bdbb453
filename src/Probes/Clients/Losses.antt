-- ===== src/Probes/Clients/Losses.antt =====
-- The packet loss that one check records, over the client that the program gives it.
use stabsight.Base.{
  ℤ, pos, is_pos, second, ◌*◌, ◌++◌, codes, to_upper, ◌≡◌, refl, ◌∙◌, ap, Bool, true, Option, some,
  List, [], ◌∷◌, Text, itoa, join_host_port, Float64,
}
use stabsight.Config.Types.{IcmpProbeConfig, DnsProbeConfig, HttpProbeConfig, TcpProbeConfig}
use stabsight.Telemetry.Metrics.{packet_loss_gauge}
use stabsight.Probes.Address.{dns_address, tcp_address}
use stabsight.Probes.Jitter.{JitterCalculator}
use stabsight.Probes.Check.Samples.{values_of}
use stabsight.Probes.Recorded.{http_loss, losses_in, http_check-do_exchange}
use stabsight.Probes.Icmp
use stabsight.Probes.Icmp.{new_icmp_probe, icmp_labels, icmp_execute_check}
use stabsight.Probes.Dns.{
  QueryType, query_type, Exchange, resolve_exchange, new_dns_probe, dns_labels, dns_extra,
  dns_execute_check, dns_timeout, dns_server, dns_record_type,
}
use stabsight.Probes.Tcp.{
  new_tcp_probe, tcp_labels, tcp_extra, tcp_network, tcp_execute_check, tcp_timeout, tcp_port,
}
use stabsight.Probes.Http.{
  new_http_probe, http_url, http_method, http_tls_skip_verify, http_timeout, http_expected_code,
  http_execute_check,
}
use stabsight.Probes.Clients.Outcomes.{
  is_fine, is_replied, status_of, loss_if, resolve_exchange-is_fine, dial-is_some,
  rtt_of-is_replied, end_request-do_exchange, report_check-loss_if,
}
use stabsight.Probes.Clients.Settings.{
  setting, named, entry, tcp_networks, asked_type, asked_server, skips_verification,
  query_type-asked, dns_address-asked, dns_timeout-setting, tcp_network-entry, tcp_port-setting,
  tcp_timeout-setting, http_expected_code-setting, http_method-setting, http_url-setting,
  http_tls_skip_verify-skips, http_timeout-setting,
}
use stabsight.Probes.Socket.{Network, ping}
use stabsight.Probes.Clients.{
  Dialled, dial, resolve, Sent, do_request, rtt_of, icmp_check, dns_check, tcp_check, http_check,
}

module _ (f64 : Float64) where
  dns_check-asked :
      (target host ip_version : Text) (dns : Option DnsProbeConfig)
      (exchange : QueryType → (host server : Text) (timeout : ℤ) → Exchange × ℤ)
      (j : JitterCalculator f64)
      → values_of f64 packet_loss_gauge
          (dns_check f64 exchange (new_dns_probe target host dns ip_version true) j).1
        ≡ loss_if f64 (
            is_fine
              (exchange
                (asked_type dns)
                host
                (asked_server dns)
                (setting dns (λ c. c.timeout) is_pos (pos (2 * second)))).0)
          ∷ []
  unfolding dns_check dns_execute_check new_dns_probe resolve
  dns_check-asked target host ip_version dns exchange j =
      let d = new_dns_probe target host dns ip_version true in
      let x =
        exchange (query_type (dns_record_type dns)) host (dns_address (dns_server dns))
          (dns_timeout dns) in
      report_check-loss_if f64 (dns_labels d) (dns_extra d) (resolve_exchange x.0 x.1) j refl
      ∙ ap (λ (b : Bool). loss_if f64 b ∷ []) (resolve_exchange-is_fine x.0 x.1)
      ∙ rw (query_type-asked dns, dns_address-asked dns, dns_timeout-setting dns) refl

  tcp_check-asked :
      (target host ip_version : Text) (tcp : Option TcpProbeConfig)
      (connect : (network address : Text) (timeout : ℤ) → Dialled) (j : JitterCalculator f64)
      → values_of f64 packet_loss_gauge
          (tcp_check f64 connect (new_tcp_probe target host tcp ip_version true) j).1
        ≡ loss_if f64
            (connect
              (entry tcp_networks ip_version (codes "tcp"))
              (join_host_port host (itoa (setting tcp (λ c. c.port) is_pos (pos 80))))
              (setting tcp (λ c. c.timeout) is_pos (pos (2 * second)))).connected
          ∷ []
  unfolding tcp_check tcp_execute_check new_tcp_probe tcp_address
  tcp_check-asked target host ip_version tcp connect j =
      let t = new_tcp_probe target host tcp ip_version true in
      let address = join_host_port host (itoa (tcp_port tcp)) in
      let network = tcp_network ip_version in
      report_check-loss_if f64 (tcp_labels t) (tcp_extra t)
        (dial connect network address (tcp_timeout tcp)).rtt j refl
      ∙ ap (λ (b : Bool). loss_if f64 b ∷ [])
          (dial-is_some connect network address (tcp_timeout tcp))
      ∙ rw (tcp_network-entry ip_version, tcp_port-setting tcp, tcp_timeout-setting tcp) refl

  http_check-asked :
      (target host ip_version : Text) (http : Option HttpProbeConfig)
      (send : (method url : Text) (skip_verify : Bool) (timeout : ℤ) → Sent)
      (j : JitterCalculator f64)
      → losses_in f64 (http_check f64 send (new_http_probe target host http ip_version true) j)
        ≡ some (
            http_loss f64 (setting http (λ c. c.expected_code) is_pos (pos 200)) (
              status_of (
                send
                  (to_upper (setting http (λ c. c.method) named (codes "GET")))
                  (setting http (λ c. c.url) named (codes "http://" ++ host))
                  (skips_verification http)
                  (setting http (λ c. c.timeout) is_pos (pos (5 * second)))))
            ∷ [])
  unfolding http_check new_http_probe do_request
  http_check-asked target host ip_version http send j =
      let sent =
        send (http_method http) (http_url host http) (http_tls_skip_verify http)
          (http_timeout http) in
      let (total, times, same) = end_request-do_exchange (http_expected_code http) sent in
      ap
        (λ u.
          losses_in f64
            (http_execute_check f64 (new_http_probe target host http ip_version true) u j))
        same
      ∙ http_check-do_exchange f64 target host ip_version http (status_of sent) total times j
      ∙ rw
          (
            http_expected_code-setting http,
            http_method-setting http,
            http_url-setting host http,
            http_tls_skip_verify-skips http,
            http_timeout-setting http,
          )
          refl

  -- What a check of a probe that a constructor makes with metrics records as packet loss, over the
  -- client that the program gives it: one value, which is 0 for an ICMP probe exactly if its ping
  -- is answered, for a DNS probe exactly if the configured server, or else 8.8.8.8, with the port
  -- 53 if it has no colon, answers the query for the configured type, or else A, with the code
  -- NOERROR or NXDOMAIN, for a TCP probe exactly if the host and the configured port, or else 80,
  -- can be connected to in the network of its IP version, and for an HTTP probe exactly if the
  -- configured request, or else a GET of the host, gets the expected status, or else 200; and 1
  -- otherwise. The last three wait for their configured timeout, or else for two seconds, or five
  -- for HTTP.
  pub checks_loss :
      (target host ip_version : Text) (icmp : Option IcmpProbeConfig) (dns : Option DnsProbeConfig)
      (tcp : Option TcpProbeConfig) (http : Option HttpProbeConfig) (w : Network) (id seq : ℤ)
      (replies : List Icmp.Reply)
      (exchange : QueryType → (host server : Text) (timeout : ℤ) → Exchange × ℤ)
      (connect : (network address : Text) (timeout : ℤ) → Dialled)
      (send : (method url : Text) (skip_verify : Bool) (timeout : ℤ) → Sent)
      (j : JitterCalculator f64)
      → (values_of f64 packet_loss_gauge
            (icmp_check f64 w id seq replies (new_icmp_probe target host icmp ip_version true) j).1
          ≡ loss_if f64 (is_replied (ping w host ip_version id seq replies)) ∷ [])
        × (values_of f64 packet_loss_gauge
              (dns_check f64 exchange (new_dns_probe target host dns ip_version true) j).1
            ≡ loss_if f64 (
                is_fine
                  (exchange
                    (asked_type dns)
                    host
                    (asked_server dns)
                    (setting dns (λ c. c.timeout) is_pos (pos (2 * second)))).0)
              ∷ [])
        × (values_of f64 packet_loss_gauge
              (tcp_check f64 connect (new_tcp_probe target host tcp ip_version true) j).1
            ≡ loss_if f64
                (connect
                  (entry tcp_networks ip_version (codes "tcp"))
                  (join_host_port host (itoa (setting tcp (λ c. c.port) is_pos (pos 80))))
                  (setting tcp (λ c. c.timeout) is_pos (pos (2 * second)))).connected
              ∷ [])
        × (losses_in f64 (http_check f64 send (new_http_probe target host http ip_version true) j)
            ≡ some (
                http_loss f64 (setting http (λ c. c.expected_code) is_pos (pos 200)) (
                  status_of (
                    send
                      (to_upper (setting http (λ c. c.method) named (codes "GET")))
                      (setting http (λ c. c.url) named (codes "http://" ++ host))
                      (skips_verification http)
                      (setting http (λ c. c.timeout) is_pos (pos (5 * second)))))
                ∷ []))
  unfolding icmp_check new_icmp_probe icmp_execute_check
  checks_loss target host ip_version icmp dns tcp http w id seq replies exchange connect send j = (
    report_check-loss_if f64 (icmp_labels (new_icmp_probe target host icmp ip_version true)) []
          (rtt_of (ping w host ip_version id seq replies)) j refl
        ∙ ap (λ (b : Bool). loss_if f64 b ∷ [])
            (rtt_of-is_replied (ping w host ip_version id seq replies)),
    dns_check-asked target host ip_version dns exchange j,
    tcp_check-asked target host ip_version tcp connect j,
    http_check-asked target host ip_version http send j,
  )
