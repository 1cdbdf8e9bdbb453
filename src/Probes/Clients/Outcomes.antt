-- ===== src/Probes/Clients/Outcomes.antt =====
-- What the results of the clients mean for the packet loss of a check.
use stabsight.Base.{
  ℤ, pos, ◌≡◌, refl, Bool, true, false, ◌||◌, Option, none, some, List, [], ◌∷◌, Text, Float64,
  ◌==◌, arith,
}
use stabsight.Telemetry.Metrics.{
  Attribute, packet_loss_gauge, record_rtt, record_jitter, record_packet_loss,
}
use stabsight.Probes.Jitter.{JitterCalculator, compute}
use stabsight.Probes.Check.{Labels, check_failed, check_succeeded, report_check}
use stabsight.Probes.Check.Samples.{values_of}
use stabsight.Probes.Dns.{Exchange, failed, answered, resolve_exchange}
use stabsight.Probes.Http.{Trace, do_exchange}
use stabsight.Probes.Socket.{PingResult, replied, ping_failed}
use stabsight.Probes.Clients.{Dialled, dial, Sent, end_request, rtt_of}

-- The response codes NOERROR and NXDOMAIN: the server has answered.
abbrev pub is_fine : Exchange → Bool
is_fine (answered (some rcode) rtt) = (rcode == 0) || (rcode == 3)
is_fine _ = false

abbrev pub is_replied : PingResult → Bool
is_replied (replied rtt) = true
is_replied (ping_failed e) = false

-- The status of the response to the request that was sent, if there is one.
abbrev pub status_of : Sent → Option ℤ
status_of none = none
status_of (some (status, total, times)) = status

abbrev is_some : Option ℤ → Bool
is_some none = false
is_some (some r) = true

pub resolve_exchange-is_fine :
    (x : Exchange) (elapsed : ℤ) → is_some (resolve_exchange x elapsed) ≡ is_fine x
unfolding resolve_exchange
resolve_exchange-is_fine failed elapsed = refl
resolve_exchange-is_fine (answered none rtt) elapsed = refl
resolve_exchange-is_fine (answered (some rcode) rtt) elapsed = ground arith

pub dial-is_some :
    (connect : (network address : Text) (timeout : ℤ) → Dialled) (network address : Text)
    (timeout : ℤ)
    → is_some (dial connect network address timeout).rtt
      ≡ (connect network address timeout).connected
unfolding dial
dial-is_some connect network address timeout = ground arith

pub rtt_of-is_replied : (r : PingResult) → is_some (rtt_of r) ≡ is_replied r
rtt_of-is_replied (replied rtt) = refl
rtt_of-is_replied (ping_failed e) = refl

abbrev no_times : Trace
no_times = record {
  dns_start = none;
  dns_done = none;
  connect_start = none;
  connect_done = none;
  tls_start = none;
  tls_done = none;
  first_byte = none;
}

pub end_request-do_exchange :
    (expected : ℤ) (sent : Sent)
    → (total : ℤ) × (times : Trace) × (end_request expected sent
        ≡ do_exchange expected (status_of sent) total times)
unfolding do_exchange
end_request-do_exchange expected none = (pos 0, no_times, refl)
end_request-do_exchange expected (some (status, total, times)) = (total, times, refl)

module _ (f64 : Float64) where
  open f64 use {F, zero_f, one_f}

  abbrev pub loss_if : Bool → F
  loss_if true = zero_f
  loss_if false = one_f

  pub report_check-loss_if :
      (l : Labels) (extra : List Attribute) (o : Option ℤ) (j : JitterCalculator f64)
      → l.enabled ≡ true
      → values_of f64 packet_loss_gauge (report_check f64 l extra o j).1 ≡ loss_if (is_some o) ∷ []
  unfolding check_failed check_succeeded compute record_rtt record_jitter record_packet_loss
  report_check-loss_if l extra none j on = rw on refl
  report_check-loss_if l extra (some r) j on = ground (arith, on)
