-- ===== src/Telemetry/Instruments.antt =====
-- internal/telemetry/metrics.go: when NewMetrics fails.
use stabsight.Base.{◌≡◌, ◌↔◌, Bool, true, none, some, arith}
use stabsight.Telemetry.Metrics.{
  Instrument, rtt_histogram, jitter_histogram, packet_loss_gauge, speedtest_gauge,
  create_instruments, new_metrics,
}

-- NewMetrics returns no error exactly if the meter can create each of the four instruments.
pub new_metrics_iff :
    (create : Instrument → Bool)
    → (new_metrics (some create) ≡ none) ↔ ((i : Instrument) → create i ≡ true)
unfolding new_metrics create_instruments
new_metrics_iff create =
    (every, λ h. rw (h rtt_histogram, h jitter_histogram, h packet_loss_gauge, h speedtest_gauge))
  where
    every : new_metrics (some create) ≡ none → (i : Instrument) → create i ≡ true
    every e rtt_histogram = ground arith
    every e jitter_histogram = ground arith
    every e packet_loss_gauge = ground arith
    every e speedtest_gauge = ground arith
