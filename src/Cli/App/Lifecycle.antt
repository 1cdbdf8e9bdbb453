-- ===== src/Cli/App/Lifecycle.antt =====
-- internal/cli/run.go: a run of RunApp in which nothing fails.
use stabsight.Base.{
  List, [], ◌∷◌, map, Text, text_eq, to_lower, trim_space, codes, if◌then◌else◌, Float64,
}
use stabsight.Config.Types.{Config}
use stabsight.Telemetry.Provider.{Provider, exponential, explicit}
use stabsight.Telemetry.Metrics.{text_attr}
use stabsight.Telemetry.Otlp.{Reader}
use stabsight.Cli.Registration.Workers.{all_workers}
use stabsight.Cli.App.Works.{Works}
use stabsight.Cli.App.{
  MetricReader, prometheus_reader, otlp_reader, Event, server_opened, otlp_opened, provider_opened,
  scheduler_started, scheduler_stopped, server_closed, provider_closed,
}

module _ (f64 : Float64) where
  -- The buckets of the configuration, or else those from half a millisecond to ten seconds.
  abbrev pub own_or_default : List f64.F → List f64.F
  own_or_default [] = map f64.literal (
      5 ∷ 10 ∷ 25 ∷ 50 ∷ 100 ∷ 250 ∷ 500 ∷ 1000 ∷ 2500 ∷ 5000 ∷ 10000 ∷ 25000 ∷ 50000 ∷ 100000 ∷ [])
  own_or_default (b ∷ bs) = b ∷ bs

  -- What the provider of a configuration is to be, with its readers.
  abbrev pub provider_of : Config f64 → List MetricReader → Provider f64 MetricReader
  provider_of c readers = record {
    attrs = text_attr (codes "service.name") (codes "stabsight") ∷ [];
    aggregation =
        if text_eq (to_lower (trim_space c.histogram_mode)) (codes "exponential")
        then exponential 160 20
        else explicit (own_or_default c.histogram_buckets);
    readers = readers;
  }

  -- The events of a run in which nothing fails.
  abbrev pub whole_run : Config f64 → (bound : Text) → Reader → List (Event f64)
  whole_run c bound reader =
      server_opened bound
      ∷ otlp_opened reader
      ∷ provider_opened (provider_of c (prometheus_reader ∷ otlp_reader reader ∷ []))
      ∷ scheduler_started (all_workers c.targets)
      ∷ scheduler_stopped
      ∷ server_closed
      ∷ provider_closed
      ∷ []
