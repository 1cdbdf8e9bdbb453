-- ===== src/Telemetry/Metrics.antt =====
-- internal/telemetry/metrics.go: the samples that the Record methods hand to the instruments.
-- A *Metrics is an option: the probes skip every record on a nil pointer.
use stabsight.Base.{
  ℤ, Bool, Option, none, some, List, [], ◌∷◌, ◌++◌, Text, codes, text_eq, Float64, if◌then◌else◌,
}

-- attribute.Value, of the kinds that the program uses
pub data Value : Type 0 where
  string : Text → Value
  int : ℤ → Value

-- attribute.KeyValue
pub record Attribute : Type 0 where
  pub key : Text
  pub value : Value

pub data Instrument : Type 0 where
  rtt_histogram jitter_histogram packet_loss_gauge speedtest_gauge : Instrument

-- MetricRTTSeconds, MetricJitterSeconds, MetricPacketLossRatio, MetricSpeedtest
unfoldable pub metric_name : Instrument → Text
metric_name rtt_histogram = codes "internet_monitor_rtt_seconds"
metric_name jitter_histogram = codes "internet_monitor_jitter_seconds"
metric_name packet_loss_gauge = codes "internet_monitor_packet_loss_ratio"
metric_name speedtest_gauge = codes "internet_monitor_speedtest"

-- A call of Record on an instrument.
pub record Sample (f64 : Float64) : Type 0 where
  pub instrument : Instrument
  pub value : f64.F
  pub attrs : List Attribute

abbrev pub text_attr : Text → Text → Attribute
text_attr k v = record { key = k; value = string v }

-- The attributes that RecordRTT, RecordJitter and RecordPacketLoss build.
unfoldable pub probe_attrs : Text → Text → Text → List Attribute → List Attribute
probe_attrs target probe ip_version extra =
    text_attr (codes "target") target
    ∷ text_attr (codes "probe") probe
    ∷ ((if text_eq ip_version [] then [] else text_attr (codes "ip_version") ip_version ∷ [])
        ++ extra)

module _ (f64 : Float64) where
  open f64 use {F}

  unfoldable pub record_rtt : F → Text → Text → Text → List Attribute → Sample f64
  record_rtt v target probe ip_version extra = record {
    instrument = rtt_histogram;
    value = v;
    attrs = probe_attrs target probe ip_version extra;
  }

  unfoldable pub record_jitter : F → Text → Text → Text → List Attribute → Sample f64
  record_jitter v target probe ip_version extra = record {
    instrument = jitter_histogram;
    value = v;
    attrs = probe_attrs target probe ip_version extra;
  }

  unfoldable pub record_packet_loss : F → Text → Text → Text → List Attribute → Sample f64
  record_packet_loss v target probe ip_version extra = record {
    instrument = packet_loss_gauge;
    value = v;
    attrs = probe_attrs target probe ip_version extra;
  }

  unfoldable pub record_speedtest : F → Text → Text → List Attribute → Sample f64
  record_speedtest v target direction extra = record {
    instrument = speedtest_gauge;
    value = v;
    attrs =
        text_attr (codes "target") target
        ∷ text_attr (codes "probe") (codes "speedtest")
        ∷ text_attr (codes "direction") direction
        ∷ extra;
  }

pub data MetricsError : Type 0 where
  nil_meter : MetricsError
  instrument_failed : (name : Text) → MetricsError

-- Each instrument is created if those before it could be; `none` is no error.
unfoldable pub create_instruments :
    (create : Instrument → Bool) → List Instrument → Option MetricsError
create_instruments create [] = none
create_instruments create (i ∷ is) =
    if create i then create_instruments create is else some (instrument_failed (metric_name i))

-- NewMetrics: a meter is what its instrument calls return, none for nil.
unfoldable pub new_metrics : Option (Instrument → Bool) → Option MetricsError
new_metrics none = some nil_meter
new_metrics (some create) =
    create_instruments create
      (rtt_histogram ∷ jitter_histogram ∷ packet_loss_gauge ∷ speedtest_gauge ∷ [])
