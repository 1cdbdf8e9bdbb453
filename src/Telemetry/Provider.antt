-- ===== src/Telemetry/Provider.antt =====
-- internal/telemetry/provider.go and prometheus.go: the aggregation of the histograms, the resource
-- attributes, and the shutdown of the provider and of the metrics server.
-- The meter provider of OpenTelemetry and the HTTP server are outside the model.
use stabsight.Base.{
  some, map, ℕ, suc, Bool, true, Option, none, List, [], ◌∷◌, ◌++◌, Text, codes, text_eq, to_lower,
  trim_space, Float64, if◌then◌else◌,
}
use stabsight.Telemetry.Metrics.{Attribute, text_attr}

-- ProviderConfig
pub record ProviderConfig (f64 : Float64) : Type 0 where
  pub service_name : Text
  pub service_version : Text
  pub environment : Text
  pub histogram_mode : Text
  pub histogram_buckets : List f64.F
  pub extra_attrs : List Attribute

pub data Aggregation (f64 : Float64) : Type 0 where
  exponential : (max_size max_scale : ℕ) → Aggregation f64
  explicit : List f64.F → Aggregation f64

abbrev pub non_empty_attr : Text → Text → List Attribute
non_empty_attr key v = if text_eq v [] then [] else text_attr key v ∷ []

-- The attributes of the resource; the keys of semconv are those of OpenTelemetry.
unfoldable pub resource_attrs : (f64 : Float64) → ProviderConfig f64 → List Attribute
resource_attrs f64 c =
    text_attr (codes "service.name")
      (if text_eq c.service_name [] then codes "stabsight" else c.service_name)
    ∷ (non_empty_attr (codes "service.version") c.service_version
        ++ (non_empty_attr (codes "environment") c.environment ++ c.extra_attrs))

-- DefaultLatencyBuckets, in seconds; a literal is written in units of a tenth of a millisecond.
unfoldable pub default_latency_buckets : (f64 : Float64) → List f64.F
default_latency_buckets f64 =
    map f64.literal (
      5 ∷ 10 ∷ 25 ∷ 50 ∷ 100 ∷ 250 ∷ 500 ∷ 1000 ∷ 2500 ∷ 5000 ∷ 10000 ∷ 25000 ∷ 50000 ∷ 100000 ∷ [])

-- The choice of the aggregation.
unfoldable pub aggregation_of : (f64 : Float64) → ProviderConfig f64 → Aggregation f64
aggregation_of f64 c =
    if text_eq (to_lower (trim_space c.histogram_mode)) (codes "exponential")
    then exponential 160 20
    else explicit (elim c.histogram_buckets [ [] ↦ default_latency_buckets f64 | b ∷ bs ↦ b ∷ bs ])

-- The result of resource.New; a partial resource is no error for NewProvider.
pub data ResourceError : Type 0 where
  no_error partial_resource other_error : ResourceError

-- Telemetry and the options of its meter provider, for readers of any type.
pub record Provider {ℓ} (f64 : Float64) (R : Type ℓ) : Type ℓ where
  pub attrs : List Attribute
  pub aggregation : Aggregation f64
  pub readers : List R

-- The loop over the readers skips the nil ones.
unfoldable pub some_readers {ℓ} : {R : Type ℓ} → List (Option R) → List R
some_readers [] = []
some_readers (none ∷ rs) = some_readers rs
some_readers (some r ∷ rs) = r ∷ some_readers rs

-- NewProvider; `none` is an error.
unfoldable pub new_provider {ℓ} :
    {R : Type ℓ} (f64 : Float64)
    → ResourceError
    → ProviderConfig f64
    → List (Option R)
    → Option (Provider f64 R)
new_provider f64 other_error c readers = none
new_provider f64 _ c readers = some (record {
  attrs = resource_attrs f64 c;
  aggregation = aggregation_of f64 c;
  readers = some_readers readers;
})

-- The global meter provider behind NewProvider, which sets it if it succeeds.
unfoldable pub global_after {ℓ} :
    {R : Type ℓ} {f64 : Float64}
    → Option (Provider f64 R)
    → Option (Provider f64 R)
    → Option (Provider f64 R)
global_after none before = before
global_after (some p) before = some p

-- Meter: the scope name stands for an empty name.
unfoldable pub meter_name : Text → Text
meter_name name = if text_eq name [] then codes "github.com/devleesch001/stabsight" else name

-- Telemetry and MetricsServer: the flag under `mu`, and how often what is below was shut down.
pub record Closable : Type 0 where
  pub closed : Bool
  pub has_inner : Bool
  pub shutdowns : ℕ

-- Telemetry.Shutdown; `inner_error` is the result of the meter provider's Shutdown.
unfoldable pub shutdown_provider : Option Text → Closable → Closable × Option Text
shutdown_provider inner_error t =
    if t.closed
    then (t, none)
    else if t.has_inner
    then (record t { closed = true; shutdowns = suc t.shutdowns }, inner_error)
    else (record t { closed = true }, none)

-- MetricsServer.Shutdown; `inner_error` is the result of the HTTP server's Shutdown.
unfoldable pub shutdown_server : Option Text → Closable → Closable × Option Text
shutdown_server inner_error t =
    if t.closed
    then (t, none)
    else if t.has_inner
    then (record t { closed = true; shutdowns = suc t.shutdowns }, inner_error)
    else (record t { closed = true }, none)
