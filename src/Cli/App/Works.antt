-- ===== src/Cli/App/Works.antt =====
-- internal/cli/run.go: what a run of RunApp that returns no error says of the calls of the libraries.
use stabsight.Base.{
  ◌≡◌, refl, ◌≢◌, true, false, none, some, List, [], ◌∷◌, ◌++◌, map, Text, not_blank, text_eq,
  Float64, Option-cases, Bool-cases, inl, inr,
}
use stabsight.Config.Types.{Config}
use stabsight.Config.Validate.{validate}
use stabsight.Config.WellFormed.{validate_iff}
use stabsight.Telemetry.Provider.{ResourceError, other_error, new_provider}
use stabsight.Telemetry.Metrics.{Instrument, new_metrics}
use stabsight.Telemetry.Instruments.{new_metrics_iff}
use stabsight.Telemetry.Server.{start_metrics_server}
use stabsight.Telemetry.Otlp.{Reader, new_otlp_exporter}
use stabsight.Cli.Wiring.{provider_config, otlp_config}
use stabsight.Cli.App.{
  World, MetricReader, prometheus_reader, otlp_reader, run_instruments, run_provider, run_otlp,
  run_app,
}

module _ (f64 : Float64) where
  -- The calls of the libraries succeed: the listener is bound to the address `bound`, and the
  -- collector is reached by `reader`.
  pub record Works (w : World) (c : Config f64) (bound : Text) (reader : Reader) : Type 0 where
    pub exporter_ok : w.exporter_ok ≡ true
    pub listens : w.listen c.metrics_addr ≡ some bound
    pub made : new_otlp_exporter (otlp_config f64 c) w.environment ≡ some reader
    pub connects : w.connects reader ≡ true
    pub resource : w.resource ≢ other_error
    pub creates : (i : Instrument) → w.create i ≡ true

  -- A run that returns no error has seen the calls of the libraries succeed, step by step.
  instruments-creates :
      (w : World) (c : Config f64)
      → (run_instruments f64 w true c).1 ≡ none
      → (i : Instrument) → w.create i ≡ true
  unfolding run_instruments
  instruments-creates w c e = elim (Option-cases (new_metrics (some w.create))) [
    | inl n ↦ (new_metrics_iff w.create).0 n
    | inr (m, n) ↦ absurd (cc (rw (run_instruments, n) at e))
  ]

  resource_fails :
      (e : ResourceError) (readers : List MetricReader) (c : Config f64)
      → e ≡ other_error
      → new_provider f64 e (provider_config f64 c) (map (λ r. some r) readers) ≡ none
  unfolding new_provider
  resource_fails e readers c r = rw r refl

  provider-resource :
      (w : World) (c : Config f64) (readers : List MetricReader)
      → (run_provider f64 w true readers c).1 ≡ none
      → (w.resource ≢ other_error) × ((run_instruments f64 w true c).1 ≡ none)
  unfolding run_provider
  provider-resource w c readers e =
      elim (Option-cases
        (new_provider f64 w.resource (provider_config f64 c) (map (λ r. some r) readers))) [
          | inl n ↦ absurd (cc (rw (run_provider, n) at e))
          | inr (p, n) ↦
              (λ r. cc (resource_fails w.resource readers c r, n), rw (run_provider, n) at e)
        ]

  otlp-connects :
      (w : World) (c : Config f64) (readers : List MetricReader)
      → text_eq c.otlp_endpoint [] ≡ false
      → (run_otlp f64 w true readers c).1 ≡ none
      → (reader : Reader) × (new_otlp_exporter (otlp_config f64 c) w.environment ≡ some reader)
        × (w.connects reader ≡ true)
        × ((run_provider f64 w true (readers ++ otlp_reader reader ∷ []) c).1 ≡ none)
  unfolding run_otlp
  otlp-connects w c readers named e =
      elim (Option-cases (new_otlp_exporter (otlp_config f64 c) w.environment)) [
        | inl n ↦ absurd (cc (rw (named, n) at e))
        | inr (r, n) ↦ elim (Bool-cases (w.connects r)) [
          | inl y ↦ (r, n, y, rw (named, n, y) at e)
          | inr y ↦ absurd (cc (rw (named, n, y) at e))
        ]
      ]

  server-listens :
      (w : World) (c : Config f64)
      → text_eq c.metrics_addr [] ≡ false
      → (run_app f64 w c).1 ≡ none
      → (w.exporter_ok ≡ true)
        × ((bound : Text) × (w.listen c.metrics_addr ≡ some bound))
        × ((run_otlp f64 w true (prometheus_reader ∷ []) c).1 ≡ none)
  unfolding run_app start_metrics_server
  server-listens w c named e = elim (Bool-cases w.exporter_ok) [
    | inr n ↦ absurd (cc (rw (named, n) at e))
    | inl y ↦ elim (Option-cases (w.listen c.metrics_addr)) [
      | inl n ↦ absurd (cc (rw (named, y, n) at e))
      | inr (b, n) ↦ (y, (b, n), rw (named, y, n) at e)
    ]
  ]

  pub run_app-Works :
      (w : World) (c : Config f64)
      → validate f64 c ≡ none
      → (run_app f64 w c).1 ≡ none
      → (bound : Text) × (reader : Reader) × Works w c bound reader
  run_app-Works w c v e =
      let wf = (validate_iff f64 c).0 v in
      let (ok, (bound, listens), s) =
        server-listens w c (not_blank c.metrics_addr wf.1.1.1.1.0) e in
      let (reader, made, connects, p) =
        otlp-connects w c (prometheus_reader ∷ []) (not_blank c.otlp_endpoint wf.1.1.1.1.1.0) s in
      let (resource, i) = provider-resource w c (prometheus_reader ∷ otlp_reader reader ∷ []) p in
      (
        bound,
        reader,
        record {
          exporter_ok = ok;
          listens = listens;
          made = made;
          connects = connects;
          resource = resource;
          creates = instruments-creates w c i;
        },
      )
