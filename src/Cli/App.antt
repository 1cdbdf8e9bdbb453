-- ===== src/Cli/App.antt =====
-- internal/cli/run.go: the lifecycle of RunApp and the run command.
-- The model is of a run whose context is cancelled once the scheduler has started. What the
-- libraries return to RunApp is a record, and what it opens and closes is a list of events.
pub mod Works
pub mod Lifecycle
pub mod Open
pub mod Leftover
mod Tests
use stabsight.Base.{
  Bool, true, false, Option, none, some, List, [], ◌∷◌, ◌++◌, map, Text, codes, text_eq, Float64,
  if◌then◌else◌,
}
use stabsight.Config.Types.{Config}
use stabsight.Config.Load.{LoadError, FileContent, loaded, load_failed, load}
use stabsight.Logging.{Logger, Global, init}
use stabsight.Telemetry.Metrics.{Instrument, MetricsError, new_metrics}
use stabsight.Telemetry.Provider.{ResourceError, Provider, new_provider}
use stabsight.Telemetry.Server.{
  ServerError, addr, server_started, server_failed, start_metrics_server,
}
use stabsight.Telemetry.Otlp.{Reader, Environment, new_otlp_exporter}
use stabsight.Scheduler.Registry.{
  ProbeWorker, Scheduler, new_scheduler, start_workers, stop_workers,
}
use stabsight.Cli.Registration.{register_targets}
use stabsight.Cli.Wiring.{provider_config, otlp_config}

-- What the calls of the libraries give a run: the exporter of Prometheus, the listener, the
-- environment, New of the OTLP exporters, resource.New and the instruments of the meter.
pub record World : Type 0 where
  pub exporter_ok : Bool
  pub listen : Text → Option Text
  pub environment : Environment
  pub connects : Reader → Bool
  pub resource : ResourceError
  pub create : Instrument → Bool

pub data MetricReader : Type 0 where
  prometheus_reader : MetricReader
  otlp_reader : Reader → MetricReader

-- The errors that RunApp returns.
pub data AppError : Type 0 where
  server_error : ServerError → AppError
  otlp_error provider_error : AppError
  metrics_error : MetricsError → AppError
  scheduler_error : AppError

pub data Event (f64 : Float64) : Type 0 where
  server_opened : (address : Text) → Event f64
  otlp_opened : Reader → Event f64
  provider_opened : Provider f64 MetricReader → Event f64
  scheduler_started : List ProbeWorker → Event f64
  scheduler_stopped server_closed provider_closed : Event f64

module _ (f64 : Float64) where
  -- Steps 8 to 10: start, wait for the context, stop, and shut the metrics server down, if any.
  unfoldable pub run_scheduler :
      (has_server : Bool) → Scheduler → List (Event f64) × Option AppError
  run_scheduler has_server s = elim (start_workers s).1 [
    | none ↦ ([], some scheduler_error)
    | some workers ↦ (
      scheduler_started workers
          ∷ ((if (stop_workers (start_workers s).0).1 then scheduler_stopped ∷ [] else [])
              ++ (if has_server then server_closed ∷ [] else [])),
      none,
    )
  ]

  -- Steps 4 to 10
  unfoldable pub run_instruments :
      World → (has_server : Bool) → Config f64 → List (Event f64) × Option AppError
  run_instruments w has_server c = elim (new_metrics (some w.create)) [
    | some e ↦ ([], some (metrics_error e))
    | none ↦ run_scheduler has_server (register_targets c.targets new_scheduler)
  ]

  -- Steps 3 to 10, with the deferred shutdown of the provider at the end.
  unfoldable pub run_provider :
      World
      → (has_server : Bool) → List MetricReader
      → Config f64
      → List (Event f64) × Option AppError
  run_provider w has_server readers c =
      elim (new_provider f64 w.resource (provider_config f64 c) (map (λ r. some r) readers)) [
        | none ↦ ([], some provider_error)
        | some provider ↦
            let (events, err) = run_instruments w has_server c in
            (provider_opened provider ∷ (events ++ provider_closed ∷ []), err)
      ]

  -- Step 2 and what follows.
  unfoldable pub run_otlp :
      World
      → (has_server : Bool) → List MetricReader
      → Config f64
      → List (Event f64) × Option AppError
  run_otlp w has_server readers c =
      if text_eq c.otlp_endpoint []
      then run_provider w has_server readers c
      else elim (new_otlp_exporter (otlp_config f64 c) w.environment) [
        | none ↦ ([], some otlp_error)
        | some r ↦
            if w.connects r
            then (let rest = run_provider w has_server (readers ++ otlp_reader r ∷ []) c in
                (otlp_opened r ∷ rest.0, rest.1))
            else ([], some otlp_error)
      ]

  -- RunApp
  unfoldable pub run_app : World → Config f64 → List (Event f64) × Option AppError
  run_app w c =
      if text_eq c.metrics_addr []
      then run_otlp w false [] c
      else elim (start_metrics_server w.exporter_ok w.listen c.metrics_addr) [
        | server_failed e ↦ ([], some (server_error e))
        | server_started s ↦
            let rest = run_otlp w true (prometheus_reader ∷ []) c in
            (server_opened (addr s) ∷ rest.0, rest.1)
      ]

  pub data Outcome : Type 0 where
    configuration_error : LoadError → Outcome
    ran : Global → List (Event f64) → Option AppError → Outcome

  -- RunE of newRunCmd
  unfoldable pub run_cmd :
      World
      → (bound : Option Text) (file : Option (FileContent f64)) (get_string : Text → Text) → Outcome
  run_cmd w bound file get_string = elim (load f64 bound file get_string) [
    | load_failed e ↦ configuration_error e
    | loaded c ↦ let (events, err) = run_app w c in ran (init c.log_level c.log_format) events err
  ]
