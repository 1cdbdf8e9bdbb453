-- ===== src/Cli/App/Open.antt =====
-- internal/cli/run.go: what is open behind the events of a run of RunApp.
use stabsight.Base.{Bool, true, false, Option, none, some, List, [], ◌∷◌, Float64}
use stabsight.Cli.App.{
  AppError, server_error, otlp_error, provider_error, metrics_error, scheduler_error, Event,
  server_opened, otlp_opened, provider_opened, scheduler_started, scheduler_stopped, server_closed,
  provider_closed,
}

-- What is open after a run of events; `otlp` is the periodic reader with its exporter.
pub record Open : Type 0 where
  pub server : Bool
  pub otlp : Bool
  pub provider : Bool
  pub scheduler : Bool

-- The shutdown of a provider shuts its readers down.
abbrev pub apply_event : {f64 : Float64} → Event f64 → Open → Open
apply_event (server_opened _) o = record o { server = true }
apply_event (otlp_opened _) o = record o { otlp = true }
apply_event (provider_opened _) o = record o { provider = true }
apply_event (scheduler_started _) o = record o { scheduler = true }
apply_event scheduler_stopped o = record o { scheduler = false }
apply_event server_closed o = record o { server = false }
apply_event provider_closed o = record o { provider = false; otlp = false }

abbrev pub replay : {f64 : Float64} → List (Event f64) → Open → Open
replay [] o = o
replay (e ∷ es) o = replay es (apply_event e o)

abbrev pub nothing_open : Open
nothing_open = record { server = false; otlp = false; provider = false; scheduler = false }

-- Whether the error is one that comes behind the start of the metrics server.
abbrev pub comes_later : Option AppError → Bool
comes_later none = false
comes_later (some (server_error _)) = false
comes_later (some otlp_error) = true
comes_later (some provider_error) = true
comes_later (some (metrics_error _)) = true
comes_later (some scheduler_error) = true

-- Whether the error is that of NewProvider, which comes behind the OTLP reader.
abbrev pub is_provider_error : Option AppError → Bool
is_provider_error (some provider_error) = true
is_provider_error _ = false
