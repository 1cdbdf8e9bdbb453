-- ===== src/Cli/App/Leftover.antt =====
-- internal/cli/run.go: what a run of RunApp leaves open.
use stabsight.Base.{◌≡◌, Bool, false, ◌&&◌, Option, List, Float64}
use stabsight.Config.Types.{Config}
use stabsight.Telemetry.Provider.{Provider}
use stabsight.Scheduler.Registry.{Scheduler}
use stabsight.Cli.App.Open.{Open, replay, nothing_open, comes_later, is_provider_error}
use stabsight.Cli.App.{AppError, Event}

module _ (f64 : Float64) where
  -- Leaves the server open if there is one and the run has failed, and nothing else but what was
  -- open before; the error is not that of the provider.
  LeavesServer :
      (has_server has_otlp has_provider : Bool) → List (Event f64) × Option AppError → Type 0
  LeavesServer has_server has_otlp has_provider run =
      (replay run.0 (record {
        server = has_server;
        otlp = has_otlp;
        provider = has_provider;
        scheduler = false;
      })
        ≡ record {
          server = has_server && comes_later run.1;
          otlp = has_otlp;
          provider = has_provider;
          scheduler = false;
        })
      × (is_provider_error run.1 ≡ false)

  -- Leaves the server open if there is one and the run has failed, and the OTLP reader if there is
  -- one and the provider has failed.
  LeavesReader : (has_server has_otlp : Bool) → List (Event f64) × Option AppError → Type 0
  LeavesReader has_server has_otlp run =
      replay run.0
        (record { server = has_server; otlp = has_otlp; provider = false; scheduler = false })
      ≡ record {
        server = has_server && comes_later run.1;
        otlp = has_otlp && is_provider_error run.1;
        provider = false;
        scheduler = false;
      }

  -- What a run with both addresses leaves open, by its error.
  abbrev left_by : Option AppError → Open
  left_by err = record nothing_open { server = comes_later err; otlp = is_provider_error err }
