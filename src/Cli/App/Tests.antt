-- ===== src/Cli/App/Tests.antt =====
-- RunApp with a small configuration, and where the calls of the libraries fail.
use stabsight.Base.{
  ◌≡◌, refl, true, false, some, List, [], ◌∷◌, codes, text_eq, decimal, has_prefix, has_suffix,
  to_lower, trim_space, one_of,
}
use stabsight.Telemetry.Provider.{partial_resource, other_error, new_provider}
use stabsight.Telemetry.Server.{addr, start_metrics_server}
use stabsight.Telemetry.Otlp.{
  Reader, http_exporter, with_timeout, with_endpoint, default_export, looks_like_http,
  choose_protocol, http_options, new_otlp_exporter,
}
use stabsight.Cli.Transport.{no_environment}
use stabsight.Cli.Wiring.{otlp_config}
use stabsight.Cli.Tests.{settings}
use stabsight.Cli.App.{World, Event, server_opened, run_otlp, run_provider, run_app}
use stabsight.Cli.App.Open.{replay, nothing_open}
use stabsight.Cli.App.Works.{Works}

abbrev working : World
working = record {
  exporter_ok = true;
  listen = λ address. some (codes "[::]:9090");
  environment = no_environment;
  connects = λ r. true;
  resource = partial_resource;
  create = λ i. true;
}

abbrev push : Reader
push = record {
  exporter =
      http_exporter
        (with_timeout default_export ∷ with_endpoint (codes "collector.example.org:4318") ∷ []);
  interval = default_export;
  timeout = default_export;
}

-- The calls do succeed on that host.
working-Works : Works decimal working settings (codes "[::]:9090") push
unfolding looks_like_http has_prefix has_suffix new_otlp_exporter one_of choose_protocol to_lower
    trim_space otlp_config http_options
working-Works = record {
  exporter_ok = refl;
  listens = refl;
  made = refl;
  connects = refl;
  resource = λ e. cc;
  creates = λ i. refl;
}

-- A host whose collector cannot be reached.
abbrev no_collector : World
no_collector = record working { connects = λ r. false }

abbrev only_server : List (Event decimal)
only_server = server_opened (codes "[::]:9090") ∷ []

-- Where the resource cannot be made, the OTLP reader stays open beside the server.
abbrev no_resource : World
no_resource = record working { resource = other_error }

no_resource-replay :
    replay (run_app decimal no_resource settings).0 nothing_open
    ≡ record nothing_open { server = true; otlp = true }
unfolding run_app run_otlp run_provider new_provider start_metrics_server addr text_eq
    looks_like_http has_prefix has_suffix new_otlp_exporter choose_protocol otlp_config http_options
    one_of to_lower trim_space
no_resource-replay = refl
