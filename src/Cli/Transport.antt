-- ===== src/Cli/Transport.antt =====
-- internal/cli/run.go with internal/telemetry/otlp.go: the exporter that RunApp gets for an endpoint
-- when the environment names no protocol.
use stabsight.Base.{Bool, true, false, List, [], ◌∷◌}
use stabsight.Config.Types.{Config}
use stabsight.Telemetry.Otlp.{
  ExporterOption, with_timeout, with_endpoint, with_insecure, Exporter, http_exporter,
  grpc_exporter, Environment,
}

abbrev pub no_environment : Environment
no_environment = record { protocol = []; metrics_protocol = [] }

abbrev has_insecure : List ExporterOption → Bool
has_insecure [] = false
has_insecure (with_insecure ∷ os) = true
has_insecure (with_timeout _ ∷ os) = has_insecure os
has_insecure (with_endpoint _ ∷ os) = has_insecure os

-- Whether the exporter speaks HTTP, and whether it does so, or speaks gRPC, in plaintext.
abbrev pub speaks_http : Exporter → Bool
speaks_http (http_exporter _) = true
speaks_http (grpc_exporter _) = false

abbrev pub is_plaintext : Exporter → Bool
is_plaintext (http_exporter os) = has_insecure os
is_plaintext (grpc_exporter os) = has_insecure os
