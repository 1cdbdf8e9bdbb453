-- ===== src/Telemetry/Otlp.antt =====
-- internal/telemetry/otlp.go: the choice of the protocol and of the options of an OTLP exporter.
-- The exporters of OpenTelemetry and the environment are outside the model: an exporter is the list
-- of the options that it is made with.
use stabsight.Base.{
  ℤ, pos, leb_ℤ, second, Bool, true, false, not, ◌*◌, ◌||◌, Option, none, some, List, [], ◌∷◌, ◌++◌,
  Text, codes, text_eq, one_of, to_lower, trim_space, has_prefix, has_suffix, cut_prefix,
  trim_prefix, if◌then◌else◌,
}

-- OTLPConfig
pub record OtlpConfig : Type 0 where
  pub endpoint : Text
  pub protocol : Text
  pub insecure : Bool
  pub interval : ℤ
  pub timeout : ℤ

pub data ExporterOption : Type 0 where
  with_timeout : ℤ → ExporterOption
  with_endpoint : Text → ExporterOption
  with_insecure : ExporterOption

pub data Exporter : Type 0 where
  http_exporter grpc_exporter : List ExporterOption → Exporter

pub record Reader : Type 0 where
  pub exporter : Exporter
  pub interval : ℤ
  pub timeout : ℤ

-- os.Getenv of OTEL_EXPORTER_OTLP_PROTOCOL and OTEL_EXPORTER_OTLP_METRICS_PROTOCOL
pub record Environment : Type 0 where
  pub protocol : Text
  pub metrics_protocol : Text

abbrev pub is_empty_text : Text → Bool
is_empty_text [] = true
is_empty_text (_ ∷ _) = false

abbrev pub https : Text
https = codes "https://"

abbrev pub http : Text
http = codes "http://"

unfoldable pub looks_like_http : Text → Bool
looks_like_http endpoint =
    has_prefix endpoint http || (has_prefix endpoint https || has_suffix endpoint (codes ":4318"))

-- The protocol: the configured one, else the environment's, else by the form of the endpoint.
unfoldable pub configured_protocol : OtlpConfig → Environment → Text
configured_protocol c env =
    let own = to_lower (trim_space c.protocol) in
    if not (is_empty_text own)
    then own
    else if not (is_empty_text env.protocol)
    then to_lower (trim_space env.protocol)
    else if not (is_empty_text env.metrics_protocol)
    then to_lower (trim_space env.metrics_protocol)
    else []

unfoldable pub choose_protocol : OtlpConfig → Environment → Text
unfolding configured_protocol looks_like_http
choose_protocol c env =
    let protocol = configured_protocol c env in
    if not (is_empty_text protocol)
    then protocol
    else if looks_like_http c.endpoint
    then codes "http"
    else codes "grpc"

abbrev pub insecure_if : Bool → List ExporterOption
insecure_if true = with_insecure ∷ []
insecure_if false = []

unfoldable pub http_options : OtlpConfig → List ExporterOption
http_options c =
    if is_empty_text c.endpoint then insecure_if c.insecure else elim (cut_prefix c.endpoint http) [
      | some after ↦ with_endpoint after ∷ with_insecure ∷ []
      | none ↦ elim (cut_prefix c.endpoint https) [
        | some after ↦ with_endpoint after ∷ []
        | none ↦ with_endpoint c.endpoint ∷ insecure_if c.insecure
      ]
    ]

unfoldable pub grpc_options : OtlpConfig → List ExporterOption
grpc_options c =
    (if is_empty_text c.endpoint
      then []
      else with_endpoint (trim_prefix (trim_prefix c.endpoint http) https) ∷ [])
    ++ insecure_if (c.insecure || not (has_prefix c.endpoint https))

abbrev pub default_export : ℤ
default_export = pos (5 * second)

abbrev pub or_default : ℤ → ℤ
or_default d = if leb_ℤ d (pos 0) then default_export else d

-- NewOTLPExporter; `none` is an unsupported protocol.
unfoldable pub new_otlp_exporter : OtlpConfig → Environment → Option Reader
new_otlp_exporter c env =
    let protocol = choose_protocol c env in
    let interval = or_default c.interval in
    let timeout = or_default c.timeout in
    if one_of protocol (codes "http" ∷ codes "http/protobuf" ∷ codes "http/json" ∷ [])
    then some (record {
      exporter = http_exporter (with_timeout timeout ∷ http_options c);
      interval = interval;
      timeout = timeout;
    })
    else if text_eq protocol (codes "grpc")
    then some (record {
      exporter = grpc_exporter (with_timeout timeout ∷ grpc_options c);
      interval = interval;
      timeout = timeout;
    })
    else none
