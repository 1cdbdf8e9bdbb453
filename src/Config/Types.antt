-- ===== src/Config/Types.antt =====
-- internal/config/config.go: Config, Target, the probe configurations and the defaults.
use stabsight.Base.{ℤ, Bool, Option, List, [], Text, codes, Float64}

pub record IcmpProbeConfig : Type 0 where
  pub interval : ℤ
  pub timeout : ℤ
  pub count : ℤ

pub record DnsProbeConfig : Type 0 where
  pub interval : ℤ
  pub timeout : ℤ
  pub server : Text
  pub record_type : Text

pub record HttpProbeConfig : Type 0 where
  pub interval : ℤ
  pub timeout : ℤ
  pub url : Text
  pub method : Text
  pub expected_code : ℤ
  pub tls_skip_verify : Bool

pub record TcpProbeConfig : Type 0 where
  pub interval : ℤ
  pub timeout : ℤ
  pub port : ℤ

pub record MtrProbeConfig : Type 0 where
  pub interval : ℤ
  pub timeout : ℤ
  pub max_hops : ℤ

pub record SpeedtestProbeConfig : Type 0 where
  pub interval : ℤ
  pub timeout : ℤ
  pub server_id : Text

-- A nil pointer is `none`.
pub record ProbesConfig : Type 0 where
  pub icmp : Option IcmpProbeConfig
  pub dns : Option DnsProbeConfig
  pub http : Option HttpProbeConfig
  pub tcp : Option TcpProbeConfig
  pub mtr : Option MtrProbeConfig
  pub speedtest : Option SpeedtestProbeConfig

pub record Target : Type 0 where
  pub name : Text
  pub host : Text
  pub ip_version : Text
  pub probes : ProbesConfig

pub record Config (f64 : Float64) : Type 0 where
  pub log_level : Text
  pub log_format : Text
  pub histogram_mode : Text
  pub histogram_buckets : List f64.F
  pub metrics_addr : Text
  pub otlp_endpoint : Text
  pub targets : List Target

abbrev pub default_log_level : Text
default_log_level = codes "info"

abbrev pub default_log_format : Text
default_log_format = codes "json"

abbrev pub default_histogram_mode : Text
default_histogram_mode = codes "explicit"

abbrev pub default_metrics_addr : Text
default_metrics_addr = codes ":9090"

abbrev pub default_otlp_endpoint : Text
default_otlp_endpoint = codes "localhost:4317"

-- NewDefaultConfig
unfoldable pub new_default_config : (f64 : Float64) → Config f64
new_default_config f64 = record {
  log_level = default_log_level;
  log_format = default_log_format;
  histogram_mode = default_histogram_mode;
  histogram_buckets = [];
  metrics_addr = default_metrics_addr;
  otlp_endpoint = default_otlp_endpoint;
  targets = [];
}
