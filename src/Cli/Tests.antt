-- ===== src/Cli/Tests.antt =====
-- The program at a small configuration: one target with an ICMP and a TCP probe, and one with none.
use stabsight.Base.{
  ◌≡◌, ◌↔◌, refl, ℕ, ◌<◌, ◌*◌, arith, ℤ, pos, second, Bool, true, false, Option, none, some, [],
  ◌∷◌, Text, codes, text_eq, leb_ℤ, decimal, Float64, to_lower, trim_space, one_of, if◌then◌else◌,
}
use stabsight.Config.Types.{ProbesConfig, Target, Config, new_default_config}
use stabsight.Config.Validate.{
  validate, validate_probes, validate_targets, validate_buckets, known_ip_version, is_blank,
  known_log_level, known_log_format, known_histogram_mode,
}
use stabsight.Config.WellFormed.{WellFormed, Ascending, validate_iff, validate-nan}
use stabsight.Config.Load.{decoded, load, finish_load, apply_document}
use stabsight.Config.Loaded.{Resolved, load-Resolved}
use stabsight.Logging.{new_logger}
use stabsight.Logging.Levels.{level_name, new_logger-validated}
use stabsight.Probes.Trace.{MtrResult, lost_hop}
use stabsight.Diagnostic.{ok}
use stabsight.Telemetry.Provider.{Closable, shutdown_provider, shutdown_server, aggregation_of}
use stabsight.Telemetry.Shutdown.{shut_all, shutdown-once}
use stabsight.Scheduler.Registry.{new_scheduler}
use stabsight.Cli.Registration.{register_targets}
use stabsight.Cli.Registration.Workers.{all_workers}
use stabsight.Cli.Registration.Whole.{register_targets-whole}
use stabsight.Cli.Wiring.{on_result, provider_config, on_result-ok, aggregation_of-Ascending}

abbrev no_probes : ProbesConfig
no_probes = record {
  icmp = none;
  dns = none;
  http = none;
  tcp = none;
  mtr = none;
  speedtest = none;
}

abbrev pub web : Target
web = record {
  name = codes "web";
  host = codes "example.org";
  ip_version = [];
  probes = record no_probes {
    icmp = some (record { interval = pos second; timeout = pos second; count = pos 1 });
    tcp = some (record { interval = pos second; timeout = pos second; port = pos 443 });
  };
}

abbrev pub router : Target
router = record {
  name = codes "router";
  host = codes "10.0.0.1";
  ip_version = codes "ipv4";
  probes = no_probes;
}

abbrev pub settings : Config decimal
settings = record {
  log_level = codes "info";
  log_format = codes "json";
  histogram_mode = codes "explicit";
  histogram_buckets = pos 1000 ∷ pos 2000 ∷ [];
  metrics_addr = codes ":9090";
  otlp_endpoint = codes "collector.example.org:4318";
  targets = web ∷ router ∷ [];
}

-- The settings that Viper resolves for the file of `settings`.
abbrev pub get_string : Text → Text
get_string key =
    if text_eq key (codes "log_level")
    then codes "info"
    else if text_eq key (codes "log_format")
    then codes "json"
    else if text_eq key (codes "histogram_mode")
    then codes "explicit"
    else if text_eq key (codes "metrics_addr")
    then codes ":9090"
    else codes "collector.example.org:4318"

pub accepted : validate decimal settings ≡ none
unfolding validate validate_probes validate_targets validate_buckets known_ip_version is_blank
    known_log_level known_log_format known_histogram_mode text_eq to_lower trim_space one_of
accepted = refl

validate_iff_example : (validate decimal settings ≡ none) ↔ WellFormed decimal settings
validate_iff_example = validate_iff decimal settings

-- A float64 with one more value, which fails every comparison.
abbrev le_nan : Option ℤ → Option ℤ → Bool
le_nan (some a) (some b) = leb_ℤ a b
le_nan _ _ = false

abbrev with_nan : Float64
with_nan = record {
  F = Option ℤ;
  zero_f = some (pos 0);
  one_f = some (pos 1000000000);
  five_percent = some (pos 50000000);
  literal = λ n. some (pos (n * 100000));
  mul = λ a b. none;
  sub = λ a b. none;
  abs = λ a. a;
  le = le_nan;
  seconds = λ d. some d;
}

abbrev plain : Config with_nan
plain = record {
  log_level = codes "info";
  log_format = codes "json";
  histogram_mode = codes "explicit";
  histogram_buckets = [];
  metrics_addr = codes ":9090";
  otlp_endpoint = codes "localhost:4317";
  targets = [];
}

validate-nan_example :
    validate with_nan (record plain { histogram_buckets = none ∷ none ∷ [] }) ≡ none
unfolding validate validate_probes validate_targets validate_buckets known_ip_version is_blank
    known_log_level known_log_format known_histogram_mode text_eq to_lower trim_space one_of
validate-nan_example =
    validate-nan with_nan plain (none ∷ none ∷ []) refl ((λ x. refl), ((λ x. refl), tt))

load-Resolved_example :
    Resolved decimal get_string (web ∷ router ∷ []) (pos 1000 ∷ pos 2000 ∷ []) settings
unfolding load finish_load apply_document new_default_config validate validate_probes
    validate_targets validate_buckets known_ip_version is_blank known_log_level known_log_format
    known_histogram_mode text_eq to_lower trim_space one_of
load-Resolved_example =
    load-Resolved decimal none
      (some (decoded (pos 1000 ∷ pos 2000 ∷ []) (some (web ∷ router ∷ [])))) get_string settings
      refl

new_logger-validated_example :
    let logger = new_logger (codes "info") (codes "json") in
    (to_lower (codes "info") ≡ level_name logger.level) × (logger.warned ≡ false)
new_logger-validated_example = new_logger-validated decimal settings accepted

abbrev unreached : MtrResult
unreached = record {
  target = codes "web";
  hops = lost_hop (pos 1) ∷ lost_hop (pos 2) ∷ [];
  reached_target = false;
}

on_result-ok_example :
    ((on_result decimal (codes "web") unreached).0.diagnosis ≡ ok)
    × ((on_result decimal (codes "web") unreached).1 ≡ none)
on_result-ok_example = on_result-ok decimal (codes "web") unreached refl

literal_positive : (n : ℕ) → 0 < n → decimal.le (decimal.literal n) decimal.zero_f ≡ false
literal_positive n h = ground arith

literal_ordered : (m n : ℕ) → m < n → decimal.le (decimal.literal n) (decimal.literal m) ≡ false
literal_ordered m n h = ground arith

aggregation_of-Ascending_example : Ascending decimal none (pos 1000 ∷ pos 2000 ∷ [])
unfolding aggregation_of provider_config text_eq to_lower trim_space
aggregation_of-Ascending_example =
    aggregation_of-Ascending decimal settings (pos 1000 ∷ pos 2000 ∷ []) accepted
      (λ n h l. literal_positive n h) (λ m n h l. literal_ordered m n h) refl

register_targets-whole_example :
    register_targets (web ∷ router ∷ []) new_scheduler
    ≡ record new_scheduler { workers = all_workers (web ∷ router ∷ []) }
register_targets-whole_example =
    register_targets-whole (web ∷ router ∷ []) (((λ e. cc), tt), (tt, tt))

abbrev open_server : Closable
open_server = record { closed = false; has_inner = true; shutdowns = 0 }

shutdown-once_example :
    (shut_all shutdown_provider (some (codes "timeout") ∷ none ∷ none ∷ []) open_server ≡ (
      record { closed = true; has_inner = true; shutdowns = 1 },
      some (codes "timeout") ∷ none ∷ none ∷ [],
    ))
    × (shut_all shutdown_server (some (codes "timeout") ∷ none ∷ none ∷ []) open_server ≡ (
      record { closed = true; has_inner = true; shutdowns = 1 },
      some (codes "timeout") ∷ none ∷ none ∷ [],
    ))
shutdown-once_example =
    shutdown-once (some (codes "timeout")) (none ∷ none ∷ []) open_server refl refl
