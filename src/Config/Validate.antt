-- ===== src/Config/Validate.antt =====
-- internal/config/config.go: Validate and validateProbes. An error is named by a constructor with
-- the index or the target that its text shows.
use stabsight.Base.{
  ℕ, suc, ℤ, pos, ltb_ℤ, leb_ℤ, Bool, true, false, not, ◌||◌, Option, none, some, List, [], ◌∷◌,
  Text, codes, text_eq, one_of, to_lower, trim_space, Float64,
}
use stabsight.Config.Types.{
  IcmpProbeConfig, DnsProbeConfig, HttpProbeConfig, TcpProbeConfig, MtrProbeConfig,
  SpeedtestProbeConfig, ProbesConfig, Target, Config,
}

pub data Kind : Type 0 where
  icmp dns http tcp mtr speedtest : Kind

pub data ConfigError : Type 0 where
  invalid_log_level invalid_log_format invalid_histogram_mode : Text → ConfigError
  bucket_not_positive : (index : ℕ) → ConfigError
  buckets_not_increasing : (index : ℕ) → ConfigError
  empty_metrics_addr empty_otlp_endpoint : ConfigError
  empty_name : (index : ℕ) → ConfigError
  empty_host : (target : Text) → ConfigError
  invalid_ip_version : (target version : Text) → ConfigError
  bad_interval bad_timeout : (target : Text) → Kind → ConfigError
  invalid_port : (target : Text) → ℤ → ConfigError

-- The first error of two checks made one after the other: `if err := …; err != nil { return err }`.
infixr 5 ◌orelse◌
abbrev pub ◌orelse◌ : Option ConfigError → Option ConfigError → Option ConfigError
none orelse e = e
some e orelse f = some e

abbrev pub fail_if : Bool → ConfigError → Option ConfigError
fail_if true e = some e
fail_if false e = none

-- The two guards that every probe has.
abbrev pub check_times : Text → Kind → ℤ → ℤ → Option ConfigError
check_times target kind interval timeout =
    fail_if (leb_ℤ interval (pos 0)) (bad_interval target kind)
    orelse fail_if (leb_ℤ timeout (pos 0)) (bad_timeout target kind)

abbrev pub validate_icmp : Text → Option IcmpProbeConfig → Option ConfigError
validate_icmp t none = none
validate_icmp t (some p) = check_times t icmp p.interval p.timeout

abbrev pub validate_dns : Text → Option DnsProbeConfig → Option ConfigError
validate_dns t none = none
validate_dns t (some p) = check_times t dns p.interval p.timeout

abbrev pub validate_http : Text → Option HttpProbeConfig → Option ConfigError
validate_http t none = none
validate_http t (some p) = check_times t http p.interval p.timeout

abbrev pub validate_tcp : Text → Option TcpProbeConfig → Option ConfigError
validate_tcp t none = none
validate_tcp t (some p) =
    check_times t tcp p.interval p.timeout
    orelse fail_if (leb_ℤ p.port (pos 0) || ltb_ℤ (pos 65535) p.port) (invalid_port t p.port)

abbrev pub validate_mtr : Text → Option MtrProbeConfig → Option ConfigError
validate_mtr t none = none
validate_mtr t (some p) = check_times t mtr p.interval p.timeout

abbrev pub validate_speedtest : Text → Option SpeedtestProbeConfig → Option ConfigError
validate_speedtest t none = none
validate_speedtest t (some p) = check_times t speedtest p.interval p.timeout

unfoldable pub validate_probes : Text → ProbesConfig → Option ConfigError
validate_probes t p =
    validate_icmp t p.icmp
    orelse validate_dns t p.dns
    orelse validate_http t p.http
    orelse validate_tcp t p.tcp
    orelse validate_mtr t p.mtr
    orelse validate_speedtest t p.speedtest

-- `target.IPVersion != "" && target.IPVersion != "ipv4" && target.IPVersion != "ipv6"`
unfoldable pub known_ip_version : Text → Bool
known_ip_version v = one_of v ([] ∷ codes "ipv4" ∷ codes "ipv6" ∷ [])

-- `strings.TrimSpace(s) == ""`
unfoldable pub is_blank : Text → Bool
is_blank s = text_eq (trim_space s) []

-- The loop over the targets, from index i.
unfoldable pub validate_targets : ℕ → List Target → Option ConfigError
validate_targets i [] = none
validate_targets i (t ∷ ts) =
    fail_if (is_blank t.name) (empty_name i)
    orelse fail_if (is_blank t.host) (empty_host t.name)
    orelse fail_if (not (known_ip_version t.ip_version)) (invalid_ip_version t.name t.ip_version)
    orelse validate_probes t.name t.probes
    orelse validate_targets (suc i) ts

-- The three switches on operational settings.
unfoldable pub known_log_level : Text → Bool
known_log_level s =
    one_of (to_lower s) (codes "debug" ∷ codes "info" ∷ codes "warn" ∷ codes "error" ∷ [])

unfoldable pub known_log_format : Text → Bool
known_log_format s =
    one_of (to_lower (trim_space s)) (codes "json" ∷ codes "common" ∷ codes "console" ∷ [] ∷ [])

unfoldable pub known_histogram_mode : Text → Bool
known_histogram_mode s =
    one_of (to_lower (trim_space s)) (codes "explicit" ∷ codes "exponential" ∷ [] ∷ [])

module _ (f64 : Float64) where
  open f64 use {F, zero_f, le}

  -- The loop over the buckets, from index i; `previous` is the bucket at index i - 1.
  unfoldable pub validate_buckets : ℕ → Option F → List F → Option ConfigError
  validate_buckets i previous [] = none
  validate_buckets i none (b ∷ bs) =
      fail_if (le b zero_f) (bucket_not_positive i) orelse validate_buckets (suc i) (some b) bs
  validate_buckets i (some a) (b ∷ bs) =
      fail_if (le b zero_f) (bucket_not_positive i)
      orelse fail_if (le b a) (buckets_not_increasing i)
      orelse validate_buckets (suc i) (some b) bs

  -- Config.Validate
  unfoldable pub validate : Config f64 → Option ConfigError
  validate c =
      fail_if (not (known_log_level c.log_level)) (invalid_log_level c.log_level)
      orelse fail_if (not (known_log_format c.log_format)) (invalid_log_format c.log_format)
      orelse fail_if (not (known_histogram_mode c.histogram_mode))
          (invalid_histogram_mode c.histogram_mode)
      orelse validate_buckets 0 none c.histogram_buckets
      orelse fail_if (is_blank c.metrics_addr) empty_metrics_addr
      orelse fail_if (is_blank c.otlp_endpoint) empty_otlp_endpoint
      orelse validate_targets 0 c.targets
