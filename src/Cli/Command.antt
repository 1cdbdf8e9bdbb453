-- ===== src/Cli/Command.antt =====
-- internal/cli/root.go, version.go and cmd/main.go: the flags of the root command, the text of the
-- version command, and the exit code. Cobra, which parses the command line, is outside the model.
use stabsight.Base.{ℕ, Option, none, some, [], ◌∷◌, ◌++◌, Text, codes, text_eq, if◌then◌else◌}

-- BuildInfo
pub record BuildInfo : Type 0 where
  pub version : Text
  pub commit : Text
  pub date : Text

-- GlobalFlags
pub record GlobalFlags : Type 0 where
  pub config_file : Text
  pub log_level : Text
  pub log_format : Text
  pub otlp_endpoint : Text
  pub metrics_addr : Text

-- The persistent flags of NewRootCmd, with their defaults.
unfoldable pub default_flags : GlobalFlags
default_flags = record {
  config_file = codes "config.yaml";
  log_level = codes "info";
  log_format = codes "json";
  otlp_endpoint = codes "localhost:4317";
  metrics_addr = codes ":9090";
}

-- The value of a persistent flag; `none` is a flag that the command does not have.
unfoldable pub lookup_flag : GlobalFlags → Text → Option Text
lookup_flag g flag =
    if text_eq flag (codes "config")
    then some g.config_file
    else if text_eq flag (codes "log-level")
    then some g.log_level
    else if text_eq flag (codes "log-format")
    then some g.log_format
    else if text_eq flag (codes "otlp-endpoint")
    then some g.otlp_endpoint
    else if text_eq flag (codes "metrics-addr")
    then some g.metrics_addr
    else none

-- The version, commit and date of a build without linker flags
unfoldable pub default_build : BuildInfo
default_build = record { version = codes "dev"; commit = codes "none"; date = codes "unknown" }

abbrev pub or_text : Text → Text → Text
or_text s default_text = if text_eq s [] then default_text else s

-- What the version command prints
unfoldable pub version_text : BuildInfo → Text
version_text info =
    codes "stabsight version "
    ++ (or_text info.version (codes "dev")
        ++ (codes " (commit: "
            ++ (or_text info.commit (codes "none")
                ++ (codes ", date: " ++ (or_text info.date (codes "unknown") ++ b')' ∷ 10 ∷ [])))))

-- Execute: what it writes to the standard error, and the exit code.
unfoldable pub execute : (err : Option Text) → Text × ℕ
execute none = ([], 0)
execute (some e) = (codes "Error: " ++ (e ++ 10 ∷ []), 1)
