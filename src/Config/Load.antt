-- ===== src/Config/Load.antt =====
-- internal/config/config.go: NewViper, BindFlags and Load. Viper, the YAML decoder and the file
-- system are outside the model: Load is given what each of their calls returns.
use stabsight.Base.{
  Bool, ◌&&◌, Option, none, some, List, [], ◌∷◌, Text, codes, Float64, if◌then◌else◌,
}
use stabsight.Config.Types.{
  Target, Config, new_default_config, default_log_level, default_log_format, default_histogram_mode,
  default_metrics_addr, default_otlp_endpoint,
}
use stabsight.Config.Validate.{ConfigError, validate}

-- The keys and defaults that NewViper sets.
abbrev pub viper_defaults : List (Text × Text)
viper_defaults =
    (codes "log_level", default_log_level)
    ∷ (codes "log_format", default_log_format)
    ∷ (codes "histogram_mode", default_histogram_mode)
    ∷ (codes "metrics_addr", default_metrics_addr)
    ∷ (codes "otlp_endpoint", default_otlp_endpoint)
    ∷ []

-- flagBindings
abbrev pub flag_bindings : List (Text × Text)
flag_bindings =
    (codes "log_level", codes "log-level")
    ∷ (codes "log_format", codes "log-format")
    ∷ (codes "histogram_mode", codes "histogram-mode")
    ∷ (codes "metrics_addr", codes "metrics-addr")
    ∷ (codes "otlp_endpoint", codes "otlp-endpoint")
    ∷ []

-- The loop of BindFlags over the bindings, in the order that the map is walked: `is_defined` is
-- whether the flag set has the flag, `bind_fails` whether BindPFlag returns an error.
unfoldable pub bind_flags : (is_defined bind_fails : Text → Bool) → List (Text × Text) → Option Text
bind_flags is_defined bind_fails [] = none
bind_flags is_defined bind_fails ((key, flag) ∷ rest) =
    if is_defined flag && bind_fails key then some key else bind_flags is_defined bind_fails rest

pub data LoadError : Type 0 where
  bind_failed : (key : Text) → LoadError
  file_not_found file_unreadable file_unreadable_again yaml_invalid : LoadError
  validation_failed : ConfigError → LoadError

-- What ReadInConfig, os.ReadFile and yaml.Unmarshal return for the configuration file.
pub data FileContent (f64 : Float64) : Type 0 where
  missing unreadable unreadable_again malformed : FileContent f64
  decoded : (buckets : List f64.F) (targets : Option (List Target)) → FileContent f64

pub data LoadResult (f64 : Float64) : Type 0 where
  loaded : Config f64 → LoadResult f64
  load_failed : LoadError → LoadResult f64

module _ (f64 : Float64) where
  open f64 use {F}

  -- The settings that Viper resolves, and the validation.
  unfoldable pub finish_load : (get_string : Text → Text) → Config f64 → LoadResult f64
  finish_load get_string c =
      let c' : Config f64 = record c {
        log_level = get_string (codes "log_level");
        log_format = get_string (codes "log_format");
        histogram_mode = get_string (codes "histogram_mode");
        metrics_addr = get_string (codes "metrics_addr");
        otlp_endpoint = get_string (codes "otlp_endpoint");
      } in
      elim (validate f64 c') [ none ↦ loaded c' | some e ↦ load_failed (validation_failed e) ]

  -- The settings that are read from the YAML file only.
  unfoldable pub apply_document : List F → Option (List Target) → Config f64 → Config f64
  apply_document buckets targets c = record c {
    histogram_buckets = elim buckets [ [] ↦ c.histogram_buckets | b ∷ bs ↦ b ∷ bs ];
    targets = elim targets [ none ↦ c.targets | some ts ↦ ts ];
  }

  abbrev pub load_file : (get_string : Text → Text) → Option (FileContent f64) → LoadResult f64
  load_file get_string none = finish_load get_string (new_default_config f64)
  load_file get_string (some missing) = load_failed file_not_found
  load_file get_string (some unreadable) = load_failed file_unreadable
  load_file get_string (some unreadable_again) = load_failed file_unreadable_again
  load_file get_string (some malformed) = load_failed yaml_invalid
  load_file get_string (some (decoded buckets targets)) =
      finish_load get_string (apply_document buckets targets (new_default_config f64))

  -- Load: `bound` is the result of BindFlags, `file` is `none` if no file is named.
  unfoldable pub load :
      (bound : Option Text) (file : Option (FileContent f64)) (get_string : Text → Text)
      → LoadResult f64
  load (some key) file get_string = load_failed (bind_failed key)
  load none file get_string = load_file get_string file

  -- LoadFromFile: a Viper without flags; `file` is `none` if the path is empty.
  unfoldable pub load_from_file :
      (file : Option (FileContent f64)) (get_string : Text → Text) → LoadResult f64
  load_from_file file get_string = load none file get_string
