-- ===== src/Config/Loaded.antt =====
-- What a successful Load has resolved.
use stabsight.Base.{◌≡◌, Option, none, some, List, [], ◌∷◌, Text, codes, Float64, arith}
use stabsight.Config.Types.{Target, Config, new_default_config}
use stabsight.Config.Validate.{validate}
use stabsight.Config.Load.{
  FileContent, missing, unreadable, unreadable_again, malformed, decoded, loaded, finish_load,
  apply_document, load_file, load,
}

module _ (f64 : Float64) where
  open f64 use {F}

  -- The targets and the buckets that a file holds; a missing list is empty.
  abbrev pub file_targets : Option (FileContent f64) → List Target
  file_targets (some (decoded buckets (some targets))) = targets
  file_targets _ = []

  abbrev pub file_buckets : Option (FileContent f64) → List F
  file_buckets (some (decoded buckets targets)) = buckets
  file_buckets _ = []

  -- Valid, with the operational settings that Viper resolves, and these targets and buckets.
  pub record Resolved (get_string : Text → Text) (targets : List Target) (buckets : List F)
      (d : Config f64) : Type 0 where
    pub valid : validate f64 d ≡ none
    pub log_level : d.log_level ≡ get_string (codes "log_level")
    pub log_format : d.log_format ≡ get_string (codes "log_format")
    pub histogram_mode : d.histogram_mode ≡ get_string (codes "histogram_mode")
    pub metrics_addr : d.metrics_addr ≡ get_string (codes "metrics_addr")
    pub otlp_endpoint : d.otlp_endpoint ≡ get_string (codes "otlp_endpoint")
    pub file_targets_only : d.targets ≡ targets
    pub file_buckets_only : d.histogram_buckets ≡ buckets

  finish_load-Resolved :
      (get_string : Text → Text) (c d : Config f64)
      → finish_load f64 get_string c ≡ loaded d
      → Resolved get_string c.targets c.histogram_buckets d
  unfolding finish_load
  finish_load-Resolved get_string c d e = ground arith

  load_file-Resolved :
      (file : Option (FileContent f64)) (get_string : Text → Text) (d : Config f64)
      → load_file f64 get_string file ≡ loaded d
      → Resolved get_string (file_targets file) (file_buckets file) d
  unfolding apply_document new_default_config
  load_file-Resolved none get_string d e = finish_load-Resolved get_string _ d e
  load_file-Resolved (some (decoded [] none)) get_string d e = finish_load-Resolved get_string _ d e
  load_file-Resolved (some (decoded [] (some ts))) get_string d e =
      finish_load-Resolved get_string _ d e
  load_file-Resolved (some (decoded (b ∷ bs) none)) get_string d e =
      finish_load-Resolved get_string _ d e
  load_file-Resolved (some (decoded (b ∷ bs) (some ts))) get_string d e =
      finish_load-Resolved get_string _ d e
  load_file-Resolved (some missing) get_string d e = cc
  load_file-Resolved (some unreadable) get_string d e = cc
  load_file-Resolved (some unreadable_again) get_string d e = cc
  load_file-Resolved (some malformed) get_string d e = cc

  -- A loaded configuration is valid, its operational settings are those that Viper resolves from
  -- flags, environment and file, and its targets and buckets are those of the file alone, none
  -- without a file.
  pub load-Resolved :
      (bound : Option Text) (file : Option (FileContent f64)) (get_string : Text → Text)
      (d : Config f64)
      → load f64 bound file get_string ≡ loaded d
      → Resolved get_string (file_targets file) (file_buckets file) d
  unfolding load
  load-Resolved none file get_string d e = load_file-Resolved file get_string d e
  load-Resolved (some key) file get_string d e = cc
