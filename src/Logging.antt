-- ===== src/Logging.antt =====
-- internal/logging/logger.go: the level and the format of the logger.
-- zerolog itself is not modelled: a logger is its level, whether it writes to a console, and
-- whether New has warned about its level.
pub mod Levels
use stabsight.Base.{
  Bool, true, false, Option, none, some, List, [], ◌∷◌, Text, codes, one_of, text_eq, to_lower,
  trim_space, if◌then◌else◌,
}

pub data Level : Type 0 where
  debug info warn error : Level

-- ParseLevel; `none` is the error, which comes with InfoLevel.
unfoldable pub parse_level : Text → Option Level
parse_level s =
    let level = to_lower (trim_space s) in
    if text_eq level (codes "debug")
    then some debug
    else if one_of level (codes "info" ∷ [] ∷ [])
    then some info
    else if one_of level (codes "warn" ∷ codes "warning" ∷ [])
    then some warn
    else if text_eq level (codes "error")
    then some error
    else none

pub record Logger : Type 0 where
  pub level : Level
  pub console : Bool
  pub warned : Bool

abbrev pub level_or_info : Option Level → Level
level_or_info none = info
level_or_info (some l) = l

abbrev pub is_unknown : Option Level → Bool
is_unknown none = true
is_unknown (some _) = false

-- New
unfoldable pub new_logger : Text → Text → Logger
new_logger level format = record {
  level = level_or_info (parse_level level);
  console = one_of (to_lower (trim_space format)) (codes "common" ∷ codes "console" ∷ []);
  warned = is_unknown (parse_level level);
}

-- The global state: log.Logger, zerolog's global level, and where the standard library logs to.
pub record Global : Type 0 where
  pub logger : Logger
  pub global_level : Level
  pub std_output : Option Logger

-- Init and Get
unfoldable pub init : Text → Text → Global
init level format =
    let logger = new_logger level format in
    record { logger = logger; global_level = logger.level; std_output = some logger }

unfoldable pub get : Global → Logger
get g = g.logger
