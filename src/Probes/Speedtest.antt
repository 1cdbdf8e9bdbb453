-- ===== src/Probes/Speedtest.antt =====
-- internal/probes/speedtest.go: SpeedtestProbe and RealSpeedtestRunner. The client of speedtest-go is
-- outside the model: Run is given what its calls return. A measurement is given the two rates that
-- Run returned, `none` for an error.
pub mod Runner
mod Tests
use stabsight.Base.{
  atoi, ◌>>=◌, not, ℤ, pos, is_pos, minute, second, Bool, true, false, ◌*◌, Option, none, some,
  List, [], ◌∷◌, ◌++◌, Text, codes, Float64, if◌then◌else◌,
}
use stabsight.Config.Types.{SpeedtestProbeConfig}
use stabsight.Scheduler.Registry.{ProbeWorker}
use stabsight.Telemetry.Metrics.{Sample, record_speedtest}

-- SpeedtestProbe, less its coordinator and its runner
pub record SpeedtestProbe : Type 0 where
  pub name : Text
  pub target_name : Text
  pub interval : ℤ
  pub timeout : ℤ
  pub server_id : Text
  pub enabled : Bool

abbrev pub speedtest_interval : Option SpeedtestProbeConfig → ℤ
speedtest_interval none = pos (30 * minute)
speedtest_interval (some c) = if is_pos c.interval then c.interval else pos (30 * minute)

abbrev pub speedtest_timeout : Option SpeedtestProbeConfig → ℤ
speedtest_timeout none = pos (60 * second)
speedtest_timeout (some c) = if is_pos c.timeout then c.timeout else pos (60 * second)

abbrev pub speedtest_server : Option SpeedtestProbeConfig → Text
speedtest_server none = []
speedtest_server (some c) = c.server_id

-- NewSpeedtestProbe
unfoldable pub new_speedtest_probe : Text → Option SpeedtestProbeConfig → Bool → SpeedtestProbe
new_speedtest_probe target_name cfg enabled = record {
  name = target_name ++ codes "/speedtest";
  target_name = target_name;
  interval = speedtest_interval cfg;
  timeout = speedtest_timeout cfg;
  server_id = speedtest_server cfg;
  enabled = enabled;
}

unfoldable pub speedtest_worker : SpeedtestProbe → ProbeWorker
speedtest_worker p = record {
  name = p.name;
  target_name = p.target_name;
  probe_type = codes "speedtest";
  is_exclusive = true;
}

-- executeSpeedtest: the samples, and whether it returned nil.
unfoldable pub execute_speedtest :
    (f64 : Float64) → SpeedtestProbe → Option (f64.F × f64.F) → List (Sample f64) × Bool
execute_speedtest f64 p none = ([], false)
execute_speedtest f64 p (some (download, upload)) = (
  if p.enabled
      then record_speedtest f64 download p.target_name (codes "download") []
        ∷ record_speedtest f64 upload p.target_name (codes "upload") []
        ∷ []
      else [],
  true,
)

-- triggerMeasurement: with a coordinator the measurement runs under ExecuteExclusive, which may fail
-- before it calls it; `admitted` is whether it is called. The result is whether the error is nil.
unfoldable pub trigger_measurement :
    (f64 : Float64)
    → (has_coordinator admitted : Bool) → SpeedtestProbe
    → Option (f64.F × f64.F)
    → List (Sample f64) × Bool
trigger_measurement f64 false admitted p rates = execute_speedtest f64 p rates
trigger_measurement f64 true false p rates = ([], false)
trigger_measurement f64 true true p rates = execute_speedtest f64 p rates

-- A server of github.com/showwin/speedtest-go: whether its three tests succeed, and the two speeds,
-- in bytes per second, that it then has.
pub record Server (f64 : Float64) : Type 0 where
  pub id : ℤ
  pub ping_ok : Bool
  pub download_ok : Bool
  pub upload_ok : Bool
  pub download_speed : f64.F
  pub upload_speed : f64.F

-- What the client of speedtest-go returns: whether FetchServers succeeds, the servers that FindServer
-- finds for an id (its error is dropped), and those that it finds for none, if it has no error.
pub record SpeedtestClient (f64 : Float64) : Type 0 where
  pub fetch_ok : Bool
  pub find_by_id : ℤ → List (Server f64)
  pub find_any : Option (List (Server f64))

module _ (f64 : Float64) where
  open f64 use {F, literal, mul}

  abbrev first_of : List (Server f64) → Option (Server f64)
  first_of [] = none
  first_of (s ∷ ss) = some s

  -- The server that the configured id names; `none` leaves targetServer nil.
  unfoldable pub named_server : SpeedtestClient f64 → Text → Option (Server f64)
  named_server c [] = none
  named_server c (d ∷ ds) = atoi (d ∷ ds) >>= λ id. first_of (c.find_by_id id)

  abbrev nearest_server : SpeedtestClient f64 → Option (Server f64)
  nearest_server c = c.find_any >>= λ ss. first_of ss

  unfoldable pub choose_server : SpeedtestClient f64 → Text → Option (Server f64)
  unfolding named_server
  choose_server c server_id = elim (named_server c server_id) [
    | some s ↦ some s
    | none ↦ nearest_server c
  ]

  -- The three tests, and the speeds in bits per second.
  unfoldable pub measure_server : Server f64 → Option (F × F)
  measure_server s =
      if not s.ping_ok
      then none
      else if not s.download_ok
      then none
      else if not s.upload_ok
      then none
      else some (mul s.download_speed (literal 80000), mul s.upload_speed (literal 80000))

  -- RealSpeedtestRunner.Run; `none` is an error.
  unfoldable pub run_speedtest : SpeedtestClient f64 → Text → Option (F × F)
  run_speedtest c server_id =
      if c.fetch_ok then (choose_server c server_id >>= measure_server) else none
