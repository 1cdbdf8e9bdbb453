-- ===== src/Probes/Speedtest/Tests.antt =====
-- A speedtest against the server that the configuration names.
use stabsight.Base.{
  ◌≡◌, refl, ℤ, pos, ◌*◌, ◌==◌, true, none, List, [], ◌∷◌, codes, second, decimal, itoa, arith,
  if◌then◌else◌,
}
use stabsight.Telemetry.Metrics.{speedtest_gauge}
use stabsight.Probes.Check.Samples.{values_of}
use stabsight.Probes.Speedtest.{
  SpeedtestProbe, Server, SpeedtestClient, run_speedtest, trigger_measurement,
}
use stabsight.Probes.Speedtest.Runner.{run_speedtest-itoa}

-- Speeds of 12.5 and 2.5 million bytes per second, in billionths.
abbrev near : Server decimal
near = record {
  id = pos 1234;
  ping_ok = true;
  download_ok = true;
  upload_ok = true;
  download_speed = pos (12500000 * 1000000000);
  upload_speed = pos (2500000 * 1000000000);
}

abbrev find : ℤ → List (Server decimal)
find (pos n) = if n == 1234 then near ∷ [] else []
find _ = []

abbrev client : SpeedtestClient decimal
client = record { fetch_ok = true; find_by_id = find; find_any = none }

abbrev probe : SpeedtestProbe
probe = record {
  name = codes "uplink/speedtest";
  target_name = codes "uplink";
  interval = pos (1800 * second);
  timeout = pos (60 * second);
  server_id = codes "1234";
  enabled = true;
}

run_speedtest-itoa_example :
    let (samples, ok) =
      trigger_measurement decimal true true probe (run_speedtest decimal client (codes "1234")) in
    (ok ≡ true)
    × (values_of decimal speedtest_gauge samples
        ≡ pos (100000000 * 1000000000) ∷ pos (20000000 * 1000000000) ∷ [])
unfolding itoa
run_speedtest-itoa_example =
    run_speedtest-itoa decimal client probe (pos 1234) near [] (omega arith) refl refl refl refl
