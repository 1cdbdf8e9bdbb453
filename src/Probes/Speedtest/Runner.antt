-- ===== src/Probes/Speedtest/Runner.antt =====
-- What a speedtest measures and records.
use stabsight.Base.{
  ◌≡◌, ◌≢◌, refl, subst, ◌&&◌, if◌then◌else◌, ℤ, true, none, some, List, [], ◌∷◌, Text, Float64,
  arith, itoa, atoi, atoi-itoa, IsInt64,
}
use stabsight.Telemetry.Metrics.{speedtest_gauge, record_speedtest}
use stabsight.Probes.Check.Samples.{values_of}
use stabsight.Probes.Speedtest.{
  SpeedtestProbe, Server, SpeedtestClient, named_server, choose_server, measure_server,
  run_speedtest, execute_speedtest, trigger_measurement,
}

module _ (f64 : Float64) where
  open f64 use {F, literal, mul}

  itoa-ne-nil : (z : ℤ) → IsInt64 z → itoa z ≢ []
  unfolding atoi
  itoa-ne-nil z r e = nil-ne (subst (λ t. atoi t ≡ some z) e (atoi-itoa z r))
    where
      nil-ne : none ≡ some z → ⊥
      nil-ne h = cc

  named_server-itoa :
      (c : SpeedtestClient f64) (z : ℤ) (s : Server f64) (ss : List (Server f64)) (t : Text)
      → t ≢ []
      → atoi t ≡ some z
      → c.find_by_id z ≡ s ∷ ss
      → named_server f64 c t ≡ some s
  unfolding named_server
  named_server-itoa c z s ss [] n a f = absurd (n refl)
  named_server-itoa c z s ss (d ∷ ds) n a f = rw a (rw f)

  -- A measurement with a server id that is the decimal text of an int64, for which the client finds
  -- servers, is made on the first of these. It succeeds if that server passes its three tests, and
  -- then records eight times its speeds, the download first; if not, nothing is recorded.
  pub run_speedtest-itoa :
      (c : SpeedtestClient f64) (p : SpeedtestProbe) (z : ℤ) (s : Server f64)
      (ss : List (Server f64))
      → IsInt64 z
      → p.enabled ≡ true
      → p.server_id ≡ itoa z
      → c.fetch_ok ≡ true
      → c.find_by_id z ≡ s ∷ ss
      → let (samples, ok) = trigger_measurement f64 true true p (run_speedtest f64 c p.server_id) in
        (ok ≡ s.ping_ok && (s.download_ok && s.upload_ok))
        × (values_of f64 speedtest_gauge samples ≡ (
            if s.ping_ok && (s.download_ok && s.upload_ok)
            then mul s.download_speed (literal 80000) ∷ mul s.upload_speed (literal 80000) ∷ []
            else []))
  unfolding trigger_measurement run_speedtest choose_server measure_server execute_speedtest
      record_speedtest
  run_speedtest-itoa c p z s ss r on e ok f =
      let n : named_server f64 c p.server_id ≡ some s =
        named_server-itoa c z s ss p.server_id (rw e (itoa-ne-nil z r)) (rw e (atoi-itoa z r)) f in
      (ground arith, ground arith)
